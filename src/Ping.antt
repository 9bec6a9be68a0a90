-- ===== src/Ping.antt =====
-- Host::ping of host.cpp, as a state machine over the frames that its socket hands out. The other
-- threads of the host (its demuxer above all) work on the same `Host` between two frames. The pause
-- between two pings and the clock are not modelled; Statistics gets the times as an argument.
pub mod Answers
pub mod Rounds
pub mod Whole
pub mod Opening
pub mod Statistics
pub mod Report
use network_simulation.Common.{
  ℕ, zero, suc, ◌+◌, ◌-◌, ◌%◌, ◌^◌, Bool, true, false, Option, none, some, List, [], ◌∷◌, Run, ok,
  ◌>>=◌, if◌then◌else◌, ◌==◌,
}
use network_simulation.Addressing.{is_broadcast, in_subnet}
use network_simulation.L3.{
  Icmp, Ip, get_mac, encap_icmp, icmp_echo_request, icmp_echo_reply, ip_protocol_icmp,
}
use network_simulation.Pdu.{Mpdu, open_icmp}
use network_simulation.Host.{
  Host, send_request_arp, send_mpdu, frame_for, packet_to, process_icmp_message,
}
use network_simulation.Host.Ports.{create_socket, delete_socket}

-- Whether the loop waits on the socket, or has been left.
pub data PingPhase : Type 0 where
  waiting finished : PingPhase

-- The local variables of `ping`; `check_count` is an int as the 32 bits that it has.
pub record Pinger : Type 0 where
  pub host : Host
  pub destination_mac : List ℕ
  pub port : ℕ
  pub ping_to_send : Icmp
  pub ip_to_send : Ip
  pub transmission_attempts : ℕ
  pub receptions : ℕ
  pub check_count : ℕ
  pub phase : PingPhase

-- `for (int i = 0; i < n; i++) payload.push_back(first + i);` on bytes.
count_up : ℕ → ℕ → List ℕ
count_up zero first = []
count_up (suc n) first = first % 2 ^ 8 ∷ count_up n (suc first)

unfoldable pub fill_ping_payload : Icmp → Icmp
unfolding count_up
fill_ping_payload ping_to_send = record ping_to_send {
  payload = 0xB5 ∷ 0x32 ∷ 0x05 ∷ 0 ∷ 0 ∷ 0 ∷ 0 ∷ 0 ∷ count_up 40 16;
}

-- `while (true)` up to `get_frame`: the next request.
unfoldable pub send_ping : Pinger → Pinger
send_ping p =
    let numbered : Icmp = record (p.ping_to_send) {
      sequence_number = (p.ping_to_send.sequence_number + 1) % 2 ^ 16;
    } in
    let ping_to_send = fill_ping_payload numbered in
    let ip_to_send = encap_icmp ping_to_send p.ip_to_send in
    record p {
      host = send_mpdu (frame_for p.host.mac p.destination_mac ip_to_send) p.host;
      ping_to_send = ping_to_send;
      ip_to_send = ip_to_send;
      transmission_attempts = p.transmission_attempts + 1;
      check_count = (p.check_count + (2 ^ 32 - 1)) % 2 ^ 32;
    }

-- What `ping` reaches before it waits on its socket: the loop that polls the cache for the MAC, or
-- the search of `create_socket` that has not ended, or the first request.
pub data PingStart : Type 0 where
  resolving : Host → PingStart
  searching : PingStart
  pinging : Pinger → PingStart

-- From the `ICMP ping_to_send` on. `blank` has the indeterminate values, `rand` is what `rand()`
-- returns.
unfoldable pub start_ping : ℕ → Icmp → ℕ → ℕ → ℕ → List ℕ → Host → PingStart
unfolding send_ping
start_ping fuel blank rand destination_ip count destination_mac h =
    elim (create_socket fuel 7 ip_protocol_icmp h) [
      | none ↦ PingStart.searching
      | some (icmp_socket, h') ↦ PingStart.pinging (
          send_ping (record {
            host = h';
            destination_mac = destination_mac;
            port = icmp_socket.port;
            ping_to_send = record blank {
              icmp_type = icmp_echo_request;
              identifier = rand % 65536;
              sequence_number = 0;
              payload = [];
            };
            ip_to_send = packet_to h.ip destination_ip;
            transmission_attempts = 0;
            receptions = 0;
            check_count = count;
            phase = PingPhase.waiting;
          }))
    ]

-- `while (is_broadcast(cache.get_mac(destination_ip)))`, one look at the cache.
unfoldable pub poll_cache : ℕ → Icmp → ℕ → ℕ → ℕ → Host → Run PingStart
unfolding start_ping
poll_cache fuel blank rand destination_ip count h = do
  missing ← is_broadcast (get_mac h.cache destination_ip)
  ok (
      if missing
      then PingStart.resolving h
      else start_ping fuel blank rand destination_ip count (get_mac h.cache destination_ip) h)

unfoldable pub ping : ℕ → Icmp → ℕ → ℕ → ℕ → Host → Run PingStart
unfolding start_ping poll_cache
ping fuel blank rand destination_ip count h =
    if in_subnet h.ip destination_ip h.netmask
    then (do
      missing ← is_broadcast (get_mac h.cache destination_ip)
      if missing
          then (do
            h' ← send_request_arp destination_ip h
            poll_cache fuel blank rand destination_ip count h')
          else ok
              (start_ping fuel blank rand destination_ip count (get_mac h.cache destination_ip) h))
    else ok (start_ping fuel blank rand destination_ip count h.router_mac h)

-- A reply ends the wait, with whatever identifier; then the loop is left or goes on.
unfoldable pub on_reply : Icmp → Pinger → Pinger
unfolding send_ping
on_reply rx_ping p =
    let counted : Pinger = record p {
      receptions =
          if rx_ping.identifier == p.ping_to_send.identifier
          then p.receptions + 1
          else p.receptions;
    } in
    if p.check_count == 0
    then record counted { host = delete_socket p.port p.host; phase = PingPhase.finished }
    else send_ping counted

-- One round of the `do … while (rx_ping.type != ICMP_ECHO_REPLY)`, up to the next `get_frame`.
unfoldable pub ping_step : Mpdu → Pinger → Run Pinger
unfolding on_reply
ping_step rx_frame p = do
  (rx_ip, rx_ping) ← open_icmp rx_frame
  if rx_ping.icmp_type == icmp_echo_request
      then (do h ← process_icmp_message rx_frame p.host; ok (record p { host = h }))
      else if rx_ping.icmp_type == icmp_echo_reply
      then ok (on_reply rx_ping p)
      else ok p
