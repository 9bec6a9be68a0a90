-- ===== src/Program/Pings.antt =====
-- `./test ping`: the memory in which Bob's host is made decides where his requests go.
use mathlib.Core.Path.{subst}
use network_simulation.Common.{
  Run, ◌>>=◌, ◌==◌, int_max, codes, ℕ, ◌%◌, ◌^◌, ◌<◌, ◌≡◌, refl, ◌∙◌, ◌⊎◌, inl, inr, Bool-cases,
  true, false, some, none, List, [], ◌∷◌, ◌++◌, ok, fault, arith,
}
use network_simulation.Addressing.{
  create_uniform_mac, create_broadcast_mac, create_ip, in_subnet, is_broadcast_ip,
}
use network_simulation.Addressing.Macs.{mac_eq}
use network_simulation.L3.{Icmp, ip_protocol_icmp, icmp_echo_request}
use network_simulation.L3.Cache.{known}
use network_simulation.Pdu.{Mpdu, new_socket, set_destination_mac}
use network_simulation.Host.{Host, new_host, has_protocol, frame_for, packet_to, send_mpdu}
use network_simulation.Host.Ports.{create_socket-first}
use network_simulation.Host.Asked.{Asked}
use network_simulation.Ping.{Pinger, PingPhase, PingStart, send_ping, start_ping, ping, poll_cache}
use network_simulation.Ping.Rounds.{Rounds}
use network_simulation.Ping.Opening.{ping_completes}
use network_simulation.Capture.{get_frame_details}
use network_simulation.Addressing.Text.{mac_to_string}
use network_simulation.DataLinks.{
  EthernetLink, EthernetWire, Plug, Side, connect, new_link, transmit,
}
use network_simulation.Gateway
use network_simulation.Gateway.{Gateway}
use network_simulation.Program.Requests.{request_stops_gateway}
use network_simulation.Drivers
use network_simulation.Drivers.Acquires.{Acquires}
use network_simulation.Program.{threads, ping_thread, TestKind, test_network, alice_ip, bob_ip}
use network_simulation.Program.Addresses.{DhcpMemory, IsFresh, IsReady, alice_ready, bob_ready}

-- The first request to an address goes to the MAC that `ping` has chosen.
start_ping_lem :
    (fuel : ℕ) (blank : Icmp) (rand ip count : ℕ) (mac : List ℕ) (h : Host)
    → h.open_ports ≡ []
    → (p : Pinger) × (f : Mpdu) × (start_ping fuel blank rand ip count mac h ≡ PingStart.pinging p)
      × (p.host.sent ≡ h.sent ++ f ∷ [])
      × (f.destination_mac ≡ mac)
unfolding start_ping send_ping
start_ping_lem fuel blank rand ip count mac h closed =
    let p : Pinger = record {
      host = record h { open_ports = new_socket 7 ip_protocol_icmp ∷ [] };
      destination_mac = mac;
      port = 7;
      ping_to_send = record blank {
        icmp_type = icmp_echo_request;
        identifier = rand % 65536;
        sequence_number = 0;
        payload = [];
      };
      ip_to_send = packet_to h.ip ip;
      transmission_attempts = 0;
      receptions = 0;
      check_count = count;
      phase = PingPhase.waiting;
    } in
    (
      send_ping p,
      frame_for h.mac mac (send_ping p).ip_to_send,
      unfold new_socket in
          rw (create_socket-first fuel 7 ip_protocol_icmp h closed, start_ping) refl,
      unfold send_mpdu in refl,
      unfold frame_for set_destination_mac in refl,
    )

after_fault : {A B : Type 0} (r : Run A) → ◌>>=◌ {B = B} r (λ x. fault) ≡ fault
after_fault (ok x) = refl
after_fault fault = refl

-- The line of a frame to an empty MAC is made of bytes that are not there.
get_frame_details_empty : (f : Mpdu) → f.destination_mac ≡ [] → get_frame_details f ≡ fault
unfolding get_frame_details mac_to_string
get_frame_details_empty f e = rw e (after_fault _)

-- On a monitored link it does not go out.
transmit_empty :
    (elapsed : List ℕ) (side : Side) (f : Mpdu) (l : EthernetLink)
    → l.print_metadata ≡ true
    → f.destination_mac ≡ []
    → transmit elapsed side f l ≡ fault
unfolding transmit
transmit_empty elapsed side f l on e = elim (Bool-cases (l.frame_count == int_max)) [
  | inl last ↦ rw (on, last) refl
  | inr more ↦ rw (on, more, get_frame_details_empty f e) refl
]

-- Bob's driver pings the address `ip` of `a`: it asks for the MAC, gets it, and has an answer to each
-- of its 10 requests.
pub record Pings (fuel : ℕ) (blank : Icmp) (rand ip : ℕ) (a b : Host) : Type 0 where
  pub arp : Asked b a
  pub asks : Drivers.ping_test fuel blank rand ip 10 b ≡ ok (some (PingStart.resolving arp.a'))
  pub gateway_stops : (g : Gateway) → Gateway.run arp.query g ≡ fault
  pub p : Pinger
  pub p' : Pinger
  pub a' : Host
  pub starts : poll_cache fuel blank rand ip 10 arp.a'' ≡ ok (PingStart.pinging p)
  pub rounds : Rounds 10 p arp.b' p' a'
  pub finished : p'.phase ≡ PingPhase.finished
  pub attempts : p'.transmission_attempts ≡ 10
  pub receptions : p'.receptions ≡ 10

-- It hands a request to an empty MAC to `transmit`, which reads outside of a vector on the link `l` of
-- the host, whatever has been sent and received on it.
pub record Strays (fuel : ℕ) (blank : Icmp) (rand ip : ℕ) (b : Host) (plug : Plug)
    (l : EthernetLink) : Type 0 where
  pub p : Pinger
  pub f : Mpdu
  pub starts : Drivers.ping_test fuel blank rand ip 10 b ≡ ok (some (PingStart.pinging p))
  pub sends : p.host.sent ≡ b.sent ++ f ∷ []
  pub nowhere : f.destination_mac ≡ []
  pub faults :
      (elapsed : List ℕ) (one two : EthernetWire) (count : ℕ)
      → transmit elapsed plug.tx_if f
          (record l { fd_wire_1 = one; fd_wire_2 = two; frame_count = count })
        ≡ fault

pings :
    (fuel : ℕ) (blank : Icmp) (rand memory : ℕ) (a b : Host)
    → IsReady memory alice_ip (create_uniform_mac 0x11) a
    → IsReady memory bob_ip (create_uniform_mac 0x22) b
    → blank.checksum < 2 ^ 16
    → is_broadcast_ip a.ip ≡ false
    → in_subnet b.ip a.ip b.netmask ≡ true
    → Pings fuel blank rand a.ip a b
unfolding Drivers.ping_test known
pings fuel blank rand memory a b ra rb sum one near =
    let (q, asks, p, p', a', polled, rounds, finished, _, attempts, receptions, _) =
      ping_completes fuel blank rand 10 b a rb.is_host ra.is_host (rw rb.no_cache refl)
        (unfold mac_eq create_uniform_mac create_broadcast_mac in rw ra.has_mac refl) near
        rb.no_ports (unfold has_protocol in rw ra.no_ports refl) sum (omega arith) (omega arith) in
    record {
      arp = q;
      asks = rw (one, asks) refl;
      gateway_stops = λ g. request_stops_gateway b a q g rb.is_host ra.is_host.ip (
          unfold create_uniform_mac in
          rw rb.has_mac (
            omega arith,
            (omega arith, (omega arith, (omega arith, (omega arith, (omega arith, tt))))),
          ));
      p = p;
      p' = p';
      a' = a';
      starts = polled;
      rounds = rounds;
      finished = finished;
      attempts = attempts;
      receptions = receptions;
    }

strays :
    (fuel : ℕ) (blank : Icmp) (rand memory ip : ℕ) (b : Host) (plug : Plug) (l : EthernetLink)
    → l.print_metadata ≡ true
    → IsReady memory bob_ip (create_uniform_mac 0x22) b
    → is_broadcast_ip ip ≡ false
    → in_subnet b.ip ip b.netmask ≡ false
    → Strays fuel blank rand ip b plug l
unfolding Drivers.ping_test ping
strays fuel blank rand memory ip b plug l on rb one far =
    let (p, f, starts, sends, to_router) =
      start_ping_lem fuel blank rand ip 10 b.router_mac b rb.no_ports in
    let empty : f.destination_mac ≡ [] = to_router ∙ rb.no_router in
    record {
      p = p;
      f = f;
      starts = rw (one, far, starts) refl;
      sends = sends;
      nowhere = empty;
      faults = λ elapsed one two count. transmit_empty elapsed plug.tx_if f _ on empty;
    }

either :
    (fuel : ℕ) (blank : Icmp) (rand memory : ℕ) (a b : Host) (plug : Plug) (l : EthernetLink)
    → l.print_metadata ≡ true
    → IsReady memory alice_ip (create_uniform_mac 0x11) a
    → IsReady memory bob_ip (create_uniform_mac 0x22) b
    → blank.checksum < 2 ^ 16
    → ((in_subnet bob_ip alice_ip memory ≡ true) × Pings fuel blank rand alice_ip a b)
      ⊎ ((in_subnet bob_ip alice_ip memory ≡ false) × Strays fuel blank rand alice_ip b plug l)
either fuel blank rand memory a b plug l on ra rb sum =
    let mask : in_subnet b.ip alice_ip b.netmask ≡ in_subnet bob_ip alice_ip memory =
      rw (rb.has_ip, rb.has_netmask) refl in
    let one : is_broadcast_ip alice_ip ≡ false = unfold is_broadcast_ip create_ip in refl in
    elim (Bool-cases (in_subnet bob_ip alice_ip memory)) [
      | inl near ↦ inl (
        near,
        subst (λ ip. Pings fuel blank rand ip a b) ra.has_ip
            (pings fuel blank rand memory a b ra rb sum (rw ra.has_ip one)
              (rw ra.has_ip (mask ∙ near))),
      )
      | inr far ↦ inr (far, strays fuel blank rand memory alice_ip b plug l on rb one (mask ∙ far))
    ]

-- `./test ping`, with hosts whose netmask is whatever was in their memory. Both hosts get their
-- addresses, and Alice's driver pings nobody. If under that mask the two addresses are in one subnet,
-- Bob's asks for her MAC and gets answers to all of its 10 requests, though a gateway that takes the
-- request for the MAC from its queue reads out of range. If not, it hands a request to an empty MAC to
-- `transmit`, which reads outside of a vector on Bob's link, since `test` has it monitored.
pub ping_test_cases :
    (fuel : ℕ) (blank : Icmp) (rand : ℕ) (macs : ℕ → ℕ) (host_memory : ℕ) (da db : DhcpMemory)
    → IsFresh (create_uniform_mac 0x11) da
    → IsFresh (create_uniform_mac 0x22) db
    → blank.checksum < 2 ^ 16
    → let w = test_network macs host_memory in
      let (alice_driver, bob_driver) = threads TestKind.ping none none in
      (alice bob : Host) × Acquires da.entry_ip fuel da.your_ip da.segment da.packet w.alice
        da.server alice
      × Acquires db.entry_ip fuel db.your_ip db.segment db.packet w.bob db.server bob
      × (ping_thread fuel blank rand alice_driver alice ≡ ok none)
      × (ping_thread fuel blank rand bob_driver bob
          ≡ Drivers.ping_test fuel blank rand alice_ip 10 bob)
      × (((in_subnet bob_ip alice_ip host_memory ≡ true) × Pings fuel blank rand alice_ip alice bob)
          ⊎ ((in_subnet bob_ip alice_ip host_memory ≡ false)
              × Strays fuel blank rand alice_ip bob w.bob_plug w.el2))
unfolding test_network threads ping_thread new_host create_uniform_mac
ping_test_cases fuel blank rand macs host_memory da db fa fb sum =
    let (alice, got_a, ra) = alice_ready fuel host_memory da fa in
    let (bob, got_b, rb) = bob_ready fuel host_memory db fb in
    (
      alice,
      bob,
      got_a,
      got_b,
      unfold Drivers.ping_test is_broadcast_ip in refl,
      refl,
      either fuel blank rand host_memory alice bob (connect false) (new_link true (codes "B-S"))
          (unfold new_link in refl) ra rb sum,
    )
