-- ===== src/Host.antt =====
-- The Host of host.h and host.cpp: addresses, the ARP cache, the open ports, and the handlers for
-- frames that come in. `sent` is the list of the frames handed to `transmit`, oldest first; the
-- pauses before a `transmit` are not modelled.
pub mod Resolve
pub mod Asked
pub mod Keeps
pub mod Ping
pub mod Ports
pub mod Demux
use network_simulation.Common.{
  ℕ, zero, suc, ◌+◌, ◌%◌, ◌^◌, Bool, true, false, ◌&&◌, ◌||◌, Option, none, some, List, [], ◌∷◌,
  ◌++◌, map, Run, ok, ◌>>=◌, if◌then◌else◌, ◌==◌, length,
}
use network_simulation.Addressing.{
  compare_macs, compare_ips, is_broadcast, create_broadcast_mac, create_uniform_mac,
}
use network_simulation.L4.{generate_tcp, generate_udp}
use network_simulation.L3.{
  Ip, Icmp, Arp, ArpCache, get_mac, add_entry, generate_arp, generate_ip, new_ip, encap_icmp,
  arp_request, arp_reply, icmp_echo_reply, icmp_echo_request, ip_protocol_icmp, ip_protocol_tcp,
  ip_protocol_udp,
}
use network_simulation.Pdu.{
  Mpdu, Socket, new_mpdu, set_source_mac, set_destination_mac, encap_ip, encap_arp, open_icmp,
  new_socket, add_frame, mpdu_arp_type, mpdu_ip_type,
}
use network_simulation.WQueue
use network_simulation.WQueue.{WQueue}

pub record Host : Type 0 where
  pub ip : ℕ
  pub netmask : ℕ
  pub mac : List ℕ
  pub router_mac : List ℕ
  pub cache : ArpCache
  pub open_ports : List Socket
  pub rx_frame_count : ℕ
  pub frame_queue : WQueue Mpdu
  pub sent : List Mpdu

-- The constructor with a MAC; `ip` and `netmask` keep the indeterminate `blank`.
unfoldable pub new_host : ℕ → List ℕ → Host
new_host blank mac_addr = record {
  ip = blank;
  netmask = blank;
  mac = mac_addr;
  router_mac = [];
  cache = record { cache = [] };
  open_ports = [];
  rx_frame_count = 0;
  frame_queue = WQueue.new_wqueue;
  sent = [];
}

unfoldable pub set_ip : ℕ → Host → Host
set_ip ip_addr h = record h { ip = ip_addr }

unfoldable pub set_mac : List ℕ → Host → Host
set_mac mac_addr h = record h { mac = mac_addr }

unfoldable pub send_mpdu : Mpdu → Host → Host
send_mpdu frame h = record h { sent = h.sent ++ frame ∷ [] }

-- `new MPDU()`, `encap_SDU(packet)` and the two addresses, in whatever order.
unfoldable pub frame_for : List ℕ → List ℕ → Ip → Mpdu
frame_for source destination packet =
    set_destination_mac destination (set_source_mac source (encap_ip packet (new_mpdu 0)))

unfoldable pub send_arp : Arp → List ℕ → Host → Run Host
send_arp tx_arp destination_mac h = do
  arp_mpdu ←
      encap_arp tx_arp (set_destination_mac destination_mac (set_source_mac h.mac (new_mpdu 0)))
  ok (send_mpdu arp_mpdu h)

unfoldable pub send_request_arp : ℕ → Host → Run Host
send_request_arp requested_ip h =
    send_arp
      (record {
        opcode = arp_request;
        sender_mac = h.mac;
        sender_ip = h.ip;
        target_mac = create_uniform_mac 0;
        target_ip = requested_ip;
      })
      create_broadcast_mac h

-- What the cache becomes: the sender is added unless it is there.
pub learn : Arp → Host → Run Host
learn arp_rx h = do
  missing ← is_broadcast (get_mac h.cache arp_rx.sender_ip)
  ok (
      if missing
      then record h { cache = add_entry h.cache arp_rx.sender_ip arp_rx.sender_mac }
      else h)

-- A `count` below 1 has no round. The pause after each request is left out.
unfoldable pub arping : ℕ → ℕ → Host → Run Host
arping requested_ip zero h = ok h
arping requested_ip (suc count) h = do
  h' ← send_request_arp requested_ip h
  arping requested_ip count h'

unfoldable pub receive_arp : List ℕ → Host → Run Host
unfolding learn
receive_arp arp_u8 h = do
  arp_rx ← generate_arp arp_u8
  if compare_ips arp_rx.target_ip h.ip
      then (do
        h' ← learn arp_rx h
        if arp_rx.opcode == arp_request
            then send_arp
                (record {
                  opcode = arp_reply;
                  target_mac = arp_rx.sender_mac;
                  target_ip = arp_rx.sender_ip;
                  sender_mac = h'.mac;
                  sender_ip = h'.ip;
                })
                arp_rx.sender_mac h'
            else ok h')
      else ok h

-- A local `IP` whose fields are all set before they are read.
abbrev pub local_ip : Ip
local_ip = record {
  header_length = 0;
  total_length = 0;
  protocol = 0;
  source_ip = 0;
  destination_ip = 0;
  sdu = [];
}

unfoldable pub packet_to : ℕ → ℕ → Ip
packet_to source destination = record (new_ip local_ip) {
  source_ip = source;
  destination_ip = destination;
}

unfoldable pub process_icmp_message : Mpdu → Host → Run Host
unfolding packet_to
process_icmp_message rx_frame h = do
  (rx_ip, inbound_ping) ← open_icmp rx_frame
  ok (
      if inbound_ping.icmp_type == icmp_echo_request
      then send_mpdu
          (frame_for h.mac rx_frame.source_mac (
            encap_icmp (record inbound_ping { icmp_type = icmp_echo_reply })
              (packet_to h.ip rx_ip.source_ip)))
          h
      else h)

-- The socket loops of `process_frame`: all ICMP sockets, all TCP sockets of the port, the first UDP
-- socket of the port.
pub is_for : ℕ → ℕ → Socket → Bool
is_for protocol port s = s.protocol == protocol && s.port == port

unfoldable pub has_protocol : ℕ → List Socket → Bool
has_protocol protocol [] = false
has_protocol protocol (s ∷ ss) = s.protocol == protocol || has_protocol protocol ss

pub add_icmp : Mpdu → List Socket → List Socket
add_icmp frame [] = []
add_icmp frame (s ∷ ss) =
    (if s.protocol == ip_protocol_icmp then add_frame frame s else s) ∷ add_icmp frame ss

pub add_tcp : Mpdu → ℕ → List Socket → List Socket
add_tcp frame port [] = []
add_tcp frame port (s ∷ ss) =
    (if is_for ip_protocol_tcp port s then add_frame frame s else s) ∷ add_tcp frame port ss

pub add_udp : Mpdu → ℕ → List Socket → List Socket
add_udp frame port [] = []
add_udp frame port (s ∷ ss) =
    if is_for ip_protocol_udp port s then add_frame frame s ∷ ss else s ∷ add_udp frame port ss

pub process_ip : Mpdu → Host → Run Host
unfolding is_for has_protocol add_icmp add_tcp add_udp
process_ip frame h = do
  packet ← generate_ip frame.sdu
  if packet.protocol == ip_protocol_icmp
      then (if has_protocol ip_protocol_icmp h.open_ports
          then ok (record h { open_ports = add_icmp frame h.open_ports })
          else process_icmp_message frame h)
      else if packet.protocol == ip_protocol_tcp
      then (do
        segment ← generate_tcp packet.sdu
        ok (record h { open_ports = add_tcp frame segment.destination_port h.open_ports }))
      else if packet.protocol == ip_protocol_udp
      then (do
        segment ← generate_udp packet.sdu
        ok (record h { open_ports = add_udp frame segment.destination_port h.open_ports }))
      else ok h

unfoldable pub process_frame : Mpdu → Host → Run Host
unfolding process_ip
process_frame frame h =
    let counted : Host = record h { rx_frame_count = h.rx_frame_count + 1 } in
    if frame.sdu_type == mpdu_arp_type
    then receive_arp frame.sdu counted
    else if frame.sdu_type == mpdu_ip_type
    then process_ip frame counted
    else ok counted

-- One round of `demuxer`, for the frame that `remove` returned.
unfoldable pub demuxer : Mpdu → Host → Run Host
demuxer frame h = do
  mine ← compare_macs frame.destination_mac h.mac
  all ← if mine then ok true else is_broadcast frame.destination_mac
  if all then process_frame frame h else ok h

-- One round of `receiver`.
unfoldable pub receiver : Mpdu → Host → Host
receiver frame h = record h { frame_queue = WQueue.add frame h.frame_queue }
