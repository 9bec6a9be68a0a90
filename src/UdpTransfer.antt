-- ===== src/UdpTransfer.antt =====
-- Host::UDP_client and Host::UDP_server of host.cpp. The client is a step that sends the file or,
-- when its cache lacks the MAC, sends an ARP request and waits; the server is a function of the
-- frames that its socket hands out. `blank` holds the indeterminate fields of a local segment.
pub mod Sending
pub mod Delivery
pub mod Sizes
use network_simulation.Common.{
  ℕ, Bool, true, false, List, [], ◌∷◌, ◌++◌, Run, ok, fault, ◌>>=◌, if◌then◌else◌, ◌==◌,
}
use network_simulation.Addressing.{is_broadcast}
use network_simulation.L4.{Udp, segment_eof, file_to_udp_segments}
use network_simulation.L3.{Ip, encap_udp, get_mac}
use network_simulation.Pdu.{Mpdu, open_udp}
use network_simulation.Host.{Host, send_mpdu, send_request_arp, frame_for, packet_to}

-- `MTU - UDP_HEADER_SIZE - IP_HEADER_SIZE - MPDU_HEADER_SIZE`.
abbrev pub maximum_payload_bytes : ℕ
maximum_payload_bytes = 1468

-- The loop over the segments; each `encap_SDU` replaces the payload of the one packet.
unfoldable pub send_segments : List Udp → List ℕ → Ip → Host → Host
send_segments [] dest_mac tx_packet h = h
send_segments (s ∷ ss) dest_mac tx_packet h =
    let p = encap_udp s tx_packet in
    send_segments ss dest_mac p (send_mpdu (frame_for h.mac dest_mac p) h)

-- Where the client is when it returns or waits for an ARP reply.
pub data ClientState : Type 0 where
  finished : Host → ClientState
  waiting : Host → ClientState

unfoldable pub udp_client : Udp → List ℕ → ℕ → ℕ → ℕ → Host → Run ClientState
unfolding send_segments
udp_client blank file this_port dest_ip dest_port h = do
  segments_to_send ← file_to_udp_segments blank file this_port dest_port maximum_payload_bytes
  missing ← is_broadcast (get_mac h.cache dest_ip)
  if missing
      then (do h' ← send_request_arp dest_ip h; ok (ClientState.waiting h'))
      else ok (
          ClientState.finished
            (send_segments segments_to_send (get_mac h.cache dest_ip) (packet_to h.ip dest_ip) h))

-- `while (is_broadcast(cache.get_mac(dest_ip)))`, one look at the cache, and what comes after the
-- loop. The segments are those of `udp_client`.
unfoldable pub poll_mac : Udp → List ℕ → ℕ → ℕ → ℕ → Host → Run ClientState
unfolding send_segments
poll_mac blank file this_port dest_ip dest_port h = do
  segments_to_send ← file_to_udp_segments blank file this_port dest_port maximum_payload_bytes
  missing ← is_broadcast (get_mac h.cache dest_ip)
  ok (
      if missing
      then ClientState.waiting h
      else ClientState.finished
          (send_segments segments_to_send (get_mac h.cache dest_ip) (packet_to h.ip dest_ip) h))

pub record UdpServer : Type 0 where
  pub host_eof_reached : Bool
  pub written : List ℕ

abbrev pub new_udp_server : UdpServer
new_udp_server = record { host_eof_reached = false; written = [] }

-- `payload.back()` with `payload.pop_back()`: the last byte, and what is before it.
unfoldable pub unsnoc : List ℕ → Run (List ℕ × ℕ)
unsnoc [] = fault
unsnoc (x ∷ []) = ok ([], x)
unsnoc (x ∷ y ∷ xs) = do (before, last) ← unsnoc (y ∷ xs); ok (x ∷ before, last)

-- One round of `while (!HOST_EOF_reached)`; a server that has ended takes no frame.
unfoldable pub udp_server : Mpdu → UdpServer → Run UdpServer
unfolding unsnoc
udp_server rx_frame s = if s.host_eof_reached then ok s else (do
  (rx_packet, rx_segment) ← open_udp rx_frame
  (before, last) ← unsnoc rx_segment.payload
  if last == segment_eof
      then ok (record { host_eof_reached = true; written = s.written ++ before })
      else ok (record s { written = s.written ++ rx_segment.payload }))

unfoldable pub udp_server_run : List Mpdu → UdpServer → Run UdpServer
unfolding udp_server
udp_server_run [] s = ok s
udp_server_run (f ∷ fs) s = do s' ← udp_server f s; udp_server_run fs s'
