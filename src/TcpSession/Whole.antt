-- ===== src/TcpSession/Whole.antt =====
-- A whole session of TCP_client and TCP_server.
use mathlib.Core.Path.{subst}
use network_simulation.Common.{ℕ, ◌^◌, ◌≤◌, ◌<◌, ◌≡◌, false, List, [], ◌∷◌, ok, length, All, arith}
use network_simulation.Addressing.{create_broadcast_mac}
use network_simulation.Addressing.Macs.{mac_eq, is_broadcast-eq}
use network_simulation.L4.{Tcp, file_to_tcp_segments}
use network_simulation.L4.Stream.{
  IsStream, file_to_tcp_segments-IsStream, file_to_tcp_segments-SameFields,
}
use network_simulation.L3.{Ip, get_mac}
use network_simulation.L3.Codec.{FitsTcp}
use network_simulation.L3.Cache.{get_mac-IsMac}
use network_simulation.Host.{Host}
use network_simulation.Host.Resolve.{IsHost}
use network_simulation.TcpServer.{start}
use network_simulation.TcpServer.Receive.{IsPiece}
use network_simulation.TcpServer.Transfer.{file_to_tcp_segments-IsPiece}
use network_simulation.TcpClient.{Client, Opening, start_client, tcp_client, maximum_segment_bytes}
use network_simulation.TcpClient.Sends.{pieces-Sendable}
use network_simulation.TcpSession.{Inevitable, open_session}
use network_simulation.TcpSession.Turns.{Delivered}
use network_simulation.TcpSession.Opening.{start_client-IsOpened, opening-Inevitable}

some_segments :
    (m sn : ℕ) (segs : List Tcp) (bytes : List ℕ) → IsStream m sn segs bytes → 1 ≤ length segs
some_segments m sn [] bytes h = absurd h
some_segments m sn (x ∷ segs) bytes h = omega arith

-- The session from the SYN on, for a client that has cut the file and has some MAC.
pub opened_session :
    (blank blank_segment server_segment : Tcp) (blank_packet server_packet : Ip)
    (file dest_mac server_mac : List ℕ) (this_port dest_ip dest_port : ℕ)
    → (h : Host)
    → FitsTcp
        (record blank { source_port = this_port; destination_port = dest_port; ack_number = 1 })
    → blank_segment.receive_window < 2 ^ 16
    → blank_segment.checksum < 2 ^ 16
    → server_segment.receive_window < 2 ^ 16
    → server_segment.checksum < 2 ^ 16
    → h.ip < 2 ^ 32
    → dest_ip < 2 ^ 32
    → 1 ≤ length file
    → length file < 2 ^ 31
    → (segs : List Tcp) × (file_to_tcp_segments blank file this_port dest_port maximum_segment_bytes
        ≡ ok segs)
      × Inevitable (Delivered file) (
          ok (
            open_session
              (start_client h dest_mac this_port dest_ip dest_port blank_segment blank_packet segs)
              (start dest_ip server_mac dest_port server_segment server_packet)))
opened_session blank seg sseg pkt spkt file mac smac tp dip dp h w win sum swin ssum hip i
      some_bytes small =
    let (segs, cut, stream) =
      file_to_tcp_segments-IsStream blank file tp dp maximum_segment_bytes some_bytes small
        (omega arith) in
    let (segs', cut', pieces) =
      file_to_tcp_segments-IsPiece blank file tp dp maximum_segment_bytes some_bytes small
        (omega arith) in
    let same : segs' ≡ segs = cc (cut, cut') in
    let fields = file_to_tcp_segments-SameFields blank file tp dp maximum_segment_bytes segs cut in
    let all =
      pieces-Sendable _ maximum_segment_bytes 1 file file segs w (omega arith)
        (omega (arith, small)) stream (subst (All (IsPiece file)) same pieces) fields in
    (
      segs,
      cut,
      opening-Inevitable file mac maximum_segment_bytes segs
          (start_client h mac tp dip dp seg pkt segs) dip smac dp sseg spkt
          (start_client-IsOpened file mac h tp dip dp seg pkt segs w.source_port w.destination_port
            hip i win sum all)
          (some_segments maximum_segment_bytes 1 segs file stream) stream (omega (arith, small)) i
          w.destination_port swin ssum,
    )

-- A client whose host has the MAC of the server, and a server that listens on the port, joined by a
-- network that loses no frame and keeps the order of the frames of each direction: however the two
-- take turns, no step faults, the session ends after finitely many steps, and then the client is
-- finished, the server is done and has written exactly the file, and no frame is left on its way. The
-- file is not empty and has less than 2 ^ 31 bytes; addresses, ports, window and checksum fit
-- their fields.
pub tcp_session_completes :
    (blank blank_segment server_segment : Tcp) (blank_packet server_packet : Ip)
    (file server_mac : List ℕ) (this_port dest_ip dest_port : ℕ)
    → (h : Host)
    → FitsTcp
        (record blank { source_port = this_port; destination_port = dest_port; ack_number = 1 })
    → blank_segment.receive_window < 2 ^ 16
    → blank_segment.checksum < 2 ^ 16
    → server_segment.receive_window < 2 ^ 16
    → server_segment.checksum < 2 ^ 16
    → IsHost h
    → dest_ip < 2 ^ 32
    → mac_eq (get_mac h.cache dest_ip) create_broadcast_mac ≡ false
    → 1 ≤ length file
    → length file < 2 ^ 31
    → (c : Client) × (tcp_client blank blank_segment blank_packet file this_port dest_ip dest_port h
        ≡ ok (Opening.opened c))
      × Inevitable
          (Delivered file)
          (ok (open_session c (start dest_ip server_mac dest_port server_segment server_packet)))
unfolding tcp_client
tcp_session_completes blank seg sseg pkt spkt file smac tp dip dp h w win sum swin ssum v i known
      some_bytes small =
    let mac = get_mac h.cache dip in
    let (segs, cut, runs) =
      opened_session blank seg sseg pkt spkt file mac smac tp dip dp h w win sum swin ssum v.ip i
        some_bytes small in
    (
      start_client h mac tp dip dp seg pkt segs,
      rw (cut, is_broadcast-eq mac (get_mac-IsMac h.cache dip v.cache), known),
      runs,
    )
