-- ===== src/Tests/Transfer.antt =====
-- Whole transfers: TCP and UDP files, DHCP.
use network_simulation.Common.{
  ℕ, ◌≡◌, ◌⊎◌, inl, inr, refl, true, List, [], ◌∷◌, ◌++◌, ok, All, arith,
}
use network_simulation.Addressing.{create_broadcast_mac, compare_ips}
use network_simulation.Addressing.Macs.{mac_eq}
use network_simulation.L4.{Udp, Tcp, file_to_tcp_segments, file_to_udp_segments}
use network_simulation.L4.Stream.{IsStream, file_to_tcp_segments-IsStream}
use network_simulation.L4.Datagrams.{IsDatagrams, file_to_udp_segments-IsDatagrams}
use network_simulation.L3.{encap_tcp, get_mac}
use network_simulation.Pdu.{Mpdu, encap_ip, open_tcp}
use network_simulation.Pdu.Frames.{IsHeader, open_tcp-encap_ip}
use network_simulation.TcpServer.{Phase, Server, start, serve}
use network_simulation.TcpServer.Receive.{FramePiece, IsHandshake}
use network_simulation.TcpServer.Transfer.{serve_writes_prefix, transfer_completes}
use network_simulation.UdpTransfer.{ClientState, udp_client, new_udp_server, udp_server_run}
use network_simulation.UdpTransfer.Delivery.{udp_delivers}
use network_simulation.Tests.Data.{
  mac_22, blank_udp, blank_tcp, header_1_to_2, frame_11_to_22, host_1_knows_2,
}

-- The file "abc", two bytes to a segment.
abbrev abc : List ℕ
abc = 97 ∷ 98 ∷ 99 ∷ []

abbrev segment_ab : Tcp
segment_ab = record blank_tcp {
  sequence_number = 1;
  ack_number = 1;
  details = 16;
  payload = 97 ∷ 98 ∷ [];
}

abbrev segment_c : Tcp
segment_c = record blank_tcp {
  sequence_number = 3;
  ack_number = 1;
  details = 17;
  payload = 99 ∷ [];
}

abbrev syn_segment : Tcp
syn_segment = record blank_tcp { details = 2 }

abbrev ack_segment : Tcp
ack_segment = record blank_tcp { sequence_number = 1; ack_number = 1; details = 16 }

file_to_tcp_segments_run :
    file_to_tcp_segments blank_tcp abc 4000 80 2 ≡ ok (segment_ab ∷ segment_c ∷ [])
unfolding file_to_tcp_segments
file_to_tcp_segments_run = refl

abbrev carrying : Tcp → Mpdu
carrying s = encap_ip (encap_tcp s header_1_to_2) frame_11_to_22

header_1_to_2-IsHeader : IsHeader header_1_to_2
header_1_to_2-IsHeader = record { header = refl; source = omega arith; destination = omega arith }

handshake : IsHandshake (carrying syn_segment) (carrying ack_segment)
handshake = record {
  syn_packet = encap_tcp syn_segment header_1_to_2;
  syn_segment = syn_segment;
  syn_opens =
      open_tcp-encap_ip syn_segment header_1_to_2 frame_11_to_22
        (record {
          source_port = omega arith;
          destination_port = omega arith;
          sequence_number = omega arith;
          ack_number = omega arith;
          details = omega arith;
          receive_window = omega arith;
          checksum = omega arith;
        })
        header_1_to_2-IsHeader (omega arith);
  syn_flag = refl;
  ack_packet = encap_tcp ack_segment header_1_to_2;
  ack_segment = ack_segment;
  ack_opens =
      open_tcp-encap_ip ack_segment header_1_to_2 frame_11_to_22
        (record {
          source_port = omega arith;
          destination_port = omega arith;
          sequence_number = omega arith;
          ack_number = omega arith;
          details = omega arith;
          receive_window = omega arith;
          checksum = omega arith;
        })
        header_1_to_2-IsHeader (omega arith);
  ack_flag = refl;
  ack_number = refl;
  ack_sequence = refl;
}

open_ab : open_tcp (carrying segment_ab) ≡ ok (encap_tcp segment_ab header_1_to_2, segment_ab)
open_ab =
    open_tcp-encap_ip segment_ab header_1_to_2 frame_11_to_22
      (record {
        source_port = omega arith;
        destination_port = omega arith;
        sequence_number = omega arith;
        ack_number = omega arith;
        details = omega arith;
        receive_window = omega arith;
        checksum = omega arith;
      })
      header_1_to_2-IsHeader (omega arith)

open_c : open_tcp (carrying segment_c) ≡ ok (encap_tcp segment_c header_1_to_2, segment_c)
open_c =
    open_tcp-encap_ip segment_c header_1_to_2 frame_11_to_22
      (record {
        source_port = omega arith;
        destination_port = omega arith;
        sequence_number = omega arith;
        ack_number = omega arith;
        details = omega arith;
        receive_window = omega arith;
        checksum = omega arith;
      })
      header_1_to_2-IsHeader (omega arith)

transfer_completes_example :
    (s : Server) × (serve
        (carrying syn_segment
          ∷ carrying ack_segment
          ∷ carrying segment_ab
          ∷ carrying segment_c
          ∷ [])
        (start 0x0A000002 mac_22 80 blank_tcp header_1_to_2)
      ≡ ok s)
    × (s.phase ≡ Phase.done)
    × (s.written ≡ abc)
transfer_completes_example =
    transfer_completes blank_tcp abc 4000 80 2 (carrying syn_segment) (carrying ack_segment)
      0x0A000002 mac_22 80 blank_tcp header_1_to_2 (omega arith) (omega arith) (omega arith)
      handshake (segment_ab ∷ segment_c ∷ []) (carrying segment_ab ∷ carrying segment_c ∷ [])
      file_to_tcp_segments_run
      (
        (encap_tcp segment_ab header_1_to_2, open_ab),
        ((encap_tcp segment_c header_1_to_2, open_c), tt),
      )

piece_ab : FramePiece abc (carrying segment_ab)
piece_ab = record {
  packet = encap_tcp segment_ab header_1_to_2;
  segment = segment_ab;
  opens = open_ab;
  piece = record {
    before = [];
    after = 99 ∷ [];
    bytes = refl;
    number = refl;
    flags = inl (refl, omega arith);
  };
}

piece_c : FramePiece abc (carrying segment_c)
piece_c = record {
  packet = encap_tcp segment_c header_1_to_2;
  segment = segment_c;
  opens = open_c;
  piece = record {
    before = 97 ∷ 98 ∷ [];
    after = [];
    bytes = refl;
    number = refl;
    flags = inr (refl, refl);
  };
}

-- The last segment overtakes the first.
serve_writes_prefix_example :
    (s : Server) × (serve
        (carrying syn_segment
          ∷ carrying ack_segment
          ∷ carrying segment_c
          ∷ carrying segment_ab
          ∷ [])
        (start 0x0A000002 mac_22 80 blank_tcp header_1_to_2)
      ≡ ok s)
    × (((s.phase ≡ Phase.receiving) × (rest : List ℕ) × (s.written ++ rest ≡ abc))
        ⊎ ((s.phase ≡ Phase.done) × (s.written ≡ abc)))
serve_writes_prefix_example =
    serve_writes_prefix (carrying syn_segment) (carrying ack_segment)
      (carrying segment_c ∷ carrying segment_ab ∷ []) abc 0x0A000002 mac_22 80 blank_tcp
      header_1_to_2 (omega arith) handshake (piece_c, (piece_ab, tt))

file_to_tcp_segments-IsStream_example :
    (segs : List Tcp) × (file_to_tcp_segments blank_tcp abc 4000 80 2 ≡ ok segs)
    × IsStream 2 1 segs abc
file_to_tcp_segments-IsStream_example =
    file_to_tcp_segments-IsStream blank_tcp abc 4000 80 2 (omega arith) (omega arith) (omega arith)

file_to_udp_segments-IsDatagrams_example :
    (segs : List Udp) × (file_to_udp_segments blank_udp abc 5000 69 2 ≡ ok segs)
    × IsDatagrams 2 segs abc
file_to_udp_segments-IsDatagrams_example =
    file_to_udp_segments-IsDatagrams blank_udp abc 5000 69 2 (omega arith) (omega arith)
      (omega arith)

udp_delivers_here :
    (fs : List Mpdu) × (udp_client blank_udp abc 5000 0x0A000002 69 host_1_knows_2
      ≡ ok (ClientState.finished (record host_1_knows_2 { sent = fs })))
    × All (λ f. f.destination_mac ≡ get_mac host_1_knows_2.cache 0x0A000002) fs
    × (udp_server_run fs new_udp_server ≡ ok (record { host_eof_reached = true; written = abc }))
udp_delivers_here =
    udp_delivers blank_udp abc 5000 0x0A000002 69 host_1_knows_2
      (record {
        source_port = omega arith;
        destination_port = omega arith;
        udp_length = omega arith;
        checksum = omega arith;
      })
      (record { mac = refl; ip = omega arith; cache = (refl, tt) }) (omega arith)
      (unfold get_mac mac_eq create_broadcast_mac compare_ips in refl) (omega arith) (omega arith)
      (λ e. omega arith, (λ e. omega arith, (λ e. omega arith, tt)))
