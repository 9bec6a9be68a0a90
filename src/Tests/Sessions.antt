-- ===== src/Tests/Sessions.antt =====
-- Two parties: a client with a server, a host with the host that it pings.
use network_simulation.Common.{
  ℕ, ◌+◌, ◌*◌, ◌≤◌, ◌≡◌, refl, List, [], ◌∷◌, ◌++◌, map, replicate, length, ok, arith,
}
use network_simulation.Addressing.{create_broadcast_mac, compare_ips, in_subnet}
use network_simulation.Addressing.Macs.{mac_eq}
use network_simulation.L3.{get_mac}
use network_simulation.L3.Cache.{known}
use network_simulation.Pdu.{Mpdu, get_size}
use network_simulation.Host.{Host, has_protocol}
use network_simulation.Host.Asked.{Asked}
use network_simulation.UdpTransfer.{ClientState, udp_client}
use network_simulation.UdpTransfer.Sizes.{udp_frame_sizes}
use network_simulation.Ping.{Pinger, PingPhase, PingStart, ping, poll_cache}
use network_simulation.Ping.Rounds.{Rounds}
use network_simulation.Ping.Opening.{ping_completes}
use network_simulation.TcpServer.{start}
use network_simulation.TcpClient.{Client, Opening, tcp_client}
use network_simulation.TcpSession.{Inevitable, open_session}
use network_simulation.TcpSession.Turns.{Delivered}
use network_simulation.TcpSession.Whole.{tcp_session_completes}
use network_simulation.Tests.Data.{
  mac_22, blank_tcp, blank_udp, header_1_to_2, echo_request, host_1, host_2, host_1_knows_2,
}

abbrev abc : List ℕ
abc = 97 ∷ 98 ∷ 99 ∷ []

tcp_session_completes_example :
    (c : Client) × (tcp_client blank_tcp blank_tcp header_1_to_2 abc 4000 0x0A000002 80
        host_1_knows_2
      ≡ ok (Opening.opened c))
    × Inevitable
        (Delivered abc)
        (ok (open_session c (start 0x0A000002 mac_22 80 blank_tcp header_1_to_2)))
tcp_session_completes_example =
    tcp_session_completes blank_tcp blank_tcp blank_tcp header_1_to_2 header_1_to_2 abc mac_22 4000
      0x0A000002 80 host_1_knows_2
      (record {
        source_port = omega arith;
        destination_port = omega arith;
        sequence_number = omega arith;
        ack_number = omega arith;
        details = omega arith;
        receive_window = omega arith;
        checksum = omega arith;
      })
      (omega arith) (omega arith) (omega arith) (omega arith)
      (record { mac = refl; ip = omega arith; cache = (refl, tt) }) (omega arith)
      (unfold get_mac mac_eq create_broadcast_mac compare_ips in refl) (omega arith) (omega arith)

-- Three pings from the first host to the second, which it does not know.
ping_completes_example :
    (q : Asked host_1 host_2) × (ping 9 echo_request 4711 host_2.ip 3 host_1
      ≡ ok (PingStart.resolving q.a'))
    × (p p' : Pinger) × (b'' : Host) × (poll_cache 9 echo_request 4711 host_2.ip 3 q.a''
        ≡ ok (PingStart.pinging p))
    × Rounds 3 p q.b' p' b''
    × (p'.phase ≡ PingPhase.finished)
    × (p'.host.open_ports ≡ [])
    × (p'.transmission_attempts ≡ 3)
    × (p'.receptions ≡ 3)
    × (length b''.sent ≡ 4)
ping_completes_example =
    ping_completes 9 echo_request 4711 3 host_1 host_2
      (record { mac = refl; ip = omega arith; cache = tt })
      (record { mac = refl; ip = omega arith; cache = tt }) (unfold known in refl)
      (unfold mac_eq create_broadcast_mac in refl) (unfold in_subnet in refl) refl
      (unfold has_protocol in refl) (omega arith) (omega arith) (omega arith)

udp_frame_sizes_example :
    (fs : List Mpdu) × (k r : ℕ) × (udp_client blank_udp abc 5000 0x0A000002 69 host_1_knows_2
      ≡ ok (ClientState.finished (record host_1_knows_2 { sent = fs })))
    × (3 ≡ 1468 * k + r)
    × (1 ≤ r)
    × (r ≤ 1468)
    × (map get_size fs ≡ replicate k 1500 ++ (33 + r) ∷ [])
udp_frame_sizes_example =
    udp_frame_sizes blank_udp abc 5000 0x0A000002 69 host_1_knows_2
      (record {
        source_port = omega arith;
        destination_port = omega arith;
        udp_length = omega arith;
        checksum = omega arith;
      })
      (record { mac = refl; ip = omega arith; cache = (refl, tt) }) (omega arith)
      (unfold get_mac mac_eq create_broadcast_mac compare_ips in refl) (omega arith) (omega arith)
