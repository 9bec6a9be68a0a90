-- ===== src/Tests/Clients.antt =====
-- The clients.
use network_simulation.Common.{
  ℕ, ◌≡◌, ◌&&◌, refl, List, [], ◌∷◌, some, ok, if◌then◌else◌, ◌==◌, All, has_flag, arith,
}
use network_simulation.Addressing.{create_broadcast_mac, compare_ips}
use network_simulation.Addressing.Macs.{mac_eq}
use network_simulation.L4.{Tcp, tcp_ack, tcp_fin}
use network_simulation.L3.{encap_tcp, get_mac}
use network_simulation.Pdu.{Mpdu, encap_ip}
use network_simulation.Pdu.Frames.{open_tcp-encap_ip}
use network_simulation.TcpClient.{Client, ClientPhase, Opening, client_step, run_client, tcp_client}
use network_simulation.TcpClient.Acks.{ack_advances}
use network_simulation.TcpClient.Pieces.{FrameOurs, Holds}
use network_simulation.TcpClient.Sends.{tcp_client_sends_the_file}
use network_simulation.WQueue
use network_simulation.Gateway.{Gateway, run}
use network_simulation.Dhcp.{DhcpServer, serve}
use network_simulation.Dhcp.Leases.{held}
use network_simulation.Dhcp.Serve.{offered, lease}
use network_simulation.DhcpClient.{DhcpClient, Wait, start_dhcp, dhcp_step}
use network_simulation.DhcpClient.Acquire.{dhcp_acquires}
use network_simulation.Tests.Data.{
  mac_11, mac_22, blank_udp, blank_tcp, header_1_to_2, frame_22_to_11, host_1_knows_2, empty_server,
}

abbrev abc : List ℕ
abc = 97 ∷ 98 ∷ 99 ∷ []

abbrev segment_ab : Tcp
segment_ab = record blank_tcp {
  sequence_number = 1;
  ack_number = 1;
  details = 16;
  payload = 97 ∷ 98 ∷ [];
}

abbrev segment_c : Tcp
segment_c = record blank_tcp {
  sequence_number = 3;
  ack_number = 1;
  details = 17;
  payload = 99 ∷ [];
}

-- Both segments are on their way, none is acknowledged.
abbrev waiting_client : Client
waiting_client = record {
  mac = mac_11;
  dest_mac = mac_22;
  this_port = 4000;
  dest_port = 80;
  segments_to_send = segment_ab ∷ segment_c ∷ [];
  phase = ClientPhase.sending;
  tx_segment = segment_c;
  tx_packet = header_1_to_2;
  next_segment_index = 2;
  last_unackd_index = 0;
  sent = [];
}

-- One ACK for both.
abbrev last_ack : Tcp
last_ack = record blank_tcp { sequence_number = 1; ack_number = 4; details = 17 }

abbrev ack_frame : Mpdu
ack_frame = encap_ip (encap_tcp last_ack header_1_to_2) frame_22_to_11

ack_advances_example :
    (c' : Client) × (client_step ack_frame waiting_client ≡ ok c')
    × (c'.last_unackd_index ≡ 2)
    × (c'.phase ≡ (
        if has_flag 17 tcp_fin && has_flag 17 tcp_ack
        then ClientPhase.finished
        else if 0 == 0
        then ClientPhase.finished
        else ClientPhase.sending))
ack_advances_example =
    ack_advances 2 abc [] (segment_ab ∷ []) [] segment_c last_ack ack_frame
      (encap_tcp last_ack header_1_to_2) waiting_client (omega arith)
      (refl, refl, omega arith, refl, 99 ∷ [], refl, (refl, refl, omega arith, omega arith, refl))
      refl refl refl
      (open_tcp-encap_ip last_ack header_1_to_2 frame_22_to_11
        (record {
          source_port = omega arith;
          destination_port = omega arith;
          sequence_number = omega arith;
          ack_number = omega arith;
          details = omega arith;
          receive_window = omega arith;
          checksum = omega arith;
        })
        (record { header = refl; source = omega arith; destination = omega arith }) (omega arith))
      refl

tcp_client_sends_the_file_example :
    (c : Client) × (tcp_client blank_tcp blank_tcp header_1_to_2 abc 4000 0x0A000002 80
        host_1_knows_2
      ≡ ok (Opening.opened c))
    × Holds
        (λ c'. All (FrameOurs abc (get_mac host_1_knows_2.cache 0x0A000002)) c'.sent)
        (run_client (ack_frame ∷ ack_frame ∷ []) c)
tcp_client_sends_the_file_example =
    tcp_client_sends_the_file blank_tcp blank_tcp header_1_to_2 abc 4000 0x0A000002 80
      host_1_knows_2 (ack_frame ∷ ack_frame ∷ [])
      (record {
        source_port = omega arith;
        destination_port = omega arith;
        sequence_number = omega arith;
        ack_number = omega arith;
        details = omega arith;
        receive_window = omega arith;
        checksum = omega arith;
      })
      (omega arith) (omega arith) (record { mac = refl; ip = omega arith; cache = (refl, tt) })
      (omega arith) (unfold get_mac mac_eq create_broadcast_mac compare_ips in refl) (omega arith)
      (omega arith)

dhcp_acquires_here :
    (f1 offer f2 ack : Mpdu) × (server' : DhcpServer) × (c' c'' : DhcpClient) × ((start_dhcp 5
        blank_udp header_1_to_2 0 mac_11).sent
      ≡ f1 ∷ [])
    × ((g : Gateway) → run f1 g ≡ ok (record g { dhcp_queue = WQueue.add f1 g.dhcp_queue }))
    × (serve 0 empty_server f1 ≡ ok (server', offer ∷ []))
    × (dhcp_step offer (start_dhcp 5 blank_udp header_1_to_2 0 mac_11) ≡ ok c')
    × (c'.sent ≡ f1 ∷ f2 ∷ [])
    × ((g : Gateway) → run f2 g ≡ ok (record g { dhcp_queue = WQueue.add f2 g.dhcp_queue }))
    × (serve 0 server' f2 ≡ ok (server', ack ∷ []))
    × (dhcp_step ack c' ≡ ok c'')
    × (c''.wait ≡ Wait.bound)
    × (c''.ip ≡ offered 0 empty_server mac_11)
    × (c''.sent ≡ c'.sent)
    × (held server'.table mac_11 ≡ some (lease 0 empty_server mac_11))
dhcp_acquires_here =
    dhcp_acquires 0 5 empty_server blank_udp header_1_to_2 0 mac_11 (omega arith) (omega arith)
      (omega arith) tt refl (omega arith) (omega arith)
