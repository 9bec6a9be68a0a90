-- ===== src/Tests/Leases.antt =====
-- DHCP at concrete inputs.
use network_simulation.Common.{
  ℕ, ◌<◌, ◌≡◌, refl, some, List, [], ◌∷◌, ◌^◌, ok, if◌then◌else◌, ◌==◌, arith,
}
use network_simulation.Addressing.{create_broadcast_ip}
use network_simulation.Addressing.Macs.{mac_eq}
use network_simulation.L4.{Udp}
use network_simulation.L3.{encap_udp}
use network_simulation.Pdu.{Mpdu, encap_ip}
use network_simulation.Pdu.Frames.{IsHeader, open_udp-encap_ip}
use network_simulation.Dhcp
use network_simulation.Dhcp.{
  Dhcp, DhcpEntry, DhcpServer, dhcp_bytes, dhcp_offer, dhcp_ack, dhcp_nack,
}
use network_simulation.Dhcp.Messages.{IsQuery, Carries, generate_dhcp-dhcp_bytes}
use network_simulation.Dhcp.Leases.{held, IsLeases}
use network_simulation.Dhcp.Serve.{offered, lease, serve_discover, serve_request}
use network_simulation.Tests.Data.{mac_11, mac_22, blank_udp, header_1_to_2, frame_11_to_22}

header_1_to_2-IsHeader : IsHeader header_1_to_2
header_1_to_2-IsHeader = record { header = refl; source = omega arith; destination = omega arith }

-- The server has one lease, for 11:…:11.
abbrev lease_11 : DhcpEntry
lease_11 = record { mac = mac_11; ip = 0x6F6F6F6F; current_opcode = 2 }

abbrev dhcp_server : DhcpServer
dhcp_server = record { table = lease_11 ∷ []; gw_mac = mac_22; gw_ip = 0x09090909 }

abbrev message : ℕ → ℕ → Dhcp
message opcode client_ip = record { opcode = opcode; client_ip = client_ip; your_ip = 0 }

abbrev query : Dhcp → Udp
query m = record blank_udp { payload = dhcp_bytes m }

abbrev query_frame : Dhcp → Mpdu
query_frame m = encap_ip (encap_udp (query m) header_1_to_2) frame_11_to_22

query_frame-IsQuery :
    (opcode client_ip : ℕ)
    → client_ip < 2 ^ 32
    → IsQuery
        (query_frame (message opcode client_ip))
        (encap_udp (query (message opcode client_ip)) header_1_to_2)
        (query (message opcode client_ip))
        (message opcode client_ip)
query_frame-IsQuery opcode client_ip h = record {
  opens =
      open_udp-encap_ip (query (message opcode client_ip)) header_1_to_2 frame_11_to_22
        (record {
          source_port = omega arith;
          destination_port = omega arith;
          udp_length = omega arith;
          checksum = omega arith;
        })
        header_1_to_2-IsHeader (unfold dhcp_bytes in omega arith);
  header =
      unfold encap_udp in record { header = refl; source = omega arith; destination = omega arith };
  segment = record {
    source_port = omega arith;
    destination_port = omega arith;
    udp_length = omega arith;
    checksum = omega arith;
  };
  message =
      generate_dhcp-dhcp_bytes (message opcode client_ip)
        (record { client_ip = h; your_ip = omega arith });
  fits = record { client_ip = h; your_ip = omega arith };
}

leases : IsLeases dhcp_server.table
leases = unfold held in (refl, refl, omega arith, refl, tt)

serve_discover_example :
    (server' : DhcpServer) × (reply : Mpdu) × (Dhcp.serve 0 dhcp_server (query_frame (message 1 0))
      ≡ ok (server', reply ∷ []))
    × Carries mac_22
        (query_frame (message 1 0)).source_mac
        (record (encap_udp (query (message 1 0)) header_1_to_2) {
          source_ip = 0x09090909;
          destination_ip = create_broadcast_ip;
        })
        (record {
          opcode = dhcp_offer;
          client_ip = 0;
          your_ip = offered 0 dhcp_server (query_frame (message 1 0)).source_mac;
        })
        reply
    × IsLeases server'.table
    × ((x : List ℕ)
        → held server'.table x ≡ (
            if mac_eq x (query_frame (message 1 0)).source_mac
            then some (lease 0 dhcp_server (query_frame (message 1 0)).source_mac)
            else held dhcp_server.table x))
serve_discover_example =
    serve_discover 0 dhcp_server (query_frame (message 1 0))
      (encap_udp (query (message 1 0)) header_1_to_2) (query (message 1 0)) (message 1 0)
      (omega arith) (omega arith) leases (unfold encap_ip in refl)
      (query_frame-IsQuery 1 0 (omega arith)) refl

serve_request_example :
    (reply : Mpdu) × (Dhcp.serve 0 dhcp_server (query_frame (message 3 0x6F6F6F6F))
      ≡ ok (dhcp_server, reply ∷ []))
    × Carries mac_22
        (query_frame (message 3 0x6F6F6F6F)).source_mac
        (encap_udp (query (message 3 0x6F6F6F6F)) header_1_to_2)
        (if 0x6F6F6F6F == 0x6F6F6F6F
          then record (message 3 0x6F6F6F6F) { opcode = dhcp_ack }
          else record (message 3 0x6F6F6F6F) { opcode = dhcp_nack; your_ip = 0x6F6F6F6F })
        reply
serve_request_example =
    serve_request 0 dhcp_server (query_frame (message 3 0x6F6F6F6F))
      (encap_udp (query (message 3 0x6F6F6F6F)) header_1_to_2) (query (message 3 0x6F6F6F6F))
      (message 3 0x6F6F6F6F) lease_11 leases (unfold encap_ip in refl)
      (query_frame-IsQuery 3 0x6F6F6F6F (omega arith)) refl (unfold encap_ip held mac_eq in refl)
