-- ===== src/Tests/Formats.antt =====
-- Addresses and message formats.
use network_simulation.Common.{◌^◌, ◌/◌, ◌≡◌, ◌↔◌, refl, true, [], ◌∷◌, ok, arith}
use network_simulation.Addressing.{in_subnet}
use network_simulation.Addressing.Ips.{in_subnet_prefix}
use network_simulation.L4.{Udp, Tcp}
use network_simulation.L3.{generate_arp, encap_udp, encap_tcp}
use network_simulation.Pdu.{Mpdu, encap_ip, encap_arp, open_udp, open_tcp, mpdu_arp_type}
use network_simulation.Pdu.Frames.{open_tcp-encap_ip, open_udp-encap_ip}
use network_simulation.Pdu.Arps.{generate_arp-encap_arp}
use network_simulation.Dhcp.{Dhcp, generate_dhcp, dhcp_bytes}
use network_simulation.Dhcp.Messages.{generate_dhcp-dhcp_bytes}
use network_simulation.Tests.Data.{
  mac_11, mac_22, blank_udp, blank_tcp, header_1_to_2, frame_11_to_22, arp_question,
}

in_subnet_prefix_example :
    (in_subnet 0xC0A80001 0xC0A80002 0xFFFFFF00 ≡ true) ↔ (0xC0A80001 / 2 ^ 8 ≡ 0xC0A80002 / 2 ^ 8)
in_subnet_prefix_example =
    in_subnet_prefix 8 24 0xC0A80001 0xC0A80002 refl (omega arith) (omega arith)

abbrev hello_tcp : Tcp
hello_tcp = record blank_tcp { payload = 104 ∷ 105 ∷ [] }

open_tcp-encap_ip_example :
    open_tcp (encap_ip (encap_tcp hello_tcp header_1_to_2) frame_11_to_22)
    ≡ ok (encap_tcp hello_tcp header_1_to_2, hello_tcp)
open_tcp-encap_ip_example =
    open_tcp-encap_ip hello_tcp header_1_to_2 frame_11_to_22
      (record {
        source_port = omega arith;
        destination_port = omega arith;
        sequence_number = omega arith;
        ack_number = omega arith;
        details = omega arith;
        receive_window = omega arith;
        checksum = omega arith;
      })
      (record { header = refl; source = omega arith; destination = omega arith }) (omega arith)

abbrev hello_udp : Udp
hello_udp = record blank_udp { payload = 104 ∷ 105 ∷ [] }

open_udp-encap_ip_example :
    open_udp (encap_ip (encap_udp hello_udp header_1_to_2) frame_11_to_22)
    ≡ ok (encap_udp hello_udp header_1_to_2, hello_udp)
open_udp-encap_ip_example =
    open_udp-encap_ip hello_udp header_1_to_2 frame_11_to_22
      (record {
        source_port = omega arith;
        destination_port = omega arith;
        udp_length = omega arith;
        checksum = omega arith;
      })
      (record { header = refl; source = omega arith; destination = omega arith }) (omega arith)

generate_arp-encap_arp_example :
    (g : Mpdu) × (encap_arp arp_question frame_11_to_22 ≡ ok g)
    × (generate_arp g.sdu ≡ ok arp_question)
    × (g.sdu_type ≡ mpdu_arp_type)
    × (g.destination_mac ≡ mac_22)
    × (g.source_mac ≡ mac_11)
generate_arp-encap_arp_example = generate_arp-encap_arp arp_question frame_11_to_22 (record {
  opcode = omega arith;
  sender_mac = refl;
  sender_ip = omega arith;
  target_mac = refl;
  target_ip = omega arith;
})

abbrev discover_message : Dhcp
discover_message = record { opcode = 1; client_ip = 0; your_ip = 0xFFFFFFFF }

generate_dhcp-dhcp_bytes_example : generate_dhcp (dhcp_bytes discover_message) ≡ ok discover_message
generate_dhcp-dhcp_bytes_example =
    generate_dhcp-dhcp_bytes discover_message
      (record { client_ip = omega arith; your_ip = omega arith })
