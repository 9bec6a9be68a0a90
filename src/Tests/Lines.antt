-- ===== src/Tests/Lines.antt =====
-- Lines of text for frames and addresses.
use network_simulation.Common.{
  true, ℕ, ◌≡◌, refl, true, List, [], ◌∷◌, ◌++◌, ok, codes, to_string, to_hex, arith,
}
use network_simulation.Addressing.Text.{
  mac_to_string, mac_to_string_at, ip_to_string_at, ip_to_string, read_ip, read_ip-ip_to_string,
}
use network_simulation.L3.{get_arp_opcode, encap_tcp, encap_udp, encap_icmp}
use network_simulation.Pdu.{Mpdu, get_size, mpdu_arp_type, encap_ip, encap_arp}
use network_simulation.Capture.{get_frame_details, arp_details}
use network_simulation.Capture.Lines.{
  tcp_text, udp_text, icmp_text, line_of, tcp_line, udp_line, icmp_line,
}
use network_simulation.Capture.Arps.{arp_text, arp_line}
use network_simulation.DataLinks.{EthernetLink, wire_1, wire_2, new_link, statement}
use network_simulation.DataLinks.Monitor.{
  Sending, Monitored, no_more, one_more, link_numbers_frames,
}
use network_simulation.Tests.Data.{
  mac_11, mac_22, blank_tcp, blank_udp, header_1_to_2, frame_11_to_22, frame_22_to_11, echo_request,
  arp_question,
}

read_ip-ip_to_string_example : read_ip 0 0 (ip_to_string 0x0A00FF01) ≡ 0x0A00FF01
read_ip-ip_to_string_example = read_ip-ip_to_string 0x0A00FF01 (omega arith)

tcp_line_example :
    get_frame_details (encap_ip (encap_tcp blank_tcp header_1_to_2) frame_11_to_22)
    ≡ ok (line_of 0x0A000001 0x0A000002 (tcp_text blank_tcp))
tcp_line_example =
    tcp_line blank_tcp header_1_to_2 frame_11_to_22
      (record {
        source_port = omega arith;
        destination_port = omega arith;
        sequence_number = omega arith;
        ack_number = omega arith;
        details = omega arith;
        receive_window = omega arith;
        checksum = omega arith;
      })
      (record { header = refl; source = omega arith; destination = omega arith }) (omega arith) refl
      refl

udp_line_example :
    get_frame_details
      (encap_ip (encap_udp (record blank_udp { payload = 1 ∷ [] }) header_1_to_2) frame_11_to_22)
    ≡ ok (line_of 0x0A000001 0x0A000002 (udp_text 1 (record blank_udp { payload = 1 ∷ [] })))
udp_line_example =
    udp_line (record blank_udp { payload = 1 ∷ [] }) header_1_to_2 frame_11_to_22 1 []
      (record {
        source_port = omega arith;
        destination_port = omega arith;
        udp_length = omega arith;
        checksum = omega arith;
      })
      (record { header = refl; source = omega arith; destination = omega arith }) (omega arith) refl
      refl refl

icmp_line_example :
    get_frame_details (encap_ip (encap_icmp echo_request header_1_to_2) frame_11_to_22)
    ≡ ok (line_of 0x0A000001 0x0A000002 (icmp_text echo_request))
icmp_line_example =
    icmp_line echo_request header_1_to_2 frame_11_to_22
      (record { checksum = omega arith; identifier = omega arith; sequence_number = omega arith })
      (record { header = refl; source = omega arith; destination = omega arith }) (omega arith) refl
      refl

arp_line_here :
    (g : Mpdu) × (source destination sender : List ℕ) × (encap_arp arp_question frame_11_to_22
      ≡ ok g)
    × (mac_to_string mac_11 ≡ ok source)
    × (mac_to_string mac_22 ≡ ok destination)
    × (mac_to_string mac_11 ≡ ok sender)
    × (get_frame_details g
        ≡ ok (
            ((source ++ (codes " " ++ destination))
              ++ (codes " ARP " ++ (to_string 34 ++ codes " ")))
            ++ arp_text sender arp_question))
arp_line_here =
    arp_line arp_question frame_11_to_22
      (record {
        opcode = omega arith;
        sender_mac = refl;
        sender_ip = omega arith;
        target_mac = refl;
        target_ip = omega arith;
      })
      (omega arith) refl refl

-- What a line looks like.
shown_address : ip_to_string 0x0A00FF01 ≡ codes "10.0.255.1"
unfolding ip_to_string to_string
shown_address = refl

shown_mac : mac_to_string (0 ∷ 10 ∷ 17 ∷ 34 ∷ 171 ∷ 255 ∷ []) ≡ ok (codes "00:0A:11:22:AB:FF")
unfolding mac_to_string to_hex
shown_mac = refl

-- A frame of no known type one way and the answer of an ARP cache the other way.
abbrev arp_answer : Mpdu
arp_answer = record frame_22_to_11 {
  sdu_type = mpdu_arp_type;
  sdu = 0 ∷ 2 ∷ mac_22 ++ (10 ∷ 0 ∷ 0 ∷ 2 ∷ mac_11 ++ 10 ∷ 0 ∷ 0 ∷ 1 ∷ []);
}

shown_other : get_frame_details frame_11_to_22 ≡ ok (codes "11:11:11:11:11:11 22:22:22:22:22:22")
unfolding get_frame_details mac_to_string to_hex
shown_other = refl

abbrev arp_answer_text : List ℕ
arp_answer_text =
    codes "22:22:22:22:22:22 11:11:11:11:11:11 ARP 34 \"10.0.0.2 is at 22:22:22:22:22:22\""

shown_arp_answer : get_frame_details arp_answer ≡ ok arp_answer_text
unfolding get_frame_details arp_details mac_to_string mac_to_string_at to_hex ip_to_string_at
    ip_to_string to_string get_size get_arp_opcode
shown_arp_answer = refl

abbrev two_sendings : List Sending
two_sendings =
    record { elapsed = codes "0.5"; side = wire_1; tx_frame = frame_11_to_22 }
    ∷ record { elapsed = codes "0.7"; side = wire_2; tx_frame = arp_answer }
    ∷ []

link_numbers_frames_example :
    (lines : List (List ℕ)) × (l' : EthernetLink) × Monitored two_sendings
      (new_link true (codes "AB"))
      lines
      l'
link_numbers_frames_example =
    link_numbers_frames two_sendings (new_link true (codes "AB")) (unfold new_link in refl)
      (unfold new_link in omega arith)
      (one_more _ shown_other (one_more _ shown_arp_answer no_more))

shown_statement :
    statement (codes "AB") (codes "0.7") 2 arp_answer_text
    ≡ codes "[AB] 2 0.7 22:22:22:22:22:22 11:11:11:11:11:11 ARP 34 "
      ++ codes "\"10.0.0.2 is at 22:22:22:22:22:22\""
unfolding statement to_string
shown_statement = refl

-- Two frames of which the second is lost.
abbrev second_sending : Sending
second_sending = record { elapsed = codes "0.7"; side = wire_1; tx_frame = arp_answer }

abbrev first_sending : Sending
first_sending = record { elapsed = codes "0.5"; side = wire_1; tx_frame = frame_11_to_22 }
