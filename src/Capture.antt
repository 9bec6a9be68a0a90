-- ===== src/Capture.antt =====
-- sim_tcpdump.cpp: the line of text that a monitored wire prints for a frame.
pub mod Lines
pub mod Arps
use network_simulation.Common.{
  ℕ, ◌+◌, ◌*◌, ◌%◌, ◌^◌, Bool, true, false, ◌||◌, List, [], ◌∷◌, ◌++◌, Run, ok, at, ◌>>=◌,
  if◌then◌else◌, ltb, ◌==◌, codes, to_string,
}
use network_simulation.Addressing.Text.{
  mac_to_string, mac_to_string_at, ip_to_string, ip_to_string_at,
}
use network_simulation.L3.{
  get_arp_opcode, get_ip_protocol, get_ping_type, arp_request, arp_reply, icmp_echo_request,
  icmp_echo_reply, ip_protocol_icmp, ip_protocol_tcp, ip_protocol_udp, ip_header_size,
}
use network_simulation.Pdu.{Mpdu, get_size, mpdu_arp_type, mpdu_ip_type}

abbrev udp_header_size : ℕ
udp_header_size = 8

-- `(payload[i] << 8) + payload[i + 1]`, an int.
abbrev shown16 : List ℕ → ℕ → Run ℕ
shown16 payload i = do hi ← at payload i; lo ← at payload (i + 1); ok (hi * 2 ^ 8 + lo)

-- Four bytes from `payload[i]` on, as a uint32_t.
abbrev shown32 : List ℕ → ℕ → Run ℕ
shown32 payload i = do
  b3 ← at payload i
  b2 ← at payload (i + 1)
  b1 ← at payload (i + 2)
  b0 ← at payload (i + 3)
  ok ((b3 * 2 ^ 24 + b2 * 2 ^ 16 + b1 * 2 ^ 8 + b0) % 2 ^ 32)

-- `(payload[i] < 8) + payload[i + 1]`: the source compares here and does not shift.
abbrev compared16 : List ℕ → ℕ → Run ℕ
compared16 payload i = do
  hi ← at payload i
  lo ← at payload (i + 1)
  ok ((if ltb hi 8 then 1 else 0) + lo)

-- `case MPDU_ARP_TYPE`.
unfoldable pub arp_details : List ℕ → Mpdu → Run (List ℕ)
arp_details macs tx_frame = do
  opcode ← get_arp_opcode tx_frame.sdu
  let head = macs ++ (codes " ARP " ++ (to_string (get_size tx_frame) ++ codes " "))
  if opcode == arp_request
      then (do
        target ← ip_to_string_at tx_frame.sdu 18
        sender ← ip_to_string_at tx_frame.sdu 8
        ok (
            head
            ++ (codes "\"Who has " ++ (target ++ (codes "? Tell " ++ (sender ++ codes "\""))))))
      else if opcode == arp_reply
      then (do
        sender ← ip_to_string_at tx_frame.sdu 8
        mac ← mac_to_string_at tx_frame.sdu 2
        ok (head ++ (codes "\"" ++ (sender ++ (codes " is at " ++ (mac ++ codes "\""))))))
      else ok head

unfoldable pub icmp_details : Mpdu → Run (List ℕ)
icmp_details tx_frame = do
  ping_type ← get_ping_type tx_frame.sdu
  id ← compared16 tx_frame.sdu (ip_header_size + 4)
  seq ← compared16 tx_frame.sdu (ip_header_size + 6)
  ok (
      codes " ICMP "
      ++ (to_string (get_size tx_frame)
          ++ (codes " \"Echo (ping) "
              ++ ((if ping_type == icmp_echo_request
                    then codes "request\t"
                    else if ping_type == icmp_echo_reply
                    then codes "reply\t"
                    else [])
                  ++ (codes "id="
                      ++ (to_string id ++ (codes ", seq=" ++ (to_string seq ++ codes "\""))))))))

unfoldable pub tcp_details : Mpdu → Run (List ℕ)
tcp_details tx_frame = do
  source_port ← shown16 tx_frame.sdu ip_header_size
  destination_port ← shown16 tx_frame.sdu (ip_header_size + 2)
  seq ← shown32 tx_frame.sdu (ip_header_size + 4)
  ack ← shown32 tx_frame.sdu (ip_header_size + 8)
  ok (
      codes " TCP "
      ++ (to_string (get_size tx_frame)
          ++ (codes "\t\""
              ++ (to_string source_port
                  ++ (codes "->"
                      ++ (to_string destination_port
                          ++ (codes " Seq="
                              ++ (to_string seq
                                  ++ (codes "\tAck=" ++ (to_string ack ++ codes "\""))))))))))

-- The name of a DHCP message.
abbrev pub dhcp_name : ℕ → List ℕ
dhcp_name opcode =
    if opcode == 1
    then codes "DHCP Discover\""
    else if opcode == 2
    then codes "DHCP Offer\""
    else if opcode == 3
    then codes "DHCP Request\""
    else if opcode == 5
    then codes "DHCP ACK\""
    else if opcode == 6
    then codes "DHCP NACK\""
    else []

unfoldable pub udp_details : Mpdu → Run (List ℕ)
udp_details tx_frame = do
  source_port ← shown16 tx_frame.sdu ip_header_size
  let size = to_string (get_size tx_frame)
  if source_port == 68 || source_port == 67
      then (do
        opcode ← at tx_frame.sdu (ip_header_size + udp_header_size)
        ok (codes " DHCP " ++ (size ++ (codes "\t\"" ++ dhcp_name opcode))))
      else (do
        destination_port ← shown16 tx_frame.sdu (ip_header_size + 2)
        ok (
            codes " UDP "
            ++ (size
                ++ (codes "\t\"Source port: "
                    ++ (to_string source_port
                        ++ (codes " Destination port: "
                            ++ (to_string destination_port ++ codes "\"")))))))

-- `case MPDU_IP_TYPE`: the addresses of the packet take the place of the MACs.
unfoldable pub ip_details : Mpdu → Run (List ℕ)
ip_details tx_frame = do
  source ← shown32 tx_frame.sdu 4
  destination ← shown32 tx_frame.sdu 8
  protocol ← get_ip_protocol tx_frame.sdu
  details ←
      if protocol == ip_protocol_icmp
      then icmp_details tx_frame
      else if protocol == ip_protocol_tcp
      then tcp_details tx_frame
      else if protocol == ip_protocol_udp
      then udp_details tx_frame
      else ok []
  ok (ip_to_string source ++ (codes " " ++ (ip_to_string destination ++ (codes " " ++ details))))

unfoldable pub get_frame_details : Mpdu → Run (List ℕ)
get_frame_details tx_frame = do
  source ← mac_to_string tx_frame.source_mac
  destination ← mac_to_string tx_frame.destination_mac
  let macs = source ++ (codes " " ++ destination)
  if tx_frame.sdu_type == mpdu_arp_type
      then arp_details macs tx_frame
      else if tx_frame.sdu_type == mpdu_ip_type
      then ip_details tx_frame
      else ok macs
