-- ===== src/Capture/Lines.antt =====
-- What the lines of sim_tcpdump.cpp show of the packets that the hosts send.
use network_simulation.Common.{
  ℕ, ◌+◌, ◌*◌, ◌%◌, ◌^◌, ◌<◌, ◌≡◌, refl, ◌∙◌, true, false, List, [], ◌∷◌, ◌++◌, Run, ok, at, ◌>>=◌,
  if◌then◌else◌, ltb, ◌==◌, ◌||◌, Bool-cases, inl, inr, byte, codes, to_string, length, arith,
}
use network_simulation.Addressing.Macs.{IsMac}
use network_simulation.Addressing.Text.{ip_to_string, mac_to_string-ok}
use network_simulation.L4.{Tcp, Udp}
use network_simulation.L3.{
  Icmp, Ip, encap_tcp, encap_icmp, encap_udp, tcp_bytes, icmp_bytes, udp_bytes, get_ip_protocol,
  get_ping_type, icmp_echo_request, icmp_echo_reply,
}
use network_simulation.L3.Codec.{FitsTcp, FitsIcmp, FitsUdp}
use network_simulation.Pdu.{Mpdu, encap_ip}
use network_simulation.Pdu.Frames.{
  IsHeader, IsPacket, encap_tcp-IsPacket, encap_icmp-IsPacket, encap_udp-IsPacket,
}
use network_simulation.Pdu.Sizes.{sdu-encap_ip, get_size-tcp, get_size-icmp, get_size-udp}
use network_simulation.Capture.{
  dhcp_name, tcp_details, icmp_details, udp_details, ip_details, get_frame_details,
}

shown16-be16 : (v : ℕ) → v < 2 ^ 16 → byte v 1 * 2 ^ 8 + byte v 0 ≡ v
shown16-be16 v h = omega arith

shown32-be32 :
    (v : ℕ)
    → v < 2 ^ 32
    → (byte v 3 * 2 ^ 24 + byte v 2 * 2 ^ 16 + byte v 1 * 2 ^ 8 + byte v 0) % 2 ^ 32 ≡ v
shown32-be32 v h = omega arith

-- The text for a TCP segment, its size in the frame included.
unfoldable pub tcp_text : Tcp → List ℕ
tcp_text s =
    codes " TCP "
    ++ (to_string (42 + length s.payload)
        ++ (codes "\t\""
            ++ (to_string s.source_port
                ++ (codes "->"
                    ++ (to_string s.destination_port
                        ++ (codes " Seq="
                            ++ (to_string s.sequence_number
                                ++ (codes "\tAck=" ++ (to_string s.ack_number ++ codes "\"")))))))))

tcp_details_lem :
    (s : Tcp) (p : Ip) (f : Mpdu)
    → FitsTcp s
    → IsHeader p
    → 30 + length s.payload < 2 ^ 16
    → tcp_details (encap_ip (encap_tcp s p) f) ≡ ok (tcp_text s)
unfolding tcp_details tcp_text
tcp_details_lem s p f w h room =
    rw (get_size-tcp s p f h room, sdu-encap_ip (encap_tcp s p) f (encap_tcp-IsPacket s p h room))
      (unfold encap_tcp tcp_bytes in
        rw
          (
            shown16-be16 s.source_port w.source_port,
            shown16-be16 s.destination_port w.destination_port,
            shown32-be32 s.sequence_number w.sequence_number,
            shown32-be32 s.ack_number w.ack_number,
          )
          refl)

-- What the line shows for a number of two bytes in an ICMP message: its low byte, and 1 more where
-- the high byte is less than 8.
unfoldable pub shown_low : ℕ → ℕ
shown_low v = (if ltb v (2 ^ 11) then 1 else 0) + v % 256

shown_low-be16 : (v : ℕ) → v < 2 ^ 16 → (if ltb (byte v 1) 8 then 1 else 0) + byte v 0 ≡ shown_low v
unfolding shown_low
shown_low-be16 v small = elim (Bool-cases (ltb v (2 ^ 11))) [
  | inl low ↦
      let same : ltb (byte v 1) 8 ≡ true = ground (arith, low, small) in
      rw (low, same) (omega arith)
  | inr high ↦
      let same : ltb (byte v 1) 8 ≡ false = ground (arith, high, small) in
      rw (high, same) (omega arith)
]

unfoldable pub icmp_text : Icmp → List ℕ
icmp_text m =
    codes " ICMP "
    ++ (to_string (32 + length m.payload)
        ++ (codes " \"Echo (ping) "
            ++ ((if m.icmp_type == icmp_echo_request
                  then codes "request\t"
                  else if m.icmp_type == icmp_echo_reply
                  then codes "reply\t"
                  else [])
                ++ (codes "id="
                    ++ (to_string (shown_low m.identifier)
                        ++ (codes ", seq="
                            ++ (to_string (shown_low m.sequence_number) ++ codes "\"")))))))

icmp_details_lem :
    (m : Icmp) (p : Ip) (f : Mpdu)
    → FitsIcmp m
    → IsHeader p
    → 20 + length m.payload < 2 ^ 16
    → icmp_details (encap_ip (encap_icmp m p) f) ≡ ok (icmp_text m)
unfolding icmp_details icmp_text get_ping_type
icmp_details_lem m p f w h room =
    rw
      (get_size-icmp m p f h room, sdu-encap_ip (encap_icmp m p) f (encap_icmp-IsPacket m p h room))
      (unfold encap_icmp icmp_bytes in
        rw
          (
            shown_low-be16 m.identifier w.identifier,
            shown_low-be16 m.sequence_number w.sequence_number,
          )
          refl)

-- The text for a UDP segment: a DHCP message by its opcode, any other segment by its ports.
unfoldable pub udp_text : ℕ → Udp → List ℕ
udp_text opcode s =
    let size = to_string (32 + length s.payload) in
    if s.source_port == 68 || s.source_port == 67
    then codes " DHCP " ++ (size ++ (codes "\t\"" ++ dhcp_name opcode))
    else codes " UDP "
      ++ (size
          ++ (codes "\t\"Source port: "
              ++ (to_string s.source_port
                  ++ (codes " Destination port: "
                      ++ (to_string s.destination_port ++ codes "\"")))))

udp_details_lem :
    (s : Udp) (p : Ip) (f : Mpdu) (opcode : ℕ) (others : List ℕ)
    → FitsUdp s
    → IsHeader p
    → 20 + length s.payload < 2 ^ 16
    → s.payload ≡ opcode ∷ others
    → udp_details (encap_ip (encap_udp s p) f) ≡ ok (udp_text opcode s)
unfolding udp_details udp_text
udp_details_lem s p f opcode others w h room e =
    let first : at (udp_bytes s) 8 ≡ ok opcode = unfold udp_bytes in rw e refl in
    rw (get_size-udp s p f h room, sdu-encap_ip (encap_udp s p) f (encap_udp-IsPacket s p h room))
      (unfold encap_udp udp_bytes in
        elim (Bool-cases (s.source_port == 68 || s.source_port == 67)) [
          | inl dhcp ↦ simp (shown16-be16 s.source_port w.source_port, dhcp, first)
          | inr other ↦ simp (
            shown16-be16 s.source_port w.source_port,
            shown16-be16 s.destination_port w.destination_port,
            other,
          )
        ])

-- The beginning of the line of a packet.
unfoldable pub line_of : (source destination : ℕ) → List ℕ → List ℕ
line_of source destination details =
    ip_to_string source ++ (codes " " ++ (ip_to_string destination ++ (codes " " ++ details)))

get_frame_details-packet :
    (p : Ip) (f : Mpdu)
    → IsPacket p
    → IsMac f.source_mac
    → IsMac f.destination_mac
    → get_frame_details (encap_ip p f) ≡ ip_details (encap_ip p f)
unfolding get_frame_details
get_frame_details-packet p f w vs vd =
    let (s, es) = mac_to_string-ok f.source_mac vs in
    let (d, ed) = mac_to_string-ok f.destination_mac vd in unfold encap_ip in rw (es, ed) refl

ip_details-packet :
    (p : Ip) (f : Mpdu) (details : Run (List ℕ))
    → IsPacket p
    → (if p.protocol == 1
        then icmp_details (encap_ip p f)
        else if p.protocol == 6
        then tcp_details (encap_ip p f)
        else if p.protocol == 17
        then udp_details (encap_ip p f)
        else ok [])
      ≡ details
    → ip_details (encap_ip p f) ≡ (do t ← details; ok (line_of p.source_ip p.destination_ip t))
unfolding ip_details get_ip_protocol line_of
ip_details-packet p f details w e = simp (
  sdu-encap_ip p f w,
  shown32-be32 p.source_ip w.source,
  shown32-be32 p.destination_ip w.destination,
  e,
)

-- The line of a frame with a TCP segment from one address to another: both IP addresses, TCP, the
-- size of the frame, the ports of the segment and its sequence and ACK numbers, in decimal.
pub tcp_line :
    (s : Tcp) (p : Ip) (f : Mpdu)
    → FitsTcp s
    → IsHeader p
    → 30 + length s.payload < 2 ^ 16
    → IsMac f.source_mac
    → IsMac f.destination_mac
    → get_frame_details (encap_ip (encap_tcp s p) f)
      ≡ ok (line_of p.source_ip p.destination_ip (tcp_text s))
tcp_line s p f w h room vs vd =
    let v = encap_tcp-IsPacket s p h room in
    get_frame_details-packet (encap_tcp s p) f v vs vd
    ∙ ip_details-packet (encap_tcp s p) f (ok (tcp_text s)) v
        (unfold encap_tcp in rw (tcp_details_lem s p f w h room) refl)
    ∙ unfold encap_tcp in refl

-- The line of a frame with an ICMP message: both IP addresses, ICMP, the size of the frame and
-- request or reply. Of the identifier and of the sequence number it shows the low byte only, plus 1
-- where the number is less than 2 ^ 11: the source compares the high byte with 8 where it means to
-- shift it.
pub icmp_line :
    (m : Icmp) (p : Ip) (f : Mpdu)
    → FitsIcmp m
    → IsHeader p
    → 20 + length m.payload < 2 ^ 16
    → IsMac f.source_mac
    → IsMac f.destination_mac
    → get_frame_details (encap_ip (encap_icmp m p) f)
      ≡ ok (line_of p.source_ip p.destination_ip (icmp_text m))
icmp_line m p f w h room vs vd =
    let v = encap_icmp-IsPacket m p h room in
    get_frame_details-packet (encap_icmp m p) f v vs vd
    ∙ ip_details-packet (encap_icmp m p) f (ok (icmp_text m)) v
        (unfold encap_icmp in rw (icmp_details_lem m p f w h room) refl)
    ∙ unfold encap_icmp in refl

-- The line of a frame with a UDP segment that has some data: both IP addresses and the size of the
-- frame; from the port 67 or 68 it is called DHCP, and its first byte gives the name of the message;
-- from any other port it is called UDP, with both ports in decimal.
pub udp_line :
    (s : Udp) (p : Ip) (f : Mpdu) (opcode : ℕ) (others : List ℕ)
    → FitsUdp s
    → IsHeader p
    → 20 + length s.payload < 2 ^ 16
    → s.payload ≡ opcode ∷ others
    → IsMac f.source_mac
    → IsMac f.destination_mac
    → get_frame_details (encap_ip (encap_udp s p) f)
      ≡ ok (line_of p.source_ip p.destination_ip (udp_text opcode s))
udp_line s p f opcode others w h room e vs vd =
    let v = encap_udp-IsPacket s p h room in
    get_frame_details-packet (encap_udp s p) f v vs vd
    ∙ ip_details-packet (encap_udp s p) f (ok (udp_text opcode s)) v
        (unfold encap_udp in rw (udp_details_lem s p f opcode others w h room e) refl)
    ∙ unfold encap_udp in refl
