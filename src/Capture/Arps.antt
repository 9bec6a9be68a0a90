-- ===== src/Capture/Arps.antt =====
-- What the lines of sim_tcpdump.cpp show of ARP messages and of UDP segments.
use mathlib.Core.List.{append-nil}
use network_simulation.Common.{
  ℕ, ◌<◌, ◌≡◌, refl, sym, ap, ◌∙◌, Bool-cases, inl, inr, List, [], ◌∷◌, ◌++◌, ok, if◌then◌else◌,
  ◌==◌, byte, be16, be32, codes, to_string, length, arith,
}
use network_simulation.Addressing.Macs.{IsMac}
use network_simulation.Addressing.Text.{
  mac_to_string, mac_to_string_at, ip_to_string, ip_to_string_at, mac_to_string-ok,
  ip_to_string_at-be32, mac_to_string_at-mac,
}
use network_simulation.L3.{Arp, get_arp_opcode, arp_request, arp_reply}
use network_simulation.Pdu.{Mpdu, encap_arp, get_size, mpdu_arp_type}
use network_simulation.Pdu.Arps.{FitsArp, arp_bytes, encap_arp_lem, mac_view}
use network_simulation.Capture.{arp_details, get_frame_details}

-- The message in the line, with the text of the sender's MAC.
unfoldable pub arp_text : List ℕ → Arp → List ℕ
arp_text sender_mac a =
    if a.opcode == arp_request
    then codes "\"Who has "
      ++ (ip_to_string a.target_ip ++ (codes "? Tell " ++ (ip_to_string a.sender_ip ++ codes "\"")))
    else if a.opcode == arp_reply
    then codes "\"" ++ (ip_to_string a.sender_ip ++ (codes " is at " ++ (sender_mac ++ codes "\"")))
    else []

-- The addresses in the bytes of a message.
arp_reads :
    (a : Arp) (t : List ℕ)
    → FitsArp a
    → a.opcode < 256
    → mac_to_string a.sender_mac ≡ ok t
    → (get_arp_opcode (arp_bytes a) ≡ ok a.opcode)
      × (ip_to_string_at (arp_bytes a) 8 ≡ ok (ip_to_string a.sender_ip))
      × (ip_to_string_at (arp_bytes a) 18 ≡ ok (ip_to_string a.target_ip))
      × (mac_to_string_at (arp_bytes a) 2 ≡ ok t)
      × (length (arp_bytes a) ≡ 22)
arp_reads a t w small et =
    let (s1, s2, s3, s4, s5, s6, es) = mac_view a.sender_mac w.sender_mac in
    let (t1, t2, t3, t4, t5, t6, er) = mac_view a.target_mac w.target_mac in
    let bytes : arp_bytes a
        ≡ be16 a.opcode
          ++ s1
            ∷ s2
            ∷ s3
            ∷ s4
            ∷ s5
            ∷ s6
            ∷ (be32 a.sender_ip ++ t1 ∷ t2 ∷ t3 ∷ t4 ∷ t5 ∷ t6 ∷ be32 a.target_ip) =
      unfold arp_bytes in rw (es, er) refl in
    let kind : byte a.opcode 0 ≡ a.opcode = omega arith in
    (
      unfold get_arp_opcode in rw (bytes, kind) refl,
      rw bytes (ip_to_string_at-be32 a.sender_ip 8 _ refl refl refl refl),
      rw bytes (ip_to_string_at-be32 a.target_ip 18 _ refl refl refl refl),
      rw bytes (mac_to_string_at-mac _ _ s1 s2 s3 s4 s5 s6 _ ∙ ap mac_to_string (sym es) ∙ et),
      rw bytes (omega arith),
    )

-- The line of a frame with an ARP message, from a MAC to a MAC: both MACs, ARP and 34 bytes, and for
-- a request who has the target's IP address, to be told to the sender's; for a reply the sender's IP
-- address and its MAC. The MACs have six bytes, and the opcode is less than 256, since only its low
-- byte is read.
pub arp_line :
    (a : Arp) (f : Mpdu)
    → FitsArp a
    → a.opcode < 256
    → IsMac f.source_mac
    → IsMac f.destination_mac
    → (g : Mpdu) × (source destination sender : List ℕ) × (encap_arp a f ≡ ok g)
      × (mac_to_string f.source_mac ≡ ok source)
      × (mac_to_string f.destination_mac ≡ ok destination)
      × (mac_to_string a.sender_mac ≡ ok sender)
      × (get_frame_details g
          ≡ ok (
              ((source ++ (codes " " ++ destination))
                ++ (codes " ARP " ++ (to_string 34 ++ codes " ")))
              ++ arp_text sender a))
arp_line a f w small vs vd =
    let (s, es) = mac_to_string-ok f.source_mac vs in
    let (d, ed) = mac_to_string-ok f.destination_mac vd in
    let (t, et) = mac_to_string-ok a.sender_mac w.sender_mac in
    let (kind, sender, target, mac, size) = arp_reads a t w small et in
    (
      record f { sdu_type = mpdu_arp_type; sdu = arp_bytes a },
      s,
      d,
      t,
      encap_arp_lem a f w,
      es,
      ed,
      et,
      unfold get_frame_details arp_details get_size arp_text in
          elim (Bool-cases (a.opcode == arp_request)) [
            | inl ask ↦ simp (es, ed, kind, sender, target, mac, size, ask)
            | inr no_ask ↦ elim (Bool-cases (a.opcode == arp_reply)) [
              | inl answer ↦ simp (es, ed, kind, sender, target, mac, size, no_ask, answer)
              | inr neither ↦ simp (es, ed, kind, size, no_ask, neither, append-nil)
            ]
          ],
    )
