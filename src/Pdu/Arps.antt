-- ===== src/Pdu/Arps.antt =====
-- ARP messages survive the frame that carries them.
use mathlib.Core.Path.{subst⁻¹}
use network_simulation.Common.{
  ℕ, ◌^◌, ◌<◌, ◌≡◌, refl, List, [], ◌∷◌, ◌++◌, ok, be16, be32, join16-be16, join32-be32, arith,
}
use network_simulation.Addressing.Macs.{IsMac}
use network_simulation.L3.{Arp, generate_arp, slice}
use network_simulation.Pdu.{Mpdu, encap_arp, mpdu_arp_type}
use network_simulation.Pdu.Frames.{slice-length}

-- Six bytes, one by one.
pub mac_view :
    (m : List ℕ)
    → IsMac m
    → (a : ℕ) × (b : ℕ) × (c : ℕ) × (d : ℕ) × (e : ℕ) × (f : ℕ) × (m ≡ a ∷ b ∷ c ∷ d ∷ e ∷ f ∷ [])
mac_view (a ∷ b ∷ c ∷ d ∷ e ∷ f ∷ []) h = (a, b, c, d, e, f, refl)
mac_view m h = absurd (omega arith)

pub record FitsArp (a : Arp) : Type 0 where
  pub opcode : a.opcode < 2 ^ 16
  pub sender_mac : IsMac a.sender_mac
  pub sender_ip : a.sender_ip < 2 ^ 32
  pub target_mac : IsMac a.target_mac
  pub target_ip : a.target_ip < 2 ^ 32

-- The contents of an ARP frame.
unfoldable pub arp_bytes : Arp → List ℕ
arp_bytes a =
    be16 a.opcode ++ (a.sender_mac ++ (be32 a.sender_ip ++ (a.target_mac ++ be32 a.target_ip)))

generate_arp-arp_bytes_explicit :
    (a : Arp) (s1 s2 s3 s4 s5 s6 t1 t2 t3 t4 t5 t6 : ℕ)
    → FitsArp a
    → let a' : Arp = record a {
      sender_mac = s1 ∷ s2 ∷ s3 ∷ s4 ∷ s5 ∷ s6 ∷ [];
      target_mac = t1 ∷ t2 ∷ t3 ∷ t4 ∷ t5 ∷ t6 ∷ [];
    } in
      generate_arp (arp_bytes a') ≡ ok a'
unfolding generate_arp arp_bytes
generate_arp-arp_bytes_explicit a s1 s2 s3 s4 s5 s6 t1 t2 t3 t4 t5 t6 w = rw (
  join16-be16 a.opcode w.opcode,
  join32-be32 a.sender_ip w.sender_ip,
  join32-be32 a.target_ip w.target_ip,
)

pub generate_arp-arp_bytes : (a : Arp) → FitsArp a → generate_arp (arp_bytes a) ≡ ok a
generate_arp-arp_bytes a w =
    let (s1, s2, s3, s4, s5, s6, es) = mac_view a.sender_mac w.sender_mac in
    let (t1, t2, t3, t4, t5, t6, et) = mac_view a.target_mac w.target_mac in
    subst⁻¹ (λ (b : Arp). generate_arp (arp_bytes b) ≡ ok b)
      (λ i. record a { sender_mac = es i; target_mac = et i })
      (generate_arp-arp_bytes_explicit a s1 s2 s3 s4 s5 s6 t1 t2 t3 t4 t5 t6 w)

slice_mac : (m : List ℕ) → IsMac m → slice m 0 6 ≡ ok m
slice_mac m h = rw h at (slice-length m)

pub encap_arp_lem :
    (a : Arp) (f : Mpdu)
    → FitsArp a
    → encap_arp a f ≡ ok (record f { sdu_type = mpdu_arp_type; sdu = arp_bytes a })
unfolding encap_arp arp_bytes
encap_arp_lem a f w = rw (slice_mac a.sender_mac w.sender_mac, slice_mac a.target_mac w.target_mac)

-- An ARP message with MACs of six bytes can be put into a frame and comes out of it as it was; the
-- frame keeps its addresses and gets the ARP type.
pub generate_arp-encap_arp :
    (a : Arp) (f : Mpdu)
    → FitsArp a
    → (g : Mpdu) × (encap_arp a f ≡ ok g)
      × (generate_arp g.sdu ≡ ok a)
      × (g.sdu_type ≡ mpdu_arp_type)
      × (g.destination_mac ≡ f.destination_mac)
      × (g.source_mac ≡ f.source_mac)
generate_arp-encap_arp a f w = (
  record f { sdu_type = mpdu_arp_type; sdu = arp_bytes a },
  encap_arp_lem a f w,
  generate_arp-arp_bytes a w,
  refl,
  refl,
  refl,
)
