-- ===== src/Gateway/Arp.antt =====
-- What the gateway does with a frame that it was not made for: an ARP message.
use mathlib.Core.Path.{subst, subst⁻¹}
use network_simulation.Common.{
  ℕ, zero, suc, ◌≤◌, ◌<◌, ◌-◌, ◌≡◌, ◌⊎◌, All, refl, false, List, [], ◌∷◌, ok, fault, ltb, drop,
  length, byte, join16, join16_lem, arith,
}
use network_simulation.L3.{Arp, generate_ip, slice, arp_request, arp_reply}
use network_simulation.Pdu.{Mpdu, encap_arp, open_udp}
use network_simulation.Pdu.Frames.{slice-drop}
use network_simulation.Pdu.Arps.{FitsArp, arp_bytes, encap_arp_lem, mac_view}
use network_simulation.Gateway.{Gateway, run}

slice_out : (v : List ℕ) (n : ℕ) → length v < n → slice v 0 n ≡ fault
slice_out v zero h = absurd (omega arith)
slice_out [] (suc n) h = refl
slice_out (x ∷ v) (suc n) h = rw (slice-drop (x ∷ v) 1 n, slice_out v n (omega arith))

-- The opcode and the first byte of the sender are read as lengths.
lengths :
    (opcode s : ℕ)
    → (opcode ≡ arp_request) ⊎ (opcode ≡ arp_reply)
    → s < 256
    → (byte opcode 1 ≡ 0) × (256 ≤ join16 (byte opcode 0) s)
lengths opcode s o h = omega (arith, join16_lem (byte opcode 0) s (omega arith) h)

generate_ip-arp_bytes_explicit :
    (a : Arp) (s1 s2 s3 s4 s5 s6 t1 t2 t3 t4 t5 t6 : ℕ)
    → (a.opcode ≡ arp_request) ⊎ (a.opcode ≡ arp_reply)
    → s1 < 256
    → generate_ip (
        arp_bytes (record a {
          sender_mac = s1 ∷ s2 ∷ s3 ∷ s4 ∷ s5 ∷ s6 ∷ [];
          target_mac = t1 ∷ t2 ∷ t3 ∷ t4 ∷ t5 ∷ t6 ∷ [];
        }))
      ≡ fault
unfolding generate_ip arp_bytes
generate_ip-arp_bytes_explicit a s1 s2 s3 s4 s5 s6 t1 t2 t3 t4 t5 t6 o h =
    let (zero_header, large) = lengths a.opcode s1 o h in
    let long : ltb (join16 (byte a.opcode 0) s1) (byte a.opcode 1) ≡ false = ground arith in
    let u : List ℕ = arp_bytes (record a {
      sender_mac = s1 ∷ s2 ∷ s3 ∷ s4 ∷ s5 ∷ s6 ∷ [];
      target_mac = t1 ∷ t2 ∷ t3 ∷ t4 ∷ t5 ∷ t6 ∷ [];
    }) in
    let n : ℕ = join16 (byte a.opcode 0) s1 - byte a.opcode 1 in
    let past : 22 < n = omega arith in
    rw (long, slice-drop u 12 n) (rw (slice_out (drop 12 u) n (omega arith)))

-- An ARP request or reply that reaches the gateway, in whatever frame, is read as an IP packet whose
-- length is at least 256, which runs past the 22 bytes that are there.
pub run_faults_on_arp :
    (a : Arp) (f : Mpdu) (g : Gateway)
    → FitsArp a
    → (a.opcode ≡ arp_request) ⊎ (a.opcode ≡ arp_reply)
    → All (λ b. b < 256) a.sender_mac
    → (h : Mpdu) × (encap_arp a f ≡ ok h) × (run h g ≡ fault)
unfolding run open_udp
run_faults_on_arp a f g w o bytes =
    let (s1, s2, s3, s4, s5, s6, es) = mac_view a.sender_mac w.sender_mac in
    let (t1, t2, t3, t4, t5, t6, et) = mac_view a.target_mac w.target_mac in
    let first : s1 < 256 = (subst (All (λ b. b < 256)) es bytes).0 in
    let past_end =
      subst⁻¹ (λ (b : Arp). generate_ip (arp_bytes b) ≡ fault)
        (λ i. record a { sender_mac = es i; target_mac = et i })
        (generate_ip-arp_bytes_explicit a s1 s2 s3 s4 s5 s6 t1 t2 t3 t4 t5 t6 o first) in
    (_, encap_arp_lem a f w, rw past_end)
