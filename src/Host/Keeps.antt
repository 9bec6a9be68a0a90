-- ===== src/Host/Keeps.antt =====
-- What no incoming frame changes of a host.
use network_simulation.Common.{
  ℕ, zero, suc, read16, read32, ◌+◌, ◌≡◌, refl, ap, ◌∙◌, ◌⊎◌, inl, inr, true, Bool-cases, List, [],
  ◌∷◌, ◌++◌, Run, ok, fault, at, ◌>>=◌, if◌then◌else◌, ◌==◌, length,
}
use network_simulation.Addressing.{compare_macs, compare_ips, is_broadcast, create_broadcast_mac}
use network_simulation.Addressing.Macs.{IsMac, mac_eq}
use network_simulation.L4.{generate_tcp, generate_udp}
use network_simulation.L3.{Arp, Ip, Icmp, ArpCache, get_mac, slice, generate_arp, generate_ip}
use network_simulation.L3.Cache.{IsCache, known, get_mac-add_entry, add_entry-IsCache}
use network_simulation.Pdu.{Mpdu, encap_arp, open_icmp}
use network_simulation.Host.{
  Host, demuxer, process_frame, process_ip, process_icmp_message, receive_arp, send_arp, send_mpdu,
  has_protocol,
}
use network_simulation.Host.Resolve.{IsHost, cache_after, learn_lem}

-- What holds of a result, if the code has not faulted.
abbrev pub Holds {ℓ} : {A : Type ℓ} → (A → Type 0) → Run A → Type 0
Holds P (ok a) = P a
Holds P fault = Unit

Holds-bind {ℓ κ} :
    {A : Type ℓ} {B : Type κ} (P : A → Type 0) (Q : B → Type 0) (r : Run A) (g : A → Run B)
    → Holds P r
    → ((a : A) → P a → Holds Q (g a))
    → Holds Q (r >>= g)
Holds-bind P Q (ok a) g h step = step a h
Holds-bind P Q fault g h step = tt

-- Where nothing is known of the first result.
Holds-then {ℓ κ} :
    {A : Type ℓ} {B : Type κ} (Q : B → Type 0) (r : Run A) (g : A → Run B)
    → ((a : A) → Holds Q (g a))
    → Holds Q (r >>= g)
Holds-then Q (ok a) g step = step a
Holds-then Q fault g step = tt

-- The host `h'` has the addresses of `h`, and for every IP address the MAC that `h` had, if any; it has sent
-- at most one frame more.
pub record Kept (h h' : Host) : Type 0 where
  pub mac : h'.mac ≡ h.mac
  pub ip : h'.ip ≡ h.ip
  pub cache : IsCache h'.cache
  pub stable : (x : ℕ) → known h.cache x ≡ true → get_mac h'.cache x ≡ get_mac h.cache x
  pub sent : (h'.sent ≡ h.sent) ⊎ ((f : Mpdu) × (h'.sent ≡ h.sent ++ f ∷ []))

slice_lem : (v : List ℕ) (first n : ℕ) → Holds (λ xs. length xs ≡ n) (slice v first n)
slice_lem v first zero = refl
slice_lem v first (suc n) = Holds-then _ (at v first) _ (λ b.
    Holds-bind (λ xs. length xs ≡ n) _ (slice v (suc first) n) _ (slice_lem v (suc first) n)
      (λ rest e. ap suc e))

generate_arp-IsMac : (u : List ℕ) → Holds (λ (a : Arp). IsMac a.sender_mac) (generate_arp u)
unfolding generate_arp
generate_arp-IsMac u =
    Holds-then (λ (a : Arp). IsMac a.sender_mac) (read16 u 0) _
      (λ opcode.
        Holds-bind (λ m. length m ≡ 6) (λ (a : Arp). IsMac a.sender_mac) (slice u 2 6) _
          (slice_lem u 2 6)
          (λ sender e.
            Holds-then (λ (a : Arp). IsMac a.sender_mac) (read32 u 8) _
              (λ sender_ip.
                Holds-then (λ (a : Arp). IsMac a.sender_mac) (slice u 12 6) _
                  (λ target.
                    Holds-then (λ (a : Arp). IsMac a.sender_mac) (read32 u 18) _
                      (λ target_ip. e)))))

-- A host that differs in its ports, its queue and its count only.
same-Kept :
    (h h' : Host)
    → IsHost h
    → h'.mac ≡ h.mac
    → h'.ip ≡ h.ip
    → h'.cache ≡ h.cache
    → ((h'.sent ≡ h.sent) ⊎ ((f : Mpdu) × (h'.sent ≡ h.sent ++ f ∷ [])))
    → Kept h h'
same-Kept h h' v mac ip cache sent = record {
  mac = mac;
  ip = ip;
  cache = rw cache v.cache;
  stable = λ x k. ap (λ (c : ArpCache). get_mac c x) cache;
  sent = sent;
}

cache_after-IsCache :
    (a : Arp) (c : ArpCache) → IsMac a.sender_mac → IsCache c → IsCache (cache_after a c)
cache_after-IsCache a c m v =
    unfold cache_after in
    elim (Bool-cases (mac_eq (get_mac c a.sender_ip) create_broadcast_mac)) [
      | inl missing ↦ rw missing (add_entry-IsCache c a.sender_ip a.sender_mac v m)
      | inr there ↦ rw there v
    ]

-- A MAC that the cache has is not replaced.
cache_after-stable :
    (a : Arp) (c : ArpCache) (x : ℕ) → known c x ≡ true → get_mac (cache_after a c) x ≡ get_mac c x
cache_after-stable a c x k =
    unfold cache_after in
    elim (Bool-cases (mac_eq (get_mac c a.sender_ip) create_broadcast_mac)) [
      | inl missing ↦ rw missing (get_mac-add_entry c a.sender_ip x a.sender_mac ∙ rw k refl)
      | inr there ↦ rw there refl
    ]

learned-Kept :
    (a : Arp) (h h' : Host)
    → IsMac a.sender_mac
    → IsHost h
    → h'.mac ≡ h.mac
    → h'.ip ≡ h.ip
    → h'.cache ≡ cache_after a h.cache
    → ((h'.sent ≡ h.sent) ⊎ ((f : Mpdu) × (h'.sent ≡ h.sent ++ f ∷ [])))
    → Kept h h'
learned-Kept a h h' m v mac ip cache sent = record {
  mac = mac;
  ip = ip;
  cache = rw cache (cache_after-IsCache a h.cache m v.cache);
  stable = λ x k. ap (λ (c : ArpCache). get_mac c x) cache ∙ cache_after-stable a h.cache x k;
  sent = sent;
}

receive_arp-Kept : (u : List ℕ) (h : Host) → IsHost h → Holds (Kept h) (receive_arp u h)
unfolding receive_arp send_arp send_mpdu
receive_arp-Kept u h v =
    Holds-bind (λ (a : Arp). IsMac a.sender_mac) (Kept h) (generate_arp u) _ (generate_arp-IsMac u)
      (λ a m. elim (Bool-cases (compare_ips a.target_ip h.ip)) [
        | inr other ↦ rw other (same-Kept h h v refl refl refl (inl refl))
        | inl mine ↦ elim (Bool-cases (a.opcode == 1)) [
          | inr no_request ↦
              rw (mine, learn_lem a h v, no_request)
                (learned-Kept a h _ m v refl refl refl (inl refl))
          | inl request ↦
              rw (mine, learn_lem a h v, request)
                (Holds-then (Kept h) (encap_arp _ _) _
                  (λ f. learned-Kept a h _ m v refl refl refl (inr (f, refl))))
        ]
      ])

process_icmp_message-Kept :
    (f : Mpdu) (h : Host) → IsHost h → Holds (Kept h) (process_icmp_message f h)
unfolding process_icmp_message send_mpdu
process_icmp_message-Kept f h v = Holds-then (Kept h) (open_icmp f) _ (λ (pm : Ip × Icmp).
    elim (Bool-cases (pm.1.icmp_type == 8)) [
      | inl request ↦ rw request (same-Kept h _ v refl refl refl (inr (_, refl)))
      | inr other ↦ rw other (same-Kept h h v refl refl refl (inl refl))
    ])

process_ip-Kept : (f : Mpdu) (h : Host) → IsHost h → Holds (Kept h) (process_ip f h)
unfolding process_ip
process_ip-Kept f h v = Holds-then (Kept h) (generate_ip f.sdu) _ (λ (p : Ip).
    elim (Bool-cases (p.protocol == 1)) [
      | inl icmp ↦ elim (Bool-cases (has_protocol 1 h.open_ports)) [
        | inl taken ↦ rw (icmp, taken) (same-Kept h _ v refl refl refl (inl refl))
        | inr free ↦ rw (icmp, free) (process_icmp_message-Kept f h v)
      ]
      | inr no_icmp ↦ elim (Bool-cases (p.protocol == 6)) [
        | inl tcp ↦
            rw (no_icmp, tcp)
              (Holds-then (Kept h) (generate_tcp p.sdu) _
                (λ s. same-Kept h _ v refl refl refl (inl refl)))
        | inr no_tcp ↦ elim (Bool-cases (p.protocol == 17)) [
          | inl udp ↦
              rw (no_icmp, no_tcp, udp)
                (Holds-then (Kept h) (generate_udp p.sdu) _
                  (λ s. same-Kept h _ v refl refl refl (inl refl)))
          | inr other ↦ rw (no_icmp, no_tcp, other) (same-Kept h h v refl refl refl (inl refl))
        ]
      ]
    ])

-- The count of a host changes nothing of it.
uncount :
    (h : Host) (n : ℕ) (r : Run Host)
    → Holds (Kept (record h { rx_frame_count = n })) r
    → Holds (Kept h) r
uncount h n (ok h') k = record {
  mac = k.mac;
  ip = k.ip;
  cache = k.cache;
  stable = k.stable;
  sent = k.sent;
}
uncount h n fault k = tt

process_frame-Kept : (f : Mpdu) (h : Host) → IsHost h → Holds (Kept h) (process_frame f h)
unfolding process_frame
process_frame-Kept f h v =
    let c : Host = record h { rx_frame_count = h.rx_frame_count + 1 } in
    let w : IsHost c = record { mac = v.mac; ip = v.ip; cache = v.cache } in
    elim (Bool-cases (f.sdu_type == 0x0806)) [
      | inl arp ↦ rw arp (uncount h _ (receive_arp f.sdu c) (receive_arp-Kept f.sdu c w))
      | inr no_arp ↦ elim (Bool-cases (f.sdu_type == 0x0800)) [
        | inl ip ↦ rw (no_arp, ip) (uncount h _ (process_ip f c) (process_ip-Kept f c w))
        | inr other ↦ rw (no_arp, other) (same-Kept h c v refl refl refl (inl refl))
      ]
    ]

-- Whatever bytes are in a frame, and whoever it is for: a host that has taken it, and has not faulted, has
-- its own MAC and IP address as before; its cache has MACs of six bytes only, and for every IP address that it
-- had a MAC for the same MAC, so that no frame replaces an entry; and the host has sent at most one frame.
pub demuxer-Kept : (f : Mpdu) (h : Host) → IsHost h → Holds (Kept h) (demuxer f h)
unfolding demuxer
demuxer-Kept f h v = Holds-then (Kept h) (compare_macs f.destination_mac h.mac) _ (λ mine.
    Holds-then (Kept h) (if mine then ok true else is_broadcast f.destination_mac) _ (λ all.
      elim (Bool-cases all) [
        | inl it ↦ rw it (process_frame-Kept f h v)
        | inr not_it ↦ rw not_it (same-Kept h h v refl refl refl (inl refl))
      ]))
