-- ===== src/L4/Datagrams.antt =====
-- What `file_to_UDP_segments` promises: the datagrams are the file, in order, and an end mark.
use network_simulation.Common.{
  past_fault, int_max, false, ◌^◌, ℕ, ◌+◌, ◌≤◌, ◌<◌, ◌≡◌, refl, ap, ◌∙◌, inl, inr, List, [], ◌∷◌,
  ◌++◌, ok, ◌==◌, Bool-cases, length, length-append, All, All-append, arith,
}
use mathlib.Core.Path.{subst}
use mathlib.Core.List.{append_assoc}
use network_simulation.L4.{Udp, segment_eof, udp_loop, file_to_udp_segments}

-- The payloads are `bytes` cut at every `m` bytes, and an end mark behind the last byte.
abbrev pub IsDatagrams : ℕ → List Udp → List ℕ → Type 0
IsDatagrams m [] bytes = ⊥
IsDatagrams m (s ∷ []) bytes =
    (1 ≤ length bytes) × (length bytes ≤ m) × (s.payload ≡ bytes ++ segment_eof ∷ [])
IsDatagrams m (s ∷ t ∷ segs) bytes =
    (1 ≤ length s.payload)
    × (length s.payload ≡ m)
    × (rest : List ℕ) × (s.payload ++ rest ≡ bytes)
    × IsDatagrams m (t ∷ segs) rest

IsDatagrams-cons :
    (m : ℕ) (s : Udp) (segs : List Udp) (rest : List ℕ)
    → 1 ≤ length s.payload
    → length s.payload ≡ m
    → IsDatagrams m segs rest
    → IsDatagrams m (s ∷ segs) (s.payload ++ rest)
IsDatagrams-cons m s [] rest b c h = absurd h
IsDatagrams-cons m s (t ∷ segs) rest b c h = (b, c, rest, refl, h)

udp_loop-IsDatagrams :
    (m n : ℕ) (rest : List ℕ) (tx : Udp) (result : List Udp)
    → 1 ≤ length rest
    → n + length rest < 2 ^ 31
    → length tx.payload < m
    → (segs : List Udp) × (udp_loop m n rest tx result ≡ ok (result ++ segs))
      × IsDatagrams m segs (tx.payload ++ rest)
unfolding udp_loop
udp_loop-IsDatagrams m n [] tx result h z l = absurd (omega arith)
udp_loop-IsDatagrams m n (b ∷ []) tx result h z l =
    let counts : (n == int_max) ≡ false = ground (arith, z) in
    let len : length (tx.payload ++ b ∷ []) ≡ length tx.payload + 1 =
      length-append tx.payload (b ∷ []) in
    let tx' : Udp = record tx { payload = tx.payload ++ b ∷ segment_eof ∷ [] } in
    (tx' ∷ [], rw counts refl, (omega arith, omega arith, rw append_assoc))
udp_loop-IsDatagrams m n (b ∷ c ∷ rest) tx result h z l =
    let counts : (n == int_max) ≡ false = ground (arith, z) in
    let len : length (tx.payload ++ b ∷ []) ≡ length tx.payload + 1 =
      length-append tx.payload (b ∷ []) in
    let tx' : Udp = record tx { payload = tx.payload ++ b ∷ [] } in
    elim (Bool-cases (length (tx.payload ++ b ∷ []) == m)) [
      | inl full ↦
          let (segs, run, chunks) =
            udp_loop-IsDatagrams m (n + 1) (c ∷ rest) (record tx { payload = [] })
              (result ++ tx' ∷ []) (omega arith) (omega (arith, z)) (omega arith) in
          (
            tx' ∷ segs,
            rw (counts, full) (run ∙ ap ok (rw append_assoc)),
            rw append_assoc at
                (IsDatagrams-cons m tx' segs (c ∷ rest) (omega arith) (ground arith) chunks),
          )
      | inr more ↦
          let (segs, run, chunks) =
            udp_loop-IsDatagrams m (n + 1) (c ∷ rest) tx' result (omega arith) (omega (arith, z))
              (ground arith) in
          (segs, rw (counts, more) run, rw append_assoc at chunks)
    ]

-- A file that is not empty and has less than 2 ^ 31 bytes becomes datagrams that carry it whole and
-- in order: each but the last is full, and the end mark stands behind the last byte of the file.
pub file_to_udp_segments-IsDatagrams :
    (blank : Udp) (file : List ℕ) (src_port dest_port m : ℕ)
    → 1 ≤ length file
    → length file < 2 ^ 31
    → 0 < m
    → (segs : List Udp) × (file_to_udp_segments blank file src_port dest_port m ≡ ok segs)
      × IsDatagrams m segs file
unfolding file_to_udp_segments
file_to_udp_segments-IsDatagrams blank file src_port dest_port m h small pos =
    udp_loop-IsDatagrams m 0 file _ [] h (omega (arith, small)) pos

-- Two segments that differ in the payload at most.
abbrev pub SameHeader : Udp → Udp → Type 0
SameHeader u s =
    (s.source_port ≡ u.source_port)
    × (s.destination_port ≡ u.destination_port)
    × (s.udp_length ≡ u.udp_length)
    × (s.checksum ≡ u.checksum)

udp_loop-SameHeader :
    (u : Udp) (m n : ℕ) (rest : List ℕ) (tx : Udp) (result segs : List Udp)
    → SameHeader u tx
    → All (SameHeader u) result
    → udp_loop m n rest tx result ≡ ok segs
    → All (SameHeader u) segs
unfolding udp_loop
udp_loop-SameHeader u m n [] tx result segs t r e = absurd (cc e)
udp_loop-SameHeader u m n (b ∷ []) tx result segs t r e =
    subst (All (SameHeader u)) (cc (past_fault (n == int_max) _ segs e)) (
      All-append (SameHeader u) result
        (record tx { payload = tx.payload ++ b ∷ segment_eof ∷ [] } ∷ []) r (t, tt))
udp_loop-SameHeader u m n (b ∷ c ∷ rest) tx result segs t r e =
    let tx' : Udp = record tx { payload = tx.payload ++ b ∷ [] } in
    elim (Bool-cases (length (tx.payload ++ b ∷ []) == m)) [
      | inl full ↦
          udp_loop-SameHeader u m (n + 1) (c ∷ rest) (record tx { payload = [] })
            (result ++ tx' ∷ []) segs t (All-append (SameHeader u) result _ r (t, tt))
            (rw full at (past_fault (n == int_max) _ segs e))
      | inr more ↦
          udp_loop-SameHeader u m (n + 1) (c ∷ rest) tx' result segs t r
            (rw more at (past_fault (n == int_max) _ segs e))
    ]

-- The header of every datagram: the two ports, and the fields that the code never sets.
pub file_to_udp_segments-SameHeader :
    (blank : Udp) (file : List ℕ) (src_port dest_port m : ℕ) (segs : List Udp)
    → file_to_udp_segments blank file src_port dest_port m ≡ ok segs
    → All
        (SameHeader
          (record blank { source_port = src_port; destination_port = dest_port; payload = [] }))
        segs
unfolding file_to_udp_segments
file_to_udp_segments-SameHeader blank file src_port dest_port m segs e =
    udp_loop-SameHeader
      (record blank { source_port = src_port; destination_port = dest_port; payload = [] }) m 0 file
      (record blank { source_port = src_port; destination_port = dest_port; payload = [] }) [] segs
      (refl, refl, refl, refl) tt e
