-- ===== src/L4/Stream.antt =====
-- What `file_to_TCP_segments` promises: the segments are the file, in order, numbered by bytes.
use mathlib.Core.Path.{subst}
use network_simulation.Common.{
  past_fault, int_max, false, ◌^◌, ℕ, ◌+◌, ◌%◌, ◌^◌, ◌≤◌, ◌<◌, ◌≡◌, refl, ap, ◌∙◌, inl, inr, List,
  [], ◌∷◌, ◌++◌, ok, ◌==◌, Bool-cases, length, length-append, arith, some, bit_or, All, All-append,
}
use mathlib.Core.List.{append_assoc}
use network_simulation.L4.{
  Tcp, tcp_fin, tcp_loop, file_to_tcp_segments, next_sn, emit, back?, tcp_ack,
}

-- `segs` carries `bytes` from sequence number `sn` on, in payloads of 1 to `m` bytes. The last
-- segment alone has FIN; the others are full.
abbrev pub IsStream : ℕ → ℕ → List Tcp → List ℕ → Type 0
IsStream m sn [] bytes = ⊥
IsStream m sn (s ∷ []) bytes =
    (s.sequence_number ≡ sn)
    × (s.details ≡ 17)
    × (1 ≤ length s.payload)
    × (length s.payload ≤ m)
    × (s.payload ≡ bytes)
IsStream m sn (s ∷ t ∷ segs) bytes =
    (s.sequence_number ≡ sn)
    × (s.details ≡ 16)
    × (1 ≤ length s.payload)
    × (length s.payload ≡ m)
    × (rest : List ℕ) × (s.payload ++ rest ≡ bytes)
    × IsStream m ((sn + length s.payload) % 2 ^ 32) (t ∷ segs) rest

IsStream-cons :
    (m sn : ℕ) (s : Tcp) (segs : List Tcp) (rest : List ℕ)
    → s.sequence_number ≡ sn
    → s.details ≡ 16
    → 1 ≤ length s.payload
    → length s.payload ≡ m
    → IsStream m ((sn + length s.payload) % 2 ^ 32) segs rest
    → IsStream m sn (s ∷ segs) (s.payload ++ rest)
IsStream-cons m sn s [] rest a b c d h = absurd h
IsStream-cons m sn s (t ∷ segs) rest a b c d h = (a, b, c, d, rest, refl, h)

back?-append {ℓ} : {A : Type ℓ} (xs : List A) (x : A) → back? (xs ++ x ∷ []) ≡ some x
back?-append [] x = refl
back?-append (y ∷ []) x = refl
back?-append (y ∷ z ∷ xs) x = back?-append (z ∷ xs) x

-- The segment that `emit` appends.
abbrev numbered : Tcp → List Tcp → Tcp
numbered tx result = record tx { sequence_number = next_sn tx.sequence_number result }

emit_lem : (tx : Tcp) (result : List Tcp) → emit tx result ≡ result ++ numbered tx result ∷ []
unfolding emit
emit_lem tx result = refl

next_sn-emit :
    (sn : ℕ) (tx : Tcp) (result : List Tcp)
    → next_sn sn (emit tx result) ≡ (next_sn tx.sequence_number result + length tx.payload) % 2 ^ 32
unfolding next_sn emit
next_sn-emit sn tx result = rw (
  back?-append result (record tx { sequence_number = next_sn tx.sequence_number result }),
  next_sn,
)

tcp_loop-IsStream :
    (m n : ℕ) (rest : List ℕ) (tx : Tcp) (result : List Tcp)
    → 1 ≤ length rest
    → n + length rest < 2 ^ 31
    → tx.details ≡ 16
    → length tx.payload < m
    → (segs : List Tcp) × (tcp_loop m n rest tx result ≡ ok (result ++ segs))
      × IsStream m (next_sn tx.sequence_number result) segs (tx.payload ++ rest)
unfolding tcp_loop
tcp_loop-IsStream m n [] tx result h z d l = absurd (omega arith)
tcp_loop-IsStream m n (b ∷ []) tx result h z d l =
    let counts : (n == int_max) ≡ false = ground (arith, z) in
    let len : length (tx.payload ++ b ∷ []) ≡ length tx.payload + 1 =
      length-append tx.payload (b ∷ []) in
    let tx' : Tcp = record tx {
      payload = tx.payload ++ b ∷ [];
      details = bit_or tx.details tcp_fin;
    } in
    (
      numbered tx' result ∷ [],
      rw counts (ap ok (emit_lem tx' result)),
      (refl, rw d, omega arith, omega arith, refl),
    )
tcp_loop-IsStream m n (b ∷ c ∷ rest) tx result h z d l =
    let counts : (n == int_max) ≡ false = ground (arith, z) in
    let len : length (tx.payload ++ b ∷ []) ≡ length tx.payload + 1 =
      length-append tx.payload (b ∷ []) in
    elim (Bool-cases (length (tx.payload ++ b ∷ []) == m)) [
      | inl full ↦
          let tx' : Tcp = record tx { payload = tx.payload ++ b ∷ [] } in
          let (segs, run, stream) =
            tcp_loop-IsStream m (n + 1) (c ∷ rest)
              (record tx { payload = []; sequence_number = next_sn tx.sequence_number result })
              (emit tx' result) (omega arith) (omega (arith, z)) d (omega arith) in
          (
            numbered tx' result ∷ segs,
            rw (counts, full) (run ∙ ap ok (rw (emit_lem, append_assoc))),
            rw append_assoc at (
                IsStream-cons m _ (numbered tx' result) segs (c ∷ rest) refl d (omega arith)
                  (ground arith) (rw next_sn-emit at stream)),
          )
      | inr more ↦
          let (segs, run, stream) =
            tcp_loop-IsStream m (n + 1) (c ∷ rest) (record tx { payload = tx.payload ++ b ∷ [] })
              result (omega arith) (omega (arith, z)) d (ground arith) in
          (segs, rw (counts, more) run, rw append_assoc at stream)
    ]

-- A file that is not empty and has less than 2 ^ 31 bytes becomes segments that carry it whole and in
-- order from sequence number 1: each but the last is full, and the last alone has FIN.
pub file_to_tcp_segments-IsStream :
    (blank : Tcp) (file : List ℕ) (src_port dest_port m : ℕ)
    → 1 ≤ length file
    → length file < 2 ^ 31
    → 0 < m
    → (segs : List Tcp) × (file_to_tcp_segments blank file src_port dest_port m ≡ ok segs)
      × IsStream m 1 segs file
unfolding file_to_tcp_segments
file_to_tcp_segments-IsStream blank file src_port dest_port m h small pos =
    tcp_loop-IsStream m 0 file _ [] h (omega (arith, small)) refl pos

-- Two segments with the same ports, ACK number, window and checksum.
abbrev pub SameFields : Tcp → Tcp → Type 0
SameFields u s =
    (s.source_port ≡ u.source_port)
    × (s.destination_port ≡ u.destination_port)
    × (s.ack_number ≡ u.ack_number)
    × (s.receive_window ≡ u.receive_window)
    × (s.checksum ≡ u.checksum)

emit-SameFields :
    (u tx : Tcp) (result : List Tcp)
    → SameFields u tx
    → All (SameFields u) result
    → All (SameFields u) (emit tx result)
unfolding emit
emit-SameFields u tx result t r =
    All-append (SameFields u) result
      (record tx { sequence_number = next_sn tx.sequence_number result } ∷ []) r (t, tt)

tcp_loop-SameFields :
    (u : Tcp) (m n : ℕ) (rest : List ℕ) (tx : Tcp) (result segs : List Tcp)
    → SameFields u tx
    → All (SameFields u) result
    → tcp_loop m n rest tx result ≡ ok segs
    → All (SameFields u) segs
unfolding tcp_loop
tcp_loop-SameFields u m n [] tx result segs t r e = absurd (cc e)
tcp_loop-SameFields u m n (b ∷ []) tx result segs t r e =
    subst (All (SameFields u)) (cc (past_fault (n == int_max) _ segs e)) (
      emit-SameFields u
        (record tx { payload = tx.payload ++ b ∷ []; details = bit_or tx.details tcp_fin }) result t
        r)
tcp_loop-SameFields u m n (b ∷ c ∷ rest) tx result segs t r e =
    let tx' : Tcp = record tx { payload = tx.payload ++ b ∷ [] } in
    elim (Bool-cases (length (tx.payload ++ b ∷ []) == m)) [
      | inl full ↦
          tcp_loop-SameFields u m (n + 1) (c ∷ rest)
            (record tx { payload = []; sequence_number = next_sn tx.sequence_number result })
            (emit tx' result) segs t (emit-SameFields u tx' result t r)
            (rw full at (past_fault (n == int_max) _ segs e))
      | inr more ↦
          tcp_loop-SameFields u m (n + 1) (c ∷ rest) tx' result segs t r
            (rw more at (past_fault (n == int_max) _ segs e))
    ]

-- What the segments of a file share: the two ports, ACK number 1, and the fields that the code never
-- sets.
pub file_to_tcp_segments-SameFields :
    (blank : Tcp) (file : List ℕ) (src_port dest_port m : ℕ) (segs : List Tcp)
    → file_to_tcp_segments blank file src_port dest_port m ≡ ok segs
    → All
        (SameFields
          (record blank { source_port = src_port; destination_port = dest_port; ack_number = 1 }))
        segs
unfolding file_to_tcp_segments
file_to_tcp_segments-SameFields blank file src_port dest_port m segs e =
    tcp_loop-SameFields
      (record blank { source_port = src_port; destination_port = dest_port; ack_number = 1 }) m 0
      file
      (record blank {
        source_port = src_port;
        destination_port = dest_port;
        sequence_number = 1;
        ack_number = 1;
        details = tcp_ack;
        payload = [];
      })
      [] segs (refl, refl, refl, refl, refl) tt e
