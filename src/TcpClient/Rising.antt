-- ===== src/TcpClient/Rising.antt =====
-- The segments of a file end at rising sequence numbers.
use network_simulation.Common.{
  ℕ, suc, ◌+◌, ◌%◌, ◌^◌, ◌<◌, ◌≡◌, refl, sym, ap, ◌∙◌, List, [], ◌∷◌, ◌++◌, ok, at, length,
  length-append, drop, arith,
}
use network_simulation.L4.{Tcp}
use network_simulation.L4.Stream.{IsStream}
use network_simulation.TcpClient.{catch_up}

-- The sequence number behind a segment.
abbrev pub end_of : Tcp → ℕ
end_of s = s.sequence_number + length s.payload

-- Segments whose ends rise from `n`, without wrap-around.
abbrev pub Rising : ℕ → List Tcp → Type 0
Rising n [] = Unit
Rising n (s ∷ ss) = (n < end_of s) × (end_of s < 2 ^ 32) × Rising (end_of s) ss

-- The segments of a file that is small enough rise.
pub IsStream-Rising :
    (m sn : ℕ) (segs : List Tcp) (bytes : List ℕ)
    → sn + length bytes < 2 ^ 32
    → IsStream m sn segs bytes
    → Rising sn segs
IsStream-Rising m sn [] bytes small h = absurd h
IsStream-Rising m sn (s ∷ []) bytes small (q, d, l, k, b) =
    let size : length s.payload ≡ length bytes = ap length b in (omega arith, omega arith, tt)
IsStream-Rising m sn (s ∷ t ∷ segs) bytes small (q, d, l, k, rest, b, h) =
    let size : length s.payload + length rest ≡ length bytes =
      sym (length-append s.payload rest) ∙ ap length b in
    let next : (sn + length s.payload) % 2 ^ 32 ≡ end_of s = omega arith in
    (
      omega arith,
      omega arith,
      IsStream-Rising m (end_of s) (t ∷ segs) rest (omega arith) (rw next at h),
    )

pub Rising-suffix :
    (n : ℕ) (before after : List Tcp) → Rising n (before ++ after) → (k : ℕ) × Rising k after
Rising-suffix n [] after r = (n, r)
Rising-suffix n (s ∷ before) after (_, _, r) = Rising-suffix (end_of s) before after r

pub Rising-lt :
    (n : ℕ) (mid after : List Tcp) (w : Tcp)
    → Rising n (mid ++ w ∷ after)
    → (n < end_of w) × (end_of w < 2 ^ 32)
Rising-lt n [] after w (a, b, _) = (a, b)
Rising-lt n (s ∷ mid) after w (a, b, r) =
    let (c, d) = Rising-lt (end_of s) mid after w r in (omega arith, d)

pub catch_up-append :
    (n i : ℕ) (mid after : List Tcp) (w : Tcp)
    → Rising n (mid ++ w ∷ after)
    → catch_up (end_of w) (mid ++ w ∷ after) i ≡ ok (i + length mid + 1)
unfolding catch_up
catch_up-append n i [] after w r = ground arith
catch_up-append n i (s ∷ mid) after w (_, _, r) =
    let (past, _) = Rising-lt (end_of s) mid after w r in
    let more = catch_up-append (end_of s) (i + 1) mid after w r in
    let count : i + 1 + length mid + 1 ≡ i + suc (length mid) + 1 = omega arith in
    rw more (ground (arith, count))

pub at-append : (xs ys : List Tcp) (y : Tcp) → at (xs ++ y ∷ ys) (length xs) ≡ ok y
at-append [] ys y = refl
at-append (x ∷ xs) ys y = at-append xs ys y

drop-suc-append : (xs ys : List Tcp) (y : Tcp) → drop (suc (length xs)) (xs ++ y ∷ ys) ≡ ys
drop-suc-append [] ys y = refl
drop-suc-append (x ∷ xs) ys y = drop-suc-append xs ys y

pub drop-append : (xs ys : List Tcp) (y : Tcp) → drop (length xs + 1) (xs ++ y ∷ ys) ≡ ys
drop-append xs ys y =
    let next : length xs + 1 ≡ suc (length xs) = omega arith in rw next (drop-suc-append xs ys y)
