-- ===== src/Poisson/Pmf.antt =====
-- The histogram of `print_capture_pmf` when one more interval is counted.
use network_simulation.Common.{
  ℕ, zero, suc, ◌+◌, ◌^◌, ◌≤◌, ◌<◌, ◌≡◌, refl, List, [], ◌∷◌, ◌++◌, inl, inr, if◌then◌else◌, ◌==◌,
  ltb, length, Bool-cases, arith,
}
use network_simulation.Poisson.{done, float_inc, increment_at, resize, count_interval, last_index}

-- The element of a histogram, 0 past its end.
abbrev pub value_at : ℕ → List ℕ → ℕ
value_at k [] = 0
value_at zero (x ∷ xs) = x
value_at (suc k) (x ∷ xs) = value_at k xs

-- How often `k` is in the list.
abbrev pub count : ℕ → List ℕ → ℕ
count k [] = 0
count k (x ∷ xs) = (if x == k then 1 else 0) + count k xs

pub count-append : (k : ℕ) (xs ys : List ℕ) → count k (xs ++ ys) ≡ count k xs + count k ys
count-append k [] ys = omega arith
count-append k (x ∷ xs) ys = omega (arith, count-append k xs ys)

abbrev pub sum : List ℕ → ℕ
sum [] = 0
sum (x ∷ xs) = x + sum xs

resize_value :
    (n : ℕ) (xs : List ℕ) (k : ℕ) → length xs ≤ n → value_at k (resize n xs) ≡ value_at k xs
unfolding resize
resize_value zero [] k h = refl
resize_value zero (x ∷ xs) k h = absurd (omega arith)
resize_value (suc n) [] zero h = refl
resize_value (suc n) [] (suc k) h = resize_value n [] k (omega arith)
resize_value (suc n) (x ∷ xs) zero h = refl
resize_value (suc n) (x ∷ xs) (suc k) h = resize_value n xs k (omega arith)

length-resize : (n : ℕ) (xs : List ℕ) → length (resize n xs) ≡ n
unfolding resize
length-resize zero xs = refl
length-resize (suc n) [] = omega (arith, length-resize n [])
length-resize (suc n) (x ∷ xs) = omega (arith, length-resize n xs)

-- `ys` is `xs` with one more at `i`.
abbrev pub OneMore : ℕ → List ℕ → List ℕ → Type 0
OneMore i xs ys = (k : ℕ) → value_at k ys ≡ value_at k xs + (if i == k then 1 else 0)

head_OneMore : (x : ℕ) (xs : List ℕ) → OneMore 0 (x ∷ xs) ((x + 1) ∷ xs)
head_OneMore x xs zero = refl
head_OneMore x xs (suc k) = ground arith

tail_OneMore : (i x : ℕ) (xs ys : List ℕ) → OneMore i xs ys → OneMore (suc i) (x ∷ xs) (x ∷ ys)
tail_OneMore i x xs ys one zero = ground arith
tail_OneMore i x xs ys one (suc k) = ground (arith, one k)

increment_lem :
    (i : ℕ) (xs : List ℕ)
    → i < length xs
    → value_at i xs < 2 ^ 24
    → (ys : List ℕ) × (increment_at i xs ≡ done ys) × OneMore i xs ys × (length ys ≡ length xs)
unfolding increment_at float_inc
increment_lem i [] h small = absurd (omega arith)
increment_lem zero (x ∷ xs) h small = ((x + 1) ∷ xs, ground arith, head_OneMore x xs, refl)
increment_lem (suc i) (x ∷ xs) h small =
    let (ys, gives, one, same) = increment_lem i xs (omega arith) small in
    (x ∷ ys, rw gives refl, tail_OneMore i x xs ys one, omega (arith, same))

-- The histogram while it is made: there is an element, and no more intervals than have gone by.
pub record IsHistogram (interval : ℕ) (pmf : List ℕ) : Type 0 where
  pub nonempty : 0 < length pmf
  pub small : (k : ℕ) → value_at k pmf < interval

-- What `count_interval` counts in.
grown : ℕ → List ℕ → List ℕ
grown n pmf = if ltb (last_index pmf) n then resize (n + 1) pmf else pmf

grown_lem :
    (n : ℕ) (pmf : List ℕ)
    → 0 < length pmf
    → (n < length (grown n pmf)) × ((k : ℕ) → value_at k (grown n pmf) ≡ value_at k pmf)
unfolding grown
grown_lem n pmf h = elim (Bool-cases (ltb (last_index pmf) n)) [
  | inl short ↦
      rw short
        (omega (arith, length-resize (n + 1) pmf), λ k. resize_value (n + 1) pmf k (ground arith))
  | inr long ↦ rw long (ground arith, λ k. refl)
]

pub count_interval_lem :
    (n interval : ℕ) (pmf : List ℕ)
    → IsHistogram interval pmf
    → interval ≤ 2 ^ 24
    → (pmf' : List ℕ) × (count_interval n pmf ≡ done pmf')
      × OneMore n pmf pmf'
      × IsHistogram (interval + 1) pmf'
unfolding count_interval grown
count_interval_lem n interval pmf v bound =
    let (room, same) = grown_lem n pmf v.nonempty in
    let (ys, gives, one, len) =
      increment_lem n (grown n pmf) room (omega (arith, same n, v.small n)) in
    let one' : OneMore n pmf ys = λ k. omega (arith, one k, same k) in
    (
      ys,
      gives,
      one',
      record { nonempty = omega arith; small = λ k. ground (arith, one' k, v.small k) },
    )
