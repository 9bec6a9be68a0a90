-- ===== src/Addressing/Macs.antt =====
-- MAC comparison: on addresses of six bytes it never reads out of range, and decides equality.
use network_simulation.Common.{
  ℕ, zero, suc, ◌≡◌, refl, ◌↔◌, Bool, true, false, ◌&&◌, List, [], ◌∷◌, ok, ◌==◌, length, replicate,
  arith,
}
use network_simulation.Addressing.{
  compare_from, compare_macs, all_ones_from, is_broadcast, create_broadcast_mac, create_uniform_mac,
}

-- Six bytes, as the constructors in addressing.cpp make them.
abbrev pub IsMac : List ℕ → Type 0
IsMac mac = length mac ≡ 6

unfoldable pub mac_eq : List ℕ → List ℕ → Bool
mac_eq [] [] = true
mac_eq [] (y ∷ ys) = false
mac_eq (x ∷ xs) [] = false
mac_eq (x ∷ xs) (y ∷ ys) = x == y && mac_eq xs ys

pub mac_eq_iff : (m n : List ℕ) → (mac_eq m n ≡ true) ↔ (m ≡ n)
unfolding mac_eq
mac_eq_iff [] [] = (λ _. refl, λ _. refl)
mac_eq_iff [] (y ∷ ys) = (λ e. cc, λ e. cc)
mac_eq_iff (x ∷ xs) [] = (λ e. cc, λ e. cc)
mac_eq_iff (x ∷ xs) (y ∷ ys) =
    (λ e. ground (arith, (mac_eq_iff xs ys).0), λ e. ground (arith, (mac_eq_iff xs ys).1))

compare_from_shift :
    (n i x y : ℕ) (xs ys : List ℕ)
    → compare_from n (suc i) (x ∷ xs) (y ∷ ys) ≡ compare_from n i xs ys
unfolding compare_from
compare_from_shift zero i x y xs ys = refl
compare_from_shift (suc n) i x y xs ys = rw (compare_from_shift n (suc i) x y xs ys)

compare_from-eq :
    (n : ℕ) (xs ys : List ℕ)
    → length xs ≡ n
    → length ys ≡ n
    → compare_from n 0 xs ys ≡ ok (mac_eq xs ys)
unfolding compare_from mac_eq
compare_from-eq zero [] [] p q = refl
compare_from-eq zero [] (y ∷ ys) p q = absurd (omega arith)
compare_from-eq zero (x ∷ xs) ys p q = absurd (omega arith)
compare_from-eq (suc n) [] ys p q = absurd (omega arith)
compare_from-eq (suc n) (x ∷ xs) [] p q = absurd (omega arith)
compare_from-eq (suc n) (x ∷ xs) (y ∷ ys) p q =
    ground (arith, compare_from_shift n 0 x y xs ys, compare_from-eq n xs ys)

pub compare_macs-eq : (m n : List ℕ) → IsMac m → IsMac n → compare_macs m n ≡ ok (mac_eq m n)
unfolding compare_macs
compare_macs-eq m n p q = compare_from-eq 6 m n p q

all_ones_from_shift :
    (n i x : ℕ) (xs : List ℕ) → all_ones_from n (suc i) (x ∷ xs) ≡ all_ones_from n i xs
unfolding all_ones_from
all_ones_from_shift zero i x xs = refl
all_ones_from_shift (suc n) i x xs = rw (all_ones_from_shift n (suc i) x xs)

all_ones_from-eq :
    (n : ℕ) (xs : List ℕ) → length xs ≡ n → all_ones_from n 0 xs ≡ ok (mac_eq xs (replicate n 0xFF))
unfolding all_ones_from mac_eq
all_ones_from-eq zero [] p = refl
all_ones_from-eq zero (x ∷ xs) p = absurd (omega arith)
all_ones_from-eq (suc n) [] p = absurd (omega arith)
all_ones_from-eq (suc n) (x ∷ xs) p =
    ground (arith, all_ones_from_shift n 0 x xs, all_ones_from-eq n xs)

pub is_broadcast-eq : (m : List ℕ) → IsMac m → is_broadcast m ≡ ok (mac_eq m create_broadcast_mac)
unfolding is_broadcast create_broadcast_mac
is_broadcast-eq m p = all_ones_from-eq 6 m p

pub broadcast-IsMac : IsMac create_broadcast_mac
unfolding create_broadcast_mac
broadcast-IsMac = refl

pub uniform-IsMac : (b : ℕ) → IsMac (create_uniform_mac b)
unfolding create_uniform_mac
uniform-IsMac b = refl

-- On addresses of six bytes `compare_macs` reads nothing out of range, and answers true exactly for
-- equal addresses.
pub compare_macs_decides :
    (m n : List ℕ)
    → IsMac m
    → IsMac n
    → (b : Bool) × (compare_macs m n ≡ ok b) × ((b ≡ true) ↔ (m ≡ n))
compare_macs_decides m n p q = (mac_eq m n, compare_macs-eq m n p q, mac_eq_iff m n)
