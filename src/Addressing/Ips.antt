-- ===== src/Addressing/Ips.antt =====
-- IP addresses: `create_ip` against the bytes of a word, and `in_subnet` under a prefix mask.
use native.Mathlib.Nat.{
  pow-suc, pow-succ', div-div-eq-div-mul, div-one, mul-one, mul_assoc, one-le-pow,
}
use network_simulation.Common.{
  ℕ, zero, suc, ◌+◌, ◌-◌, ◌*◌, ◌/◌, ◌%◌, ◌^◌, ◌≤◌, ◌<◌, ◌≡◌, refl, sym, ◌↔◌, Bool, true, false,
  byte, if◌then◌else◌, ◌==◌, arith,
}
use network_simulation.Addressing.{create_ip, in_subnet, subnet_from}

-- A word is rebuilt from its four bytes, most significant first.
pub create_ip-byte :
    (v : ℕ) → v < 2 ^ 32 → create_ip (byte v 3) (byte v 2) (byte v 1) (byte v 0) ≡ v
unfolding create_ip
create_ip-byte v h = omega arith

-- The same test on words that are shifted instead of indexed.
agree : ℕ → ℕ → ℕ → ℕ → Bool
agree zero a b m = true
agree (suc n) a b m =
    let rest = agree n (a / 2) (b / 2) (m / 2) in
    if m % 2 == 1 then (if a % 2 == b % 2 then rest else false) else rest

shift_once : (x i : ℕ) → x / 2 ^ suc i ≡ x / 2 ^ i / 2
shift_once x i = rw (pow-suc, div-div-eq-div-mul)

-- A shift by one place and then by `k`.
halve : (x k : ℕ) → x / 2 ^ suc k ≡ x / 2 / 2 ^ k
halve x k = rw pow-succ' (sym (div-div-eq-div-mul x 2 (2 ^ k)))

subnet_from-agree :
    (n i a b m : ℕ) → subnet_from n i a b m ≡ agree n (a / 2 ^ i) (b / 2 ^ i) (m / 2 ^ i)
unfolding subnet_from agree
subnet_from-agree zero i a b m = refl
subnet_from-agree (suc n) i a b m =
    rw (subnet_from-agree n (suc i) a b m)
      (rw (shift_once a i, shift_once b i, shift_once m i) (ground arith))

-- Under a mask of ones every bit is compared.
agree_ones : (n a b : ℕ) → a < 2 ^ n → b < 2 ^ n → (agree n a b (2 ^ n - 1) ≡ true) ↔ (a ≡ b)
unfolding agree
agree_ones zero a b p q = (λ _. omega arith, λ _. refl)
agree_ones (suc n) a b p q =
    let two : 2 ^ suc n ≡ 2 ^ n * 2 = pow-suc 2 n in
    let pos : 1 ≤ 2 ^ n = one-le-pow n 2 (omega arith) in
    let odd : (2 ^ suc n - 1) % 2 ≡ 1 = omega arith in
    let half : (2 ^ suc n - 1) / 2 ≡ 2 ^ n - 1 = omega arith in
    let rec : (agree n (a / 2) (b / 2) (2 ^ n - 1) ≡ true) ↔ (a / 2 ≡ b / 2) =
      agree_ones n (a / 2) (b / 2) (omega arith) (omega arith) in
    rw (odd, half) (λ e. ground (arith, rec.0), λ e. ground (arith, rec.1))

-- Zeros at the end of the mask skip that many bits.
agree_prefix :
    (k n r a b : ℕ)
    → r ≡ k + n
    → a < 2 ^ r
    → b < 2 ^ r
    → (agree r a b ((2 ^ n - 1) * 2 ^ k) ≡ true) ↔ (a / 2 ^ k ≡ b / 2 ^ k)
unfolding agree
agree_prefix zero n r a b e p q =
    let e' : r ≡ n = omega arith in
    rw (mul-one, div-one a, div-one b) (rw e' (agree_ones n a b (rw e' at p) (rw e' at q)))
agree_prefix (suc k) n zero a b e p q = absurd (omega arith)
agree_prefix (suc k) n (suc r) a b e p q =
    let two : 2 ^ suc r ≡ 2 ^ r * 2 = pow-suc 2 r in
    let mask : (2 ^ n - 1) * 2 ^ suc k ≡ (2 ^ n - 1) * 2 ^ k * 2 = rw (pow-suc, mul_assoc) in
    let even : (2 ^ n - 1) * 2 ^ k * 2 % 2 ≡ 0 = omega arith in
    let half : (2 ^ n - 1) * 2 ^ k * 2 / 2 ≡ (2 ^ n - 1) * 2 ^ k = omega arith in
    let shift = λ (x : ℕ). halve x k in
    rw (mask, even, half, shift a, shift b)
      (agree_prefix k n r (a / 2) (b / 2) (omega arith) (omega arith) (omega arith))

-- Under the mask of an `n`-bit prefix two addresses are in one subnet exactly when their first `n`
-- bits are equal.
pub in_subnet_prefix :
    (k n ip_1 ip_2 : ℕ)
    → k + n ≡ 32
    → ip_1 < 2 ^ 32
    → ip_2 < 2 ^ 32
    → (in_subnet ip_1 ip_2 ((2 ^ n - 1) * 2 ^ k) ≡ true) ↔ (ip_1 / 2 ^ k ≡ ip_2 / 2 ^ k)
unfolding in_subnet
in_subnet_prefix k n ip_1 ip_2 e p q = rw (subnet_from-agree 32 0 ip_1 ip_2 ((2 ^ n - 1) * 2 ^ k)) (
    rw (div-one ip_1, div-one ip_2, div-one ((2 ^ n - 1) * 2 ^ k))
      (agree_prefix k n 32 ip_1 ip_2 (omega arith) p q))
