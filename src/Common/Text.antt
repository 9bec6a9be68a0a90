-- ===== src/Common/Text.antt =====
-- Text as the list of its bytes, and how the standard library writes numbers.
use Prim.Native.Char.{code}
use Prim.Native.String.{String}
use Prim.Native.Nat.{ℕ, zero, suc, ◌+◌, ◌-◌, ◌/◌, ◌%◌, ◌<◌}
use mathlib.Core.Path.{◌≡◌, refl}
use mathlib.Core.Logic.{inl, inr}
use mathlib.Core.Bool.{true, false}
use mathlib.Core.List.{List, [], ◌∷◌, ◌++◌}
use native.Mathlib.Omega.{arith}
use network_simulation.Common.Tests.{ltb, if◌then◌else◌, Bool-cases}

-- The bytes of a text in ASCII.
abbrev pub codes : String → List ℕ
codes String.[] = []
codes (String.◌∷◌ c s) = code c ∷ codes s

-- One hexadecimal digit, in upper case.
abbrev pub digit : ℕ → ℕ
digit d = if ltb d 10 then b'0' + d else b'A' - 10 + d

decimal : ℕ → ℕ → List ℕ
decimal zero n = []
decimal (suc fuel) n =
    let rest = decimal fuel (n / 10) in
    if ltb n 10 then (b'0' + n) ∷ [] else rest ++ (b'0' + n % 10) ∷ []

hexadecimal : ℕ → ℕ → List ℕ
hexadecimal zero n = []
hexadecimal (suc fuel) n =
    let rest = hexadecimal fuel (n / 16) in
    if ltb n 16 then digit n ∷ [] else rest ++ digit (n % 16) ∷ []

-- `to_string` and `<<` of a number of 64 bits, which has 20 digits at most.
unfoldable pub to_string : ℕ → List ℕ
unfolding decimal
to_string n = decimal 20 n

-- `<< uppercase << hex` of an int, which has 8 digits at most.
unfoldable pub to_hex : ℕ → List ℕ
unfolding hexadecimal
to_hex n = hexadecimal 8 n

-- A byte has up to three digits.
pub to_string_byte :
    (b : ℕ)
    → b < 256
    → to_string b ≡ (
        if ltb b 10
        then (b'0' + b) ∷ []
        else if ltb b 100
        then (b'0' + b / 10) ∷ (b'0' + b % 10) ∷ []
        else (b'0' + b / 100) ∷ (b'0' + b / 10 % 10) ∷ (b'0' + b % 10) ∷ [])
unfolding to_string decimal
to_string_byte b small = elim (Bool-cases (ltb b 10)) [
  | inl one ↦ rw one refl
  | inr more ↦ elim (Bool-cases (ltb b 100)) [
    | inl two ↦ let one : ltb (b / 10) 10 ≡ true = ground (arith, two) in rw (more, one, two) refl
    | inr three ↦
        let two : ltb (b / 10) 10 ≡ false = ground (arith, three) in
        let one : ltb (b / 10 / 10) 10 ≡ true = ground (arith, small) in
        let same : b / 10 / 10 ≡ b / 100 = omega arith in rw (more, two, one, three, same) refl
  ]
]

-- A byte has two digits in `hex`, if the first may be 0.
pub to_hex_byte :
    (b : ℕ)
    → b < 256
    → (if ltb b 16 then codes "0" else []) ++ to_hex b ≡ digit (b / 16) ∷ digit (b % 16) ∷ []
unfolding to_hex hexadecimal
to_hex_byte b small = elim (Bool-cases (ltb b 16)) [
  | inl one ↦
      let top : b / 16 ≡ 0 = ground (arith, one) in
      let low : b % 16 ≡ b = ground (arith, one) in rw (one, top, low) refl
  | inr two ↦ let one : ltb (b / 16) 16 ≡ true = ground (arith, small) in rw (two, one) refl
]
