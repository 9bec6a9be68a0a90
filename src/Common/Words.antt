-- ===== src/Common/Words.antt =====
-- Unsigned words as native numbers, and their bytes, most significant first.
use Prim.Native.Nat.{ℕ, ◌+◌, ◌-◌, ◌*◌, ◌/◌, ◌%◌, ◌^◌, ◌<◌, bit_and}
use mathlib.Core.Path.{◌≡◌}
use mathlib.Core.Bool.{Bool, not}
use mathlib.Core.List.{List, [], ◌∷◌}
use native.Mathlib.Omega.{arith}
use network_simulation.Common.Outcome.{Run, ok, at, ◌>>=◌}
use network_simulation.Common.Tests.{◌==◌}

-- The largest int, which overflows when it is incremented.
abbrev pub int_max : ℕ
int_max = 2 ^ 31 - 1

-- `(v >> (8 * i)) & 0xFF`
abbrev pub byte : ℕ → ℕ → ℕ
byte v i = v / 2 ^ (8 * i) % 256

-- `for (int i = 1; i >= 0; i--) push_back((v >> (i*8)) & 0xFF)`, and the same from 3.
abbrev pub be16 : ℕ → List ℕ
be16 v = byte v 1 ∷ byte v 0 ∷ []

abbrev pub be32 : ℕ → List ℕ
be32 v = byte v 3 ∷ byte v 2 ∷ byte v 1 ∷ byte v 0 ∷ []

-- `(((uint16_t)hi << 8) & 0xFF00) + lo`, stored in a uint16_t.
pub join16 : ℕ → ℕ → ℕ
join16 hi lo = (hi * 2 ^ 8 % 2 ^ 16 + lo) % 2 ^ 16

-- `(b3 << 24) + (b2 << 16) + (b1 << 8) + b0`, stored in a uint32_t. The four terms share no bit, so
-- that `|` in place of `+` gives the same number.
pub join32 : ℕ → ℕ → ℕ → ℕ → ℕ
join32 b3 b2 b1 b0 = (b3 * 2 ^ 24 + b2 * 2 ^ 16 + b1 * 2 ^ 8 + b0) % 2 ^ 32

-- The word whose bytes stand at `v[i]`, `v[i+1]`, ….
abbrev pub read16 : List ℕ → ℕ → Run ℕ
read16 v i = do hi ← at v i; lo ← at v (i + 1); ok (join16 hi lo)

abbrev pub read32 : List ℕ → ℕ → Run ℕ
read32 v i = do
  b3 ← at v i
  b2 ← at v (i + 1)
  b1 ← at v (i + 2)
  b0 ← at v (i + 3)
  ok (join32 b3 b2 b1 b0)

-- `d & flag` as a condition.
abbrev pub has_flag : ℕ → ℕ → Bool
has_flag d flag = not (bit_and d flag == 0)

pub join16-be16 : (v : ℕ) → v < 2 ^ 16 → join16 (byte v 1) (byte v 0) ≡ v
unfolding join16
join16-be16 v h = omega arith

pub join32-be32 : (v : ℕ) → v < 2 ^ 32 → join32 (byte v 3) (byte v 2) (byte v 1) (byte v 0) ≡ v
unfolding join32
join32-be32 v h = omega arith

pub join16-lt : (hi lo : ℕ) → join16 hi lo < 2 ^ 16
unfolding join16
join16-lt hi lo = omega arith

pub join32-lt : (b3 b2 b1 b0 : ℕ) → join32 b3 b2 b1 b0 < 2 ^ 32
unfolding join32
join32-lt b3 b2 b1 b0 = omega arith

pub join16_lem : (hi lo : ℕ) → hi < 256 → lo < 256 → join16 hi lo ≡ hi * 256 + lo
unfolding join16
join16_lem hi lo h l = omega arith
