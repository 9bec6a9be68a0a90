-- ===== src/Common/Signed.antt =====
-- Signed integers over the native numbers.
use Prim.Native.Nat.{ℕ, suc, ◌+◌, ◌-◌, ◌*◌}
use mathlib.Core.List.{List, ◌++◌}
use network_simulation.Common.Outcome.{Run, ok, fault}
use network_simulation.Common.Tests.{ltb, leb, if◌then◌else◌}
use network_simulation.Common.Text.{codes, to_string}
use network_simulation.Common.Words.{int_max}

-- `negsuc n` is -(n + 1).
pub data ℤ : Type 0 where
  pos : ℕ → ℤ
  negsuc : ℕ → ℤ

abbrev pub pos_part : ℤ → ℕ
pos_part (pos n) = n
pos_part (negsuc n) = 0

abbrev pub neg_part : ℤ → ℕ
neg_part (pos n) = 0
neg_part (negsuc n) = suc n

-- a - b, as an integer.
abbrev pub sub_ℕ : ℕ → ℕ → ℤ
sub_ℕ a b = if leb b a then pos (a - b) else negsuc (b - a - 1)

-- `to_string` of an int.
unfoldable pub show_int : ℤ → List ℕ
show_int (pos n) = to_string n
show_int (negsuc n) = codes "-" ++ to_string (suc n)

-- The product of an int and `factor`, which may overflow.
unfoldable pub scaled : ℕ → ℤ → Run ℤ
scaled factor (pos n) = if ltb int_max (n * factor) then fault else ok (pos (n * factor))
scaled factor (negsuc n) =
    if ltb (int_max + 1) (suc n * factor) then fault else ok (sub_ℕ 0 (suc n * factor))
