-- ===== src/Ping/Report.antt =====
-- What the statistics that `ping` prints say: the least and the greatest time, and the loss.
use network_simulation.Common.{
  pos, ◌≤◌, ℕ, ◌^◌, ◌<◌, ◌≡◌, Bool, true, false, List, [], ◌∷◌, ◌++◌, All, ok, if◌then◌else◌,
}
use network_simulation.Ping.Statistics.{Timing}

-- The order of numbers, without NaN.
pub record IsOrder {F : Type 0} (lt : F → F → Bool) : Type 0 where
  pub irreflexive : (x : F) → lt x x ≡ false
  pub asymmetric : (x y : F) → lt x y ≡ true → lt y x ≡ false
  pub transitive : (x y z : F) → lt y x ≡ false → lt z y ≡ false → lt z x ≡ false

-- One less the quotient of an int by one that is not less is at least 0 and below 1, and the cast to
-- int of such a number is 0.
pub record IsTruncating {F : Type 0} (t : Timing F) : Type 0 where
  pub fraction :
      (n m : ℕ)
      → 0 < n
      → n ≤ m
      → m < 2 ^ 31
      → (t.lt (t.one_minus (t.div (t.of_int n) (t.of_int m))) (t.of_int 0) ≡ false)
        × (t.lt (t.one_minus (t.div (t.of_int n) (t.of_int m))) (t.of_int 1) ≡ true)
  pub truncated :
      (x : F) → t.lt x (t.of_int 0) ≡ false → t.lt x (t.of_int 1) ≡ true → t.to_int x ≡ ok (pos 0)

-- `m` is in the list, and nothing in the list comes before it.
pub record IsFirst {F : Type 0} (lt : F → F → Bool) (m : F) (xs : List F) : Type 0 where
  pub before : List F
  pub after : List F
  pub is_in : xs ≡ before ++ m ∷ after
  pub first : All (λ x. lt x m ≡ false) xs

abbrev pub backwards : {F : Type 0} → (F → F → Bool) → F → F → Bool
backwards lt x y = lt y x

pick : {F : Type 0} → (F → F → Bool) → List F → F → F
pick lt [] m = m
pick lt (x ∷ xs) m = pick lt xs (if lt x m then x else m)
