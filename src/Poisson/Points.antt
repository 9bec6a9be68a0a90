-- ===== src/Poisson/Points.antt =====
-- Which arrival times `Poisson::run` keeps, and how it numbers them.
use network_simulation.Common.{
  ℕ, zero, suc, ◌+◌, true, false, ◌≡◌, ◌⊎◌, inl, inr, refl, ap, ◌∙◌, List, [], ◌∷◌, ◌++◌, map,
  Bool-cases,
}
use mathlib.Core.List.{append_assoc, append-nil}
use network_simulation.Poisson.{Floating, Poisson, done, unfinished, interarrival_time, collect}

-- `k`, `k + 1` and so on, `n` numbers.
abbrev pub counting : ℕ → ℕ → List ℕ
counting k zero = []
counting k (suc n) = k ∷ counting (k + 1) n

module _ {F : Type 0} ⦃f : Floating F⦄ where
  -- The sum, from `total` on.
  abbrev pub total_after : F → List F → F
  total_after total [] = total
  total_after total (t ∷ ts) = total_after (f.add total t) ts

  -- At each of the times the sum so far is below the limit.
  abbrev pub Below : ℕ → F → List F → Type 0
  Below seconds total [] = Unit {0}
  Below seconds total (t ∷ ts) =
      (f.lt (f.add total t) (f.of_int seconds) ≡ true) × Below seconds (f.add total t) ts

  -- The times that the numbers of `rand()` give.
  abbrev pub times : List ℕ → Poisson F → List F
  times rands p = map (λ r. interarrival_time r p) rands

  -- The loop has stopped: `x` is the first time at which the sum is not below the limit.
  pub record Stopped (rands : List ℕ) (total : F) (p : Poisson F) (ts : List F) (x : F)
      (rest : List F) : Type 0 where
    pub drawn : times rands p ≡ ts ++ x ∷ rest
    pub below : Below p.seconds total ts
    pub beyond : f.lt (f.add (total_after total ts) x) (f.of_int p.seconds) ≡ false
    pub returns :
        collect rands total p ≡ done (record p { process_points = p.process_points ++ ts })

  -- The loop of `run`, for the numbers that `rand()` gives: either they run out, and the times of all
  -- of them keep the sum below the limit; or the points that are added are the times of the first of
  -- them, as long as the sum stays below the limit, and with the time after these it does not.
  pub collect_cases :
      (rands : List ℕ) (total : F) (p : Poisson F)
      → ((collect rands total p ≡ unfinished) × Below p.seconds total (times rands p))
        ⊎ ((ts : List F) × (x : F) × (rest : List F) × Stopped rands total p ts x rest)
  unfolding collect interarrival_time
  collect_cases [] total p = inl (refl, tt)
  collect_cases (r ∷ rs) total p =
      let time = interarrival_time r p in
      elim (Bool-cases (f.lt (f.add total time) (f.of_int p.seconds))) [
        | inr over ↦ inr (
          [],
          time,
          times rs p,
          record {
            drawn = refl;
            below = tt;
            beyond = over;
            returns = rw (over, append-nil p.process_points) refl;
          },
        )
        | inl under ↦
            elim (collect_cases rs (f.add total time)
              (record p { process_points = p.process_points ++ time ∷ [] })) [
                | inl (more, below) ↦ inl (rw under more, (under, below))
                | inr (ts, x, rest, s) ↦ inr (
                  time ∷ ts,
                  x,
                  rest,
                  record {
                    drawn = ap (λ l. time ∷ l) s.drawn;
                    below = (under, s.below);
                    beyond = s.beyond;
                    returns =
                        rw under
                          (s.returns ∙ rw (append_assoc p.process_points (time ∷ []) ts) refl);
                  },
                )
              ]
      ]
