-- ===== src/Cv/Progress.antt =====
-- From every state of cv.cpp that the two threads reach, both can end.
use network_simulation.Common.{
  ℕ, zero, suc, ◌+◌, ◌-◌, ◌<◌, ◌≡◌, ◌≢◌, ◌∙◌, refl, true, false, ◌==◌, inl, inr, Bool-cases, arith,
}
use network_simulation.Cv.{
  Market, Step, Reach, rounds, opening, shipment_available, look, produce, consume, looks, produces,
  consumes, asleep,
}
use network_simulation.Cv.Order.{
  InOrder, Reach-InOrder, Step-InOrder, exchanged, printed, level, ahead,
}

-- Runs without spurious wake-ups: a thread asleep goes on only when it is notified.
pub data Prompted (n : ℕ) (m : Market) : Market → Type 0 where
  stays : Prompted n m m
  then_looks :
      {m' : Market}
      → Prompted n m m'
      → m'.producer_i < rounds
      → m'.ready ≡ false
      → Prompted n m (look m')
  then_produces : {m' : Market} → Prompted n m m' → m'.ready ≡ true → Prompted n m (produce m')
  then_consumes :
      {m' : Market}
      → Prompted n m m'
      → m'.consumer_i < n
      → m'.consumer ≢ asleep
      → Prompted n m (consume m')

Prompted-trans :
    {n : ℕ} {m1 m2 m3 : Market} → Prompted n m1 m2 → Prompted n m2 m3 → Prompted n m1 m3
Prompted-trans r stays = r
Prompted-trans r (then_looks q more free) = then_looks (Prompted-trans r q) more free
Prompted-trans r (then_produces q now) = then_produces (Prompted-trans r q) now
Prompted-trans r (then_consumes q more up) = then_consumes (Prompted-trans r q) more up

Prompted-keeps : {n : ℕ} {m m' : Market} → InOrder n m → Prompted n m m' → InOrder n m'
Prompted-keeps v stays = v
Prompted-keeps v (then_looks q more free) = Step-InOrder (looks more free) (Prompted-keeps v q)
Prompted-keeps v (then_produces q now) = Step-InOrder (produces now) (Prompted-keeps v q)
Prompted-keeps v (then_consumes q more up) = Step-InOrder (consumes more up) (Prompted-keeps v q)

-- The consumer gets one number further, or the producer gets the lock.
abbrev Further : Market → Type 0
Further m = (m' : Market) × Prompted rounds m m' × (m'.consumer_i ≡ m.consumer_i + 1)

consume-Further :
    (m : Market) → InOrder rounds m → m.consumer_i < rounds → (m.cargo == 0) ≡ false → Further m
unfolding consume shipment_available
consume-Further m v more full = (
  consume m,
  then_consumes stays more (λ down. absurd (omega (arith, v.sleeps down, ahead rounds m v full))),
  rw full refl,
)

produce-Further :
    (m : Market) → InOrder rounds m → m.consumer_i < rounds → m.ready ≡ true → Further m
unfolding produce
produce-Further m v more now =
    let step : Step rounds m (produce m) = produces now in
    let (m', r, further) = consume-Further (produce m) (Step-InOrder step v) more (ground arith) in
    (m', Prompted-trans (then_produces stays now) r, further)

look-Further :
    (m : Market)
    → InOrder rounds m
    → m.consumer_i < rounds
    → m.ready ≡ false
    → (m.cargo == 0) ≡ true
    → Further m
unfolding look shipment_available
look-Further m v more free empty =
    let step : Step rounds m (look m) = looks (omega (arith, level rounds m v empty)) free in
    let (m', r, further) =
      produce-Further (look m) (Step-InOrder step v) (rw empty more) (rw empty refl) in
    (
      m',
      Prompted-trans (then_looks stays (omega (arith, level rounds m v empty)) free) r,
      further ∙ rw empty refl,
    )

further : (m : Market) → InOrder rounds m → m.consumer_i < rounds → Further m
further m v more = elim (Bool-cases (m.cargo == 0)) [
  | inr full ↦ consume-Further m v more full
  | inl empty ↦ elim (Bool-cases m.ready) [
    | inl now ↦ produce-Further m v more now
    | inr free ↦ look-Further m v more free empty
  ]
]

all_rounds :
    (k : ℕ) (m : Market)
    → InOrder rounds m
    → m.consumer_i + k ≡ rounds
    → (m' : Market) × Prompted rounds m m' × (m'.consumer_i ≡ rounds)
all_rounds zero m v e = (m, stays, omega arith)
all_rounds (suc k) m v e =
    let (m1, r1, one) = further m v (omega arith) in
    let (m2, r2, done) = all_rounds k m1 (Prompted-keeps v r1) (omega arith) in
    (m2, Prompted-trans r1 r2, done)

-- `main` runs 10 rounds of each: whatever the threads have done so far, also with spurious wake-ups,
-- they can go on without any, woken by `notify_one` only, to the end of both loops, and then every
-- number from 1 to 10 has been sent and consumed, in turns.
pub both_threads_end :
    {m : Market}
    → Reach rounds opening m
    → (m' : Market) × Prompted rounds m m'
      × (m'.producer_i ≡ rounds)
      × (m'.consumer_i ≡ rounds)
      × (m'.out ≡ exchanged rounds)
unfolding printed
both_threads_end {m} run =
    let v = Reach-InOrder run in
    let (m', r, done) = all_rounds (rounds - m.consumer_i) m v (omega (arith, v.asked)) in
    let v' = Prompted-keeps v r in
    let made : m'.producer_i ≡ rounds = omega (arith, v'.behind, v'.bounded) in
    (m', r, made, done, v'.lines ∙ rw (made, done) refl)
