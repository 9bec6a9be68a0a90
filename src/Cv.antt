-- ===== src/Cv.antt =====
-- cv.cpp: one thread produces numbers and another consumes them, with a condition variable between
-- them. The lock makes each critical section one step; the producer's spinning reads the number
-- without the lock.
pub mod Order
pub mod Progress
use network_simulation.Common.{
  ℕ, ◌+◌, ◌<◌, ◌≡◌, ◌≢◌, Bool, true, false, List, [], ◌∷◌, ◌++◌, if◌then◌else◌, ◌==◌,
}

-- `for (int i=0; i<10; ++i)` of `produce`, whose argument is not used.
abbrev pub rounds : ℕ
rounds = 10

-- A line on `cout`: the producer's `i: sent cargo`, and the consumer's `cargo`.
pub data Line : Type 0 where
  sent : ℕ → ℕ → Line
  consumed : ℕ → Line

-- The consumer before its `wait`, asleep in it, and let go but without the lock.
pub data ConsumerPhase : Type 0 where
  arriving asleep woken : ConsumerPhase

-- `i` of each thread's loop; `ready` when the producer has seen no shipment and wants the lock.
pub record Market : Type 0 where
  pub cargo : ℕ
  pub producer_i : ℕ
  pub ready : Bool
  pub consumer_i : ℕ
  pub consumer : ConsumerPhase
  pub out : List Line

unfoldable pub opening : Market
opening = record {
  cargo = 0;
  producer_i = 0;
  ready = false;
  consumer_i = 0;
  consumer = arriving;
  out = [];
}

unfoldable pub shipment_available : Market → Bool
shipment_available m = if m.cargo == 0 then false else true

-- One round of `while (shipment_available()) yield()`.
unfoldable pub look : Market → Market
unfolding shipment_available
look m = if shipment_available m then m else record m { ready = true }

-- `cv.notify_one()`.
notified : ConsumerPhase → ConsumerPhase
notified asleep = woken
notified arriving = arriving
notified woken = woken

-- The producer's critical section.
unfoldable pub produce : Market → Market
unfolding notified
produce m = record m {
  cargo = m.producer_i + 1;
  producer_i = m.producer_i + 1;
  ready = false;
  consumer = notified m.consumer;
  out = m.out ++ sent m.producer_i (m.producer_i + 1) ∷ [];
}

-- The consumer has the lock and tests the predicate of `wait`: it goes to sleep, or consumes.
unfoldable pub consume : Market → Market
unfolding shipment_available
consume m =
    if shipment_available m
    then record m {
      cargo = 0;
      consumer_i = m.consumer_i + 1;
      consumer = arriving;
      out = m.out ++ consumed m.cargo ∷ [];
    }
    else record m { consumer = asleep }

-- The scheduler's choice, with `n` rounds of the consumer. A thread asleep may be let go for no
-- reason.
pub data Step (n : ℕ) (m : Market) : Market → Type 0 where
  looks : m.producer_i < rounds → m.ready ≡ false → Step n m (look m)
  produces : m.ready ≡ true → Step n m (produce m)
  consumes : m.consumer_i < n → m.consumer ≢ asleep → Step n m (consume m)
  wakes : m.consumer ≡ asleep → Step n m (record m { consumer = woken })

pub data Reach (n : ℕ) (m : Market) : Market → Type 0 where
  here : Reach n m m
  next : {m1 m2 : Market} → Reach n m m1 → Step n m1 m2 → Reach n m m2
