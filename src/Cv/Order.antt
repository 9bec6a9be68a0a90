-- ===== src/Cv/Order.antt =====
-- What the two threads of cv.cpp print.
use network_simulation.Common.{
  ℕ, zero, suc, ◌+◌, ◌<◌, ◌≤◌, ◌≡◌, ◌≢◌, refl, true, false, List, [], ◌∷◌, ◌++◌, if◌then◌else◌,
  ◌==◌, arith, Bool-cases, inl, inr,
}
use mathlib.Core.List.{append_assoc}
use network_simulation.Cv.{
  Market, Step, Reach, Line, sent, consumed, ConsumerPhase, arriving, asleep, woken, rounds,
  opening, shipment_available, look, notified, produce, consume, looks, produces, consumes, wakes,
  here, next,
}

-- Every number up to `k`, sent and then consumed.
unfoldable pub exchanged : ℕ → List Line
exchanged zero = []
exchanged (suc k) = exchanged k ++ (sent k (k + 1) ∷ consumed (k + 1) ∷ [])

-- The lines printed when the producer has sent `i` numbers and the consumer has consumed `j`.
unfoldable pub printed : ℕ → ℕ → List Line
printed i j = if i == j then exchanged j else exchanged j ++ sent j (j + 1) ∷ []

pub record InOrder (n : ℕ) (m : Market) : Type 0 where
  pub behind : m.consumer_i ≤ m.producer_i
  pub close : m.producer_i ≤ m.consumer_i + 1
  pub bounded : m.producer_i ≤ rounds
  pub asked : m.consumer_i ≤ n
  pub holds : m.cargo ≡ (if m.producer_i == m.consumer_i then 0 else m.producer_i)
  pub room : m.ready ≡ true → (m.producer_i < rounds) × (m.producer_i ≡ m.consumer_i)
  pub sleeps : m.consumer ≡ asleep → m.producer_i ≡ m.consumer_i
  pub lines : m.out ≡ printed m.producer_i m.consumer_i

opening-InOrder : (n : ℕ) → InOrder n opening
unfolding opening printed exchanged
opening-InOrder n = record {
  behind = omega arith;
  close = omega arith;
  bounded = omega arith;
  asked = omega arith;
  holds = refl;
  room = λ h. cc;
  sleeps = λ h. cc;
  lines = refl;
}

printed-sent : (j : ℕ) → printed (j + 1) j ≡ printed j j ++ sent j (j + 1) ∷ []
unfolding printed
printed-sent j = ground arith

printed-consumed : (j : ℕ) → printed (j + 1) (j + 1) ≡ printed (j + 1) j ++ consumed (j + 1) ∷ []
unfolding printed exchanged
printed-consumed j =
    ground (arith, append_assoc (exchanged j) (sent j (j + 1) ∷ []) (consumed (j + 1) ∷ []))

look-InOrder : (n : ℕ) (m : Market) → InOrder n m → m.producer_i < rounds → InOrder n (look m)
unfolding look shipment_available
look-InOrder n m v more = ground (arith, v.room, v.sleeps)

sent_lines :
    (n : ℕ) (m : Market)
    → InOrder n m
    → m.producer_i ≡ m.consumer_i
    → m.out ++ sent m.producer_i (m.producer_i + 1) ∷ [] ≡ printed (m.producer_i + 1) m.consumer_i
sent_lines n m v even = ground (arith, v.lines, printed-sent m.consumer_i)

not-asleep : (c : ConsumerPhase) → notified c ≢ asleep
unfolding notified
not-asleep arriving h = cc
not-asleep asleep h = cc
not-asleep woken h = cc

produce-InOrder : (n : ℕ) (m : Market) → InOrder n m → m.ready ≡ true → InOrder n (produce m)
unfolding produce notified
produce-InOrder n m v now =
    let (free, even) = v.room now in
    record {
      behind = omega arith;
      close = omega arith;
      bounded = omega arith;
      asked = v.asked;
      holds = ground arith;
      room = λ h. cc;
      sleeps = λ h. absurd (not-asleep m.consumer h);
      lines = sent_lines n m v even;
    }

consumed_lines :
    (n : ℕ) (m : Market)
    → InOrder n m
    → m.producer_i ≡ m.consumer_i + 1
    → m.out ++ consumed m.cargo ∷ [] ≡ printed m.producer_i (m.consumer_i + 1)
consumed_lines n m v ahead = ground (arith, v.lines, v.holds, printed-consumed m.consumer_i)

pub level : (n : ℕ) (m : Market) → InOrder n m → (m.cargo == 0) ≡ true → m.producer_i ≡ m.consumer_i
level n m v empty = ground (arith, v.holds, v.behind)

pub ahead :
    (n : ℕ) (m : Market) → InOrder n m → (m.cargo == 0) ≡ false → m.producer_i ≡ m.consumer_i + 1
ahead n m v full = ground (arith, v.holds, v.behind, v.close)

unready : (n : ℕ) (m : Market) → InOrder n m → m.producer_i ≡ m.consumer_i + 1 → m.ready ≢ true
unready n m v gap now = absurd (omega (arith, (v.room now).1))

consume-InOrder : (n : ℕ) (m : Market) → InOrder n m → m.consumer_i < n → InOrder n (consume m)
unfolding consume shipment_available
consume-InOrder n m v more = elim (Bool-cases (m.cargo == 0)) [
  | inl none_yet ↦ rw none_yet (record {
    behind = v.behind;
    close = v.close;
    bounded = v.bounded;
    asked = v.asked;
    holds = v.holds;
    room = v.room;
    sleeps = λ h. level n m v none_yet;
    lines = v.lines;
  })
  | inr some_now ↦
      let gap = ahead n m v some_now in
      rw some_now (record {
        behind = omega arith;
        close = omega arith;
        bounded = v.bounded;
        asked = omega arith;
        holds = ground arith;
        room = λ h. absurd (unready n m v gap h);
        sleeps = λ h. cc;
        lines = consumed_lines n m v gap;
      })
]

pub Step-InOrder : {n : ℕ} {m m' : Market} → Step n m m' → InOrder n m → InOrder n m'
Step-InOrder {n} {m} (looks more free) v = look-InOrder n m v more
Step-InOrder {n} {m} (produces now) v = produce-InOrder n m v now
Step-InOrder {n} {m} (consumes more up) v = consume-InOrder n m v more
Step-InOrder {n} {m} (wakes down) v = record {
  behind = v.behind;
  close = v.close;
  bounded = v.bounded;
  asked = v.asked;
  holds = v.holds;
  room = v.room;
  sleeps = λ h. cc;
  lines = v.lines;
}

-- However the two threads are scheduled, and with spurious wake-ups: what is printed is every number
-- from 1 up, sent and then consumed, but the last one perhaps only sent. The producer sends 10 numbers
-- at most and the consumer takes `n` at most. The number in between is the one that is not consumed
-- yet, or else 0; the producer is ready to send, and the consumer sleeps, only when all is consumed.
pub Reach-InOrder : {n : ℕ} {m : Market} → Reach n opening m → InOrder n m
Reach-InOrder {n} here = opening-InOrder n
Reach-InOrder (next r s) = Step-InOrder s (Reach-InOrder r)
