-- ===== src/Tests/Experiments.antt =====
-- The condition variable of cv.cpp, the handshake of tcp_test.cpp, and arrival times in whole seconds.
use network_simulation.Common.{
  ℕ, ◌+◌, ◌-◌, ◌*◌, ◌/◌, ◌≡◌, ◌⊎◌, refl, true, false, List, [], ◌∷◌, ltb, arith,
}
use network_simulation.L4.{tcp_synack}
use network_simulation.Cv.{
  Market, Reach, rounds, opening, looks, produces, here, next, look, produce, shipment_available,
}
use network_simulation.Cv.Order.{InOrder, Reach-InOrder, exchanged}
use network_simulation.Cv.Progress.{Prompted, both_threads_end}
use network_simulation.Handshake.{Tester, main_table, Inevitable}
use network_simulation.Handshake
use network_simulation.Handshake.Whole.{Synced, handshake_completes, rounds-exited, flagless}
use network_simulation.Poisson.{
  Floating, Poisson, done, unfinished, capture_histogram, capture_frames, pass_intervals,
  next_interval, count_interval, float_inc, collect,
}
use network_simulation.Poisson.Points.{Stopped, Below, times, collect_cases}
use network_simulation.Poisson.Pmf.{value_at, count, sum}
use network_simulation.Poisson.Histogram.{Counts, capture_histogram_lem}
use network_simulation.Tests.Data.{blank_tcp}

-- The producer has looked and has sent the first number.
one_sent : Reach rounds opening (produce (look opening))
unfolding look opening shipment_available
one_sent = next (next here (looks (omega arith) refl)) (produces refl)

Reach-InOrder_example : InOrder rounds (produce (look opening))
Reach-InOrder_example = Reach-InOrder one_sent

both_threads_end_example :
    (m' : Market) × Prompted rounds (produce (look opening)) m'
    × (m'.producer_i ≡ rounds)
    × (m'.consumer_i ≡ rounds)
    × (m'.out ≡ exchanged rounds)
both_threads_end_example = both_threads_end one_sent

handshake_completes_example : Inevitable Synced (main_table 20000 30000)
handshake_completes_example = handshake_completes 20000 30000

abbrev tester : Tester
tester = record { my_port = 20000; dst_port = 30000; is_sender = true; exited = false }

-- A proper SYNACK does not end the loop.
rounds-exited_example :
    (Handshake.rounds blank_tcp (record blank_tcp { details = tcp_synack } ∷ []) tester).exited
    ≡ flagless (record blank_tcp { details = tcp_synack } ∷ [])
rounds-exited_example =
    rounds-exited blank_tcp (record blank_tcp { details = tcp_synack } ∷ []) tester refl

-- Whole numbers for floats; the logarithm stands for a constant time of 2.
instance abbrev whole_numbers : Floating ℕ
whole_numbers = record {
  of_int = λ n. n;
  to_int = λ n. n;
  add = λ a b. a + b;
  add_double = λ a b. a + b;
  sub = λ a b. a - b;
  mul = λ a b. a * b;
  div = λ a b. a / b;
  neg = λ a. a;
  log = λ a. 2;
  lt = ltb;
}

abbrev two_of_five : Poisson ℕ
two_of_five = record { lambda = 1; seconds = 5; process_points = [] }

collect_cases_here :
    ((collect (1 ∷ 2 ∷ 3 ∷ 4 ∷ []) 0 two_of_five ≡ unfinished)
      × Below 5 0 (times (1 ∷ 2 ∷ 3 ∷ 4 ∷ []) two_of_five))
    ⊎ ((ts : List ℕ) × (x : ℕ) × (rest : List ℕ) × Stopped
          (1 ∷ 2 ∷ 3 ∷ 4 ∷ [])
          0
          two_of_five
          ts
          x
          rest)
collect_cases_here = collect_cases (1 ∷ 2 ∷ 3 ∷ 4 ∷ []) 0 two_of_five

abbrev three_points : Poisson ℕ
three_points = record two_of_five { process_points = 1 ∷ 0 ∷ 2 ∷ [] }

-- Two frames in the first interval, none in the second, one in the third.
capture_histogram_lem_example :
    (pmf ns : List ℕ) × (capture_histogram 3 three_points ≡ done pmf)
    × Counts 1 0 0 three_points.process_points ns
    × (sum ns ≡ 3)
    × ((k : ℕ) → value_at k pmf ≡ count k ns)
capture_histogram_lem_example =
    capture_histogram_lem 3 3 three_points (omega arith) (omega arith) (omega arith)
      (refl, (refl, (refl, tt)))

three_points_histogram : capture_histogram 3 three_points ≡ done (1 ∷ 1 ∷ 1 ∷ [])
unfolding capture_histogram capture_frames pass_intervals next_interval count_interval float_inc
three_points_histogram = refl
