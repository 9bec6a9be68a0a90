-- ===== src/Poisson.antt =====
-- frame_generators.cpp: arrival times of a Poisson process, and the histogram that is printed of them.
-- The arithmetic of float and double, with `log`, is a record of operations; `add` is the sum as a
-- float, and `add_double` the sum as a double. Counts that are whole
-- numbers in a float are numbers that stop at 2 ^ 24, where adding 1 no longer changes a float.
pub mod Points
pub mod Pmf
pub mod Histogram
use network_simulation.Common.{
  ℕ, zero, suc, ◌+◌, ◌-◌, ◌%◌, ◌^◌, Bool, true, false, List, [], ◌∷◌, ◌++◌, if◌then◌else◌, ◌==◌,
  ltb, length,
}

pub record Floating (F : Type 0) : Type 0 where
  pub of_int : ℕ → F
  pub to_int : F → ℕ
  pub add : F → F → F
  pub add_double : F → F → F
  pub sub : F → F → F
  pub mul : F → F → F
  pub div : F → F → F
  pub neg : F → F
  pub log : F → F
  pub lt : F → F → Bool

-- A loop that is stopped at its fuel is `unfinished`; `threw` is `vector::at` out of range.
pub data Loop {ℓ} (A : Type ℓ) : Type ℓ where
  done : A → Loop A
  threw : Loop A
  unfinished : Loop A

infixl 5 ◌>>=◌
abbrev pub ◌>>=◌ {ℓ κ} : {A : Type ℓ} {B : Type κ} → Loop A → (A → Loop B) → Loop B
done a >>= f = f a
threw >>= f = threw
unfinished >>= f = unfinished

pub record Poisson (F : Type 0) : Type 0 where
  pub lambda : F
  pub seconds : ℕ
  pub process_points : List F

abbrev pub largest_size : ℕ
largest_size = 2 ^ 64 - 1

-- `capture_pmf.at(i) += 1.0`, for a float.
unfoldable pub float_inc : ℕ → ℕ
float_inc x = if ltb x (2 ^ 24) then x + 1 else x

unfoldable pub increment_at : ℕ → List ℕ → Loop (List ℕ)
increment_at i [] = threw
increment_at zero (x ∷ xs) = done (float_inc x ∷ xs)
increment_at (suc i) (x ∷ xs) = increment_at i xs >>= λ ys. done (x ∷ ys)

-- `vector::resize`.
unfoldable pub resize : ℕ → List ℕ → List ℕ
resize zero xs = []
resize (suc n) [] = 0 ∷ resize n []
resize (suc n) (x ∷ xs) = x ∷ resize n xs

-- `capture_pmf.size() - 1`, a size_t.
abbrev last_index : List ℕ → ℕ
last_index xs = if length xs == 0 then largest_size else length xs - 1

-- The element for the number of frames in an interval gets one more; it is made if it is missing.
unfoldable pub count_interval : ℕ → List ℕ → Loop (List ℕ)
unfolding increment_at resize
count_interval frames_in_interval capture_pmf = increment_at frames_in_interval (
    if ltb (last_index capture_pmf) frames_in_interval
    then resize (frames_in_interval + 1) capture_pmf
    else capture_pmf)

pub record Capture : Type 0 where
  pub frames_in_interval : ℕ
  pub interval : ℕ
  pub capture_pmf : List ℕ

unfoldable pub next_interval : Capture → Loop Capture
next_interval c = do
  pmf ← count_interval c.frames_in_interval c.capture_pmf
  done (record { frames_in_interval = 0; interval = c.interval + 1; capture_pmf = pmf })

module _ {F : Type 0} ⦃f : Floating F⦄ where
  -- `Poisson()`, `Poisson(float)` and `Poisson(float,int)`.
  unfoldable pub new_poisson : F → ℕ → Poisson F
  new_poisson l s = record { lambda = l; seconds = s; process_points = [] }

  unfoldable pub set_seconds : ℕ → Poisson F → Poisson F
  set_seconds s p = record p { seconds = s }

  unfoldable pub set_lambda : F → Poisson F → Poisson F
  set_lambda l p = record p { lambda = l }

  -- `rand` is what `rand()` gives.
  unfoldable pub interarrival_time : ℕ → Poisson F → F
  interarrival_time rand p =
      f.div
        (f.mul (f.neg (f.of_int 1))
          (f.log (f.sub (f.of_int 1) (f.div (f.of_int (rand % 10000)) (f.of_int 10000)))))
        p.lambda

  unfoldable pub interarrival_time_us : ℕ → Poisson F → ℕ
  interarrival_time_us rand p = f.to_int (f.mul (interarrival_time rand p) (f.of_int 1000000))

  -- The loop of `run`, for the numbers that `rand()` gives; `unfinished` when it wants another one.
  unfoldable pub collect : List ℕ → F → Poisson F → Loop (Poisson F)
  collect [] total_t p = unfinished
  collect (r ∷ rs) total_t p =
      let time = interarrival_time r p in
      let total = f.add total_t time in
      let rest = collect rs total (record p { process_points = p.process_points ++ time ∷ [] }) in
      if f.lt total (f.of_int p.seconds) then rest else done p

  -- The number and the time in each line of `run_capture`.
  unfoldable pub capture_lines : List F → F → ℕ → List (ℕ × F)
  capture_lines [] total_time count = []
  capture_lines (t ∷ ts) total_time count =
      let total = f.add total_time t in (count + 1, total) ∷ capture_lines ts total (count + 1)

  unfoldable pub run_capture : Poisson F → List (ℕ × F)
  run_capture p = capture_lines p.process_points (f.of_int 0) 1

  -- `while (total_time > float(interval))`
  unfoldable pub pass_intervals : ℕ → F → Capture → Loop Capture
  pass_intervals zero total_time c = unfinished
  pass_intervals (suc fuel) total_time c =
      let rest = next_interval c >>= pass_intervals fuel total_time in
      if f.lt (f.of_int c.interval) total_time then rest else done c

  unfoldable pub capture_frames : ℕ → List F → F → Capture → Loop Capture
  capture_frames fuel [] total_time c = done c
  capture_frames fuel (t ∷ ts) total_time c = do
    let total = f.add_double total_time t
    c' ← pass_intervals fuel total c
    capture_frames fuel ts total (record c' { frames_in_interval = c'.frames_in_interval + 1 })

  -- The histogram of `print_capture_pmf`.
  unfoldable pub capture_histogram : ℕ → Poisson F → Loop (List ℕ)
  capture_histogram fuel p = do
    let start : Capture = record { frames_in_interval = 0; interval = 1; capture_pmf = 0 ∷ [] }
    c ← capture_frames fuel p.process_points (f.of_int 0) start
    count_interval c.frames_in_interval c.capture_pmf

  -- What `print_capture_pmf` prints: the number of frames, of intervals, and their share.
  unfoldable pub pmf_lines : ℕ → List ℕ → Poisson F → List (ℕ × ℕ × F)
  pmf_lines i [] p = []
  pmf_lines i (x ∷ xs) p = (i, x, f.div (f.of_int x) (f.of_int p.seconds)) ∷ pmf_lines (i + 1) xs p

  -- `run`: the process with its points, and what is printed.
  unfoldable pub run : ℕ → List ℕ → Poisson F → Loop (Poisson F × List (ℕ × F) × List (ℕ × ℕ × F))
  run fuel rands p = do
    p' ← collect rands (f.of_int 0) p
    pmf ← capture_histogram fuel p'
    done (p', run_capture p', pmf_lines 0 pmf p')
