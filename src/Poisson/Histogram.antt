-- ===== src/Poisson/Histogram.antt =====
-- `print_capture_pmf`: how many intervals had how many frames.
use network_simulation.Common.{
  ℕ, zero, suc, ◌+◌, ◌^◌, ◌≤◌, ◌<◌, true, false, ◌≡◌, ◌≢◌, refl, List, [], ◌∷◌, ◌++◌, inl, inr,
  length, Bool-cases, arith,
}
use network_simulation.Poisson.{
  Floating, Poisson, done, Capture, next_interval, pass_intervals, capture_frames,
  capture_histogram,
}
use mathlib.Core.List.{append_assoc}
use network_simulation.Poisson.Pmf.{
  value_at, count, sum, count-append, IsHistogram, count_interval_lem,
}

-- How many frames there are in each interval, from `interval` on, in which `n` frames have been seen,
-- the last at `total`; `ts` are the times from frame to frame that come next.
pub data Counts {F : Type 0} ⦃f : Floating F⦄ : ℕ → ℕ → F → List F → List ℕ → Type 0 where
  over : {interval n : ℕ} {total : F} → Counts interval n total [] (n ∷ [])
  same_interval :
      {interval n : ℕ} {total t : F} {ts : List F} {ns : List ℕ}
      → f.lt (f.of_int interval) (f.add_double total t) ≡ false
      → Counts interval (n + 1) (f.add_double total t) ts ns
      → Counts interval n total (t ∷ ts) ns
  later_interval :
      {interval n : ℕ} {total t : F} {ts : List F} {ns : List ℕ}
      → f.lt (f.of_int interval) (f.add_double total t) ≡ true
      → Counts (interval + 1) 0 total (t ∷ ts) ns
      → Counts interval n total (t ∷ ts) (n ∷ ns)

nothing_yet : (k : ℕ) → value_at k (0 ∷ []) ≡ 0
nothing_yet zero = refl
nothing_yet (suc k) = refl

empty-IsHistogram : IsHistogram 1 (0 ∷ [])
empty-IsHistogram = record { nonempty = omega arith; small = λ k. omega (arith, nothing_yet k) }

-- `ns` are counted in `pmf'` on top of `pmf`.
abbrev Added : List ℕ → List ℕ → List ℕ → Type 0
Added ns pmf pmf' = (k : ℕ) → value_at k pmf' ≡ value_at k pmf + count k ns

module _ {F : Type 0} ⦃f : Floating F⦄ where
  apart :
      (a b : ℕ) (total : F)
      → f.lt (f.of_int a) total ≡ true
      → f.lt (f.of_int b) total ≡ false
      → a ≢ b
  apart a b total h k e = cc

  -- All frames are sent by the end of the interval `last`.
  abbrev pub Within : ℕ → F → List F → Type 0
  Within last total [] = Unit {0}
  Within last total (t ∷ ts) =
      (f.lt (f.of_int last) (f.add_double total t) ≡ false) × Within last (f.add_double total t) ts

  -- Where `pass_intervals` gets: the frame that comes next falls into the interval of `c'`.
  record Passed (last : ℕ) (total : F) (c c' : Capture) (ns : List ℕ) : Type 0 where
    within : c'.interval ≤ last
    falls : f.lt (f.of_int c'.interval) total ≡ false
    histogram : IsHistogram c'.interval c'.capture_pmf
    added : Added ns c.capture_pmf c'.capture_pmf
    counted :
        (before t : F) (ts : List F) (rest : List ℕ)
        → f.add_double before t ≡ total
        → Counts c'.interval c'.frames_in_interval before (t ∷ ts) rest
        → Counts c.interval c.frames_in_interval before (t ∷ ts) (ns ++ rest)

  pass_intervals_lem :
      (fuel last : ℕ) (total : F) (c : Capture)
      → IsHistogram c.interval c.capture_pmf
      → c.interval ≤ last
      → last ≤ 2 ^ 24
      → last < c.interval + fuel
      → f.lt (f.of_int last) total ≡ false
      → (c' : Capture) × (ns : List ℕ) × (pass_intervals fuel total c ≡ done c')
        × Passed last total c c' ns
  unfolding pass_intervals next_interval
  pass_intervals_lem zero last total c v w b enough end = absurd (omega arith)
  pass_intervals_lem (suc fuel) last total c v w b enough end =
      elim (Bool-cases (f.lt (f.of_int c.interval) total)) [
        | inr here ↦ (
          c,
          [],
          rw here refl,
          record {
            within = w;
            falls = here;
            histogram = v;
            added = λ k. omega arith;
            counted = λ before t ts rest e r. r;
          },
        )
        | inl later ↦
            let (pmf, gives, one, v') =
              count_interval_lem c.frames_in_interval c.interval c.capture_pmf v (omega arith) in
            let c1 : Capture = record {
              frames_in_interval = 0;
              interval = c.interval + 1;
              capture_pmf = pmf;
            } in
            let (c', ns, passes, p) =
              pass_intervals_lem fuel last total c1 v'
                (omega (arith, apart c.interval last total later end)) b (omega arith) end in
            (
              c',
              c.frames_in_interval ∷ ns,
              rw (later, gives) passes,
              record {
                within = p.within;
                falls = p.falls;
                histogram = p.histogram;
                added = λ k. omega (arith, p.added k, one k);
                counted = λ before t ts rest e r.
                    later_interval (rw e later) (p.counted before t ts rest e r);
              },
            )
      ]

  -- The state of the loop, and what is counted when all frames are seen.
  record Seen (c : Capture) (total : F) (ts : List F) (c' : Capture) (ns : List ℕ) : Type 0 where
    histogram : IsHistogram c'.interval c'.capture_pmf
    short : c'.interval ≤ 2 ^ 24
    added : Added ns c.capture_pmf c'.capture_pmf
    counted : Counts c.interval c.frames_in_interval total ts (ns ++ c'.frames_in_interval ∷ [])

  capture_frames_lem :
      (fuel last : ℕ) (ts : List F) (total : F) (c : Capture)
      → IsHistogram c.interval c.capture_pmf
      → c.interval ≤ last
      → last ≤ 2 ^ 24
      → last ≤ fuel
      → Within last total ts
      → (c' : Capture) × (ns : List ℕ) × (capture_frames fuel ts total c ≡ done c')
        × Seen c total ts c' ns
  unfolding capture_frames
  capture_frames_lem fuel last [] total c v w b enough end = (
    c,
    [],
    refl,
    record { histogram = v; short = omega arith; added = λ k. omega arith; counted = over },
  )
  capture_frames_lem fuel last (t ∷ ts) total c v w b enough (falls, more) =
      let now = f.add_double total t in
      let (c1, ns1, passes, p) =
        pass_intervals_lem fuel last now c v w b (omega (arith, v.small 0)) falls in
      let c2 : Capture = record c1 { frames_in_interval = c1.frames_in_interval + 1 } in
      let (c', ns2, sees, s) =
        capture_frames_lem fuel last ts now c2 p.histogram p.within b enough more in
      (
        c',
        ns1 ++ ns2,
        rw passes sees,
        record {
          histogram = s.histogram;
          short = s.short;
          added = λ k. omega (arith, s.added k, p.added k, count-append k ns1 ns2);
          counted = rw (append_assoc ns1 ns2 (c'.frames_in_interval ∷ [])) (
              p.counted total t ts (ns2 ++ c'.frames_in_interval ∷ []) refl
                (same_interval p.falls s.counted));
        },
      )

  sum-Counts :
      {interval n : ℕ} {total : F} {ts : List F} {ns : List ℕ}
      → Counts interval n total ts ns
      → sum ns ≡ n + length ts
  sum-Counts over = omega arith
  sum-Counts (same_interval e c) = omega (arith, sum-Counts c)
  sum-Counts (later_interval e c) = omega (arith, sum-Counts c)

  -- The frames of the process are all sent by the end of the interval `last`, which is at most
  -- 2 ^ 24, and the fuel is at least `last`. Then the loops end and nothing is out of range, and
  -- each element of the histogram is the number of the intervals that had so many frames, up to the
  -- interval of the last frame; all frames are in these intervals.
  pub capture_histogram_lem :
      (fuel last : ℕ) (p : Poisson F)
      → 1 ≤ last
      → last ≤ 2 ^ 24
      → last ≤ fuel
      → Within last (f.of_int 0) p.process_points
      → (pmf ns : List ℕ) × (capture_histogram fuel p ≡ done pmf)
        × Counts 1 0 (f.of_int 0) p.process_points ns
        × (sum ns ≡ length p.process_points)
        × ((k : ℕ) → value_at k pmf ≡ count k ns)
  unfolding capture_histogram
  capture_histogram_lem fuel last p some_time b enough end =
      let c : Capture = record { frames_in_interval = 0; interval = 1; capture_pmf = 0 ∷ [] } in
      let (c', ns, sees, s) =
        capture_frames_lem fuel last p.process_points (f.of_int 0) c empty-IsHistogram some_time b
          enough end in
      let (pmf, gives, one, v) =
        count_interval_lem c'.frames_in_interval c'.interval c'.capture_pmf s.histogram s.short in
      (
        pmf,
        ns ++ c'.frames_in_interval ∷ [],
        rw sees gives,
        s.counted,
        omega (arith, sum-Counts s.counted),
        λ k. omega (
          arith,
          one k,
          s.added k,
          count-append k ns (c'.frames_in_interval ∷ []),
          nothing_yet k,
        ),
      )
