-- ===== src/Ping/Statistics.antt =====
-- Host::print_ping_statistics of host.cpp, and the end of `ping`, which calls it. The arithmetic of
-- float and double is a record of operations.
use network_simulation.Common.{
  ℕ, ℤ, scaled, show_int, Bool, List, [], ◌∷◌, ◌++◌, Run, ok, fault, ◌>>=◌, if◌then◌else◌, length,
  codes, to_string,
}
use network_simulation.Addressing.Text.{ip_to_string}
use network_simulation.Ping.{Pinger}

-- `add`, `sub` and `div` are those of float; `add_square` is `mdev += pow(x, 2.0)`, which adds as a
-- double and keeps a float; `one_minus` is `1.0 - x`, a double. `to_int` is the cast to int, of a number
-- that may not fit one, and `show` is `to_string`.
pub record Timing (F : Type 0) : Type 0 where
  pub of_int : ℕ → F
  pub to_int : F → Run ℤ
  pub add : F → F → F
  pub sub : F → F → F
  pub div : F → F → F
  pub add_square : F → F → F
  pub one_minus : F → F
  pub sqrt : F → F
  pub lt : F → F → Bool
  pub show : F → List ℕ

pub record Sums (F : Type 0) : Type 0 where
  pub total_time : F
  pub min_time : F
  pub max_time : F

-- The first loop over `ping_times`.
unfoldable pub count_times : {F : Type 0} → Timing F → List F → Sums F → Sums F
count_times t [] s = s
count_times t (x ∷ xs) s = count_times t xs (record {
  total_time = t.add s.total_time x;
  min_time = if t.lt x s.min_time then x else s.min_time;
  max_time = if t.lt s.max_time x then x else s.max_time;
})

-- The second one.
pub add_deviations : {F : Type 0} → Timing F → F → List F → F → F
add_deviations t avg_time [] mdev = mdev
add_deviations t avg_time (x ∷ xs) mdev =
    add_deviations t avg_time xs (t.add_square mdev (t.sub x avg_time))

-- `(int)(1.0 - ((float)receptions)/((float)transmissions)) * 100`.
unfoldable pub packet_loss : {F : Type 0} → Timing F → ℕ → ℕ → Run ℤ
packet_loss t transmissions receptions =
    t.to_int (t.one_minus (t.div (t.of_int receptions) (t.of_int transmissions))) >>= λ i.
    scaled 100 i

-- The text of the two lines; without a time, `ping_times[0]` is out of range.
unfoldable pub print_ping_statistics :
    {F : Type 0} → Timing F → ℕ → ℕ → List F → Run (List (List ℕ))
unfolding count_times add_deviations packet_loss
print_ping_statistics t transmissions receptions [] = fault
print_ping_statistics t transmissions receptions (x ∷ xs) =
    let s =
      count_times t (x ∷ xs) (record { total_time = t.of_int 0; min_time = x; max_time = x }) in
    let size = t.of_int (length (x ∷ xs)) in
    let avg_time = t.div s.total_time size in
    let mdev = t.sqrt (t.div (add_deviations t avg_time (x ∷ xs) (t.of_int 0)) size) in
    packet_loss t transmissions receptions >>= λ loss. ok (
      (to_string transmissions
        ++ (codes " packets transmitted, "
            ++ (to_string receptions
                ++ (codes " received, "
                    ++ (show_int loss
                        ++ (codes "% packet loss, time "
                            ++ (t.show s.total_time ++ codes " ms")))))))
      ∷ (codes "rtt min/avg/max/mdev = "
          ++ (t.show s.min_time
              ++ (codes "/"
                  ++ (t.show avg_time
                      ++ (codes "/" ++ (t.show s.max_time ++ (codes "/" ++ t.show mdev)))))))
      ∷ [])

-- What `ping` prints when its loop is left; `test_times` has the time of each reply.
unfoldable pub ping_report : {F : Type 0} → Timing F → ℕ → List F → Pinger → Run (List (List ℕ))
unfolding print_ping_statistics
ping_report t destination_ip test_times p = do
  statistics ← print_ping_statistics t p.transmission_attempts p.receptions test_times
  ok ((codes "--- " ++ (ip_to_string destination_ip ++ codes " ping statistics ---")) ∷ statistics)
