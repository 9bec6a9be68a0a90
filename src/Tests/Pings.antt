-- ===== src/Tests/Pings.antt =====
-- The statistics of three requests of which two are answered, with times as numbers of 31 bits behind the
-- point.
use network_simulation.Common.{
  scaled, ℤ, pos, negsuc, pos_part, neg_part, sub_ℕ, zero, suc, leb, int_max, Run, fault,
  if◌then◌else◌, ℕ, ◌+◌, ◌*◌, ◌/◌, ◌^◌, ◌≡◌, refl, ok, ltb, to_string,
}
use network_simulation.Ping.{Pinger, PingPhase}
use network_simulation.Ping.Statistics.{Timing, packet_loss}
use network_simulation.Tests.Data.{host_1, echo_request, header_1_to_2, mac_22}

abbrev unit : ℕ
unit = 2 ^ 31

negate : ℤ → ℤ
negate a = sub_ℕ (neg_part a) (pos_part a)

-- Bits from 2 ^ (n - 1) down: the greatest number whose square is not more than `a`.
root : ℕ → ℕ → ℕ → ℕ
root zero a r = r
root (suc n) a r =
    let with_bit = r + 2 ^ n in root n a (if leb (with_bit * with_bit) a then with_bit else r)

divide : ℤ → ℤ → ℤ
unfolding negate
divide (pos a) (pos b) = pos (a * unit / b)
divide (pos a) (negsuc b) = negate (pos (a * unit / suc b))
divide (negsuc a) (pos b) = negate (pos (suc a * unit / b))
divide (negsuc a) (negsuc b) = pos (suc a * unit / suc b)

truncate : ℤ → Run ℤ
unfolding negate
truncate (pos a) = if ltb int_max (a / unit) then fault else ok (pos (a / unit))
truncate (negsuc a) =
    if ltb (int_max + 1) (suc a / unit) then fault else ok (negate (pos (suc a / unit)))

minus : ℤ → ℤ → ℤ
minus a b = sub_ℕ (pos_part a + neg_part b) (neg_part a + pos_part b)

abbrev fixed_point : Timing ℤ
fixed_point = record {
  of_int = λ n. pos (n * unit);
  to_int = truncate;
  add = λ a b. minus a (negate b);
  sub = minus;
  div = divide;
  add_square =
      λ a b. minus a (negate (pos ((pos_part b + neg_part b) * (pos_part b + neg_part b) / unit)));
  one_minus = λ a. minus (pos unit) a;
  sqrt = λ a. pos (root 48 (pos_part a * unit) 0);
  lt = λ a b. ltb (pos_part a + neg_part b) (pos_part b + neg_part a);
  show = λ a. to_string (pos_part a / unit);
}

abbrev two_of_three : Pinger
two_of_three = record {
  host = host_1;
  destination_mac = mac_22;
  port = 7;
  ping_to_send = echo_request;
  ip_to_send = header_1_to_2;
  transmission_attempts = 3;
  receptions = 2;
  check_count = 0;
  phase = PingPhase.finished;
}

loss_of_two_of_three : packet_loss fixed_point 3 2 ≡ ok (pos 0)
unfolding packet_loss scaled divide truncate minus
loss_of_two_of_three = refl
