-- ===== src/Addressing.antt =====
-- addressing.h and addressing.cpp: MAC addresses, vectors of bytes of which the code reads six, and
-- IP addresses, words of 32 bits. `rand` is the sequence of values that the C function returns.
pub mod Macs
pub mod Ips
pub mod Text
use network_simulation.Common.{
  ℕ, zero, suc, ◌+◌, ◌*◌, ◌/◌, ◌%◌, ◌^◌, Bool, true, false, List, [], ◌∷◌, ◌++◌, Run, ok, at, ◌>>=◌,
  if◌then◌else◌, ◌==◌,
}

unfoldable pub create_mac : ℕ → ℕ → ℕ → ℕ → ℕ → ℕ → List ℕ
create_mac b1 b2 b3 b4 b5 b6 = b1 ∷ b2 ∷ b3 ∷ b4 ∷ b5 ∷ b6 ∷ []

-- `for (int i = 0; i < n; i++) result.push_back(f(i));`
push_from : ℕ → ℕ → (ℕ → ℕ) → List ℕ → List ℕ
push_from zero i f result = result
push_from (suc n) i f result = push_from n (suc i) f (result ++ f i ∷ [])

unfoldable pub create_random_mac : (ℕ → ℕ) → List ℕ
unfolding push_from
create_random_mac rand = push_from 6 0 (λ i. rand i % 256) []

unfoldable pub create_uniform_mac : ℕ → List ℕ
unfolding push_from
create_uniform_mac mac_byte = push_from 6 0 (λ i. mac_byte) []

unfoldable pub create_broadcast_mac : List ℕ
unfolding push_from
create_broadcast_mac = push_from 6 0 (λ i. 0xFF) []

-- `result = result << 8; result |= b;` on a uint32_t: the shift clears the bits that `b` sets.
abbrev shift_in : ℕ → ℕ → ℕ
shift_in result b = result * 2 ^ 8 % 2 ^ 32 + b

unfoldable pub create_ip : ℕ → ℕ → ℕ → ℕ → ℕ
create_ip b1 b2 b3 b4 = shift_in (shift_in (shift_in b1 b2) b3) b4

unfoldable pub create_random_ip : (ℕ → ℕ) → ℕ
create_random_ip rand =
    rand 0 % 256 + rand 1 % 256 * 2 ^ 8 + rand 2 % 256 * 2 ^ 16 + rand 3 % 256 * 2 ^ 24

abbrev pub create_broadcast_ip : ℕ
create_broadcast_ip = 0xFFFFFFFF

compare_from : ℕ → ℕ → List ℕ → List ℕ → Run Bool
compare_from zero i mac1 mac2 = ok true
compare_from (suc n) i mac1 mac2 = do
  a ← at mac1 i
  b ← at mac2 i
  let rest = compare_from n (suc i) mac1 mac2
  if a == b then rest else ok false

unfoldable pub compare_macs : List ℕ → List ℕ → Run Bool
unfolding compare_from
compare_macs mac1 mac2 = compare_from 6 0 mac1 mac2

unfoldable pub compare_ips : ℕ → ℕ → Bool
compare_ips ip1 ip2 = ip1 == ip2

all_ones_from : ℕ → ℕ → List ℕ → Run Bool
all_ones_from zero i address = ok true
all_ones_from (suc n) i address = do
  a ← at address i
  let rest = all_ones_from n (suc i) address
  if a == 0xFF then rest else ok false

-- `is_broadcast(vector<uint8_t>)`.
unfoldable pub is_broadcast : List ℕ → Run Bool
unfolding all_ones_from
is_broadcast address = all_ones_from 6 0 address

-- `is_broadcast(uint32_t)`.
unfoldable pub is_broadcast_ip : ℕ → Bool
is_broadcast_ip address = address == 0xFFFFFFFF

-- `(word >> i) & 0x01`
abbrev bit : ℕ → ℕ → ℕ
bit word i = word / 2 ^ i % 2

subnet_from : ℕ → ℕ → ℕ → ℕ → ℕ → Bool
subnet_from zero i ip_1 ip_2 mask = true
subnet_from (suc n) i ip_1 ip_2 mask =
    let rest = subnet_from n (suc i) ip_1 ip_2 mask in
    if bit mask i == 1 then (if bit ip_1 i == bit ip_2 i then rest else false) else rest

unfoldable pub in_subnet : ℕ → ℕ → ℕ → Bool
unfolding subnet_from
in_subnet ip_1 ip_2 test_netmask = subnet_from 32 0 ip_1 ip_2 test_netmask
