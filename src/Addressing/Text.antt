-- ===== src/Addressing/Text.antt =====
-- How addressing.cpp writes addresses as text.
use network_simulation.Common.{
  ℕ, zero, suc, ◌+◌, ◌-◌, ◌*◌, ◌/◌, ◌%◌, ◌^◌, ◌<◌, ◌≡◌, refl, ◌∙◌, false, List, [], ◌∷◌, ◌++◌, Run,
  ok, at, ◌>>=◌, if◌then◌else◌, ltb, ◌==◌, inl, inr, Bool-cases, byte, codes, to_string,
  to_string_byte, to_hex, arith,
}
use network_simulation.Addressing.Macs.{IsMac}

-- `for (int i = first; i < first + n; i++)`, with `last` for the index that no colon follows.
mac_text_from : ℕ → ℕ → ℕ → List ℕ → Run (List ℕ)
mac_text_from zero i last v = ok []
mac_text_from (suc n) i last v = do
  b ← at v i
  rest ← mac_text_from n (suc i) last v
  ok (
      (if ltb b 16 then codes "0" else [])
      ++ (to_hex b ++ ((if ltb i last then codes ":" else []) ++ rest)))

unfoldable pub mac_to_string : List ℕ → Run (List ℕ)
unfolding mac_text_from
mac_to_string mac_addr = mac_text_from 6 0 5 mac_addr

unfoldable pub mac_to_string_at : List ℕ → ℕ → Run (List ℕ)
unfolding mac_text_from
mac_to_string_at mac_vector first_index = mac_text_from 6 first_index (first_index + 5) mac_vector

-- `for (int i = n - 1; i >= 0; i--)`.
ip_text_from : ℕ → ℕ → List ℕ
ip_text_from zero ip_addr = []
ip_text_from (suc i) ip_addr =
    to_string (byte ip_addr i) ++ ((if ltb 0 i then codes "." else []) ++ ip_text_from i ip_addr)

unfoldable pub ip_to_string : ℕ → List ℕ
unfolding ip_text_from
ip_to_string ip_addr = ip_text_from 4 ip_addr

ip_bytes_text : ℕ → ℕ → ℕ → List ℕ → Run (List ℕ)
ip_bytes_text zero i last v = ok []
ip_bytes_text (suc n) i last v = do
  b ← at v i
  rest ← ip_bytes_text n (suc i) last v
  ok (to_string b ++ ((if ltb i last then codes "." else []) ++ rest))

unfoldable pub ip_to_string_at : List ℕ → ℕ → Run (List ℕ)
unfolding ip_bytes_text
ip_to_string_at ip_vector first_index = ip_bytes_text 4 first_index (first_index + 3) ip_vector

-- Reading an address back: `acc` are the bytes before the last point, `cur` the number behind it.
abbrev pub read_ip : ℕ → ℕ → List ℕ → ℕ
read_ip acc cur [] = acc * 256 + cur
read_ip acc cur (c ∷ cs) =
    read_ip (if c == b'.' then acc * 256 + cur else acc)
      (if c == b'.' then 0 else cur * 10 + (c - b'0')) cs

read_ip_digit :
    (acc cur d n : ℕ) (cs : List ℕ)
    → d < 10
    → cur * 10 + d ≡ n
    → read_ip acc cur ((b'0' + d) ∷ cs) ≡ read_ip acc n cs
read_ip_digit acc cur d n cs h e =
    let no_point : ((b'0' + d) == b'.') ≡ false = ground (arith, h) in
    let value : b'0' + d - b'0' ≡ d = omega arith in rw (no_point, value, e) refl

read_ip_byte :
    (acc b : ℕ) (rest : List ℕ) → b < 256 → read_ip acc 0 (to_string b ++ rest) ≡ read_ip acc b rest
read_ip_byte acc b rest small = elim (Bool-cases (ltb b 10)) [
  | inl one ↦
      rw (to_string_byte b small, one)
        (read_ip_digit acc 0 b b rest (ground (arith, one)) (omega arith))
  | inr more ↦ elim (Bool-cases (ltb b 100)) [
    | inl two ↦
        let top : b / 10 < 10 = ground (arith, two) in
        rw (to_string_byte b small, more, two)
          (read_ip_digit acc 0 (b / 10) (b / 10) ((b'0' + b % 10) ∷ rest) top (omega arith)
            ∙ read_ip_digit acc (b / 10) (b % 10) b rest (omega arith) (omega arith))
    | inr three ↦
        rw (to_string_byte b small, more, three)
          (read_ip_digit acc 0 (b / 100) (b / 100) ((b'0' + b / 10 % 10) ∷ (b'0' + b % 10) ∷ rest)
              (omega arith) (omega arith)
            ∙ read_ip_digit acc (b / 100) (b / 10 % 10) (b / 10) ((b'0' + b % 10) ∷ rest)
                (omega arith) (omega arith)
            ∙ read_ip_digit acc (b / 10) (b % 10) b rest (omega arith) (omega arith))
  ]
]

read_ip_point :
    (acc b : ℕ) (rest : List ℕ)
    → b < 256
    → read_ip acc 0 (to_string b ++ (codes "." ++ rest)) ≡ read_ip (acc * 256 + b) 0 rest
read_ip_point acc b rest small = read_ip_byte acc b (codes "." ++ rest) small

-- The text of an IP address, read as four decimal numbers with points between them, is the address
-- again; so two addresses never have the same text.
pub read_ip-ip_to_string : (ip : ℕ) → ip < 2 ^ 32 → read_ip 0 0 (ip_to_string ip) ≡ ip
unfolding ip_to_string ip_text_from
read_ip-ip_to_string ip small =
    let b3 = byte ip 3 in
    let b2 = byte ip 2 in
    let b1 = byte ip 1 in
    let b0 = byte ip 0 in
    read_ip_point 0 b3 _ (omega arith)
    ∙ read_ip_point (0 * 256 + b3) b2 _ (omega arith)
    ∙ read_ip_point ((0 * 256 + b3) * 256 + b2) b1 _ (omega arith)
    ∙ read_ip_byte (((0 * 256 + b3) * 256 + b2) * 256 + b1) b0 [] (omega arith)
    ∙ omega arith

-- A MAC has a text.
pub mac_to_string-ok : (m : List ℕ) → IsMac m → (t : List ℕ) × (mac_to_string m ≡ ok t)
unfolding mac_to_string mac_text_from
mac_to_string-ok (a ∷ b ∷ c ∷ d ∷ e ∷ f ∷ []) h = (_, refl)
mac_to_string-ok m h = absurd (omega arith)

-- The bytes of an address in a message have the text of the address.
pub ip_to_string_at-be32 :
    (ip first : ℕ) (v : List ℕ)
    → at v first ≡ ok (byte ip 3)
    → at v (suc first) ≡ ok (byte ip 2)
    → at v (suc (suc first)) ≡ ok (byte ip 1)
    → at v (suc (suc (suc first))) ≡ ok (byte ip 0)
    → ip_to_string_at v first ≡ ok (ip_to_string ip)
unfolding ip_to_string_at ip_bytes_text ip_to_string ip_text_from
ip_to_string_at-be32 ip first v e3 e2 e1 e0 = rw (e3, e2, e1, e0) (ground arith)

-- Six bytes inside a message have the text of the MAC that they are.
pub mac_to_string_at-mac :
    (x y a b c d e f : ℕ) (rest : List ℕ)
    → mac_to_string_at (x ∷ y ∷ a ∷ b ∷ c ∷ d ∷ e ∷ f ∷ rest) 2
      ≡ mac_to_string (a ∷ b ∷ c ∷ d ∷ e ∷ f ∷ [])
unfolding mac_to_string_at mac_to_string mac_text_from
mac_to_string_at-mac x y a b c d e f rest = refl
