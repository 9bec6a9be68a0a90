-- ===== src/L4.antt =====
-- l4_protocols.h and l4_protocols.cpp: UDP and TCP segments, their decoding, and a file cut into
-- segments. A file is the list of its bytes. `blank` stands for the indeterminate value of a local
-- struct that the code declares and fills in part.
pub mod Stream
pub mod Datagrams
use network_simulation.Common.{
  ℕ, ◌+◌, ◌%◌, ◌^◌, bit_or, int_max, Option, none, some, List, [], ◌∷◌, ◌++◌, Run, ok, fault, at,
  ◌>>=◌, if◌then◌else◌, ◌==◌, length, drop, read16, read32,
}

abbrev pub tcp_syn : ℕ
tcp_syn = 0x0002

abbrev pub tcp_ack : ℕ
tcp_ack = 0x0010

abbrev pub tcp_fin : ℕ
tcp_fin = 0x0001

abbrev pub tcp_synack : ℕ
tcp_synack = bit_or tcp_ack tcp_syn

abbrev pub tcp_initial_sn : ℕ
tcp_initial_sn = 0

abbrev pub tcp_header_size : ℕ
tcp_header_size = 18

abbrev pub udp_header_size : ℕ
udp_header_size = 8

abbrev pub segment_eof : ℕ
segment_eof = 0xFF

pub record Udp : Type 0 where
  pub source_port : ℕ
  pub destination_port : ℕ
  pub udp_length : ℕ
  pub checksum : ℕ
  pub payload : List ℕ

pub record Tcp : Type 0 where
  pub source_port : ℕ
  pub destination_port : ℕ
  pub sequence_number : ℕ
  pub ack_number : ℕ
  pub details : ℕ
  pub receive_window : ℕ
  pub checksum : ℕ
  pub payload : List ℕ

unfoldable pub generate_udp : List ℕ → Run Udp
generate_udp u = do
  source_port ← read16 u 0
  destination_port ← read16 u 2
  udp_length ← read16 u 4
  checksum ← read16 u 6
  ok (record {
    source_port = source_port;
    destination_port = destination_port;
    udp_length = udp_length;
    checksum = checksum;
    payload = drop udp_header_size u;
  })

unfoldable pub generate_tcp : List ℕ → Run Tcp
generate_tcp u = do
  source_port ← read16 u 0
  destination_port ← read16 u 2
  sequence_number ← read32 u 4
  ack_number ← read32 u 8
  details ← read16 u 12
  receive_window ← read16 u 14
  checksum ← read16 u 16
  ok (record {
    source_port = source_port;
    destination_port = destination_port;
    sequence_number = sequence_number;
    ack_number = ack_number;
    details = details;
    receive_window = receive_window;
    checksum = checksum;
    payload = drop tcp_header_size u;
  })

-- The loop of `file_to_UDP_segments`: the list is the file from `bytes_loaded` on, an int that counts
-- every byte; `tx` holds the payload so far. An empty file is read past its end.
udp_loop : ℕ → ℕ → List ℕ → Udp → List Udp → Run (List Udp)
udp_loop m bytes_loaded [] tx result = fault
udp_loop m bytes_loaded (b ∷ []) tx result =
    if bytes_loaded == int_max
    then fault
    else ok (result ++ record tx { payload = tx.payload ++ b ∷ segment_eof ∷ [] } ∷ [])
udp_loop m bytes_loaded (b ∷ c ∷ rest) tx result =
    let full = length (tx.payload ++ b ∷ []) == m in
    let others =
      udp_loop m (bytes_loaded + 1) (c ∷ rest)
        (record tx { payload = if full then [] else tx.payload ++ b ∷ [] })
        (if full then result ++ record tx { payload = tx.payload ++ b ∷ [] } ∷ [] else result) in
    if bytes_loaded == int_max then fault else others

unfoldable pub file_to_udp_segments : Udp → List ℕ → ℕ → ℕ → ℕ → Run (List Udp)
unfolding udp_loop
file_to_udp_segments blank file src_port dest_port maximum_bytes =
    udp_loop maximum_bytes 0 file
      (record blank { source_port = src_port; destination_port = dest_port; payload = [] }) []

-- `result->back()`, of a vector that may be empty.
abbrev back? {ℓ} : {A : Type ℓ} → List A → Option A
back? [] = none
back? (x ∷ []) = some x
back? (x ∷ y ∷ xs) = back? (y ∷ xs)

-- The sequence number that a segment gets when it joins `result`.
next_sn : ℕ → List Tcp → ℕ
next_sn sn result = elim (back? result) [
  | none ↦ sn
  | some last ↦ (last.sequence_number + length last.payload) % 2 ^ 32
]

emit : Tcp → List Tcp → List Tcp
emit tx result = result ++ record tx { sequence_number = next_sn tx.sequence_number result } ∷ []

-- The two nested loops of `file_to_TCP_segments`: the inner one fills a payload, and leaves by
-- `break` at the end of the file or when the payload is full. The outer one sets the sequence
-- number, appends the segment and ends once FIN is set, which the end of the file does.
tcp_loop : ℕ → ℕ → List ℕ → Tcp → List Tcp → Run (List Tcp)
tcp_loop m bytes_loaded [] tx result = fault
tcp_loop m bytes_loaded (b ∷ []) tx result =
    if bytes_loaded == int_max
    then fault
    else ok (
        emit (record tx { payload = tx.payload ++ b ∷ []; details = bit_or tx.details tcp_fin })
          result)
tcp_loop m bytes_loaded (b ∷ c ∷ rest) tx result =
    let full = length (tx.payload ++ b ∷ []) == m in
    let others =
      tcp_loop m (bytes_loaded + 1) (c ∷ rest)
        (record tx {
          payload = if full then [] else tx.payload ++ b ∷ [];
          sequence_number = if full then next_sn tx.sequence_number result else tx.sequence_number;
        })
        (if full then emit (record tx { payload = tx.payload ++ b ∷ [] }) result else result) in
    if bytes_loaded == int_max then fault else others

unfoldable pub file_to_tcp_segments : Tcp → List ℕ → ℕ → ℕ → ℕ → Run (List Tcp)
unfolding tcp_loop emit next_sn
file_to_tcp_segments blank file src_port dest_port maximum_bytes =
    tcp_loop maximum_bytes 0 file
      (record blank {
        source_port = src_port;
        destination_port = dest_port;
        sequence_number = 1;
        ack_number = 1;
        details = tcp_ack;
        payload = [];
      })
      []
