-- ===== src/Switch.antt =====
-- The Switch of networking_devices.h and networking_devices.cpp: a learning bridge. `receiver` and
-- `sender` are loops over `process_frame` and `send_one`. What is handed to `transmit` is a list of
-- pairs of an interface and a frame; `ports` is the number of interfaces.
pub mod Table
pub mod Forward
pub mod History
pub mod Printed
use network_simulation.Common.{
  ℕ, zero, suc, ◌+◌, Bool, true, false, not, Option, none, some, List, [], ◌∷◌, ◌++◌, Run, ok,
  fault, ◌>>=◌, if◌then◌else◌, ltb, ◌==◌, length,
}
use network_simulation.Addressing.{compare_macs, is_broadcast}
use network_simulation.Pdu.{Mpdu, copy}
use network_simulation.WQueue
use network_simulation.WQueue.{WQueue}

pub record TableEntry : Type 0 where
  pub address_list : List (List ℕ)
  pub interface_number : ℕ

pub record Switch : Type 0 where
  pub ports : ℕ
  pub switch_table : List TableEntry
  pub frame_queue : WQueue Mpdu

unfoldable pub new_switch : Switch
new_switch = record { ports = 0; switch_table = []; frame_queue = WQueue.new_wqueue }

-- `connect_ethernet` adds one wire to `tx_interfaces` and one to `rx_interfaces`.
unfoldable pub connect_ethernet : Switch → Switch
connect_ethernet s = record s { ports = s.ports + 1 }

-- The loop over `address_list`: is the address there?
find_address : List ℕ → List (List ℕ) → Run Bool
find_address mac [] = ok false
find_address mac (m ∷ ms) = do
  same ← compare_macs mac m
  let rest = find_address mac ms
  if same then ok true else rest

-- The loop over the table; `none` is the result -1.
find_entry : List ℕ → List TableEntry → Run (Option ℕ)
find_entry mac [] = ok none
find_entry mac (e ∷ es) = do
  found ← find_address mac e.address_list
  let rest = find_entry mac es
  if found then ok (some e.interface_number) else rest

unfoldable pub get_table_interface_number : List TableEntry → List ℕ → Run (Option ℕ)
unfolding find_entry find_address
get_table_interface_number table mac =
    if length table == 0
    then ok none
    else (do broadcast ← is_broadcast mac; if broadcast then ok none else find_entry mac table)

unfoldable pub add_table_entry : List ℕ → ℕ → List TableEntry → List TableEntry
add_table_entry source_mac if_id [] =
    record { address_list = source_mac ∷ []; interface_number = if_id } ∷ []
add_table_entry source_mac if_id (e ∷ es) =
    if e.interface_number == if_id
    then record e { address_list = e.address_list ++ source_mac ∷ [] } ∷ es
    else e ∷ add_table_entry source_mac if_id es

unfoldable pub process_frame : Mpdu → ℕ → Switch → Run Switch
process_frame rx_frame in_if s = do
  if_id ← get_table_interface_number s.switch_table rx_frame.source_mac
  ok (record s {
    switch_table = elim if_id [
      | none ↦ add_table_entry rx_frame.source_mac in_if s.switch_table
      | some _ ↦ s.switch_table
    ];
    frame_queue = WQueue.add rx_frame s.frame_queue;
  })

-- `tx_interfaces.at(if_id)->transmit(tx_frame)`
unfoldable pub unicast : ℕ → Mpdu → ℕ → Run (List (ℕ × Mpdu))
unicast ports tx_frame if_id = if ltb if_id ports then ok ((if_id, tx_frame) ∷ []) else fault

-- `get_table_interface_number(…) != i`
differs : Option ℕ → ℕ → Bool
differs none i = true
differs (some j) i = not (j == i)

-- The loop of `broadcast` with `n` rounds left.
broadcast_from : ℕ → ℕ → Switch → Mpdu → Run (List (ℕ × Mpdu))
broadcast_from zero i s tx_frame = ok []
broadcast_from (suc n) i s tx_frame = do
  source_if ← get_table_interface_number s.switch_table tx_frame.source_mac
  sent ← if differs source_if i then unicast s.ports (copy tx_frame) i else ok []
  rest ← broadcast_from n (suc i) s tx_frame
  ok (sent ++ rest)

unfoldable pub broadcast : Switch → Mpdu → Run (List (ℕ × Mpdu))
unfolding broadcast_from differs
broadcast s tx_frame = broadcast_from s.ports 0 s tx_frame

-- The body of the loop in `sender`, for the frame that `remove` returned.
unfoldable pub send_one : Switch → Mpdu → Run (List (ℕ × Mpdu))
send_one s tx_frame = do
  if_id ← get_table_interface_number s.switch_table tx_frame.destination_mac
  elim if_id [ some i ↦ unicast s.ports tx_frame i | none ↦ broadcast s tx_frame ]
