-- ===== src/Switch/Forward.antt =====
-- What the switch learns from a frame, and where it sends one.
use network_simulation.Common.{
  ℕ, zero, suc, ◌+◌, ◌<◌, ◌≡◌, ◌≢◌, refl, Bool, true, false, not, ◌&&◌, Option, none, some, List,
  [], ◌∷◌, ok, ◌∙◌, if◌then◌else◌, ltb, leb, ◌==◌, All, arith, Bool-cases, inl, inr, Option-cases,
}
use network_simulation.Addressing.{create_broadcast_mac}
use network_simulation.Addressing.Macs.{IsMac, mac_eq, mac_eq_iff}
use network_simulation.Pdu.{Mpdu, copy}
use network_simulation.WQueue
use network_simulation.Switch.{
  send_one, broadcast, Switch, get_table_interface_number, add_table_entry, process_frame, unicast,
  differs, broadcast_from,
}
use network_simulation.Switch.Table.{
  learned, IsTable, get_table_interface_number-eq, learned-lt, learned-add_table_entry,
  add_table_entry-IsTable,
}

pub record IsFrame (f : Mpdu) : Type 0 where
  pub source : IsMac f.source_mac
  pub destination : IsMac f.destination_mac

-- The lookup on a well-formed table.
abbrev pub lookup : Switch → List ℕ → Option ℕ
lookup s mac = if mac_eq mac create_broadcast_mac then none else learned s.switch_table mac

-- The first sighting of an address counts: a table that does not know `source` learns it, and no
-- other address changes.
abbrev pub first_seen : Option ℕ → List ℕ → ℕ → List ℕ → Option ℕ
first_seen (some j) source in_if x = some j
first_seen none source in_if x = if mac_eq x source then some in_if else none

-- Receiving a frame from an address that is not the broadcast address never faults, queues the frame,
-- keeps the table well formed, and learns the sender's interface unless one is known: every other
-- address, and a known one, keeps its interface.
pub process_frame_learns :
    (f : Mpdu) (in_if : ℕ) (s : Switch)
    → IsFrame f
    → f.source_mac ≢ create_broadcast_mac
    → in_if < s.ports
    → IsTable s.ports s.switch_table
    → (s' : Switch) × (process_frame f in_if s ≡ ok s')
      × (s'.ports ≡ s.ports)
      × (s'.frame_queue ≡ WQueue.add f s.frame_queue)
      × IsTable s'.ports s'.switch_table
      × ((x : List ℕ)
          → learned s'.switch_table x ≡ first_seen (learned s.switch_table x) f.source_mac in_if x)
unfolding process_frame
process_frame_learns f in_if s w ne l t =
    elim (Option-cases (learned s.switch_table f.source_mac)) [
      | inl new ↦ (
        record s {
          switch_table = add_table_entry f.source_mac in_if s.switch_table;
          frame_queue = WQueue.add f s.frame_queue;
        },
        rw (found, new),
        refl,
        refl,
        add_table_entry-IsTable s.ports s.switch_table f.source_mac in_if w.source l t,
        λ x.
            rw (learned-add_table_entry s.switch_table f.source_mac x in_if new)
              (ground (arith, new, mac_eq_iff x f.source_mac)),
      )
      | inr (j, old) ↦ (
        record s { frame_queue = WQueue.add f s.frame_queue },
        rw (found, old),
        refl,
        refl,
        t,
        λ x. ground (arith, old, mac_eq_iff x f.source_mac),
      )
    ]
  where
    known : mac_eq f.source_mac create_broadcast_mac ≡ false
    known = ground (arith, mac_eq_iff f.source_mac create_broadcast_mac)

    found :
        get_table_interface_number s.switch_table f.source_mac
        ≡ ok (learned s.switch_table f.source_mac)
    found = rw (get_table_interface_number-eq s.ports s.switch_table f.source_mac w.source t, known)

-- How often `sent` uses interface `i`.
pub count_on : ℕ → List (ℕ × Mpdu) → ℕ
count_on i [] = 0
count_on i ((j, f) ∷ sent) = if j == i then suc (count_on i sent) else count_on i sent

-- Interfaces that the switch should use: that of the destination, or else all but the source's.
pub goes_to : Switch → Mpdu → ℕ → Bool
unfolding differs
goes_to s f i = elim (lookup s f.destination_mac) [
  | some j ↦ j == i
  | none ↦ ltb i s.ports && differs (lookup s f.source_mac) i
]

broadcast_from_lem :
    (n k : ℕ) (s : Switch) (f : Mpdu)
    → IsFrame f
    → IsTable s.ports s.switch_table
    → k + n ≡ s.ports
    → (out : List (ℕ × Mpdu)) × (broadcast_from n k s f ≡ ok out)
      × All (λ (p : ℕ × Mpdu). p.1 ≡ f) out
      × ((i : ℕ)
          → count_on i out
            ≡ (if leb k i && (ltb i s.ports && differs (lookup s f.source_mac) i) then 1 else 0))
unfolding broadcast_from unicast count_on copy
broadcast_from_lem zero k s f w t e = ([], refl, tt, λ i. ground arith)
broadcast_from_lem (suc n) k s f w t e =
    let (out, run, same, counts) = broadcast_from_lem n (suc k) s f w t (omega arith) in
    let found = get_table_interface_number-eq s.ports s.switch_table f.source_mac w.source t in
    let room : ltb k s.ports ≡ true = ground arith in
    elim (Bool-cases (differs (lookup s f.source_mac) k)) [
      | inl other ↦
          ((k, f) ∷ out, rw (found, other, room, run), (refl, same), λ i. ground (arith, counts i))
      | inr own ↦ (out, rw (found, own, run), same, λ i. ground (arith, counts i))
    ]

lookup-lt :
    (s : Switch) (mac : List ℕ) (j : ℕ)
    → IsTable s.ports s.switch_table
    → lookup s mac ≡ some j
    → j < s.ports
lookup-lt s mac j t e = ground (arith, learned-lt s.ports s.switch_table mac j t)

pub send_one_delivers :
    (s : Switch) (f : Mpdu)
    → IsFrame f
    → IsTable s.ports s.switch_table
    → (out : List (ℕ × Mpdu)) × (send_one s f ≡ ok out)
      × All (λ (p : ℕ × Mpdu). p.1 ≡ f) out
      × ((i : ℕ) → count_on i out ≡ (if goes_to s f i then 1 else 0))
unfolding send_one broadcast goes_to count_on unicast
send_one_delivers s f w t = elim (Option-cases (lookup s f.destination_mac)) [
  | inl unknown ↦
      let (out, run, same, counts) = broadcast_from_lem s.ports 0 s f w t (omega arith) in
      (out, rw (found, unknown) run, same, λ i. rw (unknown, goes_to) (counts i ∙ ground arith))
  | inr (j, known) ↦ (
    (j, f) ∷ [],
    rw (found, known) (ground (arith, lookup-lt s f.destination_mac j t known)),
    (refl, tt),
    λ i. rw (known, goes_to) (ground arith),
  )
]
  where
    found :
        get_table_interface_number s.switch_table f.destination_mac
        ≡ ok (lookup s f.destination_mac)
    found = get_table_interface_number-eq s.ports s.switch_table f.destination_mac w.destination t

pub send_one_known :
    (s : Switch) (g : Mpdu) (j : ℕ)
    → IsMac g.destination_mac
    → IsTable s.ports s.switch_table
    → lookup s g.destination_mac ≡ some j
    → send_one s g ≡ ok ((j, g) ∷ [])
unfolding send_one unicast
send_one_known s g j h t known =
    let found = get_table_interface_number-eq s.ports s.switch_table g.destination_mac h t in
    simp (found, known) (ground (arith, lookup-lt s g.destination_mac j t known))

-- A frame to an unknown address goes to every interface but its own.
pub goes_to_others :
    (s : Switch) (f : Mpdu) (i k : ℕ)
    → lookup s f.destination_mac ≡ none
    → lookup s f.source_mac ≡ some i
    → goes_to s f k ≡ (ltb k s.ports && not (i == k))
unfolding goes_to differs
goes_to_others s f i k unknown known = rw (unknown, known, goes_to) refl
