-- ===== src/Switch/History.antt =====
-- What a switch has learned after any sequence of frames, and that it serves them all.
use mathlib.Core.Path.{subst}
use network_simulation.Common.{
  ℕ, ◌<◌, ◌≡◌, ◌≢◌, refl, sym, ◌∙◌, Option, none, some, List, [], ◌∷◌, ◌++◌, Run, ok, ◌>>=◌,
  if◌then◌else◌, All, Bool-cases, inl, inr,
}
use network_simulation.Addressing.{create_broadcast_mac}
use network_simulation.Addressing.Macs.{mac_eq}
use network_simulation.Pdu.{Mpdu}
use network_simulation.WQueue
use network_simulation.WQueue.{WQueue}
use network_simulation.WQueue.Kept.{add-All, remove-All}
use network_simulation.Switch.{Switch, process_frame, send_one}
use network_simulation.Switch.Table.{learned, IsTable}
use network_simulation.Switch.Forward.{IsFrame, first_seen, process_frame_learns, send_one_delivers}

-- A frame comes in on an interface, or the sender looks into the queue.
pub data Event : Type 0 where
  arrives : Mpdu → ℕ → Event
  looks : Event

-- What the switch does, with what it sends.
unfoldable pub happens : Event → Switch → Run (Switch × List (ℕ × Mpdu))
happens (Event.arrives f in_if) s = do s' ← process_frame f in_if s; ok (s', [])
happens Event.looks s = do
  (frame, q) ← WQueue.remove s.frame_queue
  let s' : Switch = record s { frame_queue = q }
  out ← elim frame [ none ↦ ok [] | some f ↦ send_one s' f ]
  ok (s', out)

unfoldable pub run_events : List Event → Switch → Run (Switch × List (ℕ × Mpdu))
run_events [] s = ok (s, [])
run_events (e ∷ es) s = do
  (s1, out) ← happens e s
  (s2, more) ← run_events es s1
  ok (s2, out ++ more)

-- The interface of the first frame from an address.
abbrev pub first_from : List ℕ → List Event → Option ℕ
first_from mac [] = none
first_from mac (Event.arrives f in_if ∷ es) =
    if mac_eq mac f.source_mac then some in_if else first_from mac es
first_from mac (Event.looks ∷ es) = first_from mac es

-- `looked` unless there is something before it.
abbrev pub or_else : Option ℕ → Option ℕ → Option ℕ
or_else (some i) other = some i
or_else none other = other

or_else-none : (o : Option ℕ) → or_else o none ≡ o
or_else-none none = refl
or_else-none (some i) = refl

first_seen-or_else :
    (o : Option ℕ) (source : List ℕ) (in_if : ℕ) (mac : List ℕ)
    → first_seen o source in_if mac ≡ or_else o (if mac_eq mac source then some in_if else none)
first_seen-or_else none source in_if mac = refl
first_seen-or_else (some i) source in_if mac = refl

or_else_again :
    (o : Option ℕ) (mac : List ℕ) (e : Event) (es : List Event)
    → or_else (or_else o (first_from mac (e ∷ []))) (first_from mac es)
      ≡ or_else o (first_from mac (e ∷ es))
or_else_again (some i) mac e es = refl
or_else_again none mac (Event.arrives f in_if) es = elim (Bool-cases (mac_eq mac f.source_mac)) [
  | inl same ↦ rw same refl
  | inr other ↦ rw other refl
]
or_else_again none mac Event.looks es = refl

-- A frame with addresses of six bytes, not from the broadcast address, on an interface that there is.
abbrev pub IsEvent : ℕ → Event → Type 0
IsEvent ports (Event.arrives f in_if) =
    IsFrame f × (f.source_mac ≢ create_broadcast_mac) × (in_if < ports)
IsEvent ports Event.looks = Unit

pub record IsSwitch (s : Switch) : Type 0 where
  pub table : IsTable s.ports s.switch_table
  pub queued : All IsFrame s.frame_queue.m_queue

-- One event.
happens_lem :
    (e : Event) (s : Switch)
    → IsEvent s.ports e
    → IsSwitch s
    → (s' : Switch) × (out : List (ℕ × Mpdu)) × (happens e s ≡ ok (s', out))
      × IsSwitch s'
      × (s'.ports ≡ s.ports)
      × ((mac : List ℕ)
          → learned s'.switch_table mac
            ≡ or_else (learned s.switch_table mac) (first_from mac (e ∷ [])))
unfolding happens
happens_lem (Event.arrives f in_if) s (w, real, l) v =
    let (s', run, ports, queue, table, learns) = process_frame_learns f in_if s w real l v.table in
    (
      s',
      [],
      rw run refl,
      record { table = table; queued = rw queue (add-All IsFrame f s.frame_queue w v.queued) },
      ports,
      λ mac. learns mac ∙ first_seen-or_else (learned s.switch_table mac) f.source_mac in_if mac,
    )
happens_lem Event.looks s w v = elim (remove-All IsFrame s.frame_queue v.queued) [
  | inl (q, run, all) ↦ (
    record s { frame_queue = q },
    [],
    rw run refl,
    record { table = v.table; queued = all },
    refl,
    λ mac. sym (or_else-none (learned s.switch_table mac)),
  )
  | inr (f, q, run, w, all) ↦
      let (out, sent, _, _) = send_one_delivers (record s { frame_queue = q }) f w v.table in
      (
        record s { frame_queue = q },
        out,
        rw (run, sent) refl,
        record { table = v.table; queued = all },
        refl,
        λ mac. sym (or_else-none (learned s.switch_table mac)),
      )
]

IsEvent-ports : (m n : ℕ) (es : List Event) → m ≡ n → All (IsEvent m) es → All (IsEvent n) es
IsEvent-ports m n es e all = subst (λ k. All (IsEvent k) es) e all

-- Whatever frames arrive, on whatever interfaces, and whenever the sender looks into the queue: the switch never
-- faults, and its table stays well formed. It has for each address the interface that it had, or else
-- the one of the first frame from that address. The frames have addresses of six bytes and come
-- from addresses that are not the broadcast address.
pub switch_learns_first :
    (es : List Event) (s : Switch)
    → All (IsEvent s.ports) es
    → IsSwitch s
    → (s' : Switch) × (out : List (ℕ × Mpdu)) × (run_events es s ≡ ok (s', out))
      × IsSwitch s'
      × ((mac : List ℕ)
          → learned s'.switch_table mac ≡ or_else (learned s.switch_table mac) (first_from mac es))
unfolding run_events
switch_learns_first [] s all v =
    (s, [], refl, v, λ mac. sym (or_else-none (learned s.switch_table mac)))
switch_learns_first (e ∷ es) s (w, all) v =
    let (s1, out, run1, v1, ports, learns1) = happens_lem e s w v in
    let (s2, more, run2, v2, learns2) =
      switch_learns_first es s1 (IsEvent-ports s.ports s1.ports es (sym ports) all) v1 in
    (
      s2,
      out ++ more,
      rw (run1, run2) refl,
      v2,
      λ mac. learns2 mac ∙ rw (learns1 mac) (or_else_again (learned s.switch_table mac) mac e es),
    )
