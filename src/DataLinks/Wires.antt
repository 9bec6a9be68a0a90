-- ===== src/DataLinks/Wires.antt =====
-- What goes through a link.
use network_simulation.Common.{ℕ, List, ◌≡◌, refl, Bool, true, false, not, none, some, [], ◌∷◌, ok}
use network_simulation.Pdu.{Mpdu}
use network_simulation.WQueue
use network_simulation.WQueue.{WQueue}
use network_simulation.DataLinks.{
  EthernetLink, Side, connect, new_link, new_wire, placed, receive, wire, set_wire,
}
use network_simulation.DataLinks.Monitor.{busier}

-- A wire that has its frame.
IsBusy : Side → EthernetLink → Type 0
IsBusy side l =
    (f : Mpdu) × ((wire side l).interface.m_queue ≡ f ∷ [])
    × ((wire side l).interface.max_entries ≡ 1)

-- The two ends of a link that holds one frame in one direction.
received :
    (flip : Bool) (name : List ℕ) (f : Mpdu) (n : ℕ)
    → let l = record (busier (connect flip).tx_if f (new_link true name)) { frame_count = n } in
      (l' l'' l3 : EthernetLink) × (receive (connect (not flip)).rx_if l ≡ ok (some f, l'))
      × (receive (connect (not flip)).rx_if l' ≡ ok (none, l''))
      × (receive (connect flip).rx_if l ≡ ok (none, l3))
unfolding receive connect busier placed wire set_wire new_link new_wire WQueue.add WQueue.remove
    WQueue.set_max_size WQueue.new_wqueue
received true name f n = (_, _, _, refl, refl, refl)
received false name f n = (_, _, _, refl, refl, refl)
