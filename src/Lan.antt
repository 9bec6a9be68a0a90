-- ===== src/Lan.antt =====
-- Hosts on one switch: networking_devices.cpp between two hosts of host.cpp. A frame passes the
-- switch when the receiver of its interface takes it, the queue hands it out, and the sender sends
-- it.
use network_simulation.Common.{
  ℕ, ◌<◌, ◌≡◌, ◌≢◌, refl, sym, ap, ◌∙◌, true, false, not, ◌&&◌, none, some, List, [], ◌∷◌, ok,
  if◌then◌else◌, ltb, ◌==◌, All, arith,
}
use network_simulation.Addressing.{create_broadcast_mac}
use network_simulation.Addressing.Macs.{IsMac, mac_eq, mac_eq_iff, broadcast-IsMac}
use network_simulation.L3.{get_mac}
use network_simulation.L3.Cache.{known}
use network_simulation.Pdu.{Mpdu}
use network_simulation.WQueue
use network_simulation.Switch.{Switch, process_frame, send_one}
use network_simulation.Switch.Table.{learned, IsTable}
use network_simulation.Switch.Forward.{
  IsFrame, lookup, first_seen, process_frame_learns, count_on, goes_to, goes_to_others,
  send_one_delivers, send_one_known,
}
use network_simulation.Host.{Host}
use network_simulation.Host.Resolve.{IsHost}
use network_simulation.Host.Asked.{Asked, asked}

-- A switch that has nothing to send.
pub record IsIdle (s : Switch) : Type 0 where
  pub table : IsTable s.ports s.switch_table
  pub idle : s.frame_queue ≡ WQueue.new_wqueue

-- The switch takes `f` at `in_if` and sends it on as `out`.
pub record Pass (s : Switch) (f : Mpdu) (in_if : ℕ) (s' : Switch) (out : List (ℕ × Mpdu))
    : Type 0 where
  pub taken : Switch
  pub received : process_frame f in_if s ≡ ok taken
  pub handed : WQueue.remove taken.frame_queue ≡ ok (some f, s'.frame_queue)
  pub same : (s'.ports ≡ taken.ports) × (s'.switch_table ≡ taken.switch_table)
  pub sent : send_one s' f ≡ ok out

one_item :
    (f : Mpdu) → WQueue.remove (WQueue.add f WQueue.new_wqueue) ≡ ok (some f, WQueue.new_wqueue)
unfolding WQueue.remove WQueue.add WQueue.new_wqueue
one_item f = refl

-- A frame passes an idle switch, which is idle again.
passes :
    (s : Switch) (f : Mpdu) (in_if : ℕ)
    → IsIdle s
    → IsFrame f
    → f.source_mac ≢ create_broadcast_mac
    → in_if < s.ports
    → (s' : Switch) × (out : List (ℕ × Mpdu)) × Pass s f in_if s' out
      × IsIdle s'
      × (s'.ports ≡ s.ports)
      × ((x : List ℕ)
          → learned s'.switch_table x ≡ first_seen (learned s.switch_table x) f.source_mac in_if x)
      × All (λ (p : ℕ × Mpdu). p.1 ≡ f) out
      × ((i : ℕ) → count_on i out ≡ (if goes_to s' f i then 1 else 0))
passes s f in_if v w ne l =
    let (s1, run, ports, queue, table, learns) = process_frame_learns f in_if s w ne l v.table in
    let s' : Switch = record s1 { frame_queue = WQueue.new_wqueue } in
    let (out, sent, same, counts) = send_one_delivers s' f w table in
    (
      s',
      out,
      record {
        taken = s1;
        received = run;
        handed = rw (queue, v.idle) (one_item f);
        same = (refl, refl);
        sent = sent;
      },
      record { table = table; idle = refl },
      ports,
      learns,
      same,
      counts,
    )

differ-mac_eq : (m n : List ℕ) → m ≢ n → mac_eq m n ≡ false
differ-mac_eq m n e = ground (arith, mac_eq_iff m n)

self-mac_eq : (m : List ℕ) → mac_eq m m ≡ true
self-mac_eq m = (mac_eq_iff m m).1 refl

-- A broadcast from an address not seen before goes to all other interfaces, and the switch learns its
-- sender.
broadcast_passes :
    (s : Switch) (f : Mpdu) (i : ℕ)
    → IsIdle s
    → IsMac f.source_mac
    → f.destination_mac ≡ create_broadcast_mac
    → f.source_mac ≢ create_broadcast_mac
    → i < s.ports
    → learned s.switch_table f.source_mac ≡ none
    → (s' : Switch) × (out : List (ℕ × Mpdu)) × Pass s f i s' out
      × IsIdle s'
      × (s'.ports ≡ s.ports)
      × ((x : List ℕ)
          → learned s'.switch_table x ≡ first_seen (learned s.switch_table x) f.source_mac i x)
      × All (λ (p : ℕ × Mpdu). p.1 ≡ f) out
      × ((k : ℕ) → count_on k out ≡ (if ltb k s.ports && not (i == k) then 1 else 0))
broadcast_passes s f i v w to real l unseen =
    let frame : IsFrame f = record { source = w; destination = rw to broadcast-IsMac } in
    let no_source = differ-mac_eq f.source_mac create_broadcast_mac real in
    let all = self-mac_eq create_broadcast_mac in
    let (s', out, pass, v', ports, learns, same, counts) = passes s f i v frame real l in
    let here : learned s'.switch_table f.source_mac ≡ some i =
      learns f.source_mac ∙ rw (unseen, self-mac_eq f.source_mac) refl in
    let source : lookup s' f.source_mac ≡ some i = rw (no_source, here) refl in
    let destination : lookup s' f.destination_mac ≡ none = rw (to, all) refl in
    (
      s',
      out,
      pass,
      v',
      ports,
      learns,
      same,
      λ k. counts k ∙ rw (goes_to_others s' f i k destination source, ports) refl,
    )

-- A frame to an address that the switch has seen passes to its interface alone.
answer_passes :
    (s : Switch) (f : Mpdu) (i j : ℕ)
    → IsIdle s
    → IsFrame f
    → f.source_mac ≢ create_broadcast_mac
    → f.destination_mac ≢ create_broadcast_mac
    → j < s.ports
    → learned s.switch_table f.destination_mac ≡ some i
    → learned s.switch_table f.source_mac ≡ none
    → (s' : Switch) × Pass s f j s' ((i, f) ∷ [])
      × IsIdle s'
      × (learned s'.switch_table f.source_mac ≡ some j)
answer_passes s f i j v w real to_real l seen unseen =
    let (s', out, pass, v', ports, learns, _, _) = passes s f j v w real l in
    let there : learned s'.switch_table f.destination_mac ≡ some i =
      learns f.destination_mac ∙ rw seen refl in
    let no_broadcast = differ-mac_eq f.destination_mac create_broadcast_mac to_real in
    (
      s',
      record {
        taken = pass.taken;
        received = pass.received;
        handed = pass.handed;
        same = pass.same;
        sent = send_one_known s' f i w.destination v'.table (rw (no_broadcast, there) refl);
      },
      v',
      learns f.source_mac ∙ rw (unseen, self-mac_eq f.source_mac) refl,
    )

-- A host asks for the MAC of another over a switch that has seen neither. The switch sends the
-- request once to every interface but the one that it came from, so that the other host gets it and
-- answers. The switch sends the answer to the asking host alone, which has the MAC then; and from now
-- on any frame to the other host goes to its interface alone. Both MACs are not the broadcast one,
-- and the hosts stand on different interfaces and have different MACs.
pub arp_over_switch :
    (a b : Host) (i j : ℕ) (s : Switch) (g : Mpdu)
    → IsHost a
    → IsHost b
    → known a.cache b.ip ≡ false
    → a.mac ≢ create_broadcast_mac
    → b.mac ≢ create_broadcast_mac
    → a.mac ≢ b.mac
    → i < s.ports
    → j < s.ports
    → i ≢ j
    → IsIdle s
    → learned s.switch_table a.mac ≡ none
    → learned s.switch_table b.mac ≡ none
    → g.destination_mac ≡ b.mac
    → (q : Asked a b) × (s1 s2 : Switch) × (out : List (ℕ × Mpdu)) × Pass s q.query i s1 out
      × All (λ (p : ℕ × Mpdu). p.1 ≡ q.query) out
      × ((k : ℕ) → count_on k out ≡ (if ltb k s.ports && not (i == k) then 1 else 0))
      × (count_on j out ≡ 1)
      × Pass s1 q.reply j s2 ((i, q.reply) ∷ [])
      × (get_mac q.a''.cache b.ip ≡ b.mac)
      × (send_one s2 g ≡ ok ((j, g) ∷ []))
arp_over_switch a b i j s g va vb new real_a real_b differ li lj apart v unseen_a unseen_b to =
    let q = asked a b va vb new in
    let (qs, qd) = q.query_way in
    let (rs, rd) = q.reply_way in
    let (s1, out, pass1, v1, ports1, learns1, same1, counts) =
      broadcast_passes s q.query i v (rw qs va.mac) qd (λ e. real_a (sym qs ∙ e)) li
        (rw qs unseen_a) in
    let here_a : learned s1.switch_table a.mac ≡ some i =
      learns1 a.mac ∙ rw (unseen_a, qs, self-mac_eq a.mac) refl in
    let here_b : learned s1.switch_table b.mac ≡ none =
      learns1 b.mac ∙ rw (unseen_b, qs, differ-mac_eq b.mac a.mac (λ e. differ (sym e))) refl in
    let (s2, pass2, v2, there_b) =
      answer_passes s1 q.reply i j v1 (record { source = rw rs vb.mac; destination = rw rd va.mac })
        (λ e. real_b (sym rs ∙ e)) (λ e. real_a (sym rd ∙ e)) (rw ports1 lj) (rw rd here_a)
        (rw rs here_b) in
    let no_b = differ-mac_eq b.mac create_broadcast_mac real_b in
    (
      q,
      s1,
      s2,
      out,
      pass1,
      same1,
      counts,
      counts j ∙ ground (arith, lj, apart),
      pass2,
      q.found,
      send_one_known s2 g j (rw to vb.mac) v2.table
          (rw (to, no_b, sym (ap (learned s2.switch_table) rs) ∙ there_b) refl),
    )
