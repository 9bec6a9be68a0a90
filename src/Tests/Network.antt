-- ===== src/Tests/Network.antt =====
-- Queues, links, the switch and the gateway.
use network_simulation.Common.{
  ℕ, ◌<◌, ◌≤◌, ◌≡◌, ◌≢◌, ◌⊎◌, inl, refl, not, ◌&&◌, ltb, ◌==◌, List, [], ◌∷◌, ◌++◌, ok, fault,
  if◌then◌else◌, length, All, arith,
}
use network_simulation.Addressing.{create_broadcast_mac}
use network_simulation.Pdu.{Mpdu, encap_arp}
use network_simulation.WQueue
use network_simulation.WQueue.{WQueue, new_wqueue, set_max_size, remove, resume}
use network_simulation.WQueue.Order.{Trace, start, adds, parks, resumes, Trace-fifo}
use network_simulation.WQueue.Consumers.{
  spurious, spurious_wake_takes_nothing, single_consumer_safe, second_consumer_steals,
}
use network_simulation.Switch.{Switch, process_frame, send_one}
use network_simulation.Addressing.Macs.{mac_eq}
use network_simulation.Switch.Table.{learned, IsTable}
use network_simulation.Switch.Forward.{IsFrame, first_seen, count_on, process_frame_learns}
use network_simulation.L3.{get_mac}
use network_simulation.L3.Cache.{known}
use network_simulation.Host.Asked.{Asked}
use network_simulation.Lan.{Pass, arp_over_switch}
use network_simulation.Switch.Printed.{print_routing_table, Shows, print_after_events}
use network_simulation.Switch.History.{
  Event, run_events, first_from, or_else, IsSwitch, switch_learns_first,
}
use network_simulation.Gateway.{Gateway, run}
use network_simulation.Gateway.Arp.{run_faults_on_arp}
use network_simulation.Tests.Data.{
  mac_11, mac_22, arp_question, frame_11_to_22, empty_queue, host_1, host_2,
}

-- The queue after: the consumer sleeps, an item comes, the consumer takes it, a second item comes.
abbrev queue_of_5 : WQueue ℕ
queue_of_5 = record { m_queue = 5 ∷ []; max_entries = 2; waiting = 0; woken = 0 }

first_trace : Trace 1 2 (4 ∷ 5 ∷ []) (4 ∷ []) queue_of_5
unfolding set_max_size new_wqueue WQueue.add remove resume
first_trace = adds 5 (
    resumes {q' = record { m_queue = []; max_entries = 2; waiting = 0; woken = 0 }} 4
      (adds 4 (
        parks {q' = record { m_queue = []; max_entries = 2; waiting = 1; woken = 0 }} start
          (omega arith) refl))
      (omega arith) refl)

Trace-fifo_example :
    ((4 ∷ 5 ∷ []) ≡ (4 ∷ []) ++ queue_of_5.m_queue)
    × (length queue_of_5.m_queue ≤ 2)
    × (queue_of_5.max_entries ≡ 2)
Trace-fifo_example = Trace-fifo first_trace

single_consumer_safe_example :
    ((queue_of_5.woken ≡ 0) ⊎ ((x : ℕ) × (q' : WQueue ℕ) × (resume queue_of_5 ≡ ok (x, q'))))
    × ((queue_of_5.waiting ≡ 0) ⊎ (queue_of_5.m_queue ≡ []))
unfolding first_trace
single_consumer_safe_example = single_consumer_safe (omega arith) first_trace refl

spurious_wake_takes_nothing_example :
    (q : WQueue ℕ) × (t : Trace 1 3 [] [] q) × (spurious t ≡ 1) × (0 < q.woken) × (resume q ≡ fault)
spurious_wake_takes_nothing_example = spurious_wake_takes_nothing 3

second_consumer_steals_example :
    (q : WQueue ℕ) × Trace 2 1 (7 ∷ []) (7 ∷ []) q × (0 < q.woken) × (resume q ≡ fault)
second_consumer_steals_example = second_consumer_steals 7

abbrev switch_of_3 : Switch
switch_of_3 = record {
  ports = 3;
  switch_table = record { address_list = mac_22 ∷ []; interface_number = 2 } ∷ [];
  frame_queue = empty_queue;
}

frame_11_to_22-IsFrame : IsFrame frame_11_to_22
frame_11_to_22-IsFrame = record { source = refl; destination = refl }

source_not_broadcast : frame_11_to_22.source_mac ≢ create_broadcast_mac
unfolding create_broadcast_mac
source_not_broadcast = λ e. cc

process_frame_learns_example :
    (s' : Switch) × (process_frame frame_11_to_22 1 switch_of_3 ≡ ok s')
    × (s'.ports ≡ 3)
    × (s'.frame_queue ≡ WQueue.add frame_11_to_22 empty_queue)
    × IsTable s'.ports s'.switch_table
    × ((x : List ℕ)
        → learned s'.switch_table x ≡ first_seen (learned switch_of_3.switch_table x) mac_11 1 x)
process_frame_learns_example =
    process_frame_learns frame_11_to_22 1 switch_of_3 frame_11_to_22-IsFrame source_not_broadcast
      (omega arith) (((refl, tt), omega arith), tt)

abbrev gateway_99 : Gateway
gateway_99 = record {
  process_queue = empty_queue;
  dhcp_queue = empty_queue;
  mac = 153 ∷ 153 ∷ 153 ∷ 153 ∷ 153 ∷ 153 ∷ [];
  ip = 0x09090909;
}

run_faults_on_arp_example :
    (h : Mpdu) × (encap_arp arp_question frame_11_to_22 ≡ ok h) × (run h gateway_99 ≡ fault)
run_faults_on_arp_example =
    run_faults_on_arp arp_question frame_11_to_22 gateway_99
      (record {
        opcode = omega arith;
        sender_mac = refl;
        sender_ip = omega arith;
        target_mac = refl;
        target_ip = omega arith;
      })
      (inl refl)
      (omega arith, (omega arith, (omega arith, (omega arith, (omega arith, (omega arith, tt))))))

abbrev idle_switch : Switch
idle_switch = record { ports = 3; switch_table = []; frame_queue = empty_queue }

arp_over_switch_example :
    (q : Asked host_1 host_2) × (s1 s2 : Switch) × (out : List (ℕ × Mpdu)) × Pass idle_switch
      q.query 0 s1 out
    × All (λ (p : ℕ × Mpdu). p.1 ≡ q.query) out
    × ((k : ℕ) → count_on k out ≡ (if ltb k 3 && not (0 == k) then 1 else 0))
    × (count_on 2 out ≡ 1)
    × Pass s1 q.reply 2 s2 ((0, q.reply) ∷ [])
    × (get_mac q.a''.cache 0x0A000002 ≡ mac_22)
    × (send_one s2 frame_11_to_22 ≡ ok ((2, frame_11_to_22) ∷ []))
arp_over_switch_example =
    arp_over_switch host_1 host_2 0 2 idle_switch frame_11_to_22
      (record { mac = refl; ip = omega arith; cache = tt })
      (record { mac = refl; ip = omega arith; cache = tt }) (unfold known in refl)
      (unfold create_broadcast_mac in λ e. cc) (unfold create_broadcast_mac in λ e. cc) (λ e. cc)
      (omega arith) (omega arith) (λ e. omega arith)
      (record { table = tt; idle = unfold WQueue.new_wqueue in refl }) (unfold learned in refl)
      (unfold learned in refl) refl

-- A frame from 11:…:11 to a switch that knows 22:…:22, and the sender's look at the queue.
abbrev one_frame : List Event
one_frame = Event.arrives frame_11_to_22 1 ∷ Event.looks ∷ []

switch_learns_first_example :
    (s' : Switch) × (out : List (ℕ × Mpdu)) × (run_events one_frame switch_of_3 ≡ ok (s', out))
    × IsSwitch s'
    × ((mac : List ℕ)
        → learned s'.switch_table mac
          ≡ or_else (learned switch_of_3.switch_table mac) (first_from mac one_frame))
switch_learns_first_example =
    switch_learns_first one_frame switch_of_3
      ((frame_11_to_22-IsFrame, source_not_broadcast, omega arith), (tt, tt))
      (record { table = (((refl, tt), omega arith), tt); queued = tt })

-- The interface on which the frame came in stands beside its source.
print_after_events_example :
    (s' : Switch) × (out : List (ℕ × Mpdu)) × (lines : List (List ℕ)) × (run_events one_frame
        switch_of_3
      ≡ ok (s', out))
    × (print_routing_table s' ≡ ok lines)
    × Shows lines 1 mac_11
unfolding mac_eq learned
print_after_events_example =
    print_after_events one_frame switch_of_3 mac_11 1
      ((frame_11_to_22-IsFrame, source_not_broadcast, omega arith), (tt, tt))
      (record { table = (((refl, tt), omega arith), tt); queued = tt }) refl
