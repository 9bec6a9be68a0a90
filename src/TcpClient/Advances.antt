-- ===== src/TcpClient/Advances.antt =====
-- What the TCP client does with the SYNACK, with each ACK and with the last one.
use network_simulation.Common.{
  ℕ, suc, ◌+◌, ◌%◌, ◌^◌, ◌≤◌, ◌<◌, ◌≡◌, refl, ap, ◌∙◌, true, List, [], ◌∷◌, ◌++◌, ok, at, ◌==◌,
  ==_iff, length, length-append, arith,
}
use network_simulation.L4.{Tcp}
use network_simulation.L3.{Ip, encap_tcp}
use network_simulation.Pdu.{Mpdu, open_tcp}
use network_simulation.Host.{frame_for}
use network_simulation.TcpClient.{
  Client, ClientPhase, send_segment, count_ack, on_ack, on_synack, client_step, handle,
}
use network_simulation.TcpClient.Rising.{end_of, at-append}
use network_simulation.TcpClient.Acks.{client_step_sending}
use network_simulation.TcpClient.Pieces.{
  IsClient, InLoop, open_tcp-frame_for, send_segment-InLoop, moved,
}
use network_simulation.TcpClient.Stages.{ack-Sendable, sending-InLoop}
use network_simulation.TcpClient.Loads.{Loads, loop_head-Loads, both-Loads}

-- The ACK for the segment that the client waits for.
count_ack_waiting :
    (before after : List Tcp) (w r : Tcp) (c : Client)
    → c.segments_to_send ≡ before ++ w ∷ after
    → c.last_unackd_index ≡ length before
    → end_of w < 2 ^ 32
    → r.ack_number ≡ end_of w
    → count_ack r c ≡ ok (record c { last_unackd_index = c.last_unackd_index + 1 })
unfolding count_ack
count_ack_waiting before after w r c segs last small ack =
    let found : at c.segments_to_send c.last_unackd_index ≡ ok w =
      rw (segs, last) (at-append before after w) in
    let this : (r.ack_number == (w.sequence_number + length w.payload) % 2 ^ 32) ≡ true =
      (==_iff _ _).1 (omega (arith, ack)) in
    simp (found, this)

-- It moves the client on by one segment, and makes it send up to two more.
pub client_step-Loads :
    (file mac : List ℕ) (before after pre unsent : List Tcp) (w r : Tcp) (f : Mpdu) (p : Ip)
    (c : Client)
    → InLoop file mac c
    → c.phase ≡ ClientPhase.sending
    → c.segments_to_send ≡ before ++ w ∷ after
    → 1 ≤ length after
    → c.last_unackd_index ≡ length before
    → c.segments_to_send ≡ pre ++ unsent
    → c.next_segment_index ≡ length pre
    → end_of w < 2 ^ 32
    → open_tcp f ≡ ok (p, r)
    → r.ack_number ≡ end_of w
    → r.details ≡ 16
    → (c' : Client) × (client_step f c ≡ ok c')
      × Loads file mac pre unsent (record c { last_unackd_index = c.last_unackd_index + 1 }) c'
client_step-Loads file mac before after pre unsent w r f p c g ph segs more last all next small o
      ack flags =
    let d : Client = record c { last_unackd_index = c.last_unackd_index + 1 } in
    let gd = moved file mac c c.next_segment_index (c.last_unackd_index + 1) c.phase g g.1 in
    let size : length c.segments_to_send ≡ length before + suc (length after) =
      ap length segs ∙ length-append before (w ∷ after) in
    let (c', run, l) = both-Loads file mac pre unsent d gd (omega (arith, size, last)) all next in
    (
      c',
      client_step_sending f p r c ph o
          ∙ (unfold on_ack in
              simp (count_ack_waiting before after w r c segs last small ack, flags) run),
      l,
    )

-- An ACK with FIN ends the client.
pub client_step_last :
    (before after : List Tcp) (w r : Tcp) (f : Mpdu) (p : Ip) (c : Client)
    → c.phase ≡ ClientPhase.sending
    → c.segments_to_send ≡ before ++ w ∷ after
    → c.last_unackd_index ≡ length before
    → end_of w < 2 ^ 32
    → open_tcp f ≡ ok (p, r)
    → r.ack_number ≡ end_of w
    → r.details ≡ 17
    → client_step f c
      ≡ ok (record c { last_unackd_index = c.last_unackd_index + 1; phase = ClientPhase.finished })
unfolding on_ack
client_step_last before after w r f p c ph segs last small o ack flags =
    client_step_sending f p r c ph o
    ∙ simp (count_ack_waiting before after w r c segs last small ack, flags)

-- The SYNACK makes the client answer and send its first segment.
pub client_step_synack :
    (file mac : List ℕ) (unsent : List Tcp) (r : Tcp) (f : Mpdu) (p : Ip) (c : Client)
    → IsClient file mac c
    → c.phase ≡ ClientPhase.syn_sent
    → c.tx_segment.payload ≡ []
    → c.tx_segment.sequence_number ≡ 0
    → c.segments_to_send ≡ unsent
    → 1 ≤ length unsent
    → c.next_segment_index ≡ 0
    → c.last_unackd_index ≡ 0
    → open_tcp f ≡ ok (p, r)
    → r.ack_number ≡ 1
    → r.details ≡ 18
    → r.sequence_number ≡ 0
    → (d c' : Client) × (g : Mpdu) × (q : Ip) × (a : Tcp) × (client_step f c ≡ ok c')
      × (d.sent ≡ c.sent ++ g ∷ [])
      × (d.last_unackd_index ≡ 0)
      × (d.segments_to_send ≡ unsent)
      × (d.phase ≡ ClientPhase.sending)
      × (open_tcp g ≡ ok (q, a))
      × (a.details ≡ 16)
      × (a.ack_number ≡ 1)
      × (a.sequence_number ≡ 1)
      × Loads file mac [] unsent d c'
unfolding client_step handle on_synack
client_step_synack file mac unsent r f p c g ph empty sn segs some_segs next last o ack flags rsn =
    let a : Tcp = record (c.tx_segment) {
      details = 16;
      sequence_number = r.ack_number;
      ack_number = (r.sequence_number + 1) % 2 ^ 32;
      destination_port = c.dest_port;
      source_port = c.this_port;
    } in
    let this : r.ack_number ≡ (c.tx_segment.sequence_number + 1) % 2 ^ 32 =
      omega (arith, sn, ack) in
    let test : (r.ack_number == (c.tx_segment.sequence_number + 1) % 2 ^ 32) ≡ true =
      (==_iff _ _).1 this in
    let w = ack-Sendable file mac r c g empty this in
    let e : Client = record c { phase = ClientPhase.sending } in
    let ge = sending-InLoop file mac c g in
    let d = send_segment a e in
    let (c', run, l) =
      loop_head-Loads file mac [] unsent d (send_segment-InLoop file mac a e w ge)
        (unfold send_segment in omega (arith, last, ap length segs)) (unfold send_segment in segs)
        (unfold send_segment in next) in
    (
      d,
      c',
      frame_for c.mac c.dest_mac (encap_tcp a c.tx_packet),
      encap_tcp a c.tx_packet,
      a,
      simp (o, ph, test, flags) run,
      unfold send_segment in refl,
      unfold send_segment in last,
      unfold send_segment in segs,
      unfold send_segment in refl,
      (open_tcp-frame_for c.mac c.dest_mac a c.tx_packet file ge.0.header w).0,
      refl,
      omega (arith, rsn),
      ack,
      l,
    )
