-- ===== src/TcpClient/Acks.antt =====
-- What the TCP client does with an ACK: cumulative ACKs, and going back after an old one.
use network_simulation.Common.{
  ℕ, zero, suc, ◌+◌, ◌%◌, ◌^◌, ◌<◌, ◌≡◌, refl, ap, ◌∙◌, true, false, ◌&&◌, List, [], ◌∷◌, ◌++◌, ok,
  at, if◌then◌else◌, ltb, ◌==◌, length, length-append, has_flag, Bool-cases, inl, inr, arith,
}
use native.Mathlib.Decide.{dec_lt}
use network_simulation.L3.{Ip}
use network_simulation.Pdu.{Mpdu, open_tcp}
use network_simulation.L4.{Tcp, tcp_fin, tcp_ack}
use network_simulation.L4.Stream.{IsStream}
use network_simulation.TcpClient.{
  Client, ClientPhase, client_step, handle, send_segment, load_next, loop_head, count_ack, on_ack,
}
use network_simulation.TcpClient.Rising.{
  end_of, Rising, IsStream-Rising, Rising-suffix, Rising-lt, catch_up-append, at-append,
  drop-append,
}

-- An ACK that ends at a segment from the waiting one on.
count_ack-append :
    (before mid after : List Tcp) (w r : Tcp) (c : Client) (n : ℕ)
    → c.segments_to_send ≡ before ++ (mid ++ w ∷ after)
    → c.last_unackd_index ≡ length before
    → Rising n (before ++ (mid ++ w ∷ after))
    → r.ack_number ≡ end_of w
    → count_ack r c ≡ ok (record c { last_unackd_index = length before + length mid + 1 })
unfolding count_ack
count_ack-append before [] after w r c n segs last rise ack =
    let (k, here) = Rising-suffix n before (w ∷ after) rise in
    let fits : end_of w % 2 ^ 32 ≡ end_of w = omega (arith, here.1) in
    rw (segs, last, at-append before after w, fits, ack) (ground arith)
count_ack-append before (v ∷ mid) after w r c n segs last rise ack =
    let (k, here) = Rising-suffix n before (v ∷ (mid ++ w ∷ after)) rise in
    let fits : end_of v % 2 ^ 32 ≡ end_of v = omega (arith, here.1) in
    let (above, _) = Rising-lt (end_of v) mid after w here.2 in
    rw
      (
        segs,
        last,
        at-append before (mid ++ w ∷ after) v,
        drop-append before (mid ++ w ∷ after) v,
        fits,
        ack,
        catch_up-append (end_of v) (length before + 1) mid after w here.2,
      )
      (ground (arith, above))

at_lt : (xs : List Tcp) (i : ℕ) → i < length xs → (x : Tcp) × (at xs i ≡ ok x)
at_lt [] i h = absurd (omega arith)
at_lt (x ∷ xs) zero h = (x, refl)
at_lt (x ∷ xs) (suc i) h = at_lt xs i (omega arith)

-- Sending the next segment moves no index of an ACK.
record Keeps (c c' : Client) : Type 0 where
  last : c'.last_unackd_index ≡ c.last_unackd_index
  segments : c'.segments_to_send ≡ c.segments_to_send
  phase : c'.phase ≡ c.phase

load_next-Keeps : (c : Client) → (c' : Client) × (load_next c ≡ ok c') × Keeps c c'
unfolding load_next send_segment
load_next-Keeps c = elim (dec_lt c.next_segment_index (length c.segments_to_send)) [
  | yes more ↦
      let test : ltb c.next_segment_index (length c.segments_to_send) ≡ true =
        ground (arith, more) in
      let (s, found) = at_lt c.segments_to_send c.next_segment_index more in
      (
        send_segment s (record c { next_segment_index = c.next_segment_index + 1 }),
        rw (test, found),
        record { last = refl; segments = refl; phase = refl },
      )
  | no all_sent ↦
      let test : ltb c.next_segment_index (length c.segments_to_send) ≡ false =
        ground (arith, all_sent) in
      (c, rw test, record { last = refl; segments = refl; phase = refl })
]

-- The head of the loop ends the client when every segment is acknowledged.
loop_head-Keeps :
    (c : Client)
    → (c' : Client) × (loop_head c ≡ ok c')
      × (c'.last_unackd_index ≡ c.last_unackd_index)
      × (c'.segments_to_send ≡ c.segments_to_send)
      × (c'.phase ≡ (
          if ltb c.last_unackd_index (length c.segments_to_send)
          then c.phase
          else ClientPhase.finished))
unfolding loop_head
loop_head-Keeps c = elim (Bool-cases (ltb c.last_unackd_index (length c.segments_to_send))) [
  | inl more ↦
      let (c', run, keeps) = load_next-Keeps c in
      (c', rw more run, keeps.last, keeps.segments, rw more keeps.phase)
  | inr over ↦ (record c { phase = ClientPhase.finished }, rw over, refl, refl, rw over)
]

pub client_step_sending :
    (f : Mpdu) (p : Ip) (r : Tcp) (c : Client)
    → c.phase ≡ ClientPhase.sending
    → open_tcp f ≡ ok (p, r)
    → client_step f c ≡ on_ack r c
unfolding client_step handle
client_step_sending f p r c ph opens = simp (opens, ph)

on_ack_counted :
    (r : Tcp) (c d : Client)
    → count_ack r c ≡ ok d
    → d.phase ≡ ClientPhase.sending
    → (c' : Client) × (on_ack r c ≡ ok c')
      × (c'.last_unackd_index ≡ d.last_unackd_index)
      × (c'.phase ≡ (
          if has_flag r.details tcp_fin && has_flag r.details tcp_ack
          then ClientPhase.finished
          else if ltb d.last_unackd_index (length d.segments_to_send)
          then ClientPhase.sending
          else ClientPhase.finished))
unfolding on_ack
on_ack_counted r c d counted ph =
    let (e, load, keeps) = load_next-Keeps d in
    let (g, head, l, q, fin) = loop_head-Keeps e in
    elim (Bool-cases (has_flag r.details tcp_fin && has_flag r.details tcp_ack)) [
      | inl final ↦
          (record d { phase = ClientPhase.finished }, simp (counted, final), refl, rw final)
      | inr more ↦ (
        g,
        simp (counted, more, load) head,
        l ∙ keeps.last,
        rw more (fin ∙ rw (keeps.last, keeps.segments, keeps.phase, ph)),
      )
    ]

-- A client that waits for ACKs gets one whose number is the end of a segment, the waiting one or a
-- later one. It does not fault and waits for the segment behind that one from then on; it ends if
-- there is none or if the ACK has FIN.
pub ack_advances :
    (m : ℕ) (file : List ℕ) (before mid after : List Tcp) (w r : Tcp) (f : Mpdu) (p : Ip)
    (c : Client)
    → 1 + length file < 2 ^ 32
    → IsStream m 1 (before ++ (mid ++ w ∷ after)) file
    → c.phase ≡ ClientPhase.sending
    → c.segments_to_send ≡ before ++ (mid ++ w ∷ after)
    → c.last_unackd_index ≡ length before
    → open_tcp f ≡ ok (p, r)
    → r.ack_number ≡ end_of w
    → (c' : Client) × (client_step f c ≡ ok c')
      × (c'.last_unackd_index ≡ length before + length mid + 1)
      × (c'.phase ≡ (
          if has_flag r.details tcp_fin && has_flag r.details tcp_ack
          then ClientPhase.finished
          else if length after == 0
          then ClientPhase.finished
          else ClientPhase.sending))
ack_advances m file before mid after w r f p c small stream ph segs last opens ack =
    let counted =
      count_ack-append before mid after w r c 1 segs last
        (IsStream-Rising m 1 (before ++ (mid ++ w ∷ after)) file small stream) ack in
    let d : Client = record c { last_unackd_index = length before + length mid + 1 } in
    let (c', run, l, fin) = on_ack_counted r c d counted ph in
    let total : length c.segments_to_send ≡ length before + length mid + 1 + length after =
      ap length segs
      ∙ length-append before (mid ++ w ∷ after)
      ∙ ap (◌+◌ (length before)) (length-append mid (w ∷ after))
      ∙ omega arith in
    (c', client_step_sending f p r c ph opens ∙ run, l, fin ∙ rw total (ground arith))
