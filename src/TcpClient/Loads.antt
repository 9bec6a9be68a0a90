-- ===== src/TcpClient/Loads.antt =====
-- Which segments the TCP client sends, when each ACK is for the segment that it waits for.
use mathlib.Core.List.{append_assoc, append-nil}
use network_simulation.Common.{
  ℕ, suc, ◌+◌, ◌≤◌, ◌<◌, ◌≡◌, refl, sym, ap, ◌∙◌, ◌⊎◌, inl, inr, true, false, List, [], ◌∷◌, ◌++◌,
  ok, at, ◌>>=◌, ltb, length, length-append, arith,
}
use network_simulation.L4.{Tcp}
use network_simulation.L3.{encap_tcp}
use network_simulation.Pdu.{Mpdu}
use network_simulation.Host.{frame_for}
use network_simulation.TcpServer.Transfer.{InOrder}
use network_simulation.TcpClient.{Client, send_segment, load_next, loop_head}
use network_simulation.TcpClient.Rising.{at-append}
use network_simulation.TcpClient.Pieces.{
  InLoop, open_tcp-frame_for, All-at, send_segment-InLoop, moved,
}

-- The client has sent `pre` and `unsent` is left; it goes on to send the first segments of `unsent`,
-- at least one if there is one.
pub record Loads (file mac : List ℕ) (pre unsent : List Tcp) (c c' : Client) : Type 0 where
  pub chunk : List Tcp
  pub rest : List Tcp
  pub frames : List Mpdu
  pub split : unsent ≡ chunk ++ rest
  pub busy : (unsent ≡ []) ⊎ (1 ≤ length chunk)
  pub sent : c'.sent ≡ c.sent ++ frames
  pub carry : InOrder frames chunk
  pub next : c'.next_segment_index ≡ length (pre ++ chunk)
  pub segments : c'.segments_to_send ≡ c.segments_to_send
  pub last : c'.last_unackd_index ≡ c.last_unackd_index
  pub phase : c'.phase ≡ c.phase
  pub loop : InLoop file mac c'

load_next-Loads :
    (file mac : List ℕ) (pre unsent : List Tcp) (c : Client)
    → InLoop file mac c
    → c.segments_to_send ≡ pre ++ unsent
    → c.next_segment_index ≡ length pre
    → (c' : Client) × (load_next c ≡ ok c') × Loads file mac pre unsent c c'
unfolding load_next
load_next-Loads file mac pre [] c g segs next =
    let size : length c.segments_to_send ≡ length pre + 0 = ap length segs ∙ length-append pre [] in
    let test : ltb c.next_segment_index (length c.segments_to_send) ≡ false =
      ground (arith, size, next) in
    (
      c,
      rw test,
      record {
        chunk = [];
        rest = [];
        frames = [];
        split = refl;
        busy = inl refl;
        sent = sym (append-nil c.sent);
        carry = tt;
        next = next ∙ sym (ap length (append-nil pre));
        segments = refl;
        last = refl;
        phase = refl;
        loop = g;
      },
    )
load_next-Loads file mac pre (d ∷ unsent) c g segs next =
    let size : length c.segments_to_send ≡ length pre + suc (length unsent) =
      ap length segs ∙ length-append pre (d ∷ unsent) in
    let test : ltb c.next_segment_index (length c.segments_to_send) ≡ true =
      ground (arith, size, next) in
    let found : at c.segments_to_send c.next_segment_index ≡ ok d =
      rw (segs, next) (at-append pre unsent d) in
    let w = All-at file c.segments_to_send c.next_segment_index d g.0.segments found in
    let more = moved file mac c (c.next_segment_index + 1) c.last_unackd_index c.phase g g.1 in
    (
      send_segment d (record c { next_segment_index = c.next_segment_index + 1 }),
      rw (test, found),
      record {
        chunk = d ∷ [];
        rest = unsent;
        frames = frame_for c.mac c.dest_mac (encap_tcp d c.tx_packet) ∷ [];
        split = refl;
        busy = inr (omega arith);
        sent = unfold send_segment in refl;
        carry = (
          (
            encap_tcp d c.tx_packet,
            (open_tcp-frame_for c.mac c.dest_mac d c.tx_packet file g.0.header w).0,
          ),
          tt,
        );
        next = unfold send_segment in omega (arith, next, length-append pre (d ∷ []));
        segments = unfold send_segment in refl;
        last = unfold send_segment in refl;
        phase = unfold send_segment in refl;
        loop =
            send_segment-InLoop file mac d
              (record c { next_segment_index = c.next_segment_index + 1 }) w more;
      },
    )

pub InOrder-append :
    (fs gs : List Mpdu) (xs ys : List Tcp)
    → InOrder fs xs
    → InOrder gs ys
    → InOrder (fs ++ gs) (xs ++ ys)
InOrder-append [] gs [] ys a b = b
InOrder-append [] gs (x ∷ xs) ys a b = absurd a
InOrder-append (f ∷ fs) gs [] ys a b = absurd a
InOrder-append (f ∷ fs) gs (x ∷ xs) ys (p, a) b = (p, InOrder-append fs gs xs ys a b)

Loads-then :
    (file mac : List ℕ) (pre unsent : List Tcp) (c c' c'' : Client)
    → (one : Loads file mac pre unsent c c') → Loads file mac (pre ++ one.chunk) one.rest c' c''
    → Loads file mac pre unsent c c''
Loads-then file mac pre unsent c c' c'' one two = record {
  chunk = one.chunk ++ two.chunk;
  rest = two.rest;
  frames = one.frames ++ two.frames;
  split =
      one.split ∙ ap (◌++◌ one.chunk) two.split ∙ sym (append_assoc one.chunk two.chunk two.rest);
  busy = elim one.busy [
    | inl done ↦ inl done
    | inr more ↦ inr (omega (arith, length-append one.chunk two.chunk))
  ];
  sent = two.sent ∙ rw one.sent (append_assoc c.sent one.frames two.frames);
  carry = InOrder-append one.frames two.frames one.chunk two.chunk one.carry two.carry;
  next = two.next ∙ ap length (append_assoc pre one.chunk two.chunk);
  segments = two.segments ∙ one.segments;
  last = two.last ∙ one.last;
  phase = two.phase ∙ one.phase;
  loop = two.loop;
}

-- The head of the loop while a segment is not acknowledged.
pub loop_head-Loads :
    (file mac : List ℕ) (pre unsent : List Tcp) (c : Client)
    → InLoop file mac c
    → c.last_unackd_index < length c.segments_to_send
    → c.segments_to_send ≡ pre ++ unsent
    → c.next_segment_index ≡ length pre
    → (c' : Client) × (loop_head c ≡ ok c') × Loads file mac pre unsent c c'
unfolding loop_head
loop_head-Loads file mac pre unsent c g more segs next =
    let (c', run, l) = load_next-Loads file mac pre unsent c g segs next in
    let test : ltb c.last_unackd_index (length c.segments_to_send) ≡ true = ground (arith, more) in
    (c', rw test run, l)

-- One load, and the one at the head of the loop.
pub both-Loads :
    (file mac : List ℕ) (pre unsent : List Tcp) (c : Client)
    → InLoop file mac c
    → c.last_unackd_index < length c.segments_to_send
    → c.segments_to_send ≡ pre ++ unsent
    → c.next_segment_index ≡ length pre
    → (c' : Client) × ((load_next c >>= loop_head) ≡ ok c') × Loads file mac pre unsent c c'
both-Loads file mac pre unsent c g more segs next =
    let (c1, run1, one) = load_next-Loads file mac pre unsent c g segs next in
    let (c2, run2, two) =
      loop_head-Loads file mac (pre ++ one.chunk) one.rest c1 one.loop
        (rw (one.last, one.segments) more)
        (one.segments ∙ segs ∙ ap (◌++◌ pre) one.split ∙ sym (append_assoc pre one.chunk one.rest))
        one.next in
    (c2, rw run1 run2, Loads-then file mac pre unsent c c1 c2 one two)
