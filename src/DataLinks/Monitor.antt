-- ===== src/DataLinks/Monitor.antt =====
-- What a monitored link prints for the frames that go out on it.
use network_simulation.Common.{
  ℕ, ◌+◌, ◌^◌, ◌<◌, ◌≡◌, refl, ◌∙◌, true, false, List, [], ◌∷◌, ◌++◌, length, Run, ok, ◌>>=◌, ◌==◌,
  int_max, arith,
}
use network_simulation.Pdu.{Mpdu}
use network_simulation.Capture.{get_frame_details}
use network_simulation.DataLinks.{
  EthernetLink, Side, wire_1, wire_2, placed, transmit, statement, wire, set_wire,
}

-- A call of `transmit`, on either wire.
pub record Sending : Type 0 where
  pub elapsed : List ℕ
  pub side : Side
  pub tx_frame : Mpdu

unfoldable pub transmit_all : List Sending → EthernetLink → Run (List (List ℕ) × EthernetLink)
transmit_all [] l = ok ([], l)
transmit_all (s ∷ ss) l = do
  (line, l1) ← transmit s.elapsed s.side s.tx_frame l
  (lines, l2) ← transmit_all ss l1
  ok (line ++ lines, l2)

-- The lines are those of the frames, in their order and numbered from `n + 1` on.
pub data Numbered (name : List ℕ) : ℕ → List Sending → List (List ℕ) → Type 0 where
  none_sent : {n : ℕ} → Numbered name n [] []
  then_sent :
      {n : ℕ} {s : Sending} {ss : List Sending} {info : List ℕ} {lines : List (List ℕ)}
      → get_frame_details s.tx_frame ≡ ok info
      → Numbered name (n + 1) ss lines
      → Numbered name n (s ∷ ss) (statement name s.elapsed (n + 1) info ∷ lines)

-- The details of every frame can be read.
pub data Showable : List Sending → Type 0 where
  no_more : Showable []
  one_more :
      {s : Sending} {ss : List Sending} (info : List ℕ)
      → get_frame_details s.tx_frame ≡ ok info
      → Showable ss
      → Showable (s ∷ ss)

-- The same link, not monitored.
unfoldable pub quiet : ℕ → EthernetLink → EthernetLink
quiet count l = record l { print_metadata = false; frame_count = count }

-- The link after a frame on it, monitored.
unfoldable pub busier : Side → Mpdu → EthernetLink → EthernetLink
busier side f l = placed side f (record l { frame_count = l.frame_count + 1 })

pub transmit_lem :
    (s : Sending) (info : List ℕ) (l : EthernetLink)
    → l.print_metadata ≡ true
    → l.frame_count + 1 < 2 ^ 31
    → get_frame_details s.tx_frame ≡ ok info
    → transmit s.elapsed s.side s.tx_frame l
      ≡ ok (statement l.if_name s.elapsed (l.frame_count + 1) info ∷ [], busier s.side s.tx_frame l)
unfolding transmit busier
transmit_lem s info l on room shown =
    let fits : (l.frame_count == int_max) ≡ false = ground (arith, room) in
    rw (on, fits, shown) refl

pub busier-keeps :
    (side : Side) (f : Mpdu) (l : EthernetLink)
    → ((busier side f l).print_metadata ≡ l.print_metadata)
      × ((busier side f l).if_name ≡ l.if_name)
      × ((busier side f l).frame_count ≡ l.frame_count + 1)
unfolding busier placed wire set_wire
busier-keeps wire_1 f l = (refl, refl, refl)
busier-keeps wire_2 f l = (refl, refl, refl)

placed-quiet :
    (side : Side) (f : Mpdu) (count : ℕ) (l : EthernetLink)
    → placed side f (quiet count l) ≡ quiet count (busier side f l)
unfolding busier placed quiet wire set_wire
placed-quiet wire_1 f count l = refl
placed-quiet wire_2 f count l = refl

transmit_all-quiet :
    (s : Sending) (ss : List Sending) (count : ℕ) (l l' : EthernetLink)
    → transmit_all ss (quiet count (busier s.side s.tx_frame l)) ≡ ok ([], l')
    → transmit_all (s ∷ ss) (quiet count l) ≡ ok ([], l')
unfolding transmit_all transmit quiet
transmit_all-quiet s ss count l l' rest = rw (placed-quiet s.side s.tx_frame count l, rest) refl

-- What a monitored link does with the frames `ss`.
pub record Monitored (ss : List Sending) (l : EthernetLink) (lines : List (List ℕ))
    (l' : EthernetLink) : Type 0 where
  pub returns : transmit_all ss l ≡ ok (lines, l')
  pub numbered : Numbered l.if_name l.frame_count ss lines
  pub counted : l'.frame_count ≡ l.frame_count + length ss
  pub unmonitored : (count : ℕ) → transmit_all ss (quiet count l) ≡ ok ([], quiet count l')

Monitored-first :
    (s : Sending) (ss : List Sending) (info : List ℕ) (l : EthernetLink) (lines : List (List ℕ))
    (l' : EthernetLink)
    → l.print_metadata ≡ true
    → l.frame_count + 1 < 2 ^ 31
    → get_frame_details s.tx_frame ≡ ok info
    → Monitored ss (busier s.side s.tx_frame l) lines l'
    → Monitored (s ∷ ss) l (statement l.if_name s.elapsed (l.frame_count + 1) info ∷ lines) l'
unfolding transmit_all
Monitored-first s ss info l lines l' on room shown m =
    let (_, name, count) = busier-keeps s.side s.tx_frame l in
    record {
      returns = rw (transmit_lem s info l on room shown, m.returns) refl;
      numbered = then_sent shown (rw (← name, ← count) m.numbered);
      counted = m.counted ∙ (rw (count) (omega arith));
      unmonitored = λ c. transmit_all-quiet s ss c l (quiet c l') (m.unmonitored c);
    }

-- On a monitored link, whichever wires the frames go out on, the line of each is printed with the
-- next number of the one count, in the order of the frames, when the details of every frame can be
-- read; the wires are left as the same link leaves them when it is not monitored, which prints
-- nothing. The count, an int, stays below 2 ^ 31.
pub link_numbers_frames :
    (ss : List Sending) (l : EthernetLink)
    → l.print_metadata ≡ true
    → l.frame_count + length ss < 2 ^ 31
    → Showable ss
    → (lines : List (List ℕ)) × (l' : EthernetLink) × Monitored ss l lines l'
unfolding transmit_all
link_numbers_frames [] l on room no_more = (
  [],
  l,
  record { returns = refl; numbered = none_sent; counted = omega arith; unmonitored = λ c. refl },
)
link_numbers_frames (s ∷ ss) l on room (one_more info shown more) =
    let (still, _, count) = busier-keeps s.side s.tx_frame l in
    let (lines, l', m) =
      link_numbers_frames ss (busier s.side s.tx_frame l) (still ∙ on) (omega arith) more in
    (_, l', Monitored-first s ss info l lines l' on (omega arith) shown m)
