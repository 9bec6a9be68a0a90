-- ===== src/TcpSession/Turns.antt =====
-- One turn of either side in the data phase of a session.
use mathlib.Core.List.{append_assoc, append-nil}
use mathlib.Core.Path.{subst}
use network_simulation.Common.{
  ℕ, ◌+◌, ◌^◌, ◌≤◌, ◌<◌, ◌≡◌, refl, sym, ap, ◌∙◌, ◌⊎◌, inl, inr, List, [], ◌∷◌, ◌++◌, ok, length,
  length-append, drop, drop-append, All, All-split, arith,
}
use network_simulation.L4.{Tcp}
use network_simulation.L4.Stream.{IsStream}
use network_simulation.L3.{Ip}
use network_simulation.Pdu.{Mpdu, open_tcp}
use network_simulation.TcpServer.{Phase, Server}
use network_simulation.TcpServer.Transfer.{InOrder}
use network_simulation.TcpClient.{ClientPhase}
use network_simulation.TcpClient.Rising.{end_of}
use network_simulation.TcpClient.Pieces.{Sendable}
use network_simulation.TcpClient.Loads.{InOrder-append}
use network_simulation.TcpClient.Advances.{client_step-Loads, client_step_last}
use network_simulation.TcpSession.{Network, server_turn, client_turn}
use network_simulation.TcpSession.Exchange.{
  Acks, Acks-append, final, more, IsStream-Head, Awaits, waiting, complete, Exchange, Awaits-next,
}

-- Both sides have ended, the server has written the file, and no frame is on its way.
pub record Delivered (file : List ℕ) (n : Network) : Type 0 where
  pub client : n.client.phase ≡ ClientPhase.finished
  pub server : n.server.phase ≡ Phase.done
  pub written : n.server.written ≡ file
  pub none_to_server : n.to_server ≡ []
  pub none_to_client : n.to_client ≡ []

-- The server takes the next frame of those on their way, and answers it.
pub server_turn-Exchange :
    (file mac : List ℕ) (m : ℕ) (acked answered in_flight unsent : List Tcp) (x : Tcp) (f : Mpdu)
    (fs : List Mpdu) (n : Network)
    → n.to_server ≡ f ∷ fs
    → Exchange file mac m acked answered (x ∷ in_flight) unsent n
    → (n' : Network) × (server_turn f fs n ≡ ok n')
      × Exchange file mac m acked (answered ++ x ∷ []) in_flight unsent n'
unfolding server_turn
server_turn-Exchange file mac m a b c d x f fs n queue e =
    let ((p, opens), others) = subst (λ q. InOrder q (x ∷ c)) queue e.frames in
    let (_, w1) =
      All-split (Sendable file) a _ (subst (All (Sendable file)) e.segments e.client.0.segments) in
    let (_, w2) = All-split (Sendable file) b _ w1 in
    let (s', run, acc, small, awaits) =
      Awaits-next file m x (c ++ d) f p n.server e.server w2.0.fits.ack_number opens e.awaits in
    let new : drop (length n.server.sent) s'.sent ≡ acc.frame ∷ [] =
      rw acc.sent (drop-append n.server.sent (acc.frame ∷ [])) in
    let shift : (b ++ x ∷ []) ++ (c ++ d) ≡ b ++ (x ∷ (c ++ d)) =
      append_assoc b (x ∷ []) (c ++ d) in
    let shift' : (b ++ x ∷ []) ++ c ≡ b ++ (x ∷ c) = append_assoc b (x ∷ []) c in
    (
      record n { server = s'; to_server = fs; to_client = n.to_client ++ acc.frame ∷ [] },
      rw (run, new) refl,
      record {
        client = e.client;
        sending = e.sending;
        segments = rw shift e.segments;
        last = e.last;
        next = rw shift' e.next;
        busy = rw shift' e.busy;
        sn = e.sn;
        bytes = e.bytes;
        small = e.small;
        stream = rw shift e.stream;
        frames = others;
        acks =
            Acks-append n.to_client (acc.frame ∷ []) b (x ∷ []) e.acks
              ((acc.packet, acc.answer, acc.opens, omega (arith, acc.number), acc.flags), tt);
        server = acc.server;
        awaits = awaits;
      },
    )

pub nothing_sent {ℓ} : {A : Type ℓ} (xs : List A) → drop (length xs) xs ≡ []
nothing_sent xs = ap (drop (length xs)) (sym (append-nil xs)) ∙ drop-append xs []

rest_empty : (xs ys : List Tcp) → xs ++ ys ≡ [] → ys ≡ []
rest_empty [] ys e = e
rest_empty (x ∷ xs) ys e = absurd (cc e)

-- The client goes on.
client_goes_on :
    (file mac : List ℕ) (m : ℕ) (a b c d : List Tcp) (x : Tcp) (f : Mpdu) (fs : List Mpdu)
    (n : Network) (q : Ip) (r : Tcp) (bytes : List ℕ)
    → Exchange file mac m a (x ∷ b) c d n
    → open_tcp f ≡ ok (q, r)
    → r.ack_number ≡ end_of x
    → r.details ≡ 16
    → Acks fs b
    → end_of x + length bytes < 2 ^ 32
    → 1 ≤ length (b ++ (c ++ d))
    → IsStream m (end_of x) (b ++ (c ++ d)) bytes
    → (n' : Network) × (client_turn f fs n ≡ ok n')
      × (chunk rest : List Tcp) × (d ≡ chunk ++ rest)
      × Exchange file mac m (a ++ x ∷ []) b (c ++ chunk) rest n'
unfolding client_turn
client_goes_on file mac m a b c d x f fs n q r bytes e opens number flags acks small some_left
      stream =
    let all : n.client.segments_to_send ≡ (a ++ ((x ∷ b) ++ c)) ++ d =
      e.segments ∙ simp append_assoc in
    let (c', run, l) =
      client_step-Loads file mac a (b ++ (c ++ d)) (a ++ ((x ∷ b) ++ c)) d x r f q n.client e.client
        e.sending e.segments some_left e.last all e.next (omega arith) opens number flags in
    let new : drop (length n.client.sent) c'.sent ≡ l.frames =
      rw l.sent (drop-append n.client.sent l.frames) in
    let left : (c ++ l.chunk) ++ l.rest ≡ c ++ d =
      append_assoc c l.chunk l.rest ∙ ap (◌++◌ c) (sym l.split) in
    (
      record n { client = c'; to_client = fs; to_server = n.to_server ++ l.frames },
      rw (run, new) refl,
      l.chunk,
      l.rest,
      l.split,
      record {
        client = l.loop;
        sending = l.phase ∙ e.sending;
        segments =
            rw left (l.segments ∙ e.segments ∙ sym (append_assoc a (x ∷ []) (b ++ (c ++ d))));
        last = l.last ∙ omega (arith, e.last, length-append a (x ∷ []));
        next = l.next ∙ ap length (simp append_assoc);
        busy = elim l.busy [
          | inl over ↦ inl (rest_empty l.chunk l.rest (sym l.split ∙ over))
          | inr some_more ↦
              inr (omega (arith, length-append b (c ++ l.chunk), length-append c l.chunk))
        ];
        sn = end_of x;
        bytes = bytes;
        small = small;
        stream = rw left stream;
        frames = InOrder-append n.to_server l.frames c l.chunk e.frames l.carry;
        acks = acks;
        server = e.server;
        awaits = rw left e.awaits;
      },
    )

first_empty : (xs ys : List Tcp) → xs ++ ys ≡ [] → xs ≡ []
first_empty [] ys e = refl
first_empty (x ∷ xs) ys e = absurd (cc e)

no_frames : (fs : List Mpdu) (xs : List Tcp) → xs ≡ [] → InOrder fs xs → fs ≡ []
no_frames [] xs e h = refl
no_frames (f ∷ fs) [] e h = absurd h
no_frames (f ∷ fs) (x ∷ xs) e h = absurd (cc e)

no-Acks : (fs : List Mpdu) (xs : List Tcp) → xs ≡ [] → Acks fs xs → fs ≡ []
no-Acks [] xs e h = refl
no-Acks (f ∷ fs) [] e h = absurd h
no-Acks (f ∷ fs) (x ∷ xs) e h = absurd (cc e)

no-IsStream : (m sn : ℕ) (xs : List Tcp) (bytes : List ℕ) → xs ≡ [] → ¬ IsStream m sn xs bytes
no-IsStream m sn [] bytes e h = absurd h
no-IsStream m sn (x ∷ xs) bytes e h = absurd (cc e)

Awaits-complete :
    (file : List ℕ) (m : ℕ) (s : Server) (segs : List Tcp)
    → segs ≡ []
    → Awaits file m s segs
    → (s.phase ≡ Phase.done) × (s.written ≡ file)
Awaits-complete file m s segs e (waiting sn rest _ _ _ stream _) =
    absurd (no-IsStream m sn segs rest e stream)
Awaits-complete file m s segs e (complete _ ph w) = (ph, w)

-- The client ends.
client_ends :
    (file mac : List ℕ) (m : ℕ) (a b c d : List Tcp) (x : Tcp) (f : Mpdu) (fs : List Mpdu)
    (n : Network) (q : Ip) (r : Tcp)
    → Exchange file mac m a (x ∷ b) c d n
    → open_tcp f ≡ ok (q, r)
    → r.ack_number ≡ end_of x
    → r.details ≡ 17
    → Acks fs b
    → end_of x < 2 ^ 32
    → b ++ (c ++ d) ≡ []
    → (n' : Network) × (client_turn f fs n ≡ ok n') × Delivered file n'
unfolding client_turn
client_ends file mac m a b c d x f fs n q r e opens number flags acks small over =
    let none_flying = rest_empty b (c ++ d) over in
    let (ph, w) = Awaits-complete file m n.server (c ++ d) none_flying e.awaits in
    let run =
      client_step_last a (b ++ (c ++ d)) x r f q n.client e.sending e.segments e.last (omega arith)
        opens number flags in
    (
      record n {
        client = record (n.client) {
          last_unackd_index = n.client.last_unackd_index + 1;
          phase = ClientPhase.finished;
        };
        to_client = fs;
        to_server = n.to_server ++ [];
      },
      rw (run, nothing_sent n.client.sent) refl,
      record {
        client = refl;
        server = ph;
        written = w;
        none_to_server =
            append-nil n.to_server ∙ no_frames n.to_server c (first_empty c d none_flying) e.frames;
        none_to_client = no-Acks fs b (first_empty b (c ++ d) over) acks;
      },
    )

-- The client takes the next answer: it goes on, or it was the last.
pub client_turn-Exchange :
    (file mac : List ℕ) (m : ℕ) (acked answered in_flight unsent : List Tcp) (x : Tcp) (f : Mpdu)
    (fs : List Mpdu) (n : Network)
    → n.to_client ≡ f ∷ fs
    → Exchange file mac m acked (x ∷ answered) in_flight unsent n
    → (n' : Network) × (client_turn f fs n ≡ ok n')
      × (Delivered file n'
          ⊎ ((chunk rest : List Tcp) × (unsent ≡ chunk ++ rest)
              × Exchange file mac m (acked ++ x ∷ []) answered (in_flight ++ chunk) rest n'))
client_turn-Exchange file mac m a b c d x f fs n queue e =
    let ((q, r, opens, number, flags), acks) = subst (λ q. Acks q (x ∷ b)) queue e.acks in
    let (_, fits, head) = IsStream-Head m e.sn x (b ++ (c ++ d)) e.bytes e.small e.stream in
    elim head [
      | final over fin _ ↦
          let (n', run, done) =
            client_ends file mac m a b c d x f fs n q r e opens number (flags ∙ fin) acks fits
              over in
          (n', run, inl done)
      | more bytes some_more no_fin _ small stream ↦
          let (n', run, chunk, rest, split, e') =
            client_goes_on file mac m a b c d x f fs n q r bytes e opens number (flags ∙ no_fin)
              acks small some_more stream in
          (n', run, inr (chunk, rest, split, e'))
    ]
