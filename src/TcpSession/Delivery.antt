-- ===== src/TcpSession/Delivery.antt =====
-- Every run of the data phase ends, with the whole file at the server.
use mathlib.Core.List.{append_assoc}
use mathlib.Core.Path.{subst}
use network_simulation.Common.{
  ℕ, suc, zero, ◌+◌, ◌≤◌, ◌≡◌, ◌≢◌, refl, sym, inl, inr, true, List, [], ◌∷◌, ◌++◌, Run, ok, length,
  length-append, arith,
}
use network_simulation.L4.{Tcp}
use network_simulation.Pdu.{Mpdu}
use network_simulation.TcpServer.{Phase, waits}
use network_simulation.TcpServer.Transfer.{InOrder}
use network_simulation.TcpClient.{ClientPhase}
use network_simulation.TcpSession.{
  Network, server_turn, client_turn, Step, server_takes, client_takes, Inevitable, reached, onward,
}
use network_simulation.TcpSession.Exchange.{Acks, Awaits, waiting, complete, Exchange}
use network_simulation.TcpSession.Turns.{Delivered, server_turn-Exchange, client_turn-Exchange}

-- The turns that are left: of the server, and of the client.
abbrev pub measure : List Tcp → List Tcp → List Tcp → ℕ
measure answered in_flight unsent =
    let rest = in_flight ++ unsent in length rest + length (answered ++ rest)

sending_not_finished : (p : ClientPhase) → p ≡ ClientPhase.sending → p ≢ ClientPhase.finished
sending_not_finished p e = λ q. cc (e, q)

waits-receiving : (p : Phase) → p ≡ Phase.receiving → waits p ≡ true
unfolding waits
waits-receiving p e = rw e refl

-- The server waits, if a segment is left for it.
Awaits-waits :
    (file : List ℕ) (m : ℕ) (n : Network) (x : Tcp) (segs : List Tcp)
    → Awaits file m n.server (x ∷ segs)
    → waits n.server.phase ≡ true
Awaits-waits file m n x segs (waiting _ _ ph _ _ _ _) = waits-receiving n.server.phase ph
Awaits-waits file m n x segs (complete e _ _) = absurd (cc e)

-- A frame is there for each segment on its way.
first_frame :
    (fs : List Mpdu) (x : Tcp) (xs : List Tcp)
    → InOrder fs (x ∷ xs)
    → (f : Mpdu) × (gs : List Mpdu) × (fs ≡ f ∷ gs)
first_frame [] x xs h = absurd h
first_frame (f ∷ fs) x xs h = (f, fs, refl)

first_ack :
    (fs : List Mpdu) (x : Tcp) (xs : List Tcp)
    → Acks fs (x ∷ xs)
    → (f : Mpdu) × (gs : List Mpdu) × (fs ≡ f ∷ gs)
first_ack [] x xs h = absurd h
first_ack (f ∷ fs) x xs h = (f, fs, refl)

-- One of the sides has a frame to take.
some_turn :
    (file mac : List ℕ) (m : ℕ) (a b c d : List Tcp) (n : Network)
    → Exchange file mac m a b c d n
    → (r : Run Network) × Step n r
some_turn file mac m a (x ∷ b) c d n e =
    let (f, fs, queue) = first_ack n.to_client x b e.acks in
    (client_turn f fs n, client_takes f fs queue (sending_not_finished n.client.phase e.sending))
some_turn file mac m a [] (x ∷ c) d n e =
    let (f, fs, queue) = first_frame n.to_server x c e.frames in
    (server_turn f fs n, server_takes f fs queue (Awaits-waits file m n x (c ++ d) e.awaits))
some_turn file mac m a [] [] [] n e = absurd e.stream
some_turn file mac m a [] [] (x ∷ d) n e = elim e.busy [
  | inl over ↦ absurd (cc over)
  | inr busy ↦ absurd (omega (arith, busy))
]

-- Both kinds of turn leave less to do.
measure_server :
    (b c d : List Tcp) (x : Tcp) (k : ℕ)
    → measure b (x ∷ c) d ≤ suc k
    → measure (b ++ x ∷ []) c d ≤ k
measure_server b c d x k h = omega (
  arith,
  length-append b (x ∷ (c ++ d)),
  length-append (b ++ x ∷ []) (c ++ d),
  length-append b (x ∷ []),
)

measure_client :
    (b c chunk rest : List Tcp) (x : Tcp) (k : ℕ)
    → measure (x ∷ b) c (chunk ++ rest) ≤ suc k
    → measure b (c ++ chunk) rest ≤ k
measure_client b c chunk rest x k h =
    let same : (c ++ chunk) ++ rest ≡ c ++ (chunk ++ rest) = append_assoc c chunk rest in
    rw same (omega arith)

module _ (file mac : List ℕ) (m k : ℕ)
    (induction : (a b c d : List Tcp) (n : Network)
      → measure b c d ≤ k
      → Exchange file mac m a b c d n
      → Inevitable (Delivered file) (ok n)) where
  after_server :
      (a b c d : List Tcp) (f : Mpdu) (fs : List Mpdu) (n : Network)
      → measure b c d ≤ suc k
      → n.to_server ≡ f ∷ fs
      → Exchange file mac m a b c d n
      → Inevitable (Delivered file) (server_turn f fs n)
  after_server a b [] d f fs n small queue e = absurd (subst (λ q. InOrder q []) queue e.frames)
  after_server a b (x ∷ c) d f fs n small queue e =
      let (n', run, e') = server_turn-Exchange file mac m a b c d x f fs n queue e in
      subst (Inevitable (Delivered file)) (sym run)
        (induction a (b ++ x ∷ []) c d n' (measure_server b c d x k small) e')

  after_client :
      (a b c d : List Tcp) (f : Mpdu) (fs : List Mpdu) (n : Network)
      → measure b c d ≤ suc k
      → n.to_client ≡ f ∷ fs
      → Exchange file mac m a b c d n
      → Inevitable (Delivered file) (client_turn f fs n)
  after_client a [] c d f fs n small queue e = absurd (subst (λ q. Acks q []) queue e.acks)
  after_client a (x ∷ b) c d f fs n small queue e =
      let (n', run, next) = client_turn-Exchange file mac m a b c d x f fs n queue e in
      subst (Inevitable (Delivered file)) (sym run) (elim next [
        | inl done ↦ reached n' done
        | inr (chunk, rest, split, e') ↦
            induction (a ++ x ∷ []) b (c ++ chunk) rest n'
              (measure_client b c chunk rest x k
                (subst (λ q. measure (x ∷ b) c q ≤ suc k) split small))
              e'
      ])

  after_turn :
      (a b c d : List Tcp) (n : Network)
      → measure b c d ≤ suc k
      → Exchange file mac m a b c d n
      → (r : Run Network) → Step n r
      → Inevitable (Delivered file) r
  after_turn a b c d n small e r (server_takes f fs queue w) =
      after_server a b c d f fs n small queue e
  after_turn a b c d n small e r (client_takes f fs queue w) =
      after_client a b c d f fs n small queue e

some_left :
    (file mac : List ℕ) (m : ℕ) (a b c d : List Tcp) (n : Network)
    → Exchange file mac m a b c d n
    → 1 ≤ measure b c d
some_left file mac m a (x ∷ b) c d n e = omega arith
some_left file mac m a [] (x ∷ c) d n e = omega arith
some_left file mac m a [] [] [] n e = absurd e.stream
some_left file mac m a [] [] (x ∷ d) n e = omega arith

pub Exchange-Inevitable :
    (file mac : List ℕ) (m k : ℕ) (a b c d : List Tcp) (n : Network)
    → measure b c d ≤ k
    → Exchange file mac m a b c d n
    → Inevitable (Delivered file) (ok n)
Exchange-Inevitable file mac m zero a b c d n small e =
    absurd (omega (arith, some_left file mac m a b c d n e, small))
Exchange-Inevitable file mac m (suc k) a b c d n small e =
    let (r, s) = some_turn file mac m a b c d n e in
    onward n r s (after_turn file mac m k (Exchange-Inevitable file mac m k) a b c d n small e)
