-- ===== src/TcpSession/Exchange.antt =====
-- The data phase of a session: what is acknowledged, answered, on its way and unsent at any moment.
use mathlib.Core.List.{append_assoc}
use network_simulation.Common.{
  ℕ, ◌+◌, ◌%◌, ◌^◌, ◌≤◌, ◌<◌, ◌≡◌, refl, sym, ap, ◌∙◌, ◌⊎◌, inl, inr, List, [], ◌∷◌, ◌++◌, ok,
  length, length-append, arith,
}
use network_simulation.L4.{Tcp}
use network_simulation.L4.Stream.{IsStream}
use network_simulation.L3.{Ip}
use network_simulation.Pdu.{Mpdu, open_tcp}
use network_simulation.TcpServer.{Phase, Server, step}
use network_simulation.TcpServer.Answers.{IsServer, Accepts, step-Accepts}
use network_simulation.TcpServer.Transfer.{InOrder}
use network_simulation.TcpClient.{ClientPhase}
use network_simulation.TcpClient.Rising.{end_of}
use network_simulation.TcpClient.Pieces.{InLoop}
use network_simulation.TcpSession.{Network}

-- The frames answer the segments, in the same order.
abbrev pub Acks : List Mpdu → List Tcp → Type 0
Acks [] [] = Unit
Acks (g ∷ gs) (x ∷ xs) =
    ((q : Ip) × (a : Tcp) × (open_tcp g ≡ ok (q, a))
      × (a.ack_number ≡ end_of x)
      × (a.details ≡ x.details))
    × Acks gs xs
Acks _ _ = ⊥

pub Acks-append :
    (fs gs : List Mpdu) (xs ys : List Tcp) → Acks fs xs → Acks gs ys → Acks (fs ++ gs) (xs ++ ys)
Acks-append [] gs [] ys a b = b
Acks-append [] gs (x ∷ xs) ys a b = absurd a
Acks-append (f ∷ fs) gs [] ys a b = absurd a
Acks-append (f ∷ fs) gs (x ∷ xs) ys (p, a) b = (p, Acks-append fs gs xs ys a b)

-- The first segment of a stream, and what follows it.
pub data Head (m sn : ℕ) (x : Tcp) (segs : List Tcp) (bytes : List ℕ) : Type 0 where
  final : segs ≡ [] → x.details ≡ 17 → x.payload ≡ bytes → Head m sn x segs bytes
  more :
      (rest : List ℕ)
      → 1 ≤ length segs
      → x.details ≡ 16
      → x.payload ++ rest ≡ bytes
      → end_of x + length rest < 2 ^ 32
      → IsStream m (end_of x) segs rest
      → Head m sn x segs bytes

pub IsStream-Head :
    (m sn : ℕ) (x : Tcp) (segs : List Tcp) (bytes : List ℕ)
    → sn + length bytes < 2 ^ 32
    → IsStream m sn (x ∷ segs) bytes
    → (x.sequence_number ≡ sn) × (end_of x < 2 ^ 32) × Head m sn x segs bytes
IsStream-Head m sn x [] bytes small (q, d, l, k, b) =
    let size : length x.payload ≡ length bytes = ap length b in (q, omega arith, final refl d b)
IsStream-Head m sn x (y ∷ segs) bytes small (q, d, l, k, rest, b, h) =
    let size : length x.payload + length rest ≡ length bytes =
      sym (length-append x.payload rest) ∙ ap length b in
    let next : (sn + length x.payload) % 2 ^ 32 ≡ end_of x = omega arith in
    (q, omega arith, more rest (omega arith) d b (omega arith) (rw next at h))

-- The server waits for the first of the segments, and has written what is before it; or it has all.
pub data Awaits (file : List ℕ) (m : ℕ) (s : Server) (segs : List Tcp) : Type 0 where
  waiting :
      (sn : ℕ) (rest : List ℕ)
      → s.phase ≡ Phase.receiving
      → (s.last_rx_sn + s.last_payload_size) % 2 ^ 32 ≡ sn
      → sn + length rest < 2 ^ 32
      → IsStream m sn segs rest
      → s.written ++ rest ≡ file
      → Awaits file m s segs
  complete : segs ≡ [] → s.phase ≡ Phase.done → s.written ≡ file → Awaits file m s segs

-- The client has the ACKs for `acked`, the server has answered `answered`, the frames of `in_flight`
-- are on their way to it, and `unsent` is left.
pub record Exchange (file mac : List ℕ) (m : ℕ) (acked answered in_flight unsent : List Tcp)
    (n : Network) : Type 0 where
  pub client : InLoop file mac n.client
  pub sending : n.client.phase ≡ ClientPhase.sending
  pub segments : n.client.segments_to_send ≡ acked ++ (answered ++ (in_flight ++ unsent))
  pub last : n.client.last_unackd_index ≡ length acked
  pub next : n.client.next_segment_index ≡ length (acked ++ (answered ++ in_flight))
  pub busy : (unsent ≡ []) ⊎ (1 ≤ length (answered ++ in_flight))
  pub sn : ℕ
  pub bytes : List ℕ
  pub small : sn + length bytes < 2 ^ 32
  pub stream : IsStream m sn (answered ++ (in_flight ++ unsent)) bytes
  pub frames : InOrder n.to_server in_flight
  pub acks : Acks n.to_client answered
  pub server : IsServer n.server
  pub awaits : Awaits file m n.server (in_flight ++ unsent)

-- The server takes a segment that it waits for.
pub Awaits-next :
    (file : List ℕ) (m : ℕ) (x : Tcp) (segs : List Tcp) (f : Mpdu) (p : Ip) (s : Server)
    → IsServer s
    → x.ack_number < 2 ^ 32
    → open_tcp f ≡ ok (p, x)
    → Awaits file m s (x ∷ segs)
    → (s' : Server) × (step f s ≡ ok s')
      × Accepts x s s'
      × (end_of x < 2 ^ 32)
      × Awaits file m s' segs
Awaits-next file m x segs f p s v small o (complete e _ _) = absurd (omega (arith, ap length e))
Awaits-next file m x segs f p s v small o (waiting sn rest ph at_sn room stream w) =
    let (q, fits, head) = IsStream-Head m sn x segs rest room stream in
    elim head [
      | final e d b ↦
          let (s', run, a) = step-Accepts f p x s ph o (q ∙ sym at_sn) (inr d) small v in
          (s', run, a, fits, complete e (rw d at a.phase) (a.written ∙ ap (◌++◌ s.written) b ∙ w))
      | more rest' l d b room' stream' ↦
          let (s', run, a) = step-Accepts f p x s ph o (q ∙ sym at_sn) (inl d) small v in
          let next : (s'.last_rx_sn + s'.last_payload_size) % 2 ^ 32 ≡ end_of x =
            omega (arith, a.last, a.size) in
          let whole : s'.written ++ rest' ≡ file =
            rw a.written (append_assoc s.written x.payload rest' ∙ ap (◌++◌ s.written) b ∙ w) in
          (s', run, a, fits, waiting (end_of x) rest' (rw d at a.phase) next room' stream' whole)
    ]
