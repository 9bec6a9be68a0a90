-- ===== src/TcpServer/Receive.antt =====
-- What the TCP server writes, from the segments of a file in any order, with losses and repeats.
use mathlib.Core.List.{append_assoc, append-nil}
use network_simulation.Common.{
  ℕ, ◌+◌, ◌%◌, ◌^◌, ◌≤◌, ◌<◌, ◌≡◌, refl, sym, ap, ◌∙◌, ◌⊎◌, inl, inr, true, false, List, [], ◌∷◌,
  ◌++◌, ok, ◌==◌, Bool-cases, length, length-append, All, has_flag, arith,
}
use network_simulation.L4.{Tcp, tcp_ack, tcp_fin, tcp_syn}
use network_simulation.L3.{Ip}
use network_simulation.Pdu.{Mpdu, open_tcp}
use network_simulation.TcpServer.{
  Phase, Server, step, serve, on_data, dispatch, leave, send_back, waits, start, on_syn,
  on_final_ack,
}

-- A segment of the file: the bytes from sequence number 1 + `before` on, with FIN at the end.
pub record IsPiece (file : List ℕ) (s : Tcp) : Type 0 where
  pub before : List ℕ
  pub after : List ℕ
  pub bytes : before ++ (s.payload ++ after) ≡ file
  pub number : s.sequence_number ≡ 1 + length before
  pub flags : ((s.details ≡ 16) × (1 ≤ length after)) ⊎ ((s.details ≡ 17) × (after ≡ []))

pub record FramePiece (file : List ℕ) (f : Mpdu) : Type 0 where
  pub packet : Ip
  pub segment : Tcp
  pub opens : open_tcp f ≡ ok (packet, segment)
  pub piece : IsPiece file segment

-- In the data phase the server has written a prefix of the file and expects the byte behind it; once
-- done, it has written the file.
pub data Progress (file : List ℕ) (s : Server) : Type 0 where
  going :
      (rest : List ℕ)
      → s.phase ≡ Phase.receiving
      → s.written ++ rest ≡ file
      → (s.last_rx_sn + s.last_payload_size) % 2 ^ 32 ≡ 1 + length s.written
      → has_flag s.tx_segment.details tcp_fin ≡ false
      → Progress file s
  finished : s.phase ≡ Phase.done → s.written ≡ file → Progress file s

-- Prefixes of one list of the same length are one.
append_cancel :
    (xs ys us vs : List ℕ) → length xs ≡ length ys → xs ++ us ≡ ys ++ vs → (xs ≡ ys) × (us ≡ vs)
append_cancel [] [] us vs l e = (refl, e)
append_cancel [] (y ∷ ys) us vs l e = absurd (omega arith)
append_cancel (x ∷ xs) [] us vs l e = absurd (omega arith)
append_cancel (x ∷ xs) (y ∷ ys) us vs l e =
    let (p, q) = append_cancel xs ys us vs (omega arith) (cc) in (cc, q)

on_data_resend :
    (f : Mpdu) (r : Tcp) (s : Server) (file : List ℕ)
    → (r.sequence_number == (s.last_rx_sn + s.last_payload_size) % 2 ^ 32) ≡ false
    → (rest : List ℕ) → s.phase ≡ Phase.receiving
    → s.written ++ rest ≡ file
    → (s.last_rx_sn + s.last_payload_size) % 2 ^ 32 ≡ 1 + length s.written
    → has_flag s.tx_segment.details tcp_fin ≡ false
    → Progress file (on_data f r s)
unfolding on_data leave send_back
on_data_resend f r s file other rest p w n fl = rw (other, fl) (going rest p w n fl)

on_data_accept :
    (f : Mpdu) (r : Tcp) (s : Server) (file : List ℕ)
    → (r.sequence_number == (s.last_rx_sn + s.last_payload_size) % 2 ^ 32) ≡ true
    → length file + 1 < 2 ^ 32
    → IsPiece file r
    → (rest : List ℕ) → s.phase ≡ Phase.receiving
    → s.written ++ rest ≡ file
    → (s.last_rx_sn + s.last_payload_size) % 2 ^ 32 ≡ 1 + length s.written
    → Progress file (on_data f r s)
unfolding on_data leave send_back
on_data_accept f r s file this small q rest p w n =
    let same : length q.before ≡ length s.written = ground (arith, q.number) in
    let (pre, tail) =
      append_cancel q.before s.written (r.payload ++ q.after) rest same (q.bytes ∙ sym w) in
    let whole : (s.written ++ r.payload) ++ q.after ≡ file =
      append_assoc s.written r.payload q.after ∙ ap (◌++◌ s.written) tail ∙ w in
    let size : length (s.written ++ r.payload) ≡ length s.written + length r.payload =
      length-append s.written r.payload in
    let total : length (s.written ++ r.payload) + length q.after ≡ length file =
      sym (length-append (s.written ++ r.payload) q.after) ∙ ap length whole in
    elim q.flags [
      | inl (d, more) ↦ rw (this, d) (going q.after p whole (omega (arith, q.number)) refl)
      | inr (d, at_end) ↦ rw (this, d) (finished refl (sym (append-nil _) ∙ rw at_end at whole))
    ]

step-Progress :
    (f : Mpdu) (s : Server) (file : List ℕ)
    → length file + 1 < 2 ^ 32
    → FramePiece file f
    → Progress file s
    → (s' : Server) × (step f s ≡ ok s') × Progress file s'
unfolding step waits dispatch
step-Progress f s file small q (finished p e) = (s, rw p, finished p e)
step-Progress f s file small q (going rest p w n fl) = (
  on_data f q.segment s,
  simp (p, q.opens),
  elim (Bool-cases (q.segment.sequence_number == (s.last_rx_sn + s.last_payload_size) % 2 ^ 32)) [
    | inl this ↦ on_data_accept f q.segment s file this small q.piece rest p w n
    | inr other ↦ on_data_resend f q.segment s file other rest p w n fl
  ],
)

pub serve-Progress :
    (fs : List Mpdu) (s : Server) (file : List ℕ)
    → length file + 1 < 2 ^ 32
    → All (FramePiece file) fs
    → Progress file s
    → (s' : Server) × (serve fs s ≡ ok s') × Progress file s'
unfolding serve
serve-Progress [] s file small qs g = (s, refl, g)
serve-Progress (f ∷ fs) s file small qs g =
    let (s1, one, g1) = step-Progress f s file small qs.0 g in
    let (s2, more, g2) = serve-Progress fs s1 file small qs.1 g1 in (s2, rw one more, g2)

-- The two frames of the client's side of the handshake.
pub record IsHandshake (syn ack : Mpdu) : Type 0 where
  pub syn_packet : Ip
  pub syn_segment : Tcp
  pub syn_opens : open_tcp syn ≡ ok (syn_packet, syn_segment)
  pub syn_flag : has_flag syn_segment.details tcp_syn ≡ true
  pub ack_packet : Ip
  pub ack_segment : Tcp
  pub ack_opens : open_tcp ack ≡ ok (ack_packet, ack_segment)
  pub ack_flag : has_flag ack_segment.details tcp_ack ≡ true
  pub ack_number : ack_segment.ack_number ≡ 1
  pub ack_sequence : ack_segment.sequence_number ≡ 1

-- The state of a server after the handshake: nothing written, byte 1 expected.
pub record IsReady (s : Server) : Type 0 where
  pub phase : s.phase ≡ Phase.receiving
  pub number : s.last_rx_sn ≡ 1
  pub size : s.last_payload_size ≡ 0
  pub written : s.written ≡ []
  pub no_fin : has_flag s.tx_segment.details tcp_fin ≡ false

pub serve_handshake :
    (syn ack : Mpdu) (ip : ℕ) (mac : List ℕ) (port : ℕ) (seg : Tcp) (pkt : Ip)
    → IsHandshake syn ack
    → (s : Server) × (serve (syn ∷ ack ∷ []) (start ip mac port seg pkt) ≡ ok s) × IsReady s
unfolding serve step dispatch waits start on_syn on_final_ack send_back
serve_handshake syn ack ip mac port seg pkt h = (
  on_final_ack h.ack_segment (on_syn syn h.syn_packet h.syn_segment (start ip mac port seg pkt)),
  simp (h.syn_opens, h.syn_flag, h.ack_opens, h.ack_flag, h.ack_number),
  record {
    phase = simp (h.syn_flag, h.ack_flag, h.ack_number);
    number = simp (h.syn_flag, h.ack_flag, h.ack_number) h.ack_sequence;
    size = simp (h.syn_flag, h.ack_flag, h.ack_number);
    written = simp (h.syn_flag, h.ack_flag, h.ack_number);
    no_fin = simp (h.syn_flag, h.ack_flag, h.ack_number);
  },
)
