-- ===== src/TcpServer/Transfer.antt =====
-- A file from `file_to_TCP_segments` to the server: what is written at any time, and that an
-- undisturbed transfer ends.
use mathlib.Core.List.{append_assoc, append-nil}
use mathlib.Core.Path.{subst}
use network_simulation.Common.{
  ℕ, ◌+◌, ◌%◌, ◌^◌, ◌≤◌, ◌<◌, ◌≡◌, refl, sym, ap, ◌∙◌, ◌⊎◌, inl, inr, List, [], ◌∷◌, ◌++◌, ok,
  ==_iff, length, length-append, All, Run-cases, ◌>>=◌, arith,
}
use network_simulation.L4.{Tcp, file_to_tcp_segments}
use network_simulation.L4.Stream.{IsStream, file_to_tcp_segments-IsStream}
use network_simulation.L3.{Ip}
use network_simulation.Pdu.{Mpdu, open_tcp}
use network_simulation.TcpServer.{
  Phase, Server, start, step, serve, on_data, dispatch, leave, send_back, waits,
}
use network_simulation.TcpServer.Receive.{
  IsPiece, FramePiece, Progress, going, finished, serve-Progress, IsHandshake, serve_handshake,
}

stream_nonempty :
    (m sn : ℕ) (segs : List Tcp) (bytes : List ℕ) → IsStream m sn segs bytes → 1 ≤ length bytes
stream_nonempty m sn [] bytes h = absurd h
stream_nonempty m sn (s ∷ []) bytes (q, d, l, k, b) = rw b at l
stream_nonempty m sn (s ∷ t ∷ segs) bytes (q, d, l, k, rest, b, h) =
    let size : length s.payload + length rest ≡ length bytes =
      sym (length-append s.payload rest) ∙ ap length b in
    omega arith

-- The segments of a stream are pieces of the file.
IsStream-IsPiece :
    (m sn : ℕ) (segs : List Tcp) (rest before file : List ℕ)
    → before ++ rest ≡ file
    → sn ≡ 1 + length before
    → length file + 1 < 2 ^ 32
    → IsStream m sn segs rest
    → All (IsPiece file) segs
IsStream-IsPiece m sn [] rest before file e n small h = absurd h
IsStream-IsPiece m sn (s ∷ []) rest before file e n small (q, d, l, k, b) = (
  record {
    before = before;
    after = [];
    bytes = ap (◌++◌ before) (append-nil s.payload ∙ b) ∙ e;
    number = q ∙ n;
    flags = inr (d, refl);
  },
  tt,
)
IsStream-IsPiece m sn (s ∷ t ∷ segs) rest before file e n small (q, d, l, k, rest', b, h) =
    let whole : (before ++ s.payload) ++ rest' ≡ file =
      append_assoc before s.payload rest' ∙ ap (◌++◌ before) b ∙ e in
    let size : length (before ++ s.payload) ≡ length before + length s.payload =
      length-append before s.payload in
    let total : length (before ++ s.payload) + length rest' ≡ length file =
      sym (length-append (before ++ s.payload) rest') ∙ ap length whole in
    (
      record {
        before = before;
        after = rest';
        bytes = ap (◌++◌ before) b ∙ e;
        number = q ∙ n;
        flags = inl (d, stream_nonempty m _ (t ∷ segs) rest' h);
      },
      IsStream-IsPiece m ((sn + length s.payload) % 2 ^ 32) (t ∷ segs) rest' (before ++ s.payload)
          file whole (omega arith) small h,
    )

-- The frames carry the segments, in the same order.
abbrev pub InOrder : List Mpdu → List Tcp → Type 0
InOrder [] [] = Unit
InOrder (f ∷ fs) (s ∷ ss) = ((p : Ip) × (open_tcp f ≡ ok (p, s))) × InOrder fs ss
InOrder _ _ = ⊥

serve-append : (xs ys : List Mpdu) (s : Server) → serve (xs ++ ys) s ≡ (serve xs s >>= serve ys)
unfolding serve
serve-append [] ys s = refl
serve-append (x ∷ xs) ys s = elim (Run-cases (step x s)) [
  | inl (s1, e) ↦ rw e (serve-append xs ys s1)
  | inr e ↦ rw e
]

written_by :
    {file : List ℕ} {s : Server}
    → Progress file s
    → ((s.phase ≡ Phase.receiving) × (rest : List ℕ) × (s.written ++ rest ≡ file))
      ⊎ ((s.phase ≡ Phase.done) × (s.written ≡ file))
written_by (going rest p w n fl) = inl (p, rest, w)
written_by (finished p e) = inr (p, e)

-- A server that gets the handshake of a client and then any frames that carry segments of the file,
-- in any order, with losses and repeats, does not fault: it still receives and has written a prefix
-- of the file, or it is done and has written the whole file.
pub serve_writes_prefix :
    (syn ack : Mpdu) (fs : List Mpdu) (file : List ℕ)
    → (ip : ℕ) (mac : List ℕ) (port : ℕ) (seg : Tcp) (pkt : Ip) → length file + 1 < 2 ^ 32
    → IsHandshake syn ack
    → All (FramePiece file) fs
    → (s : Server) × (serve (syn ∷ ack ∷ fs) (start ip mac port seg pkt) ≡ ok s)
      × (((s.phase ≡ Phase.receiving) × (rest : List ℕ) × (s.written ++ rest ≡ file))
          ⊎ ((s.phase ≡ Phase.done) × (s.written ≡ file)))
serve_writes_prefix syn ack fs file ip mac port seg pkt small h qs =
    let (s0, run0, r) = serve_handshake syn ack ip mac port seg pkt h in
    let (s1, run1, g) =
      serve-Progress fs s0 file small qs
        (going file r.phase (rw r.written) (rw (r.number, r.size, r.written)) r.no_fin) in
    (s1, serve-append (syn ∷ ack ∷ []) fs (start ip mac port seg pkt) ∙ rw run0 run1, written_by g)

step_receiving :
    (f : Mpdu) (p : Ip) (x : Tcp) (s : Server)
    → s.phase ≡ Phase.receiving
    → open_tcp f ≡ ok (p, x)
    → step f s ≡ ok (on_data f x s)
unfolding step dispatch waits
step_receiving f p x s ph o = simp (ph, o)

on_data_next :
    (f : Mpdu) (x : Tcp) (s : Server)
    → x.sequence_number ≡ (s.last_rx_sn + s.last_payload_size) % 2 ^ 32
    → x.details ≡ 16
    → s.phase ≡ Phase.receiving
    → ((on_data f x s).phase ≡ Phase.receiving)
      × ((on_data f x s).last_rx_sn ≡ x.sequence_number)
      × ((on_data f x s).last_payload_size ≡ length x.payload)
      × ((on_data f x s).written ≡ s.written ++ x.payload)
unfolding on_data leave send_back
on_data_next f x s e d p =
    let this = (==_iff _ _).1 e in
    (simp (this, d) p, simp (this, d), simp (this, d), simp (this, d))

on_data_last :
    (f : Mpdu) (x : Tcp) (s : Server)
    → x.sequence_number ≡ (s.last_rx_sn + s.last_payload_size) % 2 ^ 32
    → x.details ≡ 17
    → ((on_data f x s).phase ≡ Phase.done) × ((on_data f x s).written ≡ s.written ++ x.payload)
unfolding on_data leave send_back
on_data_last f x s e d = let this = (==_iff _ _).1 e in (simp (this, d), simp (this, d))

-- The server in the data phase, fed the segments of a stream in order, accepts each one, writes their
-- bytes and is done.
serve_stream :
    (m sn : ℕ) (segs : List Tcp) (fs : List Mpdu) (rest : List ℕ) (s : Server)
    → s.phase ≡ Phase.receiving
    → (s.last_rx_sn + s.last_payload_size) % 2 ^ 32 ≡ sn
    → IsStream m sn segs rest
    → InOrder fs segs
    → (s' : Server) × (serve fs s ≡ ok s')
      × (s'.phase ≡ Phase.done)
      × (s'.written ≡ s.written ++ rest)
unfolding serve
serve_stream m sn [] fs rest s p n h o = absurd h
serve_stream m sn (x ∷ segs) [] rest s p n h o = absurd o
serve_stream m sn (x ∷ []) (f ∷ []) rest s p n (q, d, l, k, b) ((pkt, opens), o) =
    let (fin, w) = on_data_last f x s (q ∙ sym n) d in
    (on_data f x s, rw (step_receiving f pkt x s p opens), fin, w ∙ ap (◌++◌ s.written) b)
serve_stream m sn (x ∷ []) (f ∷ g ∷ fs) rest s p n h o = absurd o.1
serve_stream m sn (x ∷ y ∷ segs) (f ∷ fs) rest s p n (q, d, l, k, rest', b, h) ((pkt, opens), o) =
    let (p1, q1, k1, w1) = on_data_next f x s (q ∙ sym n) d p in
    let (s', run, fin, w) =
      serve_stream m ((sn + length x.payload) % 2 ^ 32) (y ∷ segs) fs rest' (on_data f x s) p1
        (rw (q1, k1, q)) h o in
    (
      s',
      rw (step_receiving f pkt x s p opens) run,
      fin,
      w ∙ rw w1 (append_assoc s.written x.payload rest' ∙ ap (◌++◌ s.written) b),
    )

-- A file that is not empty, cut into segments of at most `m` bytes whose frames reach the server in
-- order behind a handshake, is written whole, and the server is done.
pub transfer_completes :
    (blank : Tcp) (file : List ℕ) (src_port dest_port m : ℕ)
    → (syn ack : Mpdu) (ip : ℕ) (mac : List ℕ) (port : ℕ) (seg : Tcp) (pkt : Ip) → 1 ≤ length file
    → length file < 2 ^ 31
    → 0 < m
    → IsHandshake syn ack
    → (segs : List Tcp) (fs : List Mpdu)
    → file_to_tcp_segments blank file src_port dest_port m ≡ ok segs
    → InOrder fs segs
    → (s : Server) × (serve (syn ∷ ack ∷ fs) (start ip mac port seg pkt) ≡ ok s)
      × (s.phase ≡ Phase.done)
      × (s.written ≡ file)
transfer_completes blank file sp dp m syn ack ip mac port seg pkt h small pos hs segs fs cut o =
    let (segs', cut', stream) = file_to_tcp_segments-IsStream blank file sp dp m h small pos in
    let same : segs' ≡ segs = cc cut in
    let (s0, run0, r) = serve_handshake syn ack ip mac port seg pkt hs in
    let (s1, run1, fin, w) =
      serve_stream m 1 segs fs file s0 r.phase (rw (r.number, r.size))
        (subst (λ ss. IsStream m 1 ss file) same stream) o in
    (
      s1,
      serve-append (syn ∷ ack ∷ []) fs (start ip mac port seg pkt) ∙ rw run0 run1,
      fin,
      rw r.written at w,
    )

-- Every segment that a file of less than 2 ^ 31 bytes is cut into is a piece of the file.
pub file_to_tcp_segments-IsPiece :
    (blank : Tcp) (file : List ℕ) (src_port dest_port m : ℕ)
    → 1 ≤ length file
    → length file < 2 ^ 31
    → 0 < m
    → (segs : List Tcp) × (file_to_tcp_segments blank file src_port dest_port m ≡ ok segs)
      × All (IsPiece file) segs
file_to_tcp_segments-IsPiece blank file src_port dest_port m h small pos =
    let (segs, cut, stream) =
      file_to_tcp_segments-IsStream blank file src_port dest_port m h small pos in
    (segs, cut, IsStream-IsPiece m 1 segs file [] file refl (omega arith) (omega arith) stream)
