-- ===== src/TcpSession/Opening.antt =====
-- The handshake of a session, and its whole run.
use mathlib.Core.List.{append_assoc}
use mathlib.Core.Path.{subst}
use network_simulation.Common.{
  ℕ, ◌+◌, ◌^◌, ◌≤◌, ◌<◌, ◌≡◌, ◌≢◌, refl, ap, ◌∙◌, inl, inr, true, List, [], ◌∷◌, ◌++◌, Run, ok,
  length, drop, drop-append, All, arith,
}
use network_simulation.L4.{Tcp}
use network_simulation.L4.Stream.{IsStream}
use network_simulation.L3.{Ip, encap_tcp, new_ip}
use network_simulation.Pdu.{Mpdu, open_tcp}
use network_simulation.Pdu.Frames.{IsHeader}
use network_simulation.Host.{Host, frame_for}
use network_simulation.TcpServer.{Phase, Server, start, waits}
use network_simulation.TcpServer.Greeting.{step-Greets, step-Ready}
use network_simulation.TcpClient.{Client, ClientPhase, send_segment, start_client}
use network_simulation.TcpClient.Pieces.{Sendable, IsClient, open_tcp-frame_for}
use network_simulation.TcpClient.Advances.{client_step_synack}
use network_simulation.TcpClient.Sends.{start_client-Stage}
use network_simulation.TcpSession.{
  Network, server_turn, client_turn, Step, server_takes, client_takes, Inevitable, onward,
  open_session,
}
use network_simulation.TcpSession.Exchange.{waiting, Exchange}
use network_simulation.TcpSession.Turns.{Delivered, nothing_sent}
use network_simulation.TcpSession.Delivery.{measure, Exchange-Inevitable}

-- Where only the server has a frame to take.
only_server :
    (P : Network → Type 0) (f : Mpdu) (fs : List Mpdu) (n n' : Network)
    → n.to_server ≡ f ∷ fs
    → n.to_client ≡ []
    → waits n.server.phase ≡ true
    → server_turn f fs n ≡ ok n'
    → Inevitable P (ok n')
    → Inevitable P (ok n)
only_server P f fs n n' queue none w run i =
    onward n (server_turn f fs n) (server_takes f fs queue w) (taken P f fs n n' queue none run i)
  where
    taken :
        (P : Network → Type 0) (f : Mpdu) (fs : List Mpdu) (n n' : Network)
        → n.to_server ≡ f ∷ fs
        → n.to_client ≡ []
        → server_turn f fs n ≡ ok n'
        → Inevitable P (ok n')
        → (r : Run Network) → Step n r
        → Inevitable P r
    taken P f fs n n' queue none run i r (server_takes g gs e w) =
        let same : g ≡ f = cc (e, queue) in
        let others : gs ≡ fs = cc (e, queue) in rw (same, others, run) i
    taken P f fs n n' queue none run i r (client_takes g gs e w) = absurd (cc (e, none))

only_client :
    (P : Network → Type 0) (f : Mpdu) (n n' : Network)
    → n.to_server ≡ []
    → n.to_client ≡ f ∷ []
    → n.client.phase ≢ ClientPhase.finished
    → client_turn f [] n ≡ ok n'
    → Inevitable P (ok n')
    → Inevitable P (ok n)
only_client P f n n' none queue w run i =
    onward n (client_turn f [] n) (client_takes f [] queue w) (taken P f n n' none queue run i)
  where
    taken :
        (P : Network → Type 0) (f : Mpdu) (n n' : Network)
        → n.to_server ≡ []
        → n.to_client ≡ f ∷ []
        → client_turn f [] n ≡ ok n'
        → Inevitable P (ok n')
        → (r : Run Network) → Step n r
        → Inevitable P r
    taken P f n n' none queue run i r (server_takes g gs e w) = absurd (cc (e, none))
    taken P f n n' none queue run i r (client_takes g gs e w) =
        let same : g ≡ f = cc (e, queue) in
        let others : gs ≡ [] = cc (e, queue) in rw (same, others, run) i

-- A client that has made its first SYN.
pub record IsOpened (file mac : List ℕ) (segs : List Tcp) (c : Client) : Type 0 where
  pub client : IsClient file mac c
  pub phase : c.phase ≡ ClientPhase.syn_sent
  pub empty : c.tx_segment.payload ≡ []
  pub number : c.tx_segment.sequence_number ≡ 0
  pub segments : c.segments_to_send ≡ segs
  pub next : c.next_segment_index ≡ 0
  pub last : c.last_unackd_index ≡ 0
  pub frame : Mpdu
  pub packet : Ip
  pub syn : Tcp
  pub sent : c.sent ≡ frame ∷ []
  pub opens : open_tcp frame ≡ ok (packet, syn)
  pub flags : syn.details ≡ 2
  pub sequence : syn.sequence_number ≡ 0
  pub port : syn.source_port < 2 ^ 16
  pub source : packet.source_ip < 2 ^ 32

pub start_client-IsOpened :
    (file dest_mac : List ℕ) (h : Host) (this_port dest_ip dest_port : ℕ) (blank : Tcp) (pkt : Ip)
    (segs : List Tcp)
    → this_port < 2 ^ 16
    → dest_port < 2 ^ 16
    → h.ip < 2 ^ 32
    → dest_ip < 2 ^ 32
    → blank.receive_window < 2 ^ 16
    → blank.checksum < 2 ^ 16
    → All (Sendable file) segs
    → IsOpened file dest_mac segs
        (start_client h dest_mac this_port dest_ip dest_port blank pkt segs)
start_client-IsOpened file dest_mac h tp dip dp blank pkt segs tpb dpb ip dipb win sum all =
    let g =
      (start_client-Stage file dest_mac h tp dip dp blank pkt segs tpb dpb ip dipb win sum all).0 in
    let syn : Tcp = record blank {
      details = 2;
      sequence_number = 0;
      ack_number = 0;
      source_port = tp;
      destination_port = dp;
      payload = [];
    } in
    let p : Ip = record (new_ip pkt) { source_ip = h.ip; destination_ip = dip } in
    let header : IsHeader p =
      unfold new_ip in record { header = refl; source = ip; destination = dipb } in
    let w : Sendable file syn =
      unfold start_client send_segment in subst (Sendable file) refl g.current in
    record {
      client = g;
      phase = unfold start_client send_segment in refl;
      empty = unfold start_client send_segment in refl;
      number = unfold start_client send_segment in refl;
      segments = unfold start_client send_segment in refl;
      next = unfold start_client send_segment in refl;
      last = unfold start_client send_segment in refl;
      frame = frame_for h.mac dest_mac (encap_tcp syn p);
      packet = encap_tcp syn p;
      syn = syn;
      sent = unfold start_client send_segment in refl;
      opens = (open_tcp-frame_for h.mac dest_mac syn p file header w).0;
      flags = refl;
      sequence = refl;
      port = tpb;
      source = unfold encap_tcp in ip;
    }

syn_sent_not_finished : (p : ClientPhase) → p ≡ ClientPhase.syn_sent → p ≢ ClientPhase.finished
syn_sent_not_finished p e = λ q. cc (e, q)

waits-handshake : (p : Phase) → p ≡ Phase.handshake → waits p ≡ true
unfolding waits
waits-handshake p e = rw e refl

-- From the SYN on.
pub opening-Inevitable :
    (file mac : List ℕ) (m : ℕ) (segs : List Tcp) (c : Client) (ip : ℕ) (server_mac : List ℕ)
    (port : ℕ) (seg : Tcp) (pkt : Ip)
    → IsOpened file mac segs c
    → 1 ≤ length segs
    → IsStream m 1 segs file
    → length file + 1 < 2 ^ 32
    → ip < 2 ^ 32
    → port < 2 ^ 16
    → seg.receive_window < 2 ^ 16
    → seg.checksum < 2 ^ 16
    → Inevitable (Delivered file) (ok (open_session c (start ip server_mac port seg pkt)))
unfolding open_session
opening-Inevitable file mac m segs c ip smac port seg pkt o some_segs stream small ipb portb win
      sum =
    let s0 = start ip smac port seg pkt in
    let (s1, run1, g) =
      step-Greets o.frame o.packet o.syn ip smac port seg pkt o.opens o.flags o.sequence o.port
        o.source ipb portb win sum in
    let (d, c', f, q, a, run2, sent, last, segments, ph, opens, flags, number, sequence, l) =
      client_step_synack file mac segs g.answer g.frame g.packet c o.client o.phase o.empty o.number
        o.segments some_segs o.next o.last g.opens g.number g.flags g.sequence in
    let run3 = step-Ready f q a s1 g.greeted opens flags number in
    let s2 : Server = record s1 { phase = Phase.receiving; last_rx_sn = a.sequence_number } in
    let n0 : Network = open_session c s0 in
    let n1 : Network = record {
      client = c;
      server = s1;
      to_server = [];
      to_client = g.frame ∷ [];
    } in
    let n2 : Network = record {
      client = c';
      server = s1;
      to_server = f ∷ l.frames;
      to_client = [];
    } in
    let n3 : Network = record { client = c'; server = s2; to_server = l.frames; to_client = [] } in
    let new1 : drop (length s0.sent) s1.sent ≡ g.frame ∷ [] = unfold start in g.sent in
    let new2 : drop (length c.sent) c'.sent ≡ f ∷ l.frames =
      rw (l.sent, sent, append_assoc c.sent (f ∷ []) l.frames)
        (drop-append c.sent (f ∷ l.frames)) in
    let e : Exchange file mac m [] [] l.chunk l.rest n3 = record {
      client = l.loop;
      sending = l.phase ∙ ph;
      segments = l.segments ∙ segments ∙ l.split;
      last = l.last ∙ last;
      next = l.next;
      busy = elim l.busy [
        | inl over ↦ absurd (omega (arith, some_segs, ap length over))
        | inr busy ↦ inr busy
      ];
      sn = 1;
      bytes = file;
      small = omega arith;
      stream = subst (λ q. IsStream m 1 q file) l.split stream;
      frames = l.carry;
      acks = tt;
      server = record {
        fits = g.greeted.server.fits;
        empty = g.greeted.server.empty;
        header = g.greeted.server.header;
      };
      awaits =
          waiting 1 file refl (omega (arith, sequence, g.greeted.size)) (omega arith)
            (subst (λ q. IsStream m 1 q file) l.split stream) (ap (◌++ file) g.greeted.written);
    } in
    only_server (Delivered file) o.frame [] n0 n1 o.sent refl (unfold start waits in refl)
      (unfold server_turn in rw (run1, new1) refl)
      (only_client (Delivered file) g.frame n1 n2 refl refl (syn_sent_not_finished c.phase o.phase)
        (unfold client_turn in rw (run2, new2) refl)
        (only_server (Delivered file) f l.frames n2 n3 refl refl
          (waits-handshake s1.phase g.greeted.phase)
          (unfold server_turn in rw (run3, nothing_sent s1.sent) refl)
          (Exchange-Inevitable file mac m (measure [] l.chunk l.rest) [] [] l.chunk l.rest n3
            (omega arith) e)))
