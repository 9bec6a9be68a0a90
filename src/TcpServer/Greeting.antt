-- ===== src/TcpServer/Greeting.antt =====
-- The handshake of the TCP server.
use network_simulation.Common.{ℕ, ◌+◌, ◌%◌, ◌^◌, ◌<◌, ◌≡◌, refl, List, [], ◌∷◌, ok, arith}
use network_simulation.L4.{Tcp}
use network_simulation.L3.{Ip, encap_tcp, new_ip}
use network_simulation.L3.Codec.{FitsTcp}
use network_simulation.Pdu.{Mpdu, open_tcp, encap_ip, new_mpdu, set_source_mac, set_destination_mac}
use network_simulation.Pdu.Frames.{IsHeader, encap_tcp-IsPacket}
use network_simulation.TcpServer.{
  Phase, Server, start, step, dispatch, on_syn, on_final_ack, send_back, waits,
}
use network_simulation.TcpServer.Answers.{IsServer, open_tcp_answer}

-- A server in its handshake: it has answered the SYN, and written nothing.
pub record IsGreeted (s : Server) : Type 0 where
  pub server : IsServer s
  pub phase : s.phase ≡ Phase.handshake
  pub number : s.tx_segment.sequence_number ≡ 0
  pub size : s.last_payload_size ≡ 0
  pub written : s.written ≡ []

-- The SYNACK for a SYN.
pub record Greets (s : Server) : Type 0 where
  pub frame : Mpdu
  pub packet : Ip
  pub answer : Tcp
  pub sent : s.sent ≡ frame ∷ []
  pub opens : open_tcp frame ≡ ok (packet, answer)
  pub number : answer.ack_number ≡ 1
  pub flags : answer.details ≡ 18
  pub sequence : answer.sequence_number ≡ 0
  pub greeted : IsGreeted s

answered :
    (tx : Tcp) (p : Ip) (source destination : ℕ)
    → record (encap_tcp tx p) { source_ip = source; destination_ip = destination }
      ≡ encap_tcp tx (record p { source_ip = source; destination_ip = destination })
unfolding encap_tcp
answered tx p source destination = refl

pub step-Greets :
    (f : Mpdu) (p : Ip) (x : Tcp) (ip : ℕ) (mac : List ℕ) (port : ℕ) (seg : Tcp) (pkt : Ip)
    → open_tcp f ≡ ok (p, x)
    → x.details ≡ 2
    → x.sequence_number ≡ 0
    → x.source_port < 2 ^ 16
    → p.source_ip < 2 ^ 32
    → ip < 2 ^ 32
    → port < 2 ^ 16
    → seg.receive_window < 2 ^ 16
    → seg.checksum < 2 ^ 16
    → (s : Server) × (step f (start ip mac port seg pkt) ≡ ok s) × Greets s
unfolding step start dispatch waits on_syn send_back
step-Greets f p x ip mac port seg pkt o syn zero-sn sp src ipb pb win sum =
    let tx : Tcp = record seg {
      details = 18;
      sequence_number = 0;
      ack_number = (x.sequence_number + 1) % 2 ^ 32;
      destination_port = x.source_port;
      source_port = port;
      payload = [];
    } in
    let pkt' : Ip = record (new_ip pkt) { source_ip = ip; destination_ip = p.source_ip } in
    let w : FitsTcp tx = record {
      source_port = pb;
      destination_port = sp;
      sequence_number = omega arith;
      ack_number = omega arith;
      details = omega arith;
      receive_window = win;
      checksum = sum;
    } in
    let h : IsHeader pkt' =
      unfold new_ip in record { header = refl; source = ipb; destination = src } in
    let q = encap_tcp-IsPacket tx pkt' h (omega arith) in
    let same = answered tx (new_ip pkt) ip p.source_ip in
    let s = start ip mac port seg pkt in
    (
      send_back f (record s {
        phase = Phase.handshake;
        tx_segment = tx;
        tx_packet = record (encap_tcp tx (new_ip pkt)) {
          source_ip = ip;
          destination_ip = p.source_ip;
        };
      }),
      simp (o, syn),
      record {
        frame = set_source_mac mac (
            set_destination_mac f.source_mac (
              encap_ip
                (record (encap_tcp tx (new_ip pkt)) {
                  source_ip = ip;
                  destination_ip = p.source_ip;
                })
                (new_mpdu 0)));
        packet = encap_tcp tx pkt';
        answer = tx;
        sent = refl;
        opens = rw same (open_tcp_answer mac f.source_mac tx pkt' w refl h);
        number = omega (arith, zero-sn);
        flags = refl;
        sequence = refl;
        greeted = record {
          server = record {
            fits = w;
            empty = refl;
            header =
                rw same
                  (record { header = q.header; source = q.source; destination = q.destination });
          };
          phase = refl;
          number = refl;
          size = refl;
          written = refl;
        };
      },
    )

pub step-Ready :
    (f : Mpdu) (p : Ip) (x : Tcp) (s : Server)
    → IsGreeted s
    → open_tcp f ≡ ok (p, x)
    → x.details ≡ 16
    → x.ack_number ≡ 1
    → step f s ≡ ok (record s { phase = Phase.receiving; last_rx_sn = x.sequence_number })
unfolding step dispatch waits on_final_ack
step-Ready f p x s g o flags ack = simp (g.phase, o, flags, ack, g.number)
