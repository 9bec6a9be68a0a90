-- ===== src/TcpServer/Answers.antt =====
-- What the TCP server answers, segment by segment.
use network_simulation.Common.{
  ℕ, ◌+◌, ◌%◌, ◌^◌, ◌<◌, ◌≡◌, refl, ap, ◌∙◌, ◌⊎◌, inl, inr, bit_or, List, [], ◌∷◌, ◌++◌, ok,
  if◌then◌else◌, ◌==◌, ==_iff, length, arith,
}
use network_simulation.L4.{Tcp, tcp_ack}
use network_simulation.L3.{Ip, encap_tcp}
use network_simulation.L3.Codec.{FitsTcp}
use network_simulation.Pdu.{Mpdu, open_tcp, encap_ip, new_mpdu, set_source_mac, set_destination_mac}
use network_simulation.Pdu.Frames.{IsHeader, encap_tcp-IsPacket, open_tcp-encap_ip}
use network_simulation.TcpServer.{Phase, Server, step, dispatch, on_data, send_back, leave, waits}

-- A server whose next answer fits its fields and carries no data.
pub record IsServer (s : Server) : Type 0 where
  pub fits : FitsTcp s.tx_segment
  pub empty : s.tx_segment.payload ≡ []
  pub header : IsHeader s.tx_packet

pub open_tcp_answer :
    (source destination : List ℕ) (tx : Tcp) (p : Ip)
    → FitsTcp tx
    → tx.payload ≡ []
    → IsHeader p
    → open_tcp (
        set_source_mac source
          (set_destination_mac destination (encap_ip (encap_tcp tx p) (new_mpdu 0))))
      ≡ ok (encap_tcp tx p, tx)
unfolding set_source_mac set_destination_mac open_tcp
open_tcp_answer source destination tx p fits empty h =
    open_tcp-encap_ip tx p (new_mpdu 0) fits h (omega (arith, ap length empty))

-- The flags of a data segment: ACK, and FIN on the last one.
abbrev pub IsDataFlags : ℕ → Type 0
IsDataFlags d = (d ≡ 16) ⊎ (d ≡ 17)

-- What the server does with the segment that it waits for: it writes the payload and answers once,
-- with the number behind the segment and its flags; FIN ends it.
pub record Accepts (x : Tcp) (s s' : Server) : Type 0 where
  pub frame : Mpdu
  pub packet : Ip
  pub answer : Tcp
  pub sent : s'.sent ≡ s.sent ++ frame ∷ []
  pub opens : open_tcp frame ≡ ok (packet, answer)
  pub number : answer.ack_number ≡ (x.sequence_number + length x.payload) % 2 ^ 32
  pub flags : answer.details ≡ x.details
  pub server : IsServer s'
  pub phase : s'.phase ≡ (if x.details == 17 then Phase.done else Phase.receiving)
  pub written : s'.written ≡ s.written ++ x.payload
  pub last : s'.last_rx_sn ≡ x.sequence_number
  pub size : s'.last_payload_size ≡ length x.payload

-- The state before the flags of the answer are looked at.
noted : Mpdu → Tcp → Server → Server
noted f x s =
    let tx : Tcp = record (s.tx_segment) {
      details = bit_or x.details tcp_ack;
      sequence_number = x.ack_number;
      ack_number = (x.sequence_number + length x.payload) % 2 ^ 32;
    } in
    send_back f (record s {
      last_rx_sn = x.sequence_number;
      last_payload_size = length x.payload;
      written = s.written ++ x.payload;
      tx_segment = tx;
      tx_packet = encap_tcp tx s.tx_packet;
    })

accepted : Mpdu → Tcp → Server → Server
accepted f x s = leave (noted f x s)

on_data-accepted :
    (f : Mpdu) (x : Tcp) (s : Server)
    → x.sequence_number ≡ (s.last_rx_sn + s.last_payload_size) % 2 ^ 32
    → on_data f x s ≡ accepted f x s
unfolding on_data accepted noted
on_data-accepted f x s e = let this = (==_iff _ _).1 e in rw this

left :
    (f : Mpdu) (x : Tcp) (s : Server)
    → IsDataFlags x.details
    → accepted f x s
      ≡ record (noted f x s) { phase = if x.details == 17 then Phase.done else s.phase }
unfolding accepted noted leave send_back
left f x s (inl d) = simp d
left f x s (inr d) = simp d

flags-bit_or : (d : ℕ) → IsDataFlags d → (bit_or d tcp_ack ≡ d) × (d < 2 ^ 16)
flags-bit_or d (inl e) = (rw e refl, omega arith)
flags-bit_or d (inr e) = (rw e refl, omega arith)

accepted-Accepts :
    (f : Mpdu) (x : Tcp) (s : Server)
    → s.phase ≡ Phase.receiving
    → IsDataFlags x.details
    → x.ack_number < 2 ^ 32
    → IsServer s
    → Accepts x s (accepted f x s)
accepted-Accepts f x s ph flags small v =
    let tx : Tcp = record (s.tx_segment) {
      details = bit_or x.details tcp_ack;
      sequence_number = x.ack_number;
      ack_number = (x.sequence_number + length x.payload) % 2 ^ 32;
    } in
    let (same, fits) = flags-bit_or x.details flags in
    let w : FitsTcp tx = record {
      source_port = v.fits.source_port;
      destination_port = v.fits.destination_port;
      sequence_number = small;
      ack_number = omega arith;
      details = rw same fits;
      receive_window = v.fits.receive_window;
      checksum = v.fits.checksum;
    } in
    let p = encap_tcp-IsPacket tx s.tx_packet v.header (omega (arith, ap length v.empty)) in
    rw (left f x s flags) (
      unfold noted send_back in
      record {
        frame =
            set_source_mac s.mac
              (set_destination_mac f.source_mac (encap_ip (encap_tcp tx s.tx_packet) (new_mpdu 0)));
        packet = encap_tcp tx s.tx_packet;
        answer = tx;
        sent = refl;
        opens = open_tcp_answer s.mac f.source_mac tx s.tx_packet w v.empty v.header;
        number = refl;
        flags = same;
        server = record {
          fits = w;
          empty = v.empty;
          header = record { header = p.header; source = p.source; destination = p.destination };
        };
        phase = rw ph refl;
        written = refl;
        last = refl;
        size = refl;
      })

step_data :
    (f : Mpdu) (p : Ip) (x : Tcp) (s : Server)
    → s.phase ≡ Phase.receiving
    → open_tcp f ≡ ok (p, x)
    → step f s ≡ ok (on_data f x s)
unfolding step dispatch waits
step_data f p x s ph o = simp (ph, o)

-- The segment that the server waits for.
pub step-Accepts :
    (f : Mpdu) (p : Ip) (x : Tcp) (s : Server)
    → s.phase ≡ Phase.receiving
    → open_tcp f ≡ ok (p, x)
    → x.sequence_number ≡ (s.last_rx_sn + s.last_payload_size) % 2 ^ 32
    → IsDataFlags x.details
    → x.ack_number < 2 ^ 32
    → IsServer s
    → (s' : Server) × (step f s ≡ ok s') × Accepts x s s'
step-Accepts f p x s ph o e flags small v = (
  accepted f x s,
  step_data f p x s ph o ∙ ap ok (on_data-accepted f x s e),
  accepted-Accepts f x s ph flags small v,
)
