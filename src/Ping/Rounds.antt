-- ===== src/Ping/Rounds.antt =====
-- A pinging host and the host that it pings, one echo request after the other.
use network_simulation.Common.{
  ℕ, zero, suc, ◌+◌, ◌^◌, ◌<◌, ◌≡◌, refl, ◌∙◌, some, List, [], ◌∷◌, ◌++◌, ok, length, length-append,
  arith,
}
use network_simulation.Addressing.Macs.{IsMac}
use network_simulation.L3.{
  Icmp, Ip, encap_icmp, icmp_echo_reply, icmp_echo_request, ip_protocol_icmp,
}
use network_simulation.L3.Codec.{FitsIcmp}
use network_simulation.Pdu.{Mpdu, Socket, new_socket, get_frame, add_frame}
use network_simulation.Pdu.Frames.{IsHeader, open_icmp-encap_ip}
use network_simulation.Host.{Host, demuxer, frame_for, packet_to, send_mpdu}
use network_simulation.Host.Ping.{packet_to-IsHeader}
use network_simulation.Ping.{Pinger, fill_ping_payload, send_ping, on_reply, ping_step}
use network_simulation.Ping.Answers.{
  IsPeer, addressed, frame_for-encap, peer_answers, answer_arrives, handed_out,
}

-- The peer takes the newest request from its queue; the host takes the answer, hands it to its one
-- socket, and the loop of `ping` gets it there.
pub record Round (p : Pinger) (b : Host) (p' : Pinger) (b' : Host) : Type 0 where
  pub before : List Mpdu
  pub request : Mpdu
  pub reply : Mpdu
  pub h : Host
  pub s : Socket
  pub s' : Socket
  pub made : p.host.sent ≡ before ++ request ∷ []
  pub taken : demuxer request b ≡ ok b'
  pub answered : b'.sent ≡ b.sent ++ reply ∷ []
  pub arrived : demuxer reply p.host ≡ ok h
  pub queued : h.open_ports ≡ s ∷ []
  pub handed : get_frame s ≡ ok (some reply, s')
  pub stepped : ping_step reply (record p { host = record h { open_ports = s' ∷ [] } }) ≡ ok p'

abbrev pub Rounds : ℕ → Pinger → Host → Pinger → Host → Type 0
Rounds zero p b p' b' = (p ≡ p') × (b ≡ b')
Rounds (suc k) p b p' b' = (p1 : Pinger) × (b1 : Host) × Round p b p1 b1 × Rounds k p1 b1 p' b'

-- A pinging host that waits, and has sent its newest request to the MAC.
pub record IsPinging (mac : List ℕ) (p : Pinger) : Type 0 where
  pub own_mac : IsMac p.host.mac
  pub socket : p.host.open_ports ≡ new_socket 7 ip_protocol_icmp ∷ []
  pub port : p.port ≡ 7
  pub to : p.destination_mac ≡ mac
  pub fits : FitsIcmp p.ping_to_send
  pub kind : p.ping_to_send.icmp_type ≡ icmp_echo_request
  pub room : 20 + length p.ping_to_send.payload < 2 ^ 16
  pub packet : Ip
  pub header : IsHeader packet
  pub current : p.ip_to_send ≡ encap_icmp p.ping_to_send packet
  pub before : List Mpdu
  pub made : p.host.sent ≡ before ++ frame_for p.host.mac p.destination_mac p.ip_to_send ∷ []

-- What `ping` needs before it sends a request.
pub record IsReady (mac : List ℕ) (p : Pinger) : Type 0 where
  pub own_mac : IsMac p.host.mac
  pub socket : p.host.open_ports ≡ new_socket 7 ip_protocol_icmp ∷ []
  pub port : p.port ≡ 7
  pub to : p.destination_mac ≡ mac
  pub fits : FitsIcmp p.ping_to_send
  pub kind : p.ping_to_send.icmp_type ≡ icmp_echo_request
  pub header : IsHeader p.ip_to_send

pub send_ping-IsPinging : (mac : List ℕ) (p : Pinger) → IsReady mac p → IsPinging mac (send_ping p)
unfolding send_ping send_mpdu fill_ping_payload
send_ping-IsPinging mac p r = record {
  own_mac = r.own_mac;
  socket = r.socket;
  port = r.port;
  to = r.to;
  fits = record {
    checksum = r.fits.checksum;
    identifier = r.fits.identifier;
    sequence_number = omega arith;
  };
  kind = r.kind;
  room = omega arith;
  packet = p.ip_to_send;
  header = r.header;
  current = refl;
  before = p.host.sent;
  made = refl;
}

pub encap_icmp-IsHeader : (m : Icmp) (p : Ip) → IsHeader p → IsHeader (encap_icmp m p)
unfolding encap_icmp
encap_icmp-IsHeader m p h = record {
  header = h.header;
  source = h.source;
  destination = h.destination;
}

-- The answer in the loop of `ping`.
ping_step_reply :
    (source destination : List ℕ) (m : Icmp) (q : Ip) (p : Pinger)
    → FitsIcmp m
    → IsHeader q
    → 20 + length m.payload < 2 ^ 16
    → m.icmp_type ≡ icmp_echo_reply
    → ping_step (frame_for source destination (encap_icmp m q)) p ≡ ok (on_reply m p)
unfolding ping_step
ping_step_reply source destination m q p w h room kind =
    rw (frame_for-encap source destination (encap_icmp m q))
      (rw (open_icmp-encap_ip m q (addressed source destination) w h room, kind) refl)

-- The state behind the answer, before the loop looks at it.
unfoldable pub received : Pinger → Pinger
received p = record p {
  host = record (p.host) {
    rx_frame_count = p.host.rx_frame_count + 1;
    open_ports = new_socket 7 ip_protocol_icmp ∷ [];
  };
}

abbrev pub reply_message : Pinger → Icmp
reply_message p = record (p.ping_to_send) { icmp_type = icmp_echo_reply }

pub one-Round :
    (p : Pinger) (b : Host)
    → IsPeer b
    → IsPinging b.mac p
    → (b' : Host) × Round p b (on_reply (reply_message p) (received p)) b'
      × IsPeer b'
      × (b'.mac ≡ b.mac)
      × (length b'.sent ≡ length b.sent + 1)
unfolding received
one-Round p b v g =
    let m = reply_message p in
    let q = packet_to b.ip g.packet.source_ip in
    let fits : FitsIcmp m = record {
      checksum = g.fits.checksum;
      identifier = g.fits.identifier;
      sequence_number = g.fits.sequence_number;
    } in
    let header = packet_to-IsHeader b.ip g.packet.source_ip v.ip g.header.source in
    let reply = frame_for b.mac p.host.mac (encap_icmp m q) in
    (
      record b { rx_frame_count = b.rx_frame_count + 1; sent = b.sent ++ reply ∷ [] },
      record {
        before = g.before;
        request = frame_for p.host.mac b.mac (encap_icmp p.ping_to_send g.packet);
        reply = reply;
        h = record (p.host) {
          rx_frame_count = p.host.rx_frame_count + 1;
          open_ports = add_frame reply (new_socket 7 ip_protocol_icmp) ∷ [];
        };
        s = add_frame reply (new_socket 7 ip_protocol_icmp);
        s' = new_socket 7 ip_protocol_icmp;
        made = g.made ∙ rw (g.to, g.current) refl;
        taken = peer_answers p.ping_to_send g.packet p.host.mac b v g.fits g.header g.room g.kind;
        answered = refl;
        arrived = answer_arrives m q b.mac p.host g.own_mac header g.room g.socket;
        queued = refl;
        handed = handed_out reply;
        stepped = ping_step_reply b.mac p.host.mac m q _ fits header g.room refl;
      },
      record { mac = v.mac; ip = v.ip; free = v.free },
      refl,
      length-append b.sent (reply ∷ []),
    )
