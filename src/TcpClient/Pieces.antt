-- ===== src/TcpClient/Pieces.antt =====
-- What the TCP client sends, whatever frames it gets.
use mathlib.Core.Path.{subst}
use network_simulation.Common.{
  ℕ, zero, suc, ◌+◌, ◌%◌, ◌^◌, ◌≤◌, ◌<◌, arith, ◌≡◌, ◌≢◌, refl, ◌∙◌, ◌⊎◌, inl, inr, ◌&&◌, List, [],
  ◌∷◌, Run, ok, fault, at, ◌>>=◌, ltb, ◌==◌, Bool-cases, Run-cases, length, All, All-append, drop,
  has_flag,
}
use network_simulation.L4.{Tcp, tcp_ack, tcp_fin}
use network_simulation.L3.{Ip, encap_tcp}
use network_simulation.L3.Codec.{FitsTcp}
use network_simulation.Pdu.Sizes.{get_size-tcp}
use network_simulation.Pdu.{
  Mpdu, get_size, open_tcp, encap_ip, new_mpdu, set_source_mac, set_destination_mac,
}
use network_simulation.Pdu.Frames.{IsHeader, encap_tcp-IsPacket, open_tcp-encap_ip}
use network_simulation.Host.{frame_for}
use network_simulation.TcpServer.Receive.{IsPiece}
use network_simulation.TcpClient.{
  Client, ClientPhase, maximum_segment_bytes, send_segment, load_next, loop_head, catch_up,
  count_ack, on_ack,
}

-- Either a segment of the handshake, without data, or a piece of the file.
abbrev pub IsOurs : List ℕ → Tcp → Type 0
IsOurs file s = (s.payload ≡ []) ⊎ IsPiece file s

-- Such a segment that fits its fields, one packet and one frame.
pub record Sendable (file : List ℕ) (s : Tcp) : Type 0 where
  pub fits : FitsTcp s
  pub room : 30 + length s.payload < 2 ^ 16
  pub small : length s.payload ≤ maximum_segment_bytes
  pub ours : IsOurs file s

-- A frame of at most the MTU that carries such a segment to the MAC.
pub record FrameOurs (file mac : List ℕ) (f : Mpdu) : Type 0 where
  pub packet : Ip
  pub segment : Tcp
  pub opens : open_tcp f ≡ ok (packet, segment)
  pub ours : IsOurs file segment
  pub destination : f.destination_mac ≡ mac
  pub size : get_size f ≤ 1500

pub record IsClient (file mac : List ℕ) (c : Client) : Type 0 where
  pub dest_mac : c.dest_mac ≡ mac
  pub ports : (c.this_port < 2 ^ 16) × (c.dest_port < 2 ^ 16)
  pub header : IsHeader c.tx_packet
  pub current : Sendable file c.tx_segment
  pub segments : All (Sendable file) c.segments_to_send
  pub sent : All (FrameOurs file mac) c.sent

-- What holds of the state, if the code has not faulted.
abbrev pub Holds : (Client → Type 0) → Run Client → Type 0
Holds P (ok c) = P c
Holds P fault = Unit

pub Holds-bind :
    (P Q : Client → Type 0) (r : Run Client) (g : Client → Run Client)
    → Holds P r
    → ((c : Client) → P c → Holds Q (g c))
    → Holds Q (r >>= g)
Holds-bind P Q (ok c) g h step = step c h
Holds-bind P Q fault g h step = tt

open_tcp_addressed :
    (source destination : List ℕ) (f : Mpdu)
    → (open_tcp (set_destination_mac destination (set_source_mac source f)) ≡ open_tcp f)
      × ((set_destination_mac destination (set_source_mac source f)).destination_mac ≡ destination)
unfolding open_tcp set_destination_mac set_source_mac
open_tcp_addressed source destination f = (refl, refl)

pub open_tcp-frame_for :
    (source destination : List ℕ) (s : Tcp) (p : Ip) (file : List ℕ)
    → IsHeader p
    → Sendable file s
    → (open_tcp (frame_for source destination (encap_tcp s p)) ≡ ok (encap_tcp s p, s))
      × ((frame_for source destination (encap_tcp s p)).destination_mac ≡ destination)
unfolding frame_for
open_tcp-frame_for source destination s p file h w =
    let (same, to) =
      open_tcp_addressed source destination (encap_ip (encap_tcp s p) (new_mpdu 0)) in
    (same ∙ open_tcp-encap_ip s p (new_mpdu 0) w.fits h w.room, to)

get_size-frame_for :
    (source destination : List ℕ) (s : Tcp) (p : Ip)
    → IsHeader p
    → 30 + length s.payload < 2 ^ 16
    → get_size (frame_for source destination (encap_tcp s p)) ≡ 42 + length s.payload
get_size-frame_for source destination s p h room =
    unfold frame_for set_source_mac set_destination_mac get_size in
    (unfold get_size in get_size-tcp s p (new_mpdu 0) h room)

pub send_segment-IsClient :
    (file mac : List ℕ) (s : Tcp) (c : Client)
    → Sendable file s
    → IsClient file mac c
    → IsClient file mac (send_segment s c)
unfolding send_segment
send_segment-IsClient file mac s c w g =
    let p = encap_tcp-IsPacket s c.tx_packet g.header w.room in
    let (opens, to) = open_tcp-frame_for c.mac c.dest_mac s c.tx_packet file g.header w in
    record {
      dest_mac = g.dest_mac;
      ports = g.ports;
      header = record { header = p.header; source = p.source; destination = p.destination };
      current = w;
      segments = g.segments;
      sent = All-append (FrameOurs file mac) c.sent _ g.sent (
        record {
          packet = encap_tcp s c.tx_packet;
          segment = s;
          opens = opens;
          ours = w.ours;
          destination = to ∙ g.dest_mac;
          size =
              omega
                (arith, get_size-frame_for c.mac c.dest_mac s c.tx_packet g.header w.room, w.small);
        },
        tt,
      );
    }

pub All-at :
    (file : List ℕ) (xs : List Tcp) (i : ℕ) (x : Tcp)
    → All (Sendable file) xs
    → at xs i ≡ ok x
    → Sendable file x
All-at file [] i x a e = absurd (cc e)
All-at file (y ∷ ys) zero x a e = subst (Sendable file) (cc e) a.0
All-at file (y ∷ ys) (suc i) x a e = All-at file ys i x a.1 e

-- The client behind its handshake.
abbrev pub InLoop : List ℕ → List ℕ → Client → Type 0
InLoop file mac c = IsClient file mac c × (c.phase ≢ ClientPhase.syn_sent)

pub moved :
    (file mac : List ℕ) (c : Client) (next last : ℕ) (phase : ClientPhase)
    → InLoop file mac c
    → phase ≢ ClientPhase.syn_sent
    → InLoop file mac
        (record c { next_segment_index = next; last_unackd_index = last; phase = phase })
moved file mac c next last phase (g, _) ne = (
  record {
    dest_mac = g.dest_mac;
    ports = g.ports;
    header = g.header;
    current = g.current;
    segments = g.segments;
    sent = g.sent;
  },
  ne,
)

pub send_segment-InLoop :
    (file mac : List ℕ) (s : Tcp) (c : Client)
    → Sendable file s
    → InLoop file mac c
    → InLoop file mac (send_segment s c)
send_segment-InLoop file mac s c w (g, ne) =
    (send_segment-IsClient file mac s c w g, unfold send_segment in ne)

pub finished_not_syn_sent : ClientPhase.finished ≢ ClientPhase.syn_sent
finished_not_syn_sent = λ e. cc

load_next-InLoop :
    (file mac : List ℕ) (c : Client) → InLoop file mac c → Holds (InLoop file mac) (load_next c)
unfolding load_next
load_next-InLoop file mac c g =
    elim (Bool-cases (ltb c.next_segment_index (length c.segments_to_send))) [
      | inl more ↦ elim (Run-cases (at c.segments_to_send c.next_segment_index)) [
        | inl (s, e) ↦
            rw (more, e)
              (send_segment-InLoop file mac s
                (record c { next_segment_index = c.next_segment_index + 1 })
                (All-at file c.segments_to_send c.next_segment_index s g.0.segments e)
                (moved file mac c (c.next_segment_index + 1) c.last_unackd_index c.phase g g.1))
        | inr e ↦ rw (more, e) tt
      ]
      | inr all_sent ↦ rw all_sent g
    ]

pub loop_head-InLoop :
    (file mac : List ℕ) (c : Client) → InLoop file mac c → Holds (InLoop file mac) (loop_head c)
unfolding loop_head
loop_head-InLoop file mac c g =
    elim (Bool-cases (ltb c.last_unackd_index (length c.segments_to_send))) [
      | inl more ↦ rw more (load_next-InLoop file mac c g)
      | inr over ↦ rw over (
          moved file mac c c.next_segment_index c.last_unackd_index ClientPhase.finished g
            finished_not_syn_sent)
    ]

count_ack-InLoop :
    (file mac : List ℕ) (r : Tcp) (c : Client)
    → InLoop file mac c
    → Holds (InLoop file mac) (count_ack r c)
unfolding count_ack
count_ack-InLoop file mac r c g = elim (Run-cases (at c.segments_to_send c.last_unackd_index)) [
  | inr e ↦ rw e tt
  | inl (w, e) ↦
      elim (Bool-cases (r.ack_number == (w.sequence_number + length w.payload) % 2 ^ 32)) [
        | inl this ↦
            rw (e, this)
              (moved file mac c c.next_segment_index (c.last_unackd_index + 1) c.phase g g.1)
        | inr other ↦
            elim (Bool-cases (ltb ((w.sequence_number + length w.payload) % 2 ^ 32) r.ack_number)) [
              | inr lower ↦
                  rw (e, other, lower)
                    (moved file mac c c.last_unackd_index c.last_unackd_index c.phase g g.1)
              | inl higher ↦
                  elim (Run-cases (
                    catch_up r.ack_number (drop (c.last_unackd_index + 1) c.segments_to_send)
                      (c.last_unackd_index + 1))) [
                        | inr out ↦ rw (e, other, higher, out) tt
                        | inl (i, found) ↦
                            rw (e, other, higher, found)
                              (moved file mac c c.next_segment_index i c.phase g g.1)
                      ]
            ]
      ]
]

pub on_ack-InLoop :
    (file mac : List ℕ) (r : Tcp) (c : Client)
    → InLoop file mac c
    → Holds (InLoop file mac) (on_ack r c)
unfolding on_ack
on_ack-InLoop file mac r c g =
    Holds-bind (InLoop file mac) (InLoop file mac) (count_ack r c) _
      (count_ack-InLoop file mac r c g)
      (λ d gd. elim (Bool-cases (has_flag r.details tcp_fin && has_flag r.details tcp_ack)) [
        | inl final ↦ rw final (
            moved file mac d d.next_segment_index d.last_unackd_index ClientPhase.finished gd
              finished_not_syn_sent)
        | inr more ↦ rw more (
            Holds-bind (InLoop file mac) (InLoop file mac) (load_next d) loop_head
              (load_next-InLoop file mac d gd) (loop_head-InLoop file mac))
      ])
