-- ===== src/UdpTransfer/Sending.antt =====
-- The frames that `UDP_client` sends carry its datagrams.
use mathlib.Core.List.{append_assoc, append-nil}
use network_simulation.Common.{
  ℕ, ◌+◌, ◌^◌, ◌<◌, ◌≡◌, refl, ◌∙◌, List, [], ◌∷◌, ◌++◌, map, ok, length, All,
}
use network_simulation.L4.{Udp}
use network_simulation.L3.{Ip, encap_udp}
use network_simulation.L3.Codec.{FitsUdp}
use network_simulation.Pdu.{
  Mpdu, get_size, open_udp, encap_ip, new_mpdu, set_source_mac, set_destination_mac,
}
use network_simulation.Pdu.Frames.{IsHeader, encap_udp-IsPacket, open_udp-encap_ip}
use network_simulation.Pdu.Sizes.{get_size-udp}
use network_simulation.Host.{Host, send_mpdu, frame_for}
use network_simulation.UdpTransfer.{send_segments}

-- The frames carry the segments, in the same order.
abbrev pub CarryUdp : List Mpdu → List Udp → Type 0
CarryUdp [] [] = Unit
CarryUdp (f ∷ fs) (s ∷ ss) = ((p : Ip) × (open_udp f ≡ ok (p, s))) × CarryUdp fs ss
CarryUdp _ _ = ⊥

-- A payload that one frame can carry.
abbrev pub Sendable : Udp → Type 0
Sendable s = FitsUdp s × (20 + length s.payload < 2 ^ 16)

pub encap_udp-IsHeader : (s : Udp) (p : Ip) → IsHeader p → Sendable s → IsHeader (encap_udp s p)
encap_udp-IsHeader s p h v =
    let w = encap_udp-IsPacket s p h v.1 in
    record { header = w.header; source = w.source; destination = w.destination }

open_udp_addressed :
    (source destination : List ℕ) (f : Mpdu)
    → open_udp (set_destination_mac destination (set_source_mac source f)) ≡ open_udp f
unfolding open_udp set_destination_mac set_source_mac
open_udp_addressed source destination f = refl

pub open_udp-frame_for :
    (source destination : List ℕ) (s : Udp) (p : Ip)
    → IsHeader p
    → Sendable s
    → open_udp (frame_for source destination (encap_udp s p)) ≡ ok (encap_udp s p, s)
unfolding frame_for
open_udp-frame_for source destination s p w (fits, room) =
    open_udp_addressed source destination (encap_ip (encap_udp s p) (new_mpdu 0))
    ∙ open_udp-encap_ip s p (new_mpdu 0) fits w room

destination-frame_for :
    (source destination : List ℕ) (p : Ip)
    → (frame_for source destination p).destination_mac ≡ destination
unfolding frame_for set_destination_mac
destination-frame_for source destination p = refl

get_size-frame_for :
    (source destination : List ℕ) (s : Udp) (p : Ip)
    → IsHeader p
    → Sendable s
    → get_size (frame_for source destination (encap_udp s p)) ≡ 32 + length s.payload
get_size-frame_for source destination s p w (fits, room) =
    unfold frame_for set_source_mac set_destination_mac get_size in
    (unfold get_size in get_size-udp s p (new_mpdu 0) w room)

pub send_segments_lem :
    (ss : List Udp) (mac : List ℕ) (p : Ip) (h : Host)
    → IsHeader p
    → All Sendable ss
    → (fs : List Mpdu) × (send_segments ss mac p h ≡ record h { sent = h.sent ++ fs })
      × CarryUdp fs ss
      × All (λ f. f.destination_mac ≡ mac) fs
      × (map get_size fs ≡ map (λ s. 32 + length s.payload) ss)
unfolding send_segments send_mpdu
send_segments_lem [] mac p h w all = ([], rw append-nil, tt, tt, refl)
send_segments_lem (s ∷ ss) mac p h w (fits, all) =
    let q = encap_udp s p in
    let f = frame_for h.mac mac q in
    let (fs, run, carry, to, sizes) =
      send_segments_lem ss mac q (record h { sent = h.sent ++ f ∷ [] })
        (encap_udp-IsHeader s p w fits) all in
    (
      f ∷ fs,
      run ∙ rw append_assoc,
      ((q, open_udp-frame_for h.mac mac s p w fits), carry),
      (destination-frame_for h.mac mac q, to),
      cc (sizes, get_size-frame_for h.mac mac s p w fits),
    )
