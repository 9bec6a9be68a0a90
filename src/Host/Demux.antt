-- ===== src/Host/Demux.antt =====
-- Which socket a UDP frame goes to.
use network_simulation.Common.{
  ℕ, ◌+◌, ◌^◌, ◌<◌, ◌≡◌, refl, ap, ◌∙◌, ◌⊎◌, inl, inr, true, false, Bool-cases, List, [], ◌∷◌, ◌++◌,
  ok, length, All,
}
use network_simulation.L4.{Udp}
use network_simulation.L3.{Ip, encap_udp, ip_protocol_udp, udp_bytes}
use network_simulation.L3.Codec.{FitsUdp, generate_udp-udp_bytes}
use network_simulation.Pdu.{Mpdu, Socket, encap_ip, add_frame}
use network_simulation.Pdu.Frames.{IsHeader, encap_udp-IsPacket, generate_ip-encap_ip}
use network_simulation.Host.Ping.{process_frame_ip}
use network_simulation.Host.{Host, process_frame, process_ip, is_for, add_udp}

-- The sockets with the frame behind the queue of the first that the port belongs to, or as they were.
abbrev pub Delivered : Mpdu → ℕ → List Socket → List Socket → Type 0
Delivered f port ss ss' =
    (All (λ t. is_for ip_protocol_udp port t ≡ false) ss × (ss' ≡ ss))
    ⊎ ((before : List Socket) × (t : Socket) × (after : List Socket) × (ss ≡ before ++ t ∷ after)
        × All (λ u. is_for ip_protocol_udp port u ≡ false) before
        × (is_for ip_protocol_udp port t ≡ true)
        × (ss' ≡ before ++ add_frame f t ∷ after))

add_udp-Delivered :
    (f : Mpdu) (port : ℕ) (ss : List Socket) → Delivered f port ss (add_udp f port ss)
unfolding add_udp
add_udp-Delivered f port [] = inl (tt, refl)
add_udp-Delivered f port (s ∷ ss) = elim (Bool-cases (is_for ip_protocol_udp port s)) [
  | inl mine ↦ inr ([], s, ss, refl, tt, mine, rw mine)
  | inr other ↦ elim (add_udp-Delivered f port ss) [
    | inl (none_for, same) ↦ inl ((other, none_for), rw (other, same))
    | inr (before, t, after, e, others, this, e') ↦
        inr (s ∷ before, t, after, ap (◌∷◌ s) e, (other, others), this, rw other (ap (◌∷◌ s) e'))
  ]
]

sdu-encap_udp :
    (s : Udp) (p : Ip)
    → ((encap_udp s p).sdu ≡ udp_bytes s) × ((encap_udp s p).protocol ≡ ip_protocol_udp)
unfolding encap_udp
sdu-encap_udp s p = (refl, refl)

process_ip_udp :
    (s : Udp) (p : Ip) (f : Mpdu) (h : Host)
    → FitsUdp s
    → IsHeader p
    → 20 + length s.payload < 2 ^ 16
    → process_ip (encap_ip (encap_udp s p) f) h
      ≡ ok (record h {
        open_ports = add_udp (encap_ip (encap_udp s p) f) s.destination_port h.open_ports;
      })
unfolding process_ip
process_ip_udp s p f h w v room = rw (
  generate_ip-encap_ip (encap_udp s p) f (encap_udp-IsPacket s p v room),
  (sdu-encap_udp s p).0,
  (sdu-encap_udp s p).1,
  generate_udp-udp_bytes s w,
)

-- A frame with a UDP segment goes to the queue of the first UDP socket of the segment's port, and to
-- no other socket; without such a socket the frame is dropped. In both cases the host sends nothing.
pub udp_goes_to_first_socket :
    (s : Udp) (p : Ip) (f : Mpdu) (h : Host)
    → FitsUdp s
    → IsHeader p
    → 20 + length s.payload < 2 ^ 16
    → (ports : List Socket) × (process_frame (encap_ip (encap_udp s p) f) h
        ≡ ok (record h { rx_frame_count = h.rx_frame_count + 1; open_ports = ports }))
      × Delivered (encap_ip (encap_udp s p) f) s.destination_port h.open_ports ports
udp_goes_to_first_socket s p f h w v room = (
  add_udp (encap_ip (encap_udp s p) f) s.destination_port h.open_ports,
  process_frame_ip f (encap_udp s p) h
      ∙ process_ip_udp s p f (record h { rx_frame_count = h.rx_frame_count + 1 }) w v room,
  add_udp-Delivered (encap_ip (encap_udp s p) f) s.destination_port h.open_ports,
)
