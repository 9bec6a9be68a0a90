-- ===== src/Pdu/Sizes.antt =====
-- What a frame with a packet holds, and its size.
use network_simulation.Common.{
  ◌+◌, ◌%◌, ◌^◌, ◌<◌, ◌≡◌, refl, ◌∙◌, ◌∷◌, ◌++◌, be16, be32, length, arith,
}
use network_simulation.L4.{Tcp, Udp}
use network_simulation.L3.{
  Ip, Icmp, encap_tcp, encap_udp, encap_icmp, tcp_bytes, udp_bytes, icmp_bytes,
}
use network_simulation.Pdu.{Mpdu, encap_ip, ip_bytes, get_size}
use network_simulation.Pdu.Frames.{
  IsHeader, IsPacket, encap_tcp-IsPacket, encap_udp-IsPacket, encap_icmp-IsPacket, take-length,
}

pub sdu-encap_ip :
    (p : Ip) (f : Mpdu)
    → IsPacket p
    → (encap_ip p f).sdu
      ≡ p.header_length
        ∷ (be16 p.total_length
            ++ p.protocol ∷ (be32 p.source_ip ++ (be32 p.destination_ip ++ p.sdu)))
unfolding encap_ip ip_bytes
sdu-encap_ip p f w =
    let len : length p.sdu % 2 ^ 16 ≡ length p.sdu = omega (arith, w.fits) in
    rw (len, take-length p.sdu) refl

pub get_size-encap_ip :
    (p : Ip) (f : Mpdu) → IsPacket p → get_size (encap_ip p f) ≡ 24 + length p.sdu
unfolding get_size
get_size-encap_ip p f w = rw (sdu-encap_ip p f w) (omega arith)

pub get_size-tcp :
    (s : Tcp) (p : Ip) (f : Mpdu)
    → IsHeader p
    → 30 + length s.payload < 2 ^ 16
    → get_size (encap_ip (encap_tcp s p) f) ≡ 42 + length s.payload
get_size-tcp s p f h room =
    get_size-encap_ip (encap_tcp s p) f (encap_tcp-IsPacket s p h room)
    ∙ unfold encap_tcp tcp_bytes in omega arith

pub get_size-udp :
    (s : Udp) (p : Ip) (f : Mpdu)
    → IsHeader p
    → 20 + length s.payload < 2 ^ 16
    → get_size (encap_ip (encap_udp s p) f) ≡ 32 + length s.payload
get_size-udp s p f h room =
    get_size-encap_ip (encap_udp s p) f (encap_udp-IsPacket s p h room)
    ∙ unfold encap_udp udp_bytes in omega arith

pub get_size-icmp :
    (m : Icmp) (p : Ip) (f : Mpdu)
    → IsHeader p
    → 20 + length m.payload < 2 ^ 16
    → get_size (encap_ip (encap_icmp m p) f) ≡ 32 + length m.payload
get_size-icmp m p f h room =
    get_size-encap_ip (encap_icmp m p) f (encap_icmp-IsPacket m p h room)
    ∙ unfold encap_icmp icmp_bytes in omega arith
