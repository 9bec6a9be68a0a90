-- ===== src/Pdu/Frames.antt =====
-- Packets survive the frame that carries them, and so do the messages in them.
use network_simulation.Common.{
  ℕ, zero, suc, ◌+◌, ◌-◌, ◌%◌, ◌^◌, ◌<◌, ◌≡◌, refl, ap, ◌∙◌, List, [], ◌∷◌, ok, length, ltb, false,
  take, drop, join16-be16, arith,
}
use network_simulation.Addressing.Ips.{create_ip-byte}
use network_simulation.L4.{Udp, Tcp}
use network_simulation.L3.{
  Icmp, Ip, generate_ip, slice, encap_icmp, encap_tcp, encap_udp, icmp_bytes, tcp_bytes, udp_bytes,
}
use network_simulation.L3.Codec.{
  FitsUdp, FitsTcp, FitsIcmp, generate_udp-udp_bytes, generate_tcp-tcp_bytes,
  generate_icmp-icmp_bytes,
}
use network_simulation.Pdu.{Mpdu, ip_bytes, encap_ip, open_tcp, open_udp, open_icmp}

pub take-length {ℓ} : {A : Type ℓ} (xs : List A) → take (length xs) xs ≡ xs
take-length [] = refl
take-length (x ∷ xs) = ap (◌∷◌ x) (take-length xs)

slice-cons : (x : ℕ) (xs : List ℕ) (i n : ℕ) → slice (x ∷ xs) (suc i) n ≡ slice xs i n
slice-cons x xs i zero = refl
slice-cons x xs i (suc n) = rw (slice-cons x xs (suc i) n)

pub slice-drop : (xs : List ℕ) (i n : ℕ) → slice xs i n ≡ slice (drop i xs) 0 n
slice-drop xs zero n = refl
slice-drop [] (suc i) zero = refl
slice-drop [] (suc i) (suc n) = refl
slice-drop (x ∷ xs) (suc i) n = slice-cons x xs i n ∙ slice-drop xs i n

pub slice-length : (xs : List ℕ) → slice xs 0 (length xs) ≡ ok xs
slice-length [] = refl
slice-length (x ∷ xs) = rw (slice-cons x xs 0 (length xs), slice-length xs)

-- A packet as the constructor and the setters leave it, small enough for its length field.
pub record IsPacket (p : Ip) : Type 0 where
  pub header : p.header_length ≡ 12
  pub total : p.total_length ≡ 12 + length p.sdu
  pub fits : 12 + length p.sdu < 2 ^ 16
  pub source : p.source_ip < 2 ^ 32
  pub destination : p.destination_ip < 2 ^ 32

-- A packet that a frame carries is read back as it was.
pub generate_ip-encap_ip : (p : Ip) (f : Mpdu) → IsPacket p → generate_ip (encap_ip p f).sdu ≡ ok p
unfolding generate_ip encap_ip ip_bytes
generate_ip-encap_ip p f w =
    let len : length p.sdu % 2 ^ 16 ≡ length p.sdu = omega (arith, w.fits) in
    let room : p.total_length - p.header_length ≡ length p.sdu = omega (arith, w.total, w.header) in
    let enough : ltb p.total_length p.header_length ≡ false = ground (arith, w.total, w.header) in
    rw
      (
        join16-be16 p.total_length (omega (arith, w.total, w.fits)),
        create_ip-byte p.source_ip w.source,
        create_ip-byte p.destination_ip w.destination,
        len,
        take-length p.sdu,
        enough,
        room,
      )
      (rw (slice-drop _ 12 (length p.sdu)) (rw slice-length))

-- A packet before `encap_SDU`.
pub record IsHeader (p : Ip) : Type 0 where
  pub header : p.header_length ≡ 12
  pub source : p.source_ip < 2 ^ 32
  pub destination : p.destination_ip < 2 ^ 32

pub encap_tcp-IsPacket :
    (s : Tcp) (p : Ip) → IsHeader p → 30 + length s.payload < 2 ^ 16 → IsPacket (encap_tcp s p)
unfolding encap_tcp tcp_bytes
encap_tcp-IsPacket s p h fits = record {
  header = h.header;
  total = omega (arith, h.header);
  fits = omega arith;
  source = h.source;
  destination = h.destination;
}

pub encap_udp-IsPacket :
    (s : Udp) (p : Ip) → IsHeader p → 20 + length s.payload < 2 ^ 16 → IsPacket (encap_udp s p)
unfolding encap_udp udp_bytes
encap_udp-IsPacket s p h fits = record {
  header = h.header;
  total = omega (arith, h.header);
  fits = omega arith;
  source = h.source;
  destination = h.destination;
}

pub encap_icmp-IsPacket :
    (m : Icmp) (p : Ip) → IsHeader p → 20 + length m.payload < 2 ^ 16 → IsPacket (encap_icmp m p)
unfolding encap_icmp icmp_bytes
encap_icmp-IsPacket m p h fits = record {
  header = h.header;
  total = omega (arith, h.header);
  fits = omega arith;
  source = h.source;
  destination = h.destination;
}

sdu-encap_tcp : (s : Tcp) (p : Ip) → (encap_tcp s p).sdu ≡ tcp_bytes s
unfolding encap_tcp
sdu-encap_tcp s p = refl

sdu-encap_udp : (s : Udp) (p : Ip) → (encap_udp s p).sdu ≡ udp_bytes s
unfolding encap_udp
sdu-encap_udp s p = refl

sdu-encap_icmp : (m : Icmp) (p : Ip) → (encap_icmp m p).sdu ≡ icmp_bytes m
unfolding encap_icmp
sdu-encap_icmp m p = refl

-- A TCP segment that fits its fields and one packet comes out of the frame as it was, with the packet
-- that carried it.
pub open_tcp-encap_ip :
    (s : Tcp) (p : Ip) (f : Mpdu)
    → FitsTcp s
    → IsHeader p
    → 30 + length s.payload < 2 ^ 16
    → open_tcp (encap_ip (encap_tcp s p) f) ≡ ok (encap_tcp s p, s)
unfolding open_tcp
open_tcp-encap_ip s p f fits h room = rw (
  generate_ip-encap_ip (encap_tcp s p) f (encap_tcp-IsPacket s p h room),
  sdu-encap_tcp s p,
  generate_tcp-tcp_bytes s fits,
)

-- A UDP segment that fits its fields and one packet comes out of the frame as it was, with the packet
-- that carried it.
pub open_udp-encap_ip :
    (s : Udp) (p : Ip) (f : Mpdu)
    → FitsUdp s
    → IsHeader p
    → 20 + length s.payload < 2 ^ 16
    → open_udp (encap_ip (encap_udp s p) f) ≡ ok (encap_udp s p, s)
unfolding open_udp
open_udp-encap_ip s p f fits h room = rw (
  generate_ip-encap_ip (encap_udp s p) f (encap_udp-IsPacket s p h room),
  sdu-encap_udp s p,
  generate_udp-udp_bytes s fits,
)

-- An ICMP message that fits its fields and one packet comes out of the frame as it was, with the
-- packet that carried it.
pub open_icmp-encap_ip :
    (m : Icmp) (p : Ip) (f : Mpdu)
    → FitsIcmp m
    → IsHeader p
    → 20 + length m.payload < 2 ^ 16
    → open_icmp (encap_ip (encap_icmp m p) f) ≡ ok (encap_icmp m p, m)
unfolding open_icmp
open_icmp-encap_ip m p f fits h room = rw (
  generate_ip-encap_ip (encap_icmp m p) f (encap_icmp-IsPacket m p h room),
  sdu-encap_icmp m p,
  generate_icmp-icmp_bytes m fits,
)
