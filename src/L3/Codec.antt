-- ===== src/L3/Codec.antt =====
-- Every message survives encoding and decoding.
use network_simulation.Common.{◌^◌, ◌<◌, ◌≡◌, ok, join16-be16, join32-be32}
use network_simulation.L4.{Udp, Tcp, generate_udp, generate_tcp}
use network_simulation.L3.{Icmp, generate_icmp, icmp_bytes, tcp_bytes, udp_bytes}

-- The fields fit their C types.
pub record FitsUdp (s : Udp) : Type 0 where
  pub source_port : s.source_port < 2 ^ 16
  pub destination_port : s.destination_port < 2 ^ 16
  pub udp_length : s.udp_length < 2 ^ 16
  pub checksum : s.checksum < 2 ^ 16

pub record FitsTcp (s : Tcp) : Type 0 where
  pub source_port : s.source_port < 2 ^ 16
  pub destination_port : s.destination_port < 2 ^ 16
  pub sequence_number : s.sequence_number < 2 ^ 32
  pub ack_number : s.ack_number < 2 ^ 32
  pub details : s.details < 2 ^ 16
  pub receive_window : s.receive_window < 2 ^ 16
  pub checksum : s.checksum < 2 ^ 16

pub record FitsIcmp (m : Icmp) : Type 0 where
  pub checksum : m.checksum < 2 ^ 16
  pub identifier : m.identifier < 2 ^ 16
  pub sequence_number : m.sequence_number < 2 ^ 16

pub generate_udp-udp_bytes : (s : Udp) → FitsUdp s → generate_udp (udp_bytes s) ≡ ok s
unfolding generate_udp udp_bytes
generate_udp-udp_bytes s f = rw (
  join16-be16 s.source_port f.source_port,
  join16-be16 s.destination_port f.destination_port,
  join16-be16 s.udp_length f.udp_length,
  join16-be16 s.checksum f.checksum,
)

pub generate_tcp-tcp_bytes : (s : Tcp) → FitsTcp s → generate_tcp (tcp_bytes s) ≡ ok s
unfolding generate_tcp tcp_bytes
generate_tcp-tcp_bytes s f = rw (
  join16-be16 s.source_port f.source_port,
  join16-be16 s.destination_port f.destination_port,
  join32-be32 s.sequence_number f.sequence_number,
  join32-be32 s.ack_number f.ack_number,
  join16-be16 s.details f.details,
  join16-be16 s.receive_window f.receive_window,
  join16-be16 s.checksum f.checksum,
)

pub generate_icmp-icmp_bytes : (m : Icmp) → FitsIcmp m → generate_icmp (icmp_bytes m) ≡ ok m
unfolding generate_icmp icmp_bytes
generate_icmp-icmp_bytes m f = rw (
  join16-be16 m.checksum f.checksum,
  join16-be16 m.identifier f.identifier,
  join16-be16 m.sequence_number f.sequence_number,
)
