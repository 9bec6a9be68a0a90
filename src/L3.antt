-- ===== src/L3.antt =====
-- l3_protocols.h and l3_protocols.cpp: ICMP and ARP messages, the ARP cache, and IP packets.
pub mod Codec
pub mod Cache
use network_simulation.Common.{
  ℕ, zero, suc, ◌+◌, ◌-◌, ◌%◌, ◌^◌, true, false, List, [], ◌∷◌, ◌++◌, Run, ok, fault, at, ◌>>=◌,
  if◌then◌else◌, ltb, ◌==◌, length, drop, be16, be32, join16, read16, read32,
}
use network_simulation.Addressing.{create_broadcast_mac, create_ip, compare_ips}
use network_simulation.L4.{Udp, Tcp}

abbrev pub icmp_echo_request : ℕ
icmp_echo_request = 0x08

abbrev pub icmp_echo_reply : ℕ
icmp_echo_reply = 0x00

abbrev pub arp_request : ℕ
arp_request = 0x0001

abbrev pub arp_reply : ℕ
arp_reply = 0x0002

abbrev pub ip_protocol_icmp : ℕ
ip_protocol_icmp = 0x01

abbrev pub ip_protocol_tcp : ℕ
ip_protocol_tcp = 0x06

abbrev pub ip_protocol_udp : ℕ
ip_protocol_udp = 0x11

abbrev pub ip_header_size : ℕ
ip_header_size = 12

abbrev pub icmp_header_size : ℕ
icmp_header_size = 8

pub record Icmp : Type 0 where
  pub icmp_type : ℕ
  pub code : ℕ
  pub checksum : ℕ
  pub identifier : ℕ
  pub sequence_number : ℕ
  pub payload : List ℕ

pub record Arp : Type 0 where
  pub opcode : ℕ
  pub sender_mac : List ℕ
  pub sender_ip : ℕ
  pub target_mac : List ℕ
  pub target_ip : ℕ

pub record ArpEntry : Type 0 where
  pub ip : ℕ
  pub mac : List ℕ

pub record ArpCache : Type 0 where
  pub cache : List ArpEntry

find_mac : ℕ → List ArpEntry → List ℕ
find_mac ip [] = create_broadcast_mac
find_mac ip (e ∷ es) = if compare_ips ip e.ip then e.mac else find_mac ip es

unfoldable pub get_mac : ArpCache → ℕ → List ℕ
unfolding find_mac
get_mac c ip = find_mac ip c.cache

unfoldable pub add_entry : ArpCache → ℕ → List ℕ → ArpCache
add_entry c ip mac = record { cache = c.cache ++ record { ip = ip; mac = mac } ∷ [] }

unfoldable pub clear : ArpCache → ArpCache
clear c = record { cache = [] }

-- `for (int i = first; i < first + n; i++) result.push_back(v[i]);`
abbrev pub slice : List ℕ → ℕ → ℕ → Run (List ℕ)
slice v first zero = ok []
slice v first (suc n) = do b ← at v first; rest ← slice v (suc first) n; ok (b ∷ rest)

unfoldable pub generate_arp : List ℕ → Run Arp
generate_arp u = do
  opcode ← read16 u 0
  sender_mac ← slice u 2 6
  sender_ip ← read32 u 8
  target_mac ← slice u 12 6
  target_ip ← read32 u 18
  ok (record {
    opcode = opcode;
    sender_mac = sender_mac;
    sender_ip = sender_ip;
    target_mac = target_mac;
    target_ip = target_ip;
  })

unfoldable pub get_arp_opcode : List ℕ → Run ℕ
get_arp_opcode u = at u 1

unfoldable pub generate_icmp : List ℕ → Run Icmp
generate_icmp u = do
  icmp_type ← at u 0
  code ← at u 1
  checksum ← read16 u 2
  identifier ← read16 u 4
  sequence_number ← read16 u 6
  ok (record {
    icmp_type = icmp_type;
    code = code;
    checksum = checksum;
    identifier = identifier;
    sequence_number = sequence_number;
    payload = drop icmp_header_size u;
  })

unfoldable pub get_ping_type : List ℕ → Run ℕ
get_ping_type u = at u ip_header_size

pub record Ip : Type 0 where
  pub header_length : ℕ
  pub total_length : ℕ
  pub protocol : ℕ
  pub source_ip : ℕ
  pub destination_ip : ℕ
  pub sdu : List ℕ

-- `IP()`. The other fields keep the indeterminate values of `blank`; the vector is empty.
unfoldable pub new_ip : Ip → Ip
new_ip blank = record blank { header_length = 12; sdu = [] }

-- `IP(vector<uint8_t>)` and `generate_IP`. A `total_length` below `header_length` makes `reserve`
-- throw, since the negative difference becomes a huge `size_t`.
unfoldable pub generate_ip : List ℕ → Run Ip
generate_ip u = do
  header_length ← at u 0
  total_length ← read16 u 1
  protocol ← at u 3
  s1 ← at u 4
  s2 ← at u 5
  s3 ← at u 6
  s4 ← at u 7
  d1 ← at u 8
  d2 ← at u 9
  d3 ← at u 10
  d4 ← at u 11
  sdu ← if ltb total_length header_length then fault else slice u 12 (total_length - header_length)
  ok (record {
    header_length = header_length;
    total_length = total_length;
    protocol = protocol;
    source_ip = create_ip s1 s2 s3 s4;
    destination_ip = create_ip d1 d2 d3 d4;
    sdu = sdu;
  })

unfoldable pub get_ip_protocol : List ℕ → Run ℕ
get_ip_protocol u = at u 3

-- The bytes that the three `encap_SDU` push, one header field after the other.
unfoldable pub icmp_bytes : Icmp → List ℕ
icmp_bytes m =
    m.icmp_type
    ∷ m.code
    ∷ (be16 m.checksum ++ (be16 m.identifier ++ (be16 m.sequence_number ++ m.payload)))

unfoldable pub tcp_bytes : Tcp → List ℕ
tcp_bytes s =
    be16 s.source_port
    ++ (be16 s.destination_port
        ++ (be32 s.sequence_number
            ++ (be32 s.ack_number
                ++ (be16 s.details ++ (be16 s.receive_window ++ (be16 s.checksum ++ s.payload))))))

unfoldable pub udp_bytes : Udp → List ℕ
udp_bytes s =
    be16 s.source_port
    ++ (be16 s.destination_port ++ (be16 s.udp_length ++ (be16 s.checksum ++ s.payload)))

-- What they share: protocol, contents, and `total_length = header_length + SDU.size()` as a uint16_t.
encap_bytes : ℕ → List ℕ → Ip → Ip
encap_bytes protocol bytes ip = record ip {
  protocol = protocol;
  sdu = bytes;
  total_length = (ip.header_length + length bytes) % 2 ^ 16;
}

unfoldable pub encap_icmp : Icmp → Ip → Ip
unfolding encap_bytes
encap_icmp m ip = encap_bytes ip_protocol_icmp (icmp_bytes m) ip

unfoldable pub encap_tcp : Tcp → Ip → Ip
unfolding encap_bytes
encap_tcp s ip = encap_bytes ip_protocol_tcp (tcp_bytes s) ip

unfoldable pub encap_udp : Udp → Ip → Ip
unfolding encap_bytes
encap_udp s ip = encap_bytes ip_protocol_udp (udp_bytes s) ip
