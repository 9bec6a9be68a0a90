-- ===== src/Pdu.antt =====
-- pdu.h and pdu.cpp: frames (`MPDU`) and sockets. A frame that the code passes by pointer is passed
-- by value; where two holders of one pointer matter, the comments say so.
pub mod Frames
pub mod Arps
pub mod Sizes
use network_simulation.Common.{
  ℕ, ◌+◌, ◌%◌, ◌^◌, Option, List, [], ◌∷◌, ◌++◌, Run, ok, ◌>>=◌, length, take, be16, be32,
}
use network_simulation.L4.{Tcp, Udp, generate_tcp, generate_udp}
use network_simulation.L3.{Arp, Ip, Icmp, slice, generate_ip, generate_icmp}
use network_simulation.WQueue
use network_simulation.WQueue.{WQueue}

abbrev pub mpdu_arp_type : ℕ
mpdu_arp_type = 0x0806

abbrev pub mpdu_ip_type : ℕ
mpdu_ip_type = 0x0800

abbrev pub mpdu_header_size : ℕ
mpdu_header_size = 12

pub record Mpdu : Type 0 where
  pub source_mac : List ℕ
  pub destination_mac : List ℕ
  pub sdu_type : ℕ
  pub sdu : List ℕ

-- `MPDU()`: the vectors are empty, and the type is the indeterminate `blank`.
unfoldable pub new_mpdu : ℕ → Mpdu
new_mpdu blank = record { source_mac = []; destination_mac = []; sdu_type = blank; sdu = [] }

-- `copy`: a new object of the same value.
unfoldable pub copy : Mpdu → Mpdu
copy f = f

unfoldable pub get_size : Mpdu → ℕ
get_size f = mpdu_header_size + length f.sdu

unfoldable pub set_source_mac : List ℕ → Mpdu → Mpdu
set_source_mac mac f = record f { source_mac = mac }

unfoldable pub set_destination_mac : List ℕ → Mpdu → Mpdu
set_destination_mac mac f = record f { destination_mac = mac }

-- The bytes of `encap_SDU(IP)`; `get_SDU_length` is a uint16_t, and bounds the last loop.
unfoldable pub ip_bytes : Ip → List ℕ
ip_bytes p =
    p.header_length
    ∷ (be16 p.total_length
        ++ p.protocol
          ∷ (be32 p.source_ip ++ (be32 p.destination_ip ++ take (length p.sdu % 2 ^ 16) p.sdu)))

unfoldable pub encap_ip : Ip → Mpdu → Mpdu
encap_ip p f = record f { sdu_type = mpdu_ip_type; sdu = ip_bytes p }

-- `encap_SDU(ARP)` reads six bytes of each MAC.
unfoldable pub encap_arp : Arp → Mpdu → Run Mpdu
encap_arp a f = do
  sender ← slice a.sender_mac 0 6
  target ← slice a.target_mac 0 6
  ok (record f {
    sdu_type = mpdu_arp_type;
    sdu = be16 a.opcode ++ (sender ++ (be32 a.sender_ip ++ (target ++ be32 a.target_ip)));
  })

-- The lines with which the receivers in host.cpp and networking_devices.cpp read a frame:
-- `packet = generate_IP(frame->get_SDU()); segment = generate_…(packet.get_SDU());`
unfoldable pub open_tcp : Mpdu → Run (Ip × Tcp)
open_tcp f = do packet ← generate_ip f.sdu; segment ← generate_tcp packet.sdu; ok (packet, segment)

unfoldable pub open_udp : Mpdu → Run (Ip × Udp)
open_udp f = do packet ← generate_ip f.sdu; segment ← generate_udp packet.sdu; ok (packet, segment)

unfoldable pub open_icmp : Mpdu → Run (Ip × Icmp)
open_icmp f = do
  packet ← generate_ip f.sdu
  message ← generate_icmp packet.sdu
  ok (packet, message)

unfoldable pub erase : Mpdu → Mpdu
erase f = record f { source_mac = []; destination_mac = []; sdu = [] }

pub record Socket : Type 0 where
  pub port : ℕ
  pub protocol : ℕ
  pub rx_queue : WQueue Mpdu

unfoldable pub new_socket : ℕ → ℕ → Socket
new_socket port_number protocol_number = record {
  port = port_number;
  protocol = protocol_number;
  rx_queue = WQueue.new_wqueue;
}

unfoldable pub add_frame : Mpdu → Socket → Socket
add_frame frame_to_add s = record s { rx_queue = WQueue.add frame_to_add s.rx_queue }

-- `none` is a socket that waits.
unfoldable pub get_frame : Socket → Run (Option Mpdu × Socket)
get_frame s = do (frame, q) ← WQueue.remove s.rx_queue; ok (frame, record s { rx_queue = q })

unfoldable pub queue_size : Socket → ℕ
queue_size s = WQueue.size s.rx_queue
