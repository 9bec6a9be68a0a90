-- ===== src/Tests/Data.antt =====
-- Addresses, messages and states that the tests share.
use network_simulation.Common.{ℕ, List, [], ◌∷◌}
use network_simulation.L4.{Udp, Tcp}
use network_simulation.L3.{Icmp, Arp, Ip}
use network_simulation.Pdu.{Mpdu}
use network_simulation.Host.{Host}
use network_simulation.WQueue.{WQueue}
use network_simulation.Dhcp.{DhcpServer}

abbrev pub mac_11 : List ℕ
mac_11 = 17 ∷ 17 ∷ 17 ∷ 17 ∷ 17 ∷ 17 ∷ []

abbrev pub mac_22 : List ℕ
mac_22 = 34 ∷ 34 ∷ 34 ∷ 34 ∷ 34 ∷ 34 ∷ []

abbrev pub blank_udp : Udp
blank_udp = record {
  source_port = 68;
  destination_port = 67;
  udp_length = 0;
  checksum = 0;
  payload = [];
}

abbrev pub blank_tcp : Tcp
blank_tcp = record {
  source_port = 4000;
  destination_port = 80;
  sequence_number = 0;
  ack_number = 0;
  details = 0;
  receive_window = 0;
  checksum = 0;
  payload = [];
}

-- A packet from 10.0.0.1 to 10.0.0.2 with nothing in it.
abbrev pub header_1_to_2 : Ip
header_1_to_2 = record {
  header_length = 12;
  total_length = 12;
  protocol = 0;
  source_ip = 0x0A000001;
  destination_ip = 0x0A000002;
  sdu = [];
}

-- A frame from 11:…:11 to 22:…:22 with nothing in it.
abbrev pub frame_11_to_22 : Mpdu
frame_11_to_22 = record { source_mac = mac_11; destination_mac = mac_22; sdu_type = 0; sdu = [] }

abbrev pub frame_22_to_11 : Mpdu
frame_22_to_11 = record { source_mac = mac_22; destination_mac = mac_11; sdu_type = 0; sdu = [] }

abbrev pub echo_request : Icmp
echo_request = record {
  icmp_type = 8;
  code = 0;
  checksum = 0;
  identifier = 7;
  sequence_number = 1;
  payload = 1 ∷ 2 ∷ [];
}

-- 10.0.0.1 asks for the MAC of 10.0.0.2.
abbrev pub arp_question : Arp
arp_question = record {
  opcode = 1;
  sender_mac = mac_11;
  sender_ip = 0x0A000001;
  target_mac = 0 ∷ 0 ∷ 0 ∷ 0 ∷ 0 ∷ 0 ∷ [];
  target_ip = 0x0A000002;
}

abbrev pub empty_queue : WQueue Mpdu
empty_queue = record { m_queue = []; max_entries = 20; waiting = 0; woken = 0 }

abbrev pub host_1 : Host
host_1 = record {
  ip = 0x0A000001;
  netmask = 0;
  mac = mac_11;
  router_mac = [];
  cache = record { cache = [] };
  open_ports = [];
  rx_frame_count = 0;
  frame_queue = empty_queue;
  sent = [];
}

abbrev pub host_2 : Host
host_2 = record {
  ip = 0x0A000002;
  netmask = 0;
  mac = mac_22;
  router_mac = [];
  cache = record { cache = [] };
  open_ports = [];
  rx_frame_count = 0;
  frame_queue = empty_queue;
  sent = [];
}

-- The first host once it knows the second.
abbrev pub host_1_knows_2 : Host
host_1_knows_2 = record host_1 {
  cache = record { cache = record { ip = 0x0A000002; mac = mac_22 } ∷ [] };
}

abbrev pub empty_server : DhcpServer
empty_server = record { table = []; gw_mac = mac_22; gw_ip = 0x09090909 }
