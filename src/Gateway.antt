-- ===== src/Gateway.antt =====
-- The Gateway of networking_devices.h and networking_devices.cpp: `receiver` moves frames from the
-- link to `process_queue`, and `run` hands those of DHCP clients to the DHCP server.
pub mod Arp
use network_simulation.Common.{
  ℕ, Bool, true, false, ◌&&◌, List, Run, ok, ◌>>=◌, if◌then◌else◌, ◌==◌,
}
use network_simulation.Pdu.{Mpdu, open_udp}
use network_simulation.Dhcp.{bootp_client_port, bootp_server_port}
use network_simulation.WQueue
use network_simulation.WQueue.{WQueue}

pub record Gateway : Type 0 where
  pub process_queue : WQueue Mpdu
  pub dhcp_queue : WQueue Mpdu
  pub mac : List ℕ
  pub ip : ℕ

unfoldable pub new_gateway : List ℕ → ℕ → Gateway
new_gateway gw_mac gw_ip = record {
  process_queue = WQueue.new_wqueue;
  dhcp_queue = WQueue.new_wqueue;
  mac = gw_mac;
  ip = gw_ip;
}

-- One round of `receiver`.
unfoldable pub receiver : Mpdu → Gateway → Gateway
receiver frame g = record g { process_queue = WQueue.add frame g.process_queue }

-- One round of `run`, for the frame that `remove` returned. The type of the frame is not looked at.
unfoldable pub run : Mpdu → Gateway → Run Gateway
run rx_frame g = do
  (packet, segment) ← open_udp rx_frame
  ok (
      if segment.source_port == bootp_client_port && segment.destination_port == bootp_server_port
      then record g { dhcp_queue = WQueue.add rx_frame g.dhcp_queue }
      else g)
