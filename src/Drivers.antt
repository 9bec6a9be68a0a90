-- ===== src/Drivers.antt =====
-- The test drivers of host.cpp: what a host does for `./test arp` and so on. Each starts the threads
-- of the host and gets an address; the functions below are what follows, up to where the driver waits
-- on its socket or joins the threads. `blank`, `blank_segment` and `blank_packet` have the
-- indeterminate values of local variables.
pub mod Acquires
use network_simulation.Common.{
  ℕ, Bool, true, false, Option, none, some, List, [], ◌∷◌, ◌++◌, Run, ok, ◌>>=◌, if◌then◌else◌,
  length, drop,
}
use network_simulation.Addressing.{is_broadcast_ip}
use network_simulation.L4.{Tcp, Udp}
use network_simulation.L3.{Ip, Icmp, ip_protocol_tcp, ip_protocol_udp}
use network_simulation.Pdu.{Mpdu, Socket}
use network_simulation.Host.{Host, arping}
use network_simulation.Host.Ports.{create_socket, delete_socket}
use network_simulation.Dhcp.{bootp_client_port}
use network_simulation.DhcpClient.{DhcpClient, start_dhcp, dhcp_step}
use network_simulation.TcpServer.{Server, start}
use network_simulation.TcpClient.{Opening, tcp_client}
use network_simulation.UdpTransfer.{ClientState, UdpServer, new_udp_server, udp_client}
use network_simulation.Ping.{PingStart, ping}

-- A host in `DHCP_client`, and the port of the socket there.
pub record Acquiring : Type 0 where
  pub host : Host
  pub port : ℕ
  pub client : DhcpClient

-- From `create_socket` to the discover; `none` is a `create_socket` that does not return.
unfoldable pub acquire : ℕ → ℕ → Udp → Ip → Host → Option Acquiring
acquire fuel blank_ip blank_segment blank_packet h =
    elim (create_socket fuel bootp_client_port ip_protocol_udp h) [
      | none ↦ none
      | some (dhcp_socket, h') ↦
          let c = start_dhcp blank_ip blank_segment blank_packet h.ip h.mac in
          some (record {
            host = record h' { sent = h'.sent ++ c.sent };
            port = dhcp_socket.port;
            client = c;
          })
    ]

-- A frame from the socket; what the client sends is behind what the host has sent.
unfoldable pub acquire_step : Mpdu → Acquiring → Run Acquiring
acquire_step rx_frame a = do
  c ← dhcp_step rx_frame a.client
  ok (record a {
    host = record (a.host) { sent = a.host.sent ++ drop (length a.client.sent) c.sent };
    client = c;
  })

-- After the ACK: the address is set, and the socket deleted.
unfoldable pub acquired : Acquiring → Host
acquired a = delete_socket a.port (record (a.host) { ip = a.client.ip })

unfoldable pub arp_test : ℕ → ℕ → Host → Run Host
arp_test dest_ip number_of_arps h =
    if is_broadcast_ip dest_ip then ok h else arping dest_ip number_of_arps h

-- `none` is a driver that pings nobody. The delay before the first ping is left out.
unfoldable pub ping_test : ℕ → Icmp → ℕ → ℕ → ℕ → Host → Run (Option PingStart)
ping_test fuel blank rand destination_ip number_of_pings h =
    if is_broadcast_ip destination_ip
    then ok none
    else (do p ← ping fuel blank rand destination_ip number_of_pings h; ok (some p))

unfoldable pub dhcp_test : Host → Host
dhcp_test h = h

-- A driver that has a socket, as a client or as a server; `searching` is a `create_socket` that does
-- not return.
pub data TcpActivity : Type 0 where
  searching : TcpActivity
  connecting : Socket → Host → Opening → TcpActivity
  serving : Socket → Host → Server → TcpActivity

unfoldable pub tcp_test : ℕ → Tcp → Tcp → Ip → List ℕ → ℕ → ℕ → ℕ → Bool → Host → Run TcpActivity
tcp_test fuel blank blank_segment blank_packet file destination_ip source_port destination_port
      is_client h =
    elim (create_socket fuel source_port ip_protocol_tcp h) [
      | none ↦ ok searching
      | some (tcp_socket, h') ↦
          if is_client
          then (do
            o ←
                tcp_client blank blank_segment blank_packet file source_port destination_ip
                  destination_port h'
            ok (connecting tcp_socket h' o))
          else ok
              (serving tcp_socket h' (start h'.ip h'.mac source_port blank_segment blank_packet))
    ]

pub data UdpActivity : Type 0 where
  searching : UdpActivity
  transmitting : Socket → ClientState → UdpActivity
  receiving : Socket → Host → UdpServer → UdpActivity

unfoldable pub udp_test : ℕ → Udp → List ℕ → ℕ → ℕ → ℕ → Bool → Host → Run UdpActivity
udp_test fuel blank file destination_ip source_port destination_port is_client h =
    elim (create_socket fuel source_port ip_protocol_udp h) [
      | none ↦ ok searching
      | some (udp_socket, h') ↦
          if is_client
          then (do
            s ← udp_client blank file source_port destination_ip destination_port h'
            ok (transmitting udp_socket s))
          else ok (receiving udp_socket h' new_udp_server)
    ]

-- `delete_socket(TCP_socket->get_port())`, and the same for UDP, when the client or server is done.
unfoldable pub end_test : Socket → Host → Host
end_test socket h = delete_socket socket.port h
