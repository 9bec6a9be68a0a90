-- ===== src/DhcpClient.antt =====
-- Host::DHCP_client of host.cpp, as a state machine over the frames that its socket hands out. The
-- host has no open port before, so that `create_socket` returns.
pub mod Rounds
pub mod Acquire
use network_simulation.Common.{
  ℕ, Bool, true, false, List, [], ◌∷◌, ◌++◌, Run, ok, ◌>>=◌, if◌then◌else◌, ◌==◌,
}
use network_simulation.Addressing.{create_broadcast_mac, create_broadcast_ip}
use network_simulation.L4.{Udp}
use network_simulation.L3.{Ip, encap_udp, new_ip}
use network_simulation.Pdu.{Mpdu, open_udp}
use network_simulation.Host.{Host, frame_for}
use network_simulation.Dhcp.{
  Dhcp, dhcp_bytes, generate_dhcp, dhcp_discover, dhcp_offer, dhcp_request, dhcp_ack,
  bootp_client_port, bootp_server_port,
}

-- Where the client waits on its socket: for an offer, for the ACK; or it has ended.
pub data Wait : Type 0 where
  for_offer for_ack bound : Wait

pub record DhcpClient : Type 0 where
  pub ip : ℕ
  pub mac : List ℕ
  pub wait : Wait
  pub tx_segment : Udp
  pub tx_packet : Ip
  pub sent : List Mpdu

-- A new frame around the packet, from the host to the broadcast address.
unfoldable pub broadcast_packet : DhcpClient → DhcpClient
broadcast_packet c = record c {
  sent = c.sent ++ frame_for c.mac create_broadcast_mac c.tx_packet ∷ [];
}

-- A message in the segment, the segment in the packet, and the packet in a frame.
unfoldable pub send_message : Dhcp → DhcpClient → DhcpClient
unfolding broadcast_packet
send_message m c =
    let s : Udp = record (c.tx_segment) { payload = dhcp_bytes m } in
    broadcast_packet (record c { tx_segment = s; tx_packet = encap_udp s c.tx_packet })

-- Up to the discover. Its `your_ip` is the indeterminate `blank_ip`.
unfoldable pub start_dhcp : ℕ → Udp → Ip → ℕ → List ℕ → DhcpClient
unfolding send_message
start_dhcp blank_ip blank_segment blank_packet ip mac =
    send_message (record { opcode = dhcp_discover; client_ip = 0; your_ip = blank_ip })
      (record {
        ip = ip;
        mac = mac;
        wait = Wait.for_offer;
        tx_segment = record blank_segment {
          source_port = bootp_client_port;
          destination_port = bootp_server_port;
          payload = [];
        };
        tx_packet = record (new_ip blank_packet) {
          source_ip = 0;
          destination_ip = create_broadcast_ip;
        };
        sent = [];
      })

-- A frame while the client waits for an offer. An offer is answered by a request for its address; a
-- segment from another port makes it send the discover again.
unfoldable pub on_offer : Udp → DhcpClient → Run DhcpClient
on_offer rx_segment c =
    if rx_segment.source_port == bootp_server_port
    then (do
      rx_message ← generate_dhcp rx_segment.payload
      if rx_message.opcode == dhcp_offer
          then ok (
              send_message
                (record {
                  opcode = dhcp_request;
                  client_ip = rx_message.your_ip;
                  your_ip = rx_message.your_ip;
                })
                (record c { wait = Wait.for_ack }))
          else ok c)
    else ok (broadcast_packet c)

-- A frame while it waits for the ACK. The frame that is made for a segment from another port is not
-- sent.
unfoldable pub on_dhcp_ack : Udp → DhcpClient → Run DhcpClient
on_dhcp_ack rx_segment c =
    if rx_segment.source_port == bootp_server_port
    then (do
      rx_message ← generate_dhcp rx_segment.payload
      if rx_message.opcode == dhcp_ack
          then ok (record c { ip = rx_message.your_ip; wait = Wait.bound })
          else ok c)
    else ok c

unfoldable pub on_wait : Wait → Udp → DhcpClient → Run DhcpClient
on_wait Wait.for_offer rx_segment c = on_offer rx_segment c
on_wait Wait.for_ack rx_segment c = on_dhcp_ack rx_segment c
on_wait Wait.bound rx_segment c = ok c

unfoldable pub dhcp_step : Mpdu → DhcpClient → Run DhcpClient
unfolding on_wait
dhcp_step rx_frame c = do (rx_packet, rx_segment) ← open_udp rx_frame; on_wait c.wait rx_segment c
