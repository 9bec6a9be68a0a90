-- ===== src/DhcpClient/Acquire.antt =====
-- The DHCP client against the DHCP server of the gateway.
use network_simulation.Common.{ℕ, ◌^◌, ◌<◌, ◌≡◌, refl, some, List, [], ◌∷◌, ok, arith}
use network_simulation.Addressing.{create_broadcast_ip}
use network_simulation.Addressing.Macs.{IsMac}
use network_simulation.L4.{Udp}
use network_simulation.L3.{Ip, encap_udp, new_ip}
use network_simulation.L3.Codec.{FitsUdp}
use network_simulation.Pdu.{Mpdu}
use network_simulation.Pdu.Frames.{IsHeader}
use network_simulation.UdpTransfer.Sending.{encap_udp-IsHeader}
use network_simulation.WQueue
use network_simulation.Gateway.{Gateway, run}
use network_simulation.Dhcp.{
  Dhcp, DhcpServer, serve, dhcp_bytes, dhcp_discover, dhcp_request, bootp_client_port,
  bootp_server_port,
}
use network_simulation.Dhcp.Messages.{FitsDhcp}
use network_simulation.Dhcp.Leases.{held, IsLeases}
use network_simulation.Dhcp.Serve.{offered, lease, offered-lt}
use network_simulation.DhcpClient.{
  DhcpClient, Wait, broadcast_packet, send_message, start_dhcp, dhcp_step,
}
use network_simulation.DhcpClient.Rounds.{
  carrying, carrying-FitsUdp, query_frame, dhcp_step_offer, dhcp_step_ack, discover_round,
  run-query_frame, request_round,
}

-- A client, a gateway and its DHCP server with a well-formed table, whose frames reach each other:
-- the client sends a discover, which the gateway puts into the queue of the server and the server
-- answers by an offer; the client asks for the address of the offer, the gateway puts that into the
-- queue too, and the server answers by an ACK; the client ends with that address, which the server's
-- table has for it, and has sent nothing else.
pub dhcp_acquires :
    (blank blank_ip : ℕ) (server : DhcpServer) (seg : Udp) (pkt : Ip) (ip : ℕ) (mac : List ℕ)
    → blank < 2 ^ 32
    → blank_ip < 2 ^ 32
    → server.gw_ip < 2 ^ 32
    → IsLeases server.table
    → IsMac mac
    → seg.udp_length < 2 ^ 16
    → seg.checksum < 2 ^ 16
    → (f1 offer f2 ack : Mpdu) × (server' : DhcpServer) × (c' c'' : DhcpClient) × ((start_dhcp
          blank_ip seg pkt ip mac).sent
        ≡ f1 ∷ [])
      × ((g : Gateway) → run f1 g ≡ ok (record g { dhcp_queue = WQueue.add f1 g.dhcp_queue }))
      × (serve blank server f1 ≡ ok (server', offer ∷ []))
      × (dhcp_step offer (start_dhcp blank_ip seg pkt ip mac) ≡ ok c')
      × (c'.sent ≡ f1 ∷ f2 ∷ [])
      × ((g : Gateway) → run f2 g ≡ ok (record g { dhcp_queue = WQueue.add f2 g.dhcp_queue }))
      × (serve blank server' f2 ≡ ok (server', ack ∷ []))
      × (dhcp_step ack c' ≡ ok c'')
      × (c''.wait ≡ Wait.bound)
      × (c''.ip ≡ offered blank server mac)
      × (c''.sent ≡ c'.sent)
      × (held server'.table mac ≡ some (lease blank server mac))
unfolding start_dhcp send_message broadcast_packet query_frame
dhcp_acquires blank blank_ip server seg pkt ip mac b bi g t h len sum =
    let seg' : Udp = record seg {
      source_port = bootp_client_port;
      destination_port = bootp_server_port;
      payload = [];
    } in
    let w : FitsUdp seg' = record {
      source_port = omega arith;
      destination_port = omega arith;
      udp_length = len;
      checksum = sum;
    } in
    let pkt' : Ip = record (new_ip pkt) { source_ip = 0; destination_ip = create_broadcast_ip } in
    let head : IsHeader pkt' =
      unfold new_ip in record { header = refl; source = omega arith; destination = omega arith } in
    let m1 : Dhcp = record { opcode = dhcp_discover; client_ip = 0; your_ip = blank_ip } in
    let f1 = query_frame mac seg' pkt' m1 in
    let m1-fits : FitsDhcp m1 = record { client_ip = omega arith; your_ip = bi } in
    let (server', offer, p', run1, k1, leases, mine) =
      discover_round blank server seg' pkt' m1 mac b g t h w head m1-fits refl in
    let x = offered blank server mac in
    let x-lt : x < 2 ^ 32 = offered-lt blank server mac b t in
    let m2 : Dhcp = record { opcode = dhcp_request; client_ip = x; your_ip = x } in
    let seg1 = carrying seg' m1 in
    let head1 : IsHeader (encap_udp seg1 pkt') =
      encap_udp-IsHeader seg1 pkt' head
        (carrying-FitsUdp seg' m1 w, unfold dhcp_bytes in omega arith) in
    let (ack, p'', run2, k2) =
      request_round blank server' seg1 (encap_udp seg1 pkt') m2 mac (lease blank server mac) leases
        h (carrying-FitsUdp seg' m1 w) head1 (record { client_ip = x-lt; your_ip = x-lt }) refl
        (unfold lease in refl) mine in
    let c = start_dhcp blank_ip seg pkt ip mac in
    let c' = send_message m2 (record c { wait = Wait.for_ack }) in
    (
      f1,
      offer,
      query_frame mac seg1 (encap_udp seg1 pkt') m2,
      ack,
      server',
      c',
      record c' { ip = x; wait = Wait.bound },
      refl,
      λ (g : Gateway). run-query_frame mac seg' pkt' m1 g w head refl refl,
      run1,
      dhcp_step_offer offer server.gw_mac mac p' _ c refl k1 refl,
      refl,
      λ (g : Gateway).
          run-query_frame mac seg1 (encap_udp seg1 pkt') m2 g (carrying-FitsUdp seg' m1 w) head1
            refl refl,
      run2,
      dhcp_step_ack ack server'.gw_mac mac p'' _ c' refl k2 refl,
      refl,
      refl,
      refl,
      mine,
    )
