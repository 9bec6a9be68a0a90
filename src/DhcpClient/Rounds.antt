-- ===== src/DhcpClient/Rounds.antt =====
-- One exchange of the DHCP client with the server.
use network_simulation.Common.{
  ℕ, ◌^◌, ◌<◌, ◌≡◌, refl, ◌∙◌, true, some, List, [], ◌∷◌, ◌++◌, ok, ◌==◌, ==_iff, arith,
}
use network_simulation.Addressing.{create_broadcast_mac}
use network_simulation.Addressing.Macs.{IsMac, mac_eq, mac_eq_iff}
use network_simulation.L4.{Udp}
use network_simulation.L3.{Ip, encap_udp}
use network_simulation.L3.Codec.{FitsUdp}
use network_simulation.Pdu.{Mpdu, open_udp, set_source_mac, set_destination_mac}
use network_simulation.Pdu.Frames.{IsHeader}
use network_simulation.Host.{frame_for}
use network_simulation.UdpTransfer.Sending.{Sendable, open_udp-frame_for, encap_udp-IsHeader}
use network_simulation.WQueue
use network_simulation.Gateway.{Gateway, run}
use network_simulation.Dhcp.{
  bootp_client_port, bootp_server_port, Dhcp, DhcpEntry, DhcpServer, serve, dhcp_bytes,
  dhcp_discover, dhcp_offer, dhcp_request, dhcp_ack,
}
use network_simulation.Dhcp.Messages.{FitsDhcp, IsQuery, Carries, generate_dhcp-dhcp_bytes}
use network_simulation.Dhcp.Leases.{held, IsLeases}
use network_simulation.Dhcp.Serve.{offered, lease, serve_discover, serve_request}
use network_simulation.DhcpClient.{
  DhcpClient, Wait, broadcast_packet, send_message, on_offer, on_dhcp_ack, on_wait, dhcp_step,
}

-- The segment of a message.
abbrev pub carrying : Udp → Dhcp → Udp
carrying s m = record s { payload = dhcp_bytes m }

pub carrying-FitsUdp : (s : Udp) (m : Dhcp) → FitsUdp s → FitsUdp (carrying s m)
carrying-FitsUdp s m w = record {
  source_port = w.source_port;
  destination_port = w.destination_port;
  udp_length = w.udp_length;
  checksum = w.checksum;
}

-- The frame that `send_message` makes.
unfoldable pub query_frame : List ℕ → Udp → Ip → Dhcp → Mpdu
query_frame mac s p m = frame_for mac create_broadcast_mac (encap_udp (carrying s m) p)

source-query_frame :
    (mac : List ℕ) (s : Udp) (p : Ip) (m : Dhcp) → (query_frame mac s p m).source_mac ≡ mac
unfolding query_frame frame_for set_source_mac set_destination_mac
source-query_frame mac s p m = refl

query_frame-IsQuery :
    (mac : List ℕ) (s : Udp) (p : Ip) (m : Dhcp)
    → FitsUdp s
    → IsHeader p
    → FitsDhcp m
    → IsQuery (query_frame mac s p m) (encap_udp (carrying s m) p) (carrying s m) m
unfolding query_frame
query_frame-IsQuery mac s p m w h v =
    let sendable : Sendable (carrying s m) =
      (carrying-FitsUdp s m w, unfold dhcp_bytes in omega arith) in
    record {
      opens = open_udp-frame_for mac create_broadcast_mac (carrying s m) p h sendable;
      header = encap_udp-IsHeader (carrying s m) p h sendable;
      segment = carrying-FitsUdp s m w;
      message = generate_dhcp-dhcp_bytes m v;
      fits = v;
    }

run_client :
    (f : Mpdu) (p : Ip) (s : Udp) (g : Gateway)
    → open_udp f ≡ ok (p, s)
    → s.source_port ≡ bootp_client_port
    → s.destination_port ≡ bootp_server_port
    → run f g ≡ ok (record g { dhcp_queue = WQueue.add f g.dhcp_queue })
unfolding run
run_client f p s g opens source destination = simp (opens, source, destination)

-- The gateway hands a message of a client to the DHCP server.
pub run-query_frame :
    (mac : List ℕ) (s : Udp) (p : Ip) (m : Dhcp) (g : Gateway)
    → FitsUdp s
    → IsHeader p
    → s.source_port ≡ bootp_client_port
    → s.destination_port ≡ bootp_server_port
    → run (query_frame mac s p m) g
      ≡ ok (record g { dhcp_queue = WQueue.add (query_frame mac s p m) g.dhcp_queue })
run-query_frame mac s p m g w h source destination =
    let sendable : Sendable (carrying s m) =
      (carrying-FitsUdp s m w, unfold dhcp_bytes in omega arith) in
    let opens = open_udp-frame_for mac create_broadcast_mac (carrying s m) p h sendable in
    run_client (query_frame mac s p m) (encap_udp (carrying s m) p) (carrying s m) g
      (unfold query_frame in opens) source destination

-- A client that gets the offer of an address asks for it.
pub dhcp_step_offer :
    (f : Mpdu) (gw to : List ℕ) (p : Ip) (m : Dhcp) (c : DhcpClient)
    → c.wait ≡ Wait.for_offer
    → Carries gw to p m f
    → m.opcode ≡ dhcp_offer
    → dhcp_step f c
      ≡ ok (
          send_message
            (record { opcode = dhcp_request; client_ip = m.your_ip; your_ip = m.your_ip })
            (record c { wait = Wait.for_ack }))
unfolding dhcp_step on_wait on_offer
dhcp_step_offer f gw to p m c wait k o = simp (k.opens, wait, k.source_port, k.message, o)

-- A client that gets the ACK has the address.
pub dhcp_step_ack :
    (f : Mpdu) (gw to : List ℕ) (p : Ip) (m : Dhcp) (c : DhcpClient)
    → c.wait ≡ Wait.for_ack
    → Carries gw to p m f
    → m.opcode ≡ dhcp_ack
    → dhcp_step f c ≡ ok (record c { ip = m.your_ip; wait = Wait.bound })
unfolding dhcp_step on_wait on_dhcp_ack
dhcp_step_ack f gw to p m c wait k o = simp (k.opens, wait, k.source_port, k.message, o)

sent-send_message :
    (m : Dhcp) (c : DhcpClient)
    → (send_message m c).sent ≡ c.sent ++ query_frame c.mac c.tx_segment c.tx_packet m ∷ []
unfolding send_message broadcast_packet query_frame
sent-send_message m c = refl

pub discover_round :
    (blank : ℕ) (server : DhcpServer) (s : Udp) (p : Ip) (m : Dhcp) (mac : List ℕ)
    → blank < 2 ^ 32
    → server.gw_ip < 2 ^ 32
    → IsLeases server.table
    → IsMac mac
    → FitsUdp s
    → IsHeader p
    → FitsDhcp m
    → m.opcode ≡ dhcp_discover
    → (server' : DhcpServer) × (offer : Mpdu) × (p' : Ip) × (serve blank server
          (query_frame mac s p m)
        ≡ ok (server', offer ∷ []))
      × Carries server.gw_mac mac p'
          (record {
            opcode = dhcp_offer;
            client_ip = m.client_ip;
            your_ip = offered blank server mac;
          })
          offer
      × IsLeases server'.table
      × (held server'.table mac ≡ some (lease blank server mac))
discover_round blank server s p m mac b g t h w head v o =
    let source = source-query_frame mac s p m in
    let (server', offer, run, k, leases, maps) =
      serve_discover blank server (query_frame mac s p m) (encap_udp (carrying s m) p)
        (carrying s m) m b g t (rw source h) (query_frame-IsQuery mac s p m w head v) o in
    let self : mac_eq mac mac ≡ true = (mac_eq_iff mac mac).1 refl in
    let mine : held server'.table mac ≡ some (lease blank server mac) =
      (rw source at (maps mac)) ∙ rw self in
    (server', offer, _, run, (rw source at k), leases, mine)

pub request_round :
    (blank : ℕ) (server : DhcpServer) (s : Udp) (p : Ip) (m : Dhcp) (mac : List ℕ) (e : DhcpEntry)
    → IsLeases server.table
    → IsMac mac
    → FitsUdp s
    → IsHeader p
    → FitsDhcp m
    → m.opcode ≡ dhcp_request
    → m.client_ip ≡ e.ip
    → held server.table mac ≡ some e
    → (ack : Mpdu) × (p' : Ip) × (serve blank server (query_frame mac s p m)
        ≡ ok (server, ack ∷ []))
      × Carries server.gw_mac mac p' (record m { opcode = dhcp_ack }) ack
request_round blank server s p m mac e t h w head v o same old =
    let source = source-query_frame mac s p m in
    let (ack, run, k) =
      serve_request blank server (query_frame mac s p m) (encap_udp (carrying s m) p) (carrying s m)
        m e t (rw source h) (query_frame-IsQuery mac s p m w head v) o (rw source old) in
    let asks : (m.client_ip == e.ip) ≡ true = (==_iff _ _).1 same in
    (ack, _, run, (rw (source, asks) at k))
