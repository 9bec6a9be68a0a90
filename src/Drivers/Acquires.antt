-- ===== src/Drivers/Acquires.antt =====
-- A test driver gets its address.
use network_simulation.Common.{
  ℕ, ◌^◌, ◌<◌, ◌≡◌, refl, sym, ◌∙◌, ap, some, List, [], ◌∷◌, ◌++◌, ok, length, drop, drop-append,
}
use mathlib.Core.List.{append_assoc, append-nil}
use network_simulation.Addressing.Macs.{IsMac}
use network_simulation.L4.{Udp}
use network_simulation.L3.{Ip, ip_protocol_udp}
use network_simulation.Pdu.{Mpdu, Socket, new_socket}
use network_simulation.WQueue
use network_simulation.Gateway.{Gateway, run}
use network_simulation.Dhcp.{DhcpServer, serve, bootp_client_port}
use network_simulation.Dhcp.Leases.{held, IsLeases}
use network_simulation.Dhcp.Serve.{offered, lease}
use network_simulation.Host.{Host}
use network_simulation.Host.Ports.{create_socket-first, delete_socket, delete_socket-only}
use network_simulation.DhcpClient.{DhcpClient, Wait, start_dhcp, dhcp_step}
use network_simulation.DhcpClient.Acquire.{dhcp_acquires}
use network_simulation.Drivers.{Acquiring, acquire, acquire_step, acquired}

-- The host `h` has got an address from the server by way of the gateway, and is `h'` then. The
-- indeterminate values are `blank` in the server, and `blank_ip`, `seg` and `pkt` in the client.
pub record Acquires (blank fuel blank_ip : ℕ) (seg : Udp) (pkt : Ip) (h : Host)
    (server : DhcpServer) (h' : Host) : Type 0 where
  pub a1 : Acquiring
  pub a2 : Acquiring
  pub a3 : Acquiring
  pub discover : Mpdu
  pub offer : Mpdu
  pub request : Mpdu
  pub ack : Mpdu
  pub server' : DhcpServer
  pub begins : acquire fuel blank_ip seg pkt h ≡ some a1
  pub discovers : a1.host.sent ≡ h.sent ++ discover ∷ []
  pub queued :
      (g : Gateway)
      → run discover g ≡ ok (record g { dhcp_queue = WQueue.add discover g.dhcp_queue })
  pub offers : serve blank server discover ≡ ok (server', offer ∷ [])
  pub takes_offer : acquire_step offer a1 ≡ ok a2
  pub requests : a2.host.sent ≡ h.sent ++ (discover ∷ request ∷ [])
  pub queued_too :
      (g : Gateway) → run request g ≡ ok (record g { dhcp_queue = WQueue.add request g.dhcp_queue })
  pub acks : serve blank server' request ≡ ok (server', ack ∷ [])
  pub takes_ack : acquire_step ack a2 ≡ ok a3
  pub bound : a3.client.wait ≡ Wait.bound
  pub leased : held server'.table h.mac ≡ some (lease blank server h.mac)
  pub ends : acquired a3 ≡ h'
  pub result :
      h' ≡ record h { ip = offered blank server h.mac; sent = h.sent ++ (discover ∷ request ∷ []) }

-- The host while its client runs.
abbrev with_client : Host → DhcpClient → Acquiring
with_client h c = record {
  host = record h {
    open_ports = new_socket bootp_client_port ip_protocol_udp ∷ [];
    sent = h.sent ++ c.sent;
  };
  port = bootp_client_port;
  client = c;
}

acquire-with_client :
    (fuel blank_ip : ℕ) (seg : Udp) (pkt : Ip) (h : Host)
    → h.open_ports ≡ []
    → acquire fuel blank_ip seg pkt h
      ≡ some (with_client h (start_dhcp blank_ip seg pkt h.ip h.mac))
unfolding acquire new_socket
acquire-with_client fuel blank_ip seg pkt h closed =
    rw (create_socket-first fuel bootp_client_port ip_protocol_udp h closed, acquire) refl

joined : (h c c' more : List Mpdu) → c' ≡ c ++ more → (h ++ c) ++ drop (length c) c' ≡ h ++ c'
joined h c c' more e = rw (e, drop-append c more, append_assoc h c more) refl

acquire_step-with_client :
    (f : Mpdu) (h : Host) (c c' : DhcpClient) (more : List Mpdu)
    → dhcp_step f c ≡ ok c'
    → c'.sent ≡ c.sent ++ more
    → acquire_step f (with_client h c) ≡ ok (with_client h c')
unfolding acquire_step
acquire_step-with_client f h c c' more steps sends = rw steps (
    ap
      (λ (frames : List Mpdu). ok (record {
        host = record h {
          open_ports = new_socket bootp_client_port ip_protocol_udp ∷ [];
          sent = frames;
        };
        port = bootp_client_port;
        client = c';
      }))
      (joined h.sent c.sent c'.sent more sends))

acquired-with_client :
    (h : Host) (c : DhcpClient)
    → h.open_ports ≡ []
    → acquired (with_client h c) ≡ record h { ip = c.ip; sent = h.sent ++ c.sent }
unfolding acquired delete_socket
acquired-with_client h c closed =
    ap
      (λ (ports : List Socket). record h { ip = c.ip; open_ports = ports; sent = h.sent ++ c.sent })
      (delete_socket-only bootp_client_port ip_protocol_udp
          (record ((with_client h c).host) { ip = c.ip }) refl
        ∙ sym closed)

-- A host that has no open port, by way of the gateway, at a server with a well-formed table: the
-- driver opens its socket and sends a discover, takes the offer, sends a request, takes the ACK and
-- closes the socket. Then the host has the address that the server has for it, has sent these two
-- frames, and is as before otherwise.
pub host-Acquires :
    (blank fuel blank_ip : ℕ) (seg : Udp) (pkt : Ip) (h : Host) (server : DhcpServer)
    → blank < 2 ^ 32
    → blank_ip < 2 ^ 32
    → server.gw_ip < 2 ^ 32
    → IsLeases server.table
    → IsMac h.mac
    → h.open_ports ≡ []
    → seg.udp_length < 2 ^ 16
    → seg.checksum < 2 ^ 16
    → (h' : Host) × Acquires blank fuel blank_ip seg pkt h server h'
host-Acquires blank fuel blank_ip seg pkt h server b bi g t mac closed len sum =
    let (
      f1, offer, f2, ack, server', c', c'', sent1, way1, run1, step1, sent2, way2, run2, step2,
      bound, ip, sent3, mine,
    ) =
      dhcp_acquires blank blank_ip server seg pkt h.ip h.mac b bi g t mac len sum in
    let c = start_dhcp blank_ip seg pkt h.ip h.mac in
    let all : c''.sent ≡ f1 ∷ f2 ∷ [] = sent3 ∙ sent2 in
    (
      acquired (with_client h c''),
      record {
        a1 = with_client h c;
        a2 = with_client h c';
        a3 = with_client h c'';
        discover = f1;
        offer = offer;
        request = f2;
        ack = ack;
        server' = server';
        begins = acquire-with_client fuel blank_ip seg pkt h closed;
        discovers = ap (λ s. h.sent ++ s) sent1;
        queued = way1;
        offers = run1;
        takes_offer =
            acquire_step-with_client offer h c c' (f2 ∷ []) step1 (rw (sent1, sent2) refl);
        requests = ap (λ s. h.sent ++ s) sent2;
        queued_too = way2;
        acks = run2;
        takes_ack = acquire_step-with_client ack h c' c'' [] step2 (rw (append-nil c'.sent) sent3);
        bound = bound;
        leased = mine;
        ends = refl;
        result = acquired-with_client h c'' closed ∙ rw (ip, all) refl;
      },
    )
