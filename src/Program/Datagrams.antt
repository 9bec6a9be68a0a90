-- ===== src/Program/Datagrams.antt =====
-- `./test udp`: from the command line to the file that is written.
use network_simulation.Common.{
  fault, ℕ, ◌^◌, ◌≤◌, ◌<◌, ◌≡◌, refl, true, false, List, [], ◌∷◌, ◌++◌, ok, All, length,
}
use network_simulation.Addressing.{create_broadcast_mac}
use network_simulation.Addressing.Macs.{mac_eq, mac_eq_iff, is_broadcast-eq, broadcast-IsMac}
use network_simulation.L4.{Udp, file_to_udp_segments}
use network_simulation.L3.{ip_protocol_udp}
use network_simulation.L3.Codec.{FitsUdp}
use network_simulation.L3.Cache.{known, get_mac_unknown}
use network_simulation.Pdu.{Mpdu, Socket, new_socket}
use network_simulation.Host.{Host}
use network_simulation.Host.Ports.{create_socket-first}
use network_simulation.Host.Resolve.{IsHost}
use network_simulation.Host.Asked.{Asked, asked}
use network_simulation.UdpTransfer.{
  ClientState, udp_client, poll_mac, maximum_payload_bytes, new_udp_server, udp_server_run,
}
use network_simulation.UdpTransfer.Delivery.{Plain, sent_segments}
use network_simulation.Gateway
use network_simulation.Gateway.{Gateway}
use network_simulation.Program.Requests.{request_stops_gateway}
use network_simulation.Drivers
use network_simulation.Drivers.{transmitting, receiving}

-- The drivers of a server on `a` and a client on `b` that is told the address `ip`: the server waits
-- on its socket, the client asks for the MAC and gets it, as for TCP; then it sends `frames`, all to
-- the MAC of `a`, and a server that gets them in order ends with the file written.
pub record Receives (fuel ip a_port b_port a_peer : ℕ) (m n : Udp) (file output : List ℕ)
    (a b : Host) : Type 0 where
  pub server_socket : Socket
  pub client_socket : Socket
  pub a' : Host
  pub b' : Host
  pub frames : List Mpdu
  pub waits :
      Drivers.udp_test fuel m output a_peer a_port b_port false a
      ≡ ok (receiving server_socket a' new_udp_server)
  pub arp : Asked b' a'
  pub asks :
      Drivers.udp_test fuel n file ip b_port a_port true b
      ≡ ok (transmitting client_socket (ClientState.waiting arp.a'))
  pub gateway_stops : (g : Gateway) → Gateway.run arp.query g ≡ fault
  pub sends :
      poll_mac n file b_port ip a_port arp.a''
      ≡ ok (ClientState.finished (record (arp.a'') { sent = arp.a''.sent ++ frames }))
  pub to_server : All (λ f. f.destination_mac ≡ a.mac) frames
  pub written :
      udp_server_run frames new_udp_server ≡ ok (record { host_eof_reached = true; written = file })

client_asks :
    (n : Udp) (file : List ℕ) (b_port a_port : ℕ) (b a : Host) (q : Asked b a)
    → known b.cache a.ip ≡ false
    → (segs : List Udp) → file_to_udp_segments n file b_port a_port maximum_payload_bytes ≡ ok segs
    → udp_client n file b_port a.ip a_port b ≡ ok (ClientState.waiting q.a')
unfolding udp_client
client_asks n file b_port a_port b a q new segs cut =
    let all : mac_eq create_broadcast_mac create_broadcast_mac ≡ true = (mac_eq_iff _ _).1 refl in
    rw
      (
        cut,
        get_mac_unknown b.cache a.ip new,
        is_broadcast-eq create_broadcast_mac broadcast-IsMac,
        all,
        q.asks,
      )
      refl

module _ (fuel a_port b_port a_peer : ℕ) (m n : Udp) (file output : List ℕ) (a b : Host)
    (ports : (a_port < 2 ^ 16) × (b_port < 2 ^ 16)) (fits : FitsUdp n) (va : IsHost a)
    (vb : IsHost b) (closed_a : a.open_ports ≡ []) (closed_b : b.open_ports ≡ [])
    (new : known b.cache a.ip ≡ false) (real : mac_eq a.mac create_broadcast_mac ≡ false)
    (bytes : All (λ x. x < 256) b.mac) (some_bytes : 1 ≤ length file) (small : length file < 2 ^ 31)
    (plain : Plain file) where
  pub receives : Receives fuel a.ip a_port b_port a_peer m n file output a b
  receives =
      let a' : Host = record a { open_ports = new_socket a_port ip_protocol_udp ∷ [] } in
      let b' : Host = record b { open_ports = new_socket b_port ip_protocol_udp ∷ [] } in
      let q =
        asked b' a' (record { mac = vb.mac; ip = vb.ip; cache = vb.cache })
          (record { mac = va.mac; ip = va.ip; cache = va.cache }) new in
      let (_, ip, _, _) = q.same_a in
      let w : FitsUdp (record n { source_port = b_port; destination_port = a_port; payload = [] }) =
        record {
          source_port = ports.1;
          destination_port = ports.0;
          udp_length = fits.udp_length;
          checksum = fits.checksum;
        } in
      let (segs, fs, cut, run, to, gets) =
        sent_segments n file a.mac b_port a.ip a_port q.a'' w (rw ip vb.ip) va.ip some_bytes small
          plain in
      record {
        server_socket = new_socket a_port ip_protocol_udp;
        client_socket = new_socket b_port ip_protocol_udp;
        a' = a';
        b' = b';
        frames = fs;
        waits =
            unfold Drivers.udp_test in
            rw (create_socket-first fuel a_port ip_protocol_udp a closed_a, Drivers.udp_test) refl;
        arp = q;
        asks =
            unfold Drivers.udp_test in
            rw (create_socket-first fuel b_port ip_protocol_udp b closed_b, Drivers.udp_test)
              (rw (client_asks n file b_port a_port b' a' q new segs cut) refl);
        gateway_stops = λ g.
            request_stops_gateway b' a' q g (record { mac = vb.mac; ip = vb.ip; cache = vb.cache })
              va.ip bytes;
        sends = unfold poll_mac in rw (cut, q.found, is_broadcast-eq a.mac va.mac, real, run) refl;
        to_server = to;
        written = gets;
      }
