-- ===== src/Program/Transfer.antt =====
-- `./test tcp`: from the command line to the file that is written.
use network_simulation.Common.{
  All, fault, ℕ, ◌^◌, ◌≤◌, ◌<◌, ◌≡◌, refl, true, false, List, [], ◌∷◌, ok, length, arith,
}
use network_simulation.Addressing.{create_broadcast_mac}
use network_simulation.Addressing.Macs.{mac_eq, mac_eq_iff, is_broadcast-eq, broadcast-IsMac}
use network_simulation.L4.{Tcp, file_to_tcp_segments}
use network_simulation.L3.{Ip, get_mac, ip_protocol_tcp}
use network_simulation.L3.Codec.{FitsTcp}
use network_simulation.L3.Cache.{known, get_mac_unknown}
use network_simulation.Pdu.{Socket, new_socket}
use network_simulation.Host.{Host}
use network_simulation.Host.Ports.{create_socket-first}
use network_simulation.Host.Resolve.{IsHost}
use network_simulation.Host.Asked.{Asked, asked}
use network_simulation.TcpServer.{Server, start}
use network_simulation.TcpClient.{
  Client, maximum_segment_bytes, Opening, tcp_client, poll_mac, start_client,
}
use network_simulation.TcpSession.{Inevitable, open_session}
use network_simulation.TcpSession.Turns.{Delivered}
use network_simulation.TcpSession.Whole.{opened_session}
use network_simulation.Gateway
use network_simulation.Gateway.{Gateway}
use network_simulation.Program.Requests.{request_stops_gateway}
use network_simulation.Drivers
use network_simulation.Drivers.{connecting, serving}

-- The indeterminate values of the locals of `TCP_client` and `TCP_server`.
pub record TcpMemory : Type 0 where
  pub segment_field : Tcp
  pub tx_segment : Tcp
  pub tx_packet : Ip

pub record FitsMemory (m : TcpMemory) : Type 0 where
  pub segment_field : FitsTcp m.segment_field
  pub receive_window : m.tx_segment.receive_window < 2 ^ 16
  pub checksum : m.tx_segment.checksum < 2 ^ 16

-- The drivers of a server on `a` and a client on `b` that is told the address `ip`: the server waits
-- on its socket, the client asks for the MAC, gets it by one request and one answer through the
-- demuxers of both hosts, and starts; then the file is delivered in every run.
pub record Delivers (fuel ip a_port b_port a_peer : ℕ) (m n : TcpMemory) (file output : List ℕ)
    (a b : Host) : Type 0 where
  pub server_socket : Socket
  pub client_socket : Socket
  pub a' : Host
  pub b' : Host
  pub server : Server
  pub client : Client
  pub serves :
      Drivers.tcp_test fuel m.segment_field m.tx_segment m.tx_packet output a_peer a_port b_port
        false a
      ≡ ok (serving server_socket a' server)
  pub arp : Asked b' a'
  pub asks :
      Drivers.tcp_test fuel n.segment_field n.tx_segment n.tx_packet file ip b_port a_port true b
      ≡ ok (connecting client_socket b' (Opening.resolving arp.a'))
  pub gateway_stops : (g : Gateway) → Gateway.run arp.query g ≡ fault
  pub starts :
      poll_mac n.segment_field n.tx_segment n.tx_packet file b_port ip a_port arp.a''
      ≡ ok (Opening.opened client)
  pub delivered : Inevitable (Delivered file) (ok (open_session client server))

-- The client cuts the file and asks.
client_asks :
    (n : TcpMemory) (file : List ℕ) (b_port a_port : ℕ) (b a : Host) (q : Asked b a)
    → known b.cache a.ip ≡ false
    → (segs : List Tcp)
    → file_to_tcp_segments n.segment_field file b_port a_port maximum_segment_bytes ≡ ok segs
    → tcp_client n.segment_field n.tx_segment n.tx_packet file b_port a.ip a_port b
      ≡ ok (Opening.resolving q.a')
unfolding tcp_client
client_asks n file b_port a_port b a q new segs cut =
    let all : mac_eq create_broadcast_mac create_broadcast_mac ≡ true = (mac_eq_iff _ _).1 refl in
    rw
      (
        cut,
        get_mac_unknown b.cache a.ip new,
        is_broadcast-eq create_broadcast_mac broadcast-IsMac,
        all,
        q.asks,
      )
      refl

module _ (fuel a_port b_port a_peer : ℕ) (m n : TcpMemory) (file output : List ℕ) (a b : Host)
    (ports : (a_port < 2 ^ 16) × (b_port < 2 ^ 16)) (fits_m : FitsMemory m) (fits_n : FitsMemory n)
    (va : IsHost a) (vb : IsHost b) (closed_a : a.open_ports ≡ []) (closed_b : b.open_ports ≡ [])
    (new : known b.cache a.ip ≡ false) (real : mac_eq a.mac create_broadcast_mac ≡ false)
    (bytes : All (λ x. x < 256) b.mac) (some_bytes : 1 ≤ length file)
    (small : length file < 2 ^ 31) where
  pub delivers : Delivers fuel a.ip a_port b_port a_peer m n file output a b
  delivers =
      let a' : Host = record a { open_ports = new_socket a_port ip_protocol_tcp ∷ [] } in
      let b' : Host = record b { open_ports = new_socket b_port ip_protocol_tcp ∷ [] } in
      let q =
        asked b' a' (record { mac = vb.mac; ip = vb.ip; cache = vb.cache })
          (record { mac = va.mac; ip = va.ip; cache = va.cache }) new in
      let (mac, ip, _, _) = q.same_a in
      let fits : FitsTcp (record (n.segment_field) {
        source_port = b_port;
        destination_port = a_port;
        ack_number = 1;
      }) =
        record {
          source_port = ports.1;
          destination_port = ports.0;
          sequence_number = fits_n.segment_field.sequence_number;
          ack_number = omega arith;
          details = fits_n.segment_field.details;
          receive_window = fits_n.segment_field.receive_window;
          checksum = fits_n.segment_field.checksum;
        } in
      let (segs, cut, runs) =
        opened_session n.segment_field n.tx_segment m.tx_segment n.tx_packet m.tx_packet file a.mac
          a.mac b_port a.ip a_port q.a'' fits fits_n.receive_window fits_n.checksum
          fits_m.receive_window fits_m.checksum (rw ip vb.ip) va.ip some_bytes small in
      let there : get_mac q.a''.cache a.ip ≡ a.mac = q.found in
      record {
        server_socket = new_socket a_port ip_protocol_tcp;
        client_socket = new_socket b_port ip_protocol_tcp;
        a' = a';
        b' = b';
        server = start a.ip a.mac a_port m.tx_segment m.tx_packet;
        client = start_client q.a'' a.mac b_port a.ip a_port n.tx_segment n.tx_packet segs;
        serves =
            unfold Drivers.tcp_test in
            rw (create_socket-first fuel a_port ip_protocol_tcp a closed_a, Drivers.tcp_test) refl;
        arp = q;
        asks =
            unfold Drivers.tcp_test in
            rw (create_socket-first fuel b_port ip_protocol_tcp b closed_b, Drivers.tcp_test)
              (rw (client_asks n file b_port a_port b' a' q new segs cut) refl);
        gateway_stops = λ g.
            request_stops_gateway b' a' q g (record { mac = vb.mac; ip = vb.ip; cache = vb.cache })
              va.ip bytes;
        starts = unfold poll_mac in rw (cut, there, is_broadcast-eq a.mac va.mac, real) refl;
        delivered = runs;
      }
