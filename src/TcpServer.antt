-- ===== src/TcpServer.antt =====
-- Host::TCP_server of host.cpp, as a state machine over the frames that its socket hands out. `ip`
-- and `mac` are the host's. `written` is what `ofs.put` has written, `sent` what was handed to
-- `transmit`.
pub mod Receive
pub mod Answers
pub mod Greeting
pub mod Transfer
use network_simulation.Common.{
  ℕ, ◌+◌, ◌%◌, ◌^◌, Bool, true, false, not, ◌&&◌, ◌||◌, bit_or, List, [], ◌∷◌, ◌++◌, Run, ok, ◌>>=◌,
  if◌then◌else◌, ◌==◌, length, has_flag,
}
use network_simulation.L4.{Tcp, tcp_syn, tcp_ack, tcp_fin, tcp_synack, tcp_initial_sn}
use network_simulation.L3.{Ip, encap_tcp, new_ip}
use network_simulation.Pdu.{Mpdu, new_mpdu, set_source_mac, set_destination_mac, encap_ip, open_tcp}

-- Where the code waits on the socket: for the SYN, for the last ACK of the handshake, for data;
-- `hung` is the loop after the SYNACK, which reads no further frame, and `done` the end.
pub data Phase : Type 0 where
  listening handshake receiving hung done : Phase

pub record Server : Type 0 where
  pub ip : ℕ
  pub mac : List ℕ
  pub this_port : ℕ
  pub phase : Phase
  pub tx_segment : Tcp
  pub tx_packet : Ip
  pub last_rx_sn : ℕ
  pub last_payload_size : ℕ
  pub written : List ℕ
  pub sent : List Mpdu

-- `blank` holds the indeterminate values of the local segment and packet.
unfoldable pub start : ℕ → List ℕ → ℕ → Tcp → Ip → Server
start ip mac this_port blank_segment blank_packet = record {
  ip = ip;
  mac = mac;
  this_port = this_port;
  phase = Phase.listening;
  tx_segment = record blank_segment { payload = [] };
  tx_packet = new_ip blank_packet;
  last_rx_sn = 0;
  last_payload_size = 0;
  written = [];
  sent = [];
}

-- A new frame around the current `tx_packet`, back to the sender of `rx_frame`.
send_back : Mpdu → Server → Server
send_back rx_frame s = record s {
  sent =
      s.sent
      ++ set_source_mac s.mac
          (set_destination_mac rx_frame.source_mac (encap_ip s.tx_packet (new_mpdu 0)))
        ∷ [];
}

-- The SYN: make and send the SYNACK. Another segment is dropped.
on_syn : Mpdu → Ip → Tcp → Server → Server
on_syn rx_frame rx_packet rx_segment s =
    if has_flag rx_segment.details tcp_syn
    then (let tx : Tcp = record (s.tx_segment) {
      details = tcp_synack;
      sequence_number = tcp_initial_sn;
      ack_number = (rx_segment.sequence_number + 1) % 2 ^ 32;
      destination_port = rx_segment.source_port;
      source_port = s.this_port;
    } in
        send_back rx_frame (record s {
          phase = Phase.handshake;
          tx_segment = tx;
          tx_packet = record (encap_tcp tx s.tx_packet) {
            source_ip = s.ip;
            destination_ip = rx_packet.source_ip;
          };
        }))
    else s

-- The last ACK of the handshake. With any other segment the code resends the SYNACK for ever, since
-- the loop does not take another frame.
on_final_ack : Tcp → Server → Server
on_final_ack rx_segment s =
    if rx_segment.ack_number == (s.tx_segment.sequence_number + 1) % 2 ^ 32
      && has_flag rx_segment.details tcp_ack
    then record s { phase = Phase.receiving; last_rx_sn = rx_segment.sequence_number }
    else record s { phase = Phase.hung }

-- The test at the end of the loop.
leave : Server → Server
leave s = if has_flag s.tx_segment.details tcp_fin then record s { phase = Phase.done } else s

-- One round of the `do … while (!(tx_segment.details & TCP_FIN))`.
on_data : Mpdu → Tcp → Server → Server
on_data rx_frame rx_segment s =
    if rx_segment.sequence_number == (s.last_rx_sn + s.last_payload_size) % 2 ^ 32
    then (let size = length rx_segment.payload in
        let tx : Tcp = record (s.tx_segment) {
          details = bit_or rx_segment.details tcp_ack;
          sequence_number = rx_segment.ack_number;
          ack_number = (rx_segment.sequence_number + size) % 2 ^ 32;
        } in
        leave (
          send_back rx_frame (record s {
            last_rx_sn = rx_segment.sequence_number;
            last_payload_size = size;
            written = s.written ++ rx_segment.payload;
            tx_segment = tx;
            tx_packet = encap_tcp tx s.tx_packet;
          })))
    else leave (send_back rx_frame s)

dispatch : Phase → Mpdu → Ip → Tcp → Server → Server
unfolding on_syn on_final_ack on_data send_back leave
dispatch Phase.listening rx_frame rx_packet rx_segment s = on_syn rx_frame rx_packet rx_segment s
dispatch Phase.handshake rx_frame rx_packet rx_segment s = on_final_ack rx_segment s
dispatch Phase.receiving rx_frame rx_packet rx_segment s = on_data rx_frame rx_segment s
dispatch Phase.hung rx_frame rx_packet rx_segment s = s
dispatch Phase.done rx_frame rx_packet rx_segment s = s

-- A server that waits takes the next frame and reads it; one that has ended or hangs takes none.
unfoldable pub waits : Phase → Bool
waits Phase.hung = false
waits Phase.done = false
waits p = true

unfoldable pub step : Mpdu → Server → Run Server
unfolding dispatch waits
step rx_frame s =
    if waits s.phase
    then (do
      (rx_packet, rx_segment) ← open_tcp rx_frame
      ok (dispatch s.phase rx_frame rx_packet rx_segment s))
    else ok s

-- The frames of the socket, in order.
unfoldable pub serve : List Mpdu → Server → Run Server
unfolding step
serve [] s = ok s
serve (f ∷ fs) s = do s' ← step f s; serve fs s'
