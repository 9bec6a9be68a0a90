-- ===== src/TcpClient.antt =====
-- Host::TCP_client of host.cpp, as a state machine over the frames that its socket hands out. `sent`
-- is what was handed to `transmit`, oldest first.
pub mod Rising
pub mod Acks
pub mod Loads
pub mod Advances
pub mod Pieces
pub mod Stages
pub mod Sends
use network_simulation.Common.{
  ℕ, ◌+◌, ◌%◌, ◌^◌, Bool, true, false, not, ◌&&◌, List, [], ◌∷◌, ◌++◌, Run, ok, fault, at, ◌>>=◌,
  if◌then◌else◌, ltb, ◌==◌, length, drop, has_flag,
}
use network_simulation.Addressing.{is_broadcast}
use network_simulation.L4.{
  Tcp, tcp_syn, tcp_ack, tcp_fin, tcp_synack, tcp_initial_sn, file_to_tcp_segments,
}
use network_simulation.L3.{Ip, encap_tcp, get_mac, new_ip}
use network_simulation.Pdu.{Mpdu, open_tcp}
use network_simulation.Host.{Host, send_request_arp, frame_for}

-- `MTU - TCP_HEADER_SIZE - IP_HEADER_SIZE - MPDU_HEADER_SIZE`.
abbrev pub maximum_segment_bytes : ℕ
maximum_segment_bytes = 1458

-- Where the client waits on its socket: for the SYNACK, or for an ACK; or it has ended.
pub data ClientPhase : Type 0 where
  syn_sent sending finished : ClientPhase

pub record Client : Type 0 where
  pub mac : List ℕ
  pub dest_mac : List ℕ
  pub this_port : ℕ
  pub dest_port : ℕ
  pub segments_to_send : List Tcp
  pub phase : ClientPhase
  pub tx_segment : Tcp
  pub tx_packet : Ip
  pub next_segment_index : ℕ
  pub last_unackd_index : ℕ
  pub sent : List Mpdu

-- Encapsulate a segment in the one packet and in a new frame, and transmit it.
unfoldable pub send_segment : Tcp → Client → Client
send_segment s c =
    let p = encap_tcp s c.tx_packet in
    record c { tx_segment = s; tx_packet = p; sent = c.sent ++ frame_for c.mac c.dest_mac p ∷ [] }

-- `if (next_segment_index < segments_to_send->size())`: send the next segment.
unfoldable pub load_next : Client → Run Client
unfolding send_segment
load_next c =
    if ltb c.next_segment_index (length c.segments_to_send)
    then (do
      s ← at c.segments_to_send c.next_segment_index
      ok (send_segment s (record c { next_segment_index = c.next_segment_index + 1 })))
    else ok c

-- The head of `while (last_unACKd_index < segments_to_send->size())`.
unfoldable pub loop_head : Client → Run Client
loop_head c =
    if ltb c.last_unackd_index (length c.segments_to_send)
    then load_next c
    else ok (record c { phase = ClientPhase.finished })

-- The client up to its first SYN; the packet's addresses are set between `encap_SDU` and the frame.
unfoldable pub start_client : Host → List ℕ → ℕ → ℕ → ℕ → Tcp → Ip → List Tcp → Client
start_client h dest_mac this_port dest_ip dest_port blank_segment blank_packet segments =
    let syn : Tcp = record blank_segment {
      details = tcp_syn;
      sequence_number = tcp_initial_sn;
      ack_number = tcp_initial_sn;
      source_port = this_port;
      destination_port = dest_port;
      payload = [];
    } in
    send_segment syn (record {
      mac = h.mac;
      dest_mac = dest_mac;
      this_port = this_port;
      dest_port = dest_port;
      segments_to_send = segments;
      phase = ClientPhase.syn_sent;
      tx_segment = syn;
      tx_packet = record (new_ip blank_packet) { source_ip = h.ip; destination_ip = dest_ip };
      next_segment_index = 0;
      last_unackd_index = 0;
      sent = [];
    })

-- What `TCP_client` reaches before it waits for the first time.
pub data Opening : Type 0 where
  resolving : Host → Opening
  opened : Client → Opening

unfoldable pub tcp_client : Tcp → Tcp → Ip → List ℕ → ℕ → ℕ → ℕ → Host → Run Opening
unfolding start_client
tcp_client blank blank_segment blank_packet file this_port dest_ip dest_port h = do
  segments ← file_to_tcp_segments blank file this_port dest_port maximum_segment_bytes
  missing ← is_broadcast (get_mac h.cache dest_ip)
  if missing
      then (do h' ← send_request_arp dest_ip h; ok (Opening.resolving h'))
      else ok (
          Opening.opened (
            start_client h (get_mac h.cache dest_ip) this_port dest_ip dest_port blank_segment
              blank_packet segments))

-- `while (is_broadcast(cache.get_mac(dest_ip)))`, one look at the cache, and what comes after the
-- loop. The segments are those of `tcp_client`.
unfoldable pub poll_mac : Tcp → Tcp → Ip → List ℕ → ℕ → ℕ → ℕ → Host → Run Opening
unfolding start_client
poll_mac blank blank_segment blank_packet file this_port dest_ip dest_port h = do
  segments ← file_to_tcp_segments blank file this_port dest_port maximum_segment_bytes
  missing ← is_broadcast (get_mac h.cache dest_ip)
  ok (
      if missing
      then Opening.resolving h
      else Opening.opened (
          start_client h (get_mac h.cache dest_ip) this_port dest_ip dest_port blank_segment
            blank_packet segments))

-- The reply to the SYN. Either flag of TCP_SYNACK passes the test; otherwise the SYN is sent again.
unfoldable pub on_synack : Tcp → Client → Run Client
unfolding loop_head
on_synack rx_segment c =
    if rx_segment.ack_number == (c.tx_segment.sequence_number + 1) % 2 ^ 32
      && has_flag rx_segment.details tcp_synack
    then (let ack : Tcp = record (c.tx_segment) {
      details = tcp_ack;
      sequence_number = rx_segment.ack_number;
      ack_number = (rx_segment.sequence_number + 1) % 2 ^ 32;
      destination_port = c.dest_port;
      source_port = c.this_port;
    } in
        loop_head (send_segment ack (record c { phase = ClientPhase.sending })))
    else ok (send_segment c.tx_segment c)

-- `while (true)` for a higher ACK: the list is what is left of the segments, `i` the index of its
-- head. The sum is of 64 bits, and does not wrap.
unfoldable pub catch_up : ℕ → List Tcp → ℕ → Run ℕ
catch_up ack_number [] i = fault
catch_up ack_number (w ∷ ws) i =
    let rest = catch_up ack_number ws (i + 1) in
    if ack_number == w.sequence_number + length w.payload then ok (i + 1) else rest

-- The two indices after an ACK.
unfoldable pub count_ack : Tcp → Client → Run Client
unfolding catch_up
count_ack rx_segment c = do
  waiting ← at c.segments_to_send c.last_unackd_index
  let expected = (waiting.sequence_number + length waiting.payload) % 2 ^ 32
  let higher =
      catch_up rx_segment.ack_number (drop (c.last_unackd_index + 1) c.segments_to_send)
        (c.last_unackd_index + 1)
  if rx_segment.ack_number == expected
      then ok (record c { last_unackd_index = c.last_unackd_index + 1 })
      else if ltb expected rx_segment.ack_number
      then (do i ← higher; ok (record c { last_unackd_index = i }))
      else ok (record c { next_segment_index = c.last_unackd_index })

-- One round of the loop, from the frame on, to the next `get_frame`.
unfoldable pub on_ack : Tcp → Client → Run Client
unfolding loop_head
on_ack rx_segment c = do
  c' ← count_ack rx_segment c
  if has_flag rx_segment.details tcp_fin && has_flag rx_segment.details tcp_ack
      then ok (record c' { phase = ClientPhase.finished })
      else (do c'' ← load_next c'; loop_head c'')

unfoldable pub handle : ClientPhase → Tcp → Client → Run Client
handle ClientPhase.syn_sent rx_segment c = on_synack rx_segment c
handle ClientPhase.sending rx_segment c = on_ack rx_segment c
handle ClientPhase.finished rx_segment c = ok c

unfoldable pub client_step : Mpdu → Client → Run Client
client_step rx_frame c = do (rx_packet, rx_segment) ← open_tcp rx_frame; handle c.phase rx_segment c

-- The frames of the socket, in order; a client that has ended takes none.
unfoldable pub run_client : List Mpdu → Client → Run Client
run_client [] c = ok c
run_client (f ∷ fs) c = do
  c' ← elim c.phase [ ClientPhase.finished ↦ ok c | _ ↦ client_step f c ]
  run_client fs c'
