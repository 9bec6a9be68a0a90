-- ===== src/Dhcp.antt =====
-- The DHCP messages and the DHCPServer of networking_devices.h and networking_devices.cpp. The
-- server's setters and `flush_ips` have empty bodies; the fields that nothing reads are left out.
pub mod Messages
pub mod Leases
pub mod Serve
use network_simulation.Common.{
  ℕ, Bool, true, false, List, [], ◌∷◌, ◌++◌, Run, ok, at, ◌>>=◌, if◌then◌else◌, ◌==◌, be32, read32,
}
use network_simulation.Addressing.{compare_macs, create_uniform_mac, create_ip, create_broadcast_ip}
use network_simulation.L4.{Udp}
use network_simulation.L3.{Ip, encap_udp}
use network_simulation.Pdu.{Mpdu, new_mpdu, set_source_mac, set_destination_mac, encap_ip, open_udp}

abbrev pub dhcp_no_entry : ℕ
dhcp_no_entry = 0

abbrev pub dhcp_discover : ℕ
dhcp_discover = 1

abbrev pub dhcp_offer : ℕ
dhcp_offer = 2

abbrev pub dhcp_request : ℕ
dhcp_request = 3

abbrev pub dhcp_ack : ℕ
dhcp_ack = 5

abbrev pub dhcp_nack : ℕ
dhcp_nack = 6

abbrev pub bootp_server_port : ℕ
bootp_server_port = 67

abbrev pub bootp_client_port : ℕ
bootp_client_port = 68

pub record Dhcp : Type 0 where
  pub opcode : ℕ
  pub client_ip : ℕ
  pub your_ip : ℕ

pub record DhcpEntry : Type 0 where
  pub mac : List ℕ
  pub ip : ℕ
  pub current_opcode : ℕ

-- The shifts are on `int`, which a byte of 128 or more overflows; what is stored is the uint32_t of
-- the four bytes.
unfoldable pub generate_dhcp : List ℕ → Run Dhcp
generate_dhcp u = do
  opcode ← at u 0
  client_ip ← read32 u 1
  your_ip ← read32 u 5
  ok (record { opcode = opcode; client_ip = client_ip; your_ip = your_ip })

-- The pushes that fill the payload of a segment, on both sides.
unfoldable pub dhcp_bytes : Dhcp → List ℕ
dhcp_bytes m = m.opcode ∷ (be32 m.client_ip ++ be32 m.your_ip)

pub record DhcpServer : Type 0 where
  pub table : List DhcpEntry
  pub gw_mac : List ℕ
  pub gw_ip : ℕ

-- The loop of `get_entry`: no `break`, so the last match counts.
get_entry_from : List DhcpEntry → List ℕ → DhcpEntry → Run DhcpEntry
get_entry_from [] test_mac result = ok result
get_entry_from (e ∷ es) test_mac result = do
  same ← compare_macs test_mac e.mac
  get_entry_from es test_mac (if same then e else result)

-- `blank` is the local `result`: an empty `mac` and an indeterminate `ip`.
unfoldable pub get_entry : ℕ → List DhcpEntry → List ℕ → Run DhcpEntry
unfolding get_entry_from
get_entry blank table test_mac =
    get_entry_from table test_mac (record { mac = []; ip = blank; current_opcode = dhcp_no_entry })

unfoldable pub set_entry : List DhcpEntry → List ℕ → ℕ → ℕ → Run (List DhcpEntry)
set_entry [] test_mac set_ip opcode = ok []
set_entry (e ∷ es) test_mac set_ip opcode = do
  same ← compare_macs test_mac e.mac
  let rest = set_entry es test_mac set_ip opcode
  if same
      then ok (record e { ip = set_ip; current_opcode = opcode } ∷ es)
      else (do es' ← rest; ok (e ∷ es'))

-- The address for a new client. For an unknown MAC the code prints a line and leaves `entry.ip`.
pub new_ip_for : List ℕ → ℕ → Run ℕ
new_ip_for mac ip = do
  is_11 ← compare_macs (create_uniform_mac 0x11) mac
  is_22 ← compare_macs (create_uniform_mac 0x22) mac
  ok (if is_11 then create_ip 111 111 111 111 else if is_22 then create_ip 222 222 222 222 else ip)

-- The end of both cases of `run`: the message in the segment that came, back to the other port.
pub answer : DhcpServer → DhcpEntry → Ip → Udp → Dhcp → Mpdu
answer server entry packet segment message =
    encap_ip
      (encap_udp
        (record segment {
          source_port = bootp_server_port;
          destination_port = bootp_client_port;
          payload = dhcp_bytes message;
        })
        packet)
      (set_destination_mac entry.mac (set_source_mac server.gw_mac (new_mpdu 0)))

-- `case DHCP_DISCOVER` up to the offer: a client without an entry gets one.
pub discover : DhcpServer → List ℕ → DhcpEntry → Run (DhcpServer × DhcpEntry)
unfolding new_ip_for
discover server source_mac entry =
    if entry.current_opcode == dhcp_no_entry
    then (do
      ip ← new_ip_for source_mac entry.ip
      let entry' = record entry { mac = source_mac; ip = ip; current_opcode = dhcp_offer }
      ok (record server { table = server.table ++ entry' ∷ [] }, entry'))
    else ok (server, entry)

-- `case DHCP_REQUEST`: the message to answer with.
pub request : DhcpEntry → Dhcp → Dhcp
request entry message =
    if message.client_ip == entry.ip
    then record message { opcode = dhcp_ack }
    else record message { opcode = dhcp_nack; your_ip = entry.ip }

-- One round of `DHCPServer::run`, for a frame that `remove` returned: the new state and the frames
-- handed to `transmit`.
unfoldable pub serve : ℕ → DhcpServer → Mpdu → Run (DhcpServer × List Mpdu)
serve blank server rx_frame = do
  entry ← get_entry blank server.table rx_frame.source_mac
  (packet, segment) ← open_udp rx_frame
  message ← generate_dhcp segment.payload
  if message.opcode == dhcp_discover
      then (do
        (server', entry') ← discover server rx_frame.source_mac entry
        let offer = record message { opcode = dhcp_offer; your_ip = entry'.ip }
        let packet' = record packet {
          source_ip = server.gw_ip;
          destination_ip = create_broadcast_ip;
        }
        ok (server', answer server' entry' packet' segment offer ∷ []))
      else if message.opcode == dhcp_request
      then ok (server, answer server entry packet segment (request entry message) ∷ [])
      else ok (server, [])
