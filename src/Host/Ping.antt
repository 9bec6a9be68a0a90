-- ===== src/Host/Ping.antt =====
-- A host answers an echo request that no socket takes.
use network_simulation.Common.{
  ℕ, ◌+◌, ◌^◌, ◌<◌, ◌≡◌, refl, ◌∙◌, false, true, List, [], ◌∷◌, ◌++◌, ok, length,
}
use network_simulation.L3.{
  Icmp, Ip, encap_icmp, new_ip, icmp_echo_request, icmp_echo_reply, ip_protocol_icmp,
}
use network_simulation.L3.Codec.{FitsIcmp}
use network_simulation.Pdu.{
  Mpdu, new_mpdu, new_socket, add_frame, open_icmp, encap_ip, set_source_mac, set_destination_mac,
}
use network_simulation.Pdu.Frames.{
  IsHeader, IsPacket, encap_icmp-IsPacket, open_icmp-encap_ip, generate_ip-encap_ip,
}
use network_simulation.Host.{
  Host, process_frame, process_ip, process_icmp_message, has_protocol, add_icmp, packet_to,
  frame_for, send_mpdu,
}

open_icmp_addressed :
    (source destination : List ℕ) (f : Mpdu)
    → open_icmp (set_destination_mac destination (set_source_mac source f)) ≡ open_icmp f
unfolding open_icmp set_destination_mac set_source_mac
open_icmp_addressed source destination f = refl

pub packet_to-IsHeader :
    (source destination : ℕ)
    → source < 2 ^ 32
    → destination < 2 ^ 32
    → IsHeader (packet_to source destination)
unfolding packet_to new_ip
packet_to-IsHeader source destination s d = record { header = refl; source = s; destination = d }

-- The answer to a message in a frame.
answer_frame : Mpdu → Ip → Icmp → Host → Mpdu
answer_frame f p m h =
    frame_for h.mac f.source_mac
      (encap_icmp (record m { icmp_type = icmp_echo_reply }) (packet_to h.ip p.source_ip))

answer_opens :
    (f : Mpdu) (p : Ip) (m : Icmp) (h : Host)
    → FitsIcmp m
    → IsHeader p
    → 20 + length m.payload < 2 ^ 16
    → h.ip < 2 ^ 32
    → open_icmp (answer_frame f p m h)
      ≡ ok (
        encap_icmp (record m { icmp_type = icmp_echo_reply }) (packet_to h.ip p.source_ip),
        record m { icmp_type = icmp_echo_reply },
      )
unfolding answer_frame frame_for
answer_opens f p m h w v room i =
    open_icmp_addressed h.mac f.source_mac _
    ∙ open_icmp-encap_ip (record m { icmp_type = icmp_echo_reply }) (packet_to h.ip p.source_ip)
        (new_mpdu 0)
        (record {
          checksum = w.checksum;
          identifier = w.identifier;
          sequence_number = w.sequence_number;
        })
        (packet_to-IsHeader h.ip p.source_ip i v.source) room

process_ip_icmp :
    (f : Mpdu) (p : Ip) (h : Host)
    → IsPacket p
    → p.protocol ≡ ip_protocol_icmp
    → has_protocol ip_protocol_icmp h.open_ports ≡ false
    → process_ip (encap_ip p f) h ≡ process_icmp_message (encap_ip p f) h
unfolding process_ip
process_ip_icmp f p h w proto free = rw (generate_ip-encap_ip p f w) (rw (proto, free))

destination-answer_frame :
    (f g : Mpdu) (p : Ip) (m : Icmp) (h : Host)
    → g.source_mac ≡ f.source_mac
    → (answer_frame g p m h).destination_mac ≡ f.source_mac
unfolding answer_frame frame_for set_destination_mac
destination-answer_frame f g p m h e = e

source-encap_ip : (p : Ip) (f : Mpdu) → (encap_ip p f).source_mac ≡ f.source_mac
unfolding encap_ip
source-encap_ip p f = refl

encap_icmp-IsHeader : (m : Icmp) (p : Ip) → IsHeader p → IsHeader (encap_icmp m p)
unfolding encap_icmp
encap_icmp-IsHeader m p h = record {
  header = h.header;
  source = h.source;
  destination = h.destination;
}

answer_ips :
    (m : Icmp) (source destination : ℕ)
    → ((encap_icmp m (packet_to source destination)).source_ip ≡ source)
      × ((encap_icmp m (packet_to source destination)).destination_ip ≡ destination)
unfolding encap_icmp packet_to
answer_ips m source destination = (refl, refl)

protocol-encap_icmp : (m : Icmp) (p : Ip) → (encap_icmp m p).protocol ≡ ip_protocol_icmp
unfolding encap_icmp
protocol-encap_icmp m p = refl

source-encap_icmp : (m : Icmp) (p : Ip) → (encap_icmp m p).source_ip ≡ p.source_ip
unfolding encap_icmp
source-encap_icmp m p = refl

process_icmp_message_request :
    (f : Mpdu) (p : Ip) (m : Icmp) (h : Host)
    → open_icmp f ≡ ok (p, m)
    → m.icmp_type ≡ icmp_echo_request
    → process_icmp_message f h ≡ ok (record h { sent = h.sent ++ answer_frame f p m h ∷ [] })
unfolding process_icmp_message answer_frame send_mpdu
process_icmp_message_request f p m h opens kind = rw (opens, kind)

pub process_frame_ip :
    (f : Mpdu) (p : Ip) (h : Host)
    → process_frame (encap_ip p f) h
      ≡ process_ip (encap_ip p f) (record h { rx_frame_count = h.rx_frame_count + 1 })
unfolding process_frame encap_ip
process_frame_ip f p h = refl

-- What the host does with an echo request.
pub ping_reply :
    (m : Icmp) (p : Ip) (f : Mpdu) (h : Host)
    → FitsIcmp m
    → IsHeader p
    → 20 + length m.payload < 2 ^ 16
    → m.icmp_type ≡ icmp_echo_request
    → has_protocol ip_protocol_icmp h.open_ports ≡ false
    → process_frame (encap_ip (encap_icmp m p) f) h
      ≡ ok (record h {
        rx_frame_count = h.rx_frame_count + 1;
        sent =
            h.sent
            ++ frame_for h.mac f.source_mac
                (encap_icmp (record m { icmp_type = icmp_echo_reply }) (packet_to h.ip p.source_ip))
              ∷ [];
      })
ping_reply m p f h w v room kind free =
    let q = encap_icmp m p in
    let counted : Host = record h { rx_frame_count = h.rx_frame_count + 1 } in
    process_frame_ip f q h
    ∙ process_ip_icmp f q counted (encap_icmp-IsPacket m p v room) (protocol-encap_icmp m p) free
    ∙ process_icmp_message_request (encap_ip q f) q m counted (open_icmp-encap_ip m p f w v room)
        kind
    ∙ unfold answer_frame encap_ip encap_icmp in refl

pub add_icmp-new_socket :
    (f : Mpdu) (port : ℕ)
    → add_icmp f (new_socket port ip_protocol_icmp ∷ [])
      ≡ add_frame f (new_socket port ip_protocol_icmp) ∷ []
unfolding add_icmp new_socket
add_icmp-new_socket f port = refl

-- With a socket for ICMP, every ICMP frame goes there.
pub icmp_to_sockets :
    (m : Icmp) (p : Ip) (f : Mpdu) (h : Host)
    → IsHeader p
    → 20 + length m.payload < 2 ^ 16
    → has_protocol ip_protocol_icmp h.open_ports ≡ true
    → process_frame (encap_ip (encap_icmp m p) f) h
      ≡ ok (record h {
        rx_frame_count = h.rx_frame_count + 1;
        open_ports = add_icmp (encap_ip (encap_icmp m p) f) h.open_ports;
      })
icmp_to_sockets m p f h v room taken =
    let q = encap_icmp m p in
    let counted : Host = record h { rx_frame_count = h.rx_frame_count + 1 } in
    process_frame_ip f q h
    ∙ to_sockets q f counted (encap_icmp-IsPacket m p v room) (protocol-encap_icmp m p) taken
  where
    to_sockets :
        (q : Ip) (f : Mpdu) (k : Host)
        → IsPacket q
        → q.protocol ≡ ip_protocol_icmp
        → has_protocol ip_protocol_icmp k.open_ports ≡ true
        → process_ip (encap_ip q f) k
          ≡ ok (record k { open_ports = add_icmp (encap_ip q f) k.open_ports })
    to_sockets q f k w proto taken =
        unfold process_ip in rw (generate_ip-encap_ip q f w) (rw (proto, taken))

-- An echo request in a frame, at a host with no ICMP socket: the host counts the frame and sends one
-- frame, back to the MAC that the request came from, with the same message as a reply, from the
-- host's IP to the IP of the request.
pub ping_answered :
    (m : Icmp) (p : Ip) (f : Mpdu) (h : Host)
    → FitsIcmp m
    → IsHeader p
    → 20 + length m.payload < 2 ^ 16
    → h.ip < 2 ^ 32
    → m.icmp_type ≡ icmp_echo_request
    → has_protocol ip_protocol_icmp h.open_ports ≡ false
    → (reply : Mpdu) × (packet : Ip) × (process_frame (encap_ip (encap_icmp m p) f) h
        ≡ ok (record h { rx_frame_count = h.rx_frame_count + 1; sent = h.sent ++ reply ∷ [] }))
      × (reply.destination_mac ≡ f.source_mac)
      × (open_icmp reply ≡ ok (packet, record m { icmp_type = icmp_echo_reply }))
      × (packet.source_ip ≡ h.ip)
      × (packet.destination_ip ≡ p.source_ip)
ping_answered m p f h w v room i kind free =
    let q = encap_icmp m p in
    let counted : Host = record h { rx_frame_count = h.rx_frame_count + 1 } in
    (
      answer_frame (encap_ip q f) q m counted,
      encap_icmp (record m { icmp_type = icmp_echo_reply }) (packet_to h.ip q.source_ip),
      process_frame_ip f q h
          ∙ process_ip_icmp f q counted (encap_icmp-IsPacket m p v room) (protocol-encap_icmp m p)
              free
          ∙ process_icmp_message_request (encap_ip q f) q m counted
              (open_icmp-encap_ip m p f w v room) kind,
      destination-answer_frame f (encap_ip q f) q m counted (source-encap_ip q f),
      answer_opens (encap_ip q f) q m counted w (encap_icmp-IsHeader m p v) room i,
      (answer_ips (record m { icmp_type = icmp_echo_reply }) h.ip q.source_ip).0,
      (answer_ips (record m { icmp_type = icmp_echo_reply }) h.ip q.source_ip).1
          ∙ source-encap_icmp m p,
    )
