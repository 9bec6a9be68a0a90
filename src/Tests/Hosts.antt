-- ===== src/Tests/Hosts.antt =====
-- Hosts: ARP, ping, sockets.
use network_simulation.Common.{
  ◌≤◌, ◌≡◌, ◌⊎◌, refl, false, none, some, List, [], ◌∷◌, ◌++◌, ok, if◌then◌else◌, ◌==◌, length,
  arith,
}
use network_simulation.Addressing.{create_broadcast_mac}
use network_simulation.L3.{encap_icmp, get_mac, encap_udp, arp_request}
use network_simulation.L3.Cache.{known}
use network_simulation.Pdu.{Mpdu, Socket, new_socket, encap_ip}
use network_simulation.Pdu.Arps.{arp_bytes}
use network_simulation.Host.{Host, send_request_arp, receive_arp, process_frame}
use network_simulation.Host.Resolve.{
  IsHost, arp_frame, reply_to, cache_after, receive_arp_lem, Sends, arp_resolves,
}
use network_simulation.Host.Demux.{Delivered, udp_goes_to_first_socket}
use network_simulation.Host.{demuxer}
use network_simulation.Host.Keeps.{Holds, Kept, demuxer-Kept}
use network_simulation.Host.Ports.{
  create_socket, delete_socket, in_use, create_socket_returns, in_use-delete_socket,
}
use network_simulation.Tests.Data.{
  blank_udp, echo_request, header_1_to_2, frame_11_to_22, arp_question, host_1, host_2, empty_queue,
}

host_1-IsHost : IsHost host_1
host_1-IsHost = record { mac = refl; ip = omega arith; cache = tt }

host_2-IsHost : IsHost host_2
host_2-IsHost = record { mac = refl; ip = omega arith; cache = tt }

receive_arp_lem_example :
    receive_arp (arp_bytes arp_question) host_2
    ≡ ok (
        if arp_question.target_ip == host_2.ip
        then record host_2 {
          cache = cache_after arp_question host_2.cache;
          sent =
              if arp_question.opcode == arp_request
              then host_2.sent
                ++ arp_frame (reply_to arp_question host_2) host_2.mac arp_question.sender_mac ∷ []
              else host_2.sent;
        }
        else host_2)
receive_arp_lem_example =
    receive_arp_lem arp_question host_2
      (record {
        opcode = omega arith;
        sender_mac = refl;
        sender_ip = omega arith;
        target_mac = refl;
        target_ip = omega arith;
      })
      host_2-IsHost

arp_resolves_example :
    (a' b' a'' : Host) × (query reply : Mpdu) × (send_request_arp host_2.ip host_1 ≡ ok a')
    × Sends host_1 a' query
    × (query.destination_mac ≡ create_broadcast_mac)
    × (receive_arp query.sdu host_2 ≡ ok b')
    × Sends host_2 b' reply
    × (reply.destination_mac ≡ host_1.mac)
    × (get_mac b'.cache host_1.ip ≡ host_1.mac)
    × (receive_arp reply.sdu a' ≡ ok a'')
    × (a''.sent ≡ a'.sent)
    × (get_mac a''.cache host_2.ip ≡ host_2.mac)
arp_resolves_example =
    arp_resolves host_1 host_2 host_1-IsHost host_2-IsHost (unfold known in refl)
      (unfold known in refl)

-- A host with two UDP sockets, on ports 66 and 67.
abbrev socket_66 : Socket
socket_66 = record { port = 66; protocol = 17; rx_queue = empty_queue }

abbrev socket_67 : Socket
socket_67 = record { port = 67; protocol = 17; rx_queue = empty_queue }

abbrev listening_host : Host
listening_host = record host_2 { open_ports = socket_66 ∷ socket_67 ∷ [] }

udp_goes_to_first_socket_example :
    (ports : List Socket) × (process_frame
        (encap_ip (encap_udp blank_udp header_1_to_2) frame_11_to_22)
        listening_host
      ≡ ok (record listening_host { rx_frame_count = 1; open_ports = ports }))
    × Delivered
        (encap_ip (encap_udp blank_udp header_1_to_2) frame_11_to_22)
        67
        (socket_66 ∷ socket_67 ∷ [])
        ports
udp_goes_to_first_socket_example =
    udp_goes_to_first_socket blank_udp header_1_to_2 frame_11_to_22 listening_host
      (record {
        source_port = omega arith;
        destination_port = omega arith;
        udp_length = omega arith;
        checksum = omega arith;
      })
      (record { header = refl; source = omega arith; destination = omega arith }) (omega arith)

create_socket_returns_example :
    ((listening_host.open_ports ≡ [])
      × (h' : Host) × (create_socket 100 5000 17 listening_host ≡ some (new_socket 5000 17, h'))
      × (delete_socket 5000 h' ≡ listening_host))
    ⊎ ((1 ≤ length listening_host.open_ports) × (create_socket 100 5000 17 listening_host ≡ none))
create_socket_returns_example = create_socket_returns 100 5000 17 listening_host

deleted_port :
    in_use 66 (delete_socket 67 listening_host).open_ports
    ≡ (if 66 == 67 then false else in_use 66 listening_host.open_ports)
deleted_port = in_use-delete_socket listening_host 67 66

demuxer-Kept_example :
    Holds
      (Kept host_2)
      (demuxer (encap_ip (encap_icmp echo_request header_1_to_2) frame_11_to_22) host_2)
demuxer-Kept_example =
    demuxer-Kept (encap_ip (encap_icmp echo_request header_1_to_2) frame_11_to_22) host_2
      host_2-IsHost
