-- ===== src/Ping/Answers.antt =====
-- A ping request at the host that it is for, and the answer on its way into the socket of `ping`.
use network_simulation.Common.{
  ℕ, ◌+◌, ◌^◌, ◌<◌, ◌≡◌, refl, ◌∙◌, true, false, some, List, [], ◌∷◌, ◌++◌, ok, length,
}
use network_simulation.Addressing.Macs.{IsMac, mac_eq, mac_eq_iff, compare_macs-eq}
use network_simulation.L3.{
  Icmp, Ip, encap_icmp, icmp_echo_reply, icmp_echo_request, ip_protocol_icmp,
}
use network_simulation.L3.Codec.{FitsIcmp}
use network_simulation.Pdu.{
  Mpdu, new_mpdu, new_socket, encap_ip, get_frame, set_source_mac, set_destination_mac, add_frame,
}
use network_simulation.Pdu.Frames.{IsHeader}
use network_simulation.WQueue
use network_simulation.Host.{Host, demuxer, process_frame, frame_for, packet_to, has_protocol}
use network_simulation.Host.Ping.{ping_reply, add_icmp-new_socket, icmp_to_sockets}

-- A host that can be pinged.
pub record IsPeer (b : Host) : Type 0 where
  pub mac : IsMac b.mac
  pub ip : b.ip < 2 ^ 32
  pub free : has_protocol ip_protocol_icmp b.open_ports ≡ false

-- A frame for the host itself.
demuxer_mine :
    (f : Mpdu) (h : Host)
    → IsMac h.mac
    → f.destination_mac ≡ h.mac
    → demuxer f h ≡ process_frame f h
unfolding demuxer
demuxer_mine f h v e =
    let this : mac_eq h.mac h.mac ≡ true = (mac_eq_iff h.mac h.mac).1 refl in
    rw (e, compare_macs-eq h.mac h.mac v v, this) refl

abbrev pub addressed : List ℕ → List ℕ → Mpdu
addressed source destination = set_destination_mac destination (set_source_mac source (new_mpdu 0))

pub frame_for-encap :
    (source destination : List ℕ) (p : Ip)
    → frame_for source destination p ≡ encap_ip p (addressed source destination)
unfolding frame_for encap_ip set_source_mac set_destination_mac
frame_for-encap source destination p = refl

addressed_macs :
    (source destination : List ℕ)
    → ((addressed source destination).source_mac ≡ source)
      × ((addressed source destination).destination_mac ≡ destination)
unfolding set_source_mac set_destination_mac
addressed_macs source destination = (refl, refl)

destination-encap_ip : (p : Ip) (f : Mpdu) → (encap_ip p f).destination_mac ≡ f.destination_mac
unfolding encap_ip
destination-encap_ip p f = refl

-- The request at the peer.
pub peer_answers :
    (m : Icmp) (p : Ip) (source : List ℕ) (b : Host)
    → IsPeer b
    → FitsIcmp m
    → IsHeader p
    → 20 + length m.payload < 2 ^ 16
    → m.icmp_type ≡ icmp_echo_request
    → demuxer (frame_for source b.mac (encap_icmp m p)) b
      ≡ ok (record b {
        rx_frame_count = b.rx_frame_count + 1;
        sent =
            b.sent
            ++ frame_for b.mac source
                (encap_icmp (record m { icmp_type = icmp_echo_reply }) (packet_to b.ip p.source_ip))
              ∷ [];
      })
peer_answers m p source b v w h room kind =
    let f = addressed source b.mac in
    rw (frame_for-encap source b.mac (encap_icmp m p)) (
      demuxer_mine (encap_ip (encap_icmp m p) f) b v.mac
        (destination-encap_ip (encap_icmp m p) f ∙ (addressed_macs source b.mac).1)
      ∙ ping_reply m p f b w h room kind v.free
      ∙ rw (addressed_macs source b.mac).0 refl)

-- The answer at the host.
pub answer_arrives :
    (m : Icmp) (p : Ip) (source : List ℕ) (h : Host)
    → IsMac h.mac
    → IsHeader p
    → 20 + length m.payload < 2 ^ 16
    → h.open_ports ≡ new_socket 7 ip_protocol_icmp ∷ []
    → demuxer (frame_for source h.mac (encap_icmp m p)) h
      ≡ ok (record h {
        rx_frame_count = h.rx_frame_count + 1;
        open_ports =
            add_frame (frame_for source h.mac (encap_icmp m p)) (new_socket 7 ip_protocol_icmp)
            ∷ [];
      })
answer_arrives m p source h v w room socket =
    let f = addressed source h.mac in
    rw (frame_for-encap source h.mac (encap_icmp m p)) (
      demuxer_mine (encap_ip (encap_icmp m p) f) h v
        (destination-encap_ip (encap_icmp m p) f ∙ (addressed_macs source h.mac).1)
      ∙ icmp_to_sockets m p f h w room (rw socket (unfold has_protocol new_socket in refl))
      ∙ rw (socket, add_icmp-new_socket (encap_ip (encap_icmp m p) f) 7) refl)

-- The socket of `ping` holds the answer and nothing else.
pub handed_out :
    (f : Mpdu)
    → get_frame (add_frame f (new_socket 7 ip_protocol_icmp))
      ≡ ok (some f, new_socket 7 ip_protocol_icmp)
unfolding get_frame add_frame new_socket WQueue.new_wqueue WQueue.add WQueue.remove
handed_out f = refl
