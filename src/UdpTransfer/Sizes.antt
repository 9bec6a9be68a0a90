-- ===== src/UdpTransfer/Sizes.antt =====
-- How long the frames of `UDP_client` are.
use network_simulation.Common.{
  ℕ, suc, ◌+◌, ◌*◌, ◌^◌, ◌≤◌, ◌<◌, ◌≡◌, sym, ap, ◌∙◌, false, List, [], ◌∷◌, ◌++◌, map, ok, length,
  length-append, replicate, arith,
}
use network_simulation.Addressing.{create_broadcast_mac}
use network_simulation.Addressing.Macs.{mac_eq, is_broadcast-eq}
use network_simulation.L4.{Udp, segment_eof}
use network_simulation.L4.Datagrams.{
  IsDatagrams, file_to_udp_segments-IsDatagrams, file_to_udp_segments-SameHeader,
}
use network_simulation.L3.{get_mac}
use network_simulation.L3.Codec.{FitsUdp}
use network_simulation.L3.Cache.{get_mac-IsMac}
use network_simulation.Pdu.{Mpdu, get_size}
use network_simulation.Host.{Host, packet_to}
use network_simulation.Host.Ping.{packet_to-IsHeader}
use network_simulation.Host.Resolve.{IsHost}
use network_simulation.UdpTransfer.{maximum_payload_bytes, ClientState, udp_client}
use network_simulation.UdpTransfer.Sending.{send_segments_lem}
use network_simulation.UdpTransfer.Delivery.{Sendable-of}

-- `k` full datagrams, and one with `r` bytes of the file and the end mark.
datagram_sizes :
    (m : ℕ) (segs : List Udp) (bytes : List ℕ)
    → IsDatagrams m segs bytes
    → (k r : ℕ) × (length bytes ≡ m * k + r)
      × (1 ≤ r)
      × (r ≤ m)
      × (map (λ s. 32 + length s.payload) segs ≡ replicate k (32 + m) ++ (33 + r) ∷ [])
datagram_sizes m [] bytes d = absurd d
datagram_sizes m (s ∷ []) bytes (l, k, e) =
    let size : length s.payload ≡ length bytes + 1 =
      ap length e ∙ length-append bytes (segment_eof ∷ []) in
    let shown : 32 + length s.payload ≡ 33 + length bytes = omega arith in
    (0, length bytes, omega arith, l, k, ap (λ (n : ℕ). n ∷ []) shown)
datagram_sizes m (s ∷ t ∷ segs) bytes (l, full, rest, e, d) =
    let (k, r, total, one, most, sizes) = datagram_sizes m (t ∷ segs) rest d in
    let whole : length bytes ≡ length s.payload + length rest =
      sym (ap length e) ∙ length-append s.payload rest in
    (suc k, r, grind arith, one, most, cc (sizes, full))

-- A host that has the MAC of the destination sends a file of `1468 * k + r` bytes, less than 2 ^ 31,
-- with `r` from 1 to 1468, in `k` frames of 1500 bytes, the MTU, and one last frame of `33 + r` bytes; so no frame has
-- more than 1501 bytes, and the last one exceeds the MTU, by its end mark, exactly where `r` is 1468.
pub udp_frame_sizes :
    (blank : Udp) (file : List ℕ) (this_port dest_ip dest_port : ℕ) (h : Host)
    → FitsUdp (record blank { source_port = this_port; destination_port = dest_port; payload = [] })
    → IsHost h
    → dest_ip < 2 ^ 32
    → mac_eq (get_mac h.cache dest_ip) create_broadcast_mac ≡ false
    → 1 ≤ length file
    → length file < 2 ^ 31
    → (fs : List Mpdu) × (k r : ℕ) × (udp_client blank file this_port dest_ip dest_port h
        ≡ ok (ClientState.finished (record h { sent = h.sent ++ fs })))
      × (length file ≡ 1468 * k + r)
      × (1 ≤ r)
      × (r ≤ 1468)
      × (map get_size fs ≡ replicate k 1500 ++ (33 + r) ∷ [])
unfolding udp_client
udp_frame_sizes blank file this_port dest_ip dest_port h w v i known some_bytes small =
    let (segs, cut, d) =
      file_to_udp_segments-IsDatagrams blank file this_port dest_port maximum_payload_bytes
        some_bytes small (omega arith) in
    let same =
      file_to_udp_segments-SameHeader blank file this_port dest_port maximum_payload_bytes segs
        cut in
    let (fs, run, _, _, sizes) =
      send_segments_lem segs (get_mac h.cache dest_ip) (packet_to h.ip dest_ip) h
        (packet_to-IsHeader h.ip dest_ip v.ip i)
        (Sendable-of _ maximum_payload_bytes segs file w (omega arith) same d) in
    let (k, r, total, one, most, shown) = datagram_sizes maximum_payload_bytes segs file d in
    (
      fs,
      k,
      r,
      rw (
        cut,
        is_broadcast-eq (get_mac h.cache dest_ip) (get_mac-IsMac h.cache dest_ip v.cache),
        known,
        run,
      ),
      total,
      one,
      most,
      sizes ∙ shown,
    )
