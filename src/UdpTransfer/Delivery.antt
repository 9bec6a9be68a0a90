-- ===== src/UdpTransfer/Delivery.antt =====
-- A file from `UDP_client` to `UDP_server`, over a network that keeps every datagram and their order.
use mathlib.Core.List.{append_assoc}
use mathlib.Core.Path.{subst}
use network_simulation.Common.{
  ℕ, ◌+◌, ◌^◌, ◌≤◌, ◌<◌, ◌≡◌, ◌≢◌, refl, sym, ap, ◌∙◌, true, false, List, [], ◌∷◌, ◌++◌, ok, length,
  length-append, All, All-split, arith,
}
use network_simulation.Addressing.{create_broadcast_mac}
use network_simulation.Addressing.Macs.{mac_eq, is_broadcast-eq}
use network_simulation.L4.{Udp, segment_eof, file_to_udp_segments}
use network_simulation.L4.Datagrams.{
  IsDatagrams, file_to_udp_segments-IsDatagrams, SameHeader, file_to_udp_segments-SameHeader,
}
use network_simulation.L3.{Ip, get_mac}
use network_simulation.L3.Codec.{FitsUdp}
use network_simulation.L3.Cache.{get_mac-IsMac}
use network_simulation.Pdu.{Mpdu, open_udp}
use network_simulation.Host.{Host, packet_to}
use network_simulation.Host.Ping.{packet_to-IsHeader}
use network_simulation.Host.Resolve.{IsHost}
use network_simulation.UdpTransfer.{
  maximum_payload_bytes, ClientState, udp_client, UdpServer, new_udp_server, unsnoc, udp_server,
  udp_server_run, send_segments,
}
use network_simulation.UdpTransfer.Sending.{CarryUdp, Sendable, send_segments_lem}

unsnoc-snoc : (xs : List ℕ) (x : ℕ) → unsnoc (xs ++ x ∷ []) ≡ ok (xs, x)
unfolding unsnoc
unsnoc-snoc [] x = refl
unsnoc-snoc (y ∷ []) x = refl
unsnoc-snoc (y ∷ z ∷ xs) x = rw (unsnoc-snoc (z ∷ xs) x)

-- What `back` gives for a payload that is not empty.
unsnoc_some :
    (x : ℕ) (xs : List ℕ)
    → (before : List ℕ) × (last : ℕ) × (unsnoc (x ∷ xs) ≡ ok (before, last))
      × (before ++ last ∷ [] ≡ x ∷ xs)
unfolding unsnoc
unsnoc_some x [] = ([], x, refl, refl)
unsnoc_some x (y ∷ xs) =
    let (before, last, e, whole) = unsnoc_some y xs in (x ∷ before, last, rw e, ap (◌∷◌ x) whole)

-- No chunk of the file that fills a datagram ends with the end mark.
abbrev pub Plain : List ℕ → Type 0
Plain = All (λ b. b ≢ segment_eof)

last-Plain : (before : List ℕ) (last : ℕ) → Plain (before ++ last ∷ []) → last ≢ segment_eof
last-Plain [] last (h, _) = h
last-Plain (x ∷ before) last (_, h) = last-Plain before last h

-- A datagram that does not end with the end mark is written, and the server goes on.
udp_server_more :
    (f : Mpdu) (p : Ip) (seg : Udp) (x : ℕ) (xs : List ℕ) (s : UdpServer)
    → s.host_eof_reached ≡ false
    → open_udp f ≡ ok (p, seg)
    → seg.payload ≡ x ∷ xs
    → Plain (x ∷ xs)
    → udp_server f s ≡ ok (record s { written = s.written ++ seg.payload })
unfolding udp_server
udp_server_more f p seg x xs s go opens shape plain =
    let (before, last, e, whole) = unsnoc_some x xs in
    let more : last ≢ segment_eof = last-Plain before last (rw whole plain) in
    rw (go, opens, shape, e) (ground arith)

-- A datagram that ends with the end mark is written without it, and the server ends.
udp_server_last :
    (f : Mpdu) (p : Ip) (seg : Udp) (bytes : List ℕ) (s : UdpServer)
    → s.host_eof_reached ≡ false
    → open_udp f ≡ ok (p, seg)
    → seg.payload ≡ bytes ++ segment_eof ∷ []
    → udp_server f s ≡ ok (record { host_eof_reached = true; written = s.written ++ bytes })
unfolding udp_server
udp_server_last f p seg bytes s go opens shape =
    rw (go, opens, shape, unsnoc-snoc bytes segment_eof)

cons_of : (xs : List ℕ) → 1 ≤ length xs → (x : ℕ) × (ys : List ℕ) × (xs ≡ x ∷ ys)
cons_of [] h = absurd (omega arith)
cons_of (x ∷ xs) h = (x, xs, refl)

-- The server gets the datagrams of a file in order.
udp_server_run_stream :
    (m : ℕ) (segs : List Udp) (fs : List Mpdu) (rest : List ℕ) (s : UdpServer)
    → s.host_eof_reached ≡ false
    → IsDatagrams m segs rest
    → CarryUdp fs segs
    → Plain rest
    → udp_server_run fs s ≡ ok (record { host_eof_reached = true; written = s.written ++ rest })
unfolding udp_server_run
udp_server_run_stream m [] fs rest s go d c plain = absurd d
udp_server_run_stream m (x ∷ []) [] rest s go d c plain = absurd c
udp_server_run_stream m (x ∷ y ∷ segs) [] rest s go d c plain = absurd c
udp_server_run_stream m (x ∷ []) (f ∷ []) rest s go (l, k, b) ((p, opens), c) plain =
    rw (udp_server_last f p x rest s go opens b)
udp_server_run_stream m (x ∷ []) (f ∷ g ∷ fs) rest s go d c plain = absurd c.1
udp_server_run_stream m (x ∷ y ∷ segs) (f ∷ fs) rest s go (l, k, rest', b, d) ((p, opens), c)
      plain =
    let (v, vs, shape) = cons_of x.payload l in
    let (here, there) =
      All-split (λ b. b ≢ segment_eof) x.payload rest' (subst Plain (sym b) plain) in
    rw (udp_server_more f p x v vs s go opens shape (subst Plain shape here)) (
      udp_server_run_stream m (y ∷ segs) fs rest' (record s { written = s.written ++ x.payload }) go
        d c there
      ∙ rw (append_assoc, b))

pub Sendable-of :
    (u : Udp) (m : ℕ) (segs : List Udp) (bytes : List ℕ)
    → FitsUdp u
    → 21 + m < 2 ^ 16
    → All (SameHeader u) segs
    → IsDatagrams m segs bytes
    → All Sendable segs
Sendable-of u m [] bytes w room same d = tt
Sendable-of u m (s ∷ []) bytes w room ((a, b, c, e), same) (l, k, p) =
    let size : length s.payload ≡ length bytes + 1 =
      ap length p ∙ length-append bytes (segment_eof ∷ []) in
    (
      (
        record {
          source_port = rw a w.source_port;
          destination_port = rw b w.destination_port;
          udp_length = rw c w.udp_length;
          checksum = rw e w.checksum;
        },
        omega arith,
      ),
      tt,
    )
Sendable-of u m (s ∷ t ∷ segs) bytes w room ((a, b, c, e), same) (l, k, rest, p, d) = (
  (
    record {
      source_port = rw a w.source_port;
      destination_port = rw b w.destination_port;
      udp_length = rw c w.udp_length;
      checksum = rw e w.checksum;
    },
    omega arith,
  ),
  Sendable-of u m (t ∷ segs) rest w room same d,
)

-- The segments that a host sends to some MAC, and what a server gets from them.
pub sent_segments :
    (blank : Udp) (file mac : List ℕ) (this_port dest_ip dest_port : ℕ) (h : Host)
    → FitsUdp (record blank { source_port = this_port; destination_port = dest_port; payload = [] })
    → h.ip < 2 ^ 32
    → dest_ip < 2 ^ 32
    → 1 ≤ length file
    → length file < 2 ^ 31
    → Plain file
    → (segs : List Udp) × (fs : List Mpdu) × (file_to_udp_segments blank file this_port dest_port
          maximum_payload_bytes
        ≡ ok segs)
      × (send_segments segs mac (packet_to h.ip dest_ip) h ≡ record h { sent = h.sent ++ fs })
      × All (λ f. f.destination_mac ≡ mac) fs
      × (udp_server_run fs new_udp_server ≡ ok (record { host_eof_reached = true; written = file }))
sent_segments blank file mac this_port dest_ip dest_port h w hip i some_bytes small plain =
    let (segs, cut, d) =
      file_to_udp_segments-IsDatagrams blank file this_port dest_port maximum_payload_bytes
        some_bytes small (omega arith) in
    let same =
      file_to_udp_segments-SameHeader blank file this_port dest_port maximum_payload_bytes segs
        cut in
    let (fs, run, carry, to, _) =
      send_segments_lem segs mac (packet_to h.ip dest_ip) h (packet_to-IsHeader h.ip dest_ip hip i)
        (Sendable-of _ maximum_payload_bytes segs file w (omega arith) same d) in
    (
      segs,
      fs,
      cut,
      run,
      to,
      udp_server_run_stream maximum_payload_bytes segs fs file new_udp_server refl d carry plain,
    )

-- A host that has the MAC of the destination sends a file that is not empty, has less than
-- 2 ^ 31 bytes and no byte 0xFF, to that MAC alone; a server that gets those frames in order ends, with the file written whole.
pub udp_delivers :
    (blank : Udp) (file : List ℕ) (this_port dest_ip dest_port : ℕ) (h : Host)
    → FitsUdp (record blank { source_port = this_port; destination_port = dest_port; payload = [] })
    → IsHost h
    → dest_ip < 2 ^ 32
    → mac_eq (get_mac h.cache dest_ip) create_broadcast_mac ≡ false
    → 1 ≤ length file
    → length file < 2 ^ 31
    → Plain file
    → (fs : List Mpdu) × (udp_client blank file this_port dest_ip dest_port h
        ≡ ok (ClientState.finished (record h { sent = h.sent ++ fs })))
      × All (λ f. f.destination_mac ≡ get_mac h.cache dest_ip) fs
      × (udp_server_run fs new_udp_server ≡ ok (record { host_eof_reached = true; written = file }))
unfolding udp_client
udp_delivers blank file this_port dest_ip dest_port h w v i known some_bytes small plain =
    let (segs, fs, cut, run, to, gets) =
      sent_segments blank file (get_mac h.cache dest_ip) this_port dest_ip dest_port h w v.ip i
        some_bytes small plain in
    (
      fs,
      rw (
        cut,
        is_broadcast-eq (get_mac h.cache dest_ip) (get_mac-IsMac h.cache dest_ip v.cache),
        known,
        run,
      ),
      to,
      gets,
    )
