-- ===== src/TcpClient/Sends.antt =====
-- The whole run of the TCP client, from its SYN on.
use mathlib.Core.Path.{subst}
use network_simulation.Common.{
  ℕ, ◌+◌, ◌%◌, ◌^◌, ◌≤◌, ◌<◌, ◌≡◌, refl, sym, ap, ◌∙◌, inl, inr, false, List, [], ◌∷◌, ◌++◌, Run,
  ok, fault, length, length-append, All, arith,
}
use network_simulation.L4.{Tcp}
use network_simulation.L4.Stream.{
  IsStream, file_to_tcp_segments-IsStream, SameFields, file_to_tcp_segments-SameFields,
}
use network_simulation.L3.{Ip, new_ip, get_mac}
use network_simulation.L3.Codec.{FitsTcp}
use network_simulation.Pdu.{Mpdu}
use network_simulation.Host.{Host}
use network_simulation.Host.Resolve.{IsHost}
use network_simulation.Addressing.{create_broadcast_mac}
use network_simulation.Addressing.Macs.{mac_eq, is_broadcast-eq}
use network_simulation.L3.Cache.{get_mac-IsMac}
use network_simulation.TcpServer.Receive.{IsPiece}
use network_simulation.TcpServer.Transfer.{file_to_tcp_segments-IsPiece}
use network_simulation.TcpClient.{
  Client, Opening, send_segment, start_client, tcp_client, run_client, maximum_segment_bytes,
}
use network_simulation.TcpClient.Pieces.{Sendable, FrameOurs, Holds, send_segment-IsClient}
use network_simulation.TcpClient.Stages.{Stage, run_client-Stage}

-- The first SYN.
pub start_client-Stage :
    (file dest_mac : List ℕ) (h : Host) (this_port dest_ip dest_port : ℕ) (blank : Tcp) (pkt : Ip)
    (segs : List Tcp)
    → this_port < 2 ^ 16
    → dest_port < 2 ^ 16
    → h.ip < 2 ^ 32
    → dest_ip < 2 ^ 32
    → blank.receive_window < 2 ^ 16
    → blank.checksum < 2 ^ 16
    → All (Sendable file) segs
    → Stage file dest_mac (start_client h dest_mac this_port dest_ip dest_port blank pkt segs)
unfolding start_client
start_client-Stage file dest_mac h this_port dest_ip dest_port blank pkt segs tp dp ip dip win sum
      all =
    let syn : Tcp = record blank {
      details = 2;
      sequence_number = 0;
      ack_number = 0;
      source_port = this_port;
      destination_port = dest_port;
      payload = [];
    } in
    let w : Sendable file syn = record {
      fits = record {
        source_port = tp;
        destination_port = dp;
        sequence_number = omega arith;
        ack_number = omega arith;
        details = omega arith;
        receive_window = win;
        checksum = sum;
      };
      room = omega arith;
      small = omega arith;
      ours = inl refl;
    } in
    (
      send_segment-IsClient file dest_mac syn _ w (record {
        dest_mac = refl;
        ports = (tp, dp);
        header = unfold new_ip in record { header = refl; source = ip; destination = dip };
        current = w;
        segments = all;
        sent = tt;
      }),
      inl (unfold send_segment in refl),
    )

one-Sendable :
    (u : Tcp) (m : ℕ) (file : List ℕ) (s : Tcp)
    → FitsTcp u
    → m ≤ maximum_segment_bytes
    → length file + 1 < 2 ^ 32
    → length s.payload ≤ m
    → IsPiece file s
    → SameFields u s
    → Sendable file s
one-Sendable u m file s w room small l piece (a, b, c, d, e) =
    let size : length piece.before + length (s.payload ++ piece.after) ≡ length file =
      sym (length-append piece.before (s.payload ++ piece.after)) ∙ ap length piece.bytes in
    record {
      fits = record {
        source_port = rw a w.source_port;
        destination_port = rw b w.destination_port;
        sequence_number = omega (arith, piece.number);
        ack_number = rw c w.ack_number;
        details = elim piece.flags [ inl (flags, _) ↦ omega arith | inr (flags, _) ↦ omega arith ];
        receive_window = rw d w.receive_window;
        checksum = rw e w.checksum;
      };
      room = omega arith;
      small = omega arith;
      ours = inr piece;
    }

pub pieces-Sendable :
    (u : Tcp) (m sn : ℕ) (file bytes : List ℕ) (segs : List Tcp)
    → FitsTcp u
    → m ≤ maximum_segment_bytes
    → length file + 1 < 2 ^ 32
    → IsStream m sn segs bytes
    → All (IsPiece file) segs
    → All (SameFields u) segs
    → All (Sendable file) segs
pieces-Sendable u m sn file bytes [] w room small stream pieces same = tt
pieces-Sendable u m sn file bytes (s ∷ []) w room small (_, _, _, l, _) (piece, _) (f, _) =
    (one-Sendable u m file s w room small l piece f, tt)
pieces-Sendable u m sn file bytes (s ∷ t ∷ segs) w room small (_, _, _, l, rest, _, h) (piece, ps)
      (f, fs) =
    (
      one-Sendable u m file s w room small (omega arith) piece f,
      pieces-Sendable u m ((sn + length s.payload) % 2 ^ 32) file rest (t ∷ segs) w room small h ps
          fs,
    )

Stage-sent :
    (file mac : List ℕ) (r : Run Client)
    → Holds (Stage file mac) r
    → Holds (λ c. All (FrameOurs file mac) c.sent) r
Stage-sent file mac (ok c) (g, _) = g.sent
Stage-sent file mac fault h = tt

-- A client whose host has the MAC of the destination does not wait for ARP. Whatever frames its
-- socket hands out, every frame that it has sent, unless it has faulted, goes to that MAC, has at
-- most 1500 bytes, the MTU, and opens to a TCP segment that has no data or is a piece of the file:
-- the file's bytes from its sequence number on, with FIN at the end of the file only. The file is not
-- empty and has less than 2 ^ 31 bytes.
pub tcp_client_sends_the_file :
    (blank blank_segment : Tcp) (blank_packet : Ip) (file : List ℕ)
    (this_port dest_ip dest_port : ℕ)
    → (h : Host) (fs : List Mpdu)
    → FitsTcp
        (record blank { source_port = this_port; destination_port = dest_port; ack_number = 1 })
    → blank_segment.receive_window < 2 ^ 16
    → blank_segment.checksum < 2 ^ 16
    → IsHost h
    → dest_ip < 2 ^ 32
    → mac_eq (get_mac h.cache dest_ip) create_broadcast_mac ≡ false
    → 1 ≤ length file
    → length file < 2 ^ 31
    → (c : Client) × (tcp_client blank blank_segment blank_packet file this_port dest_ip dest_port h
        ≡ ok (Opening.opened c))
      × Holds (λ c'. All (FrameOurs file (get_mac h.cache dest_ip)) c'.sent) (run_client fs c)
unfolding tcp_client
tcp_client_sends_the_file blank seg pkt file tp dip dp h fs w win sum v i known some_bytes small =
    let (segs, cut, stream) =
      file_to_tcp_segments-IsStream blank file tp dp maximum_segment_bytes some_bytes small
        (omega arith) in
    let (segs', cut', pieces) =
      file_to_tcp_segments-IsPiece blank file tp dp maximum_segment_bytes some_bytes small
        (omega arith) in
    let same : segs' ≡ segs = cc (cut, cut') in
    let fields = file_to_tcp_segments-SameFields blank file tp dp maximum_segment_bytes segs cut in
    let all =
      pieces-Sendable _ maximum_segment_bytes 1 file file segs w (omega arith)
        (omega (arith, small)) stream (subst (All (IsPiece file)) same pieces) fields in
    let mac = get_mac h.cache dip in
    let c = start_client h mac tp dip dp seg pkt segs in
    (
      c,
      rw (cut, is_broadcast-eq mac (get_mac-IsMac h.cache dip v.cache), known),
      Stage-sent file mac (run_client fs c) (
          run_client-Stage file mac fs c (
            start_client-Stage file mac h tp dip dp seg pkt segs w.source_port w.destination_port
              v.ip i win sum all)),
    )
