-- ===== src/Host/Asked.antt =====
-- An ARP request and its answer, through the `demuxer` of either host.
use network_simulation.Common.{
  ℕ, ◌+◌, ◌≡◌, refl, ◌∙◌, true, false, List, [], ◌∷◌, ◌++◌, ok, Bool-cases, inl, inr, arith,
}
use network_simulation.Addressing.{create_broadcast_mac}
use network_simulation.Addressing.Macs.{
  IsMac, mac_eq, mac_eq_iff, compare_macs-eq, is_broadcast-eq, broadcast-IsMac,
}
use network_simulation.L3.{Arp, get_mac, arp_request, arp_reply}
use network_simulation.L3.Cache.{known}
use network_simulation.Pdu.{Mpdu}
use network_simulation.Pdu.Arps.{FitsArp, arp_bytes}
use network_simulation.Host.{Host, demuxer, process_frame, receive_arp, send_request_arp}
use network_simulation.Host.Resolve.{
  IsHost, arp_frame, cache_after, reply_to, reply_to-FitsArp, request_for, request_for-FitsArp,
  receive_arp_lem, send_request_arp_lem, cache_after_new, Sends,
}

-- The host `a` has asked for the MAC of `b`, and has it.
pub record Asked (a b : Host) : Type 0 where
  pub a' : Host
  pub a'' : Host
  pub b' : Host
  pub query : Mpdu
  pub reply : Mpdu
  pub query_frame : query ≡ arp_frame (request_for b.ip a) a.mac create_broadcast_mac
  pub query_way : (query.source_mac ≡ a.mac) × (query.destination_mac ≡ create_broadcast_mac)
  pub reply_way : (reply.source_mac ≡ b.mac) × (reply.destination_mac ≡ a.mac)
  pub asks : send_request_arp b.ip a ≡ ok a'
  pub made : Sends a a' query
  pub taken : demuxer query b ≡ ok b'
  pub answered : Sends b b' reply
  pub arrived : demuxer reply a' ≡ ok a''
  pub cache : a'.cache ≡ a.cache
  pub found : get_mac a''.cache b.ip ≡ b.mac
  pub same_a :
      (a''.mac ≡ a.mac) × (a''.ip ≡ a.ip) × (a''.open_ports ≡ a.open_ports) × (a''.sent ≡ a'.sent)
  pub same_b : (b'.mac ≡ b.mac) × (b'.ip ≡ b.ip) × (b'.open_ports ≡ b.open_ports)

counted : Host → Host
counted h = record h { rx_frame_count = h.rx_frame_count + 1 }

process_frame_arp :
    (m : Arp) (source destination : List ℕ) (h : Host)
    → process_frame (arp_frame m source destination) h ≡ receive_arp (arp_bytes m) (counted h)
unfolding process_frame arp_frame counted
process_frame_arp m source destination h = refl

-- A broadcast is for every host.
demuxer_broadcast :
    (m : Arp) (source : List ℕ) (h : Host)
    → IsMac h.mac
    → demuxer (arp_frame m source create_broadcast_mac) h ≡ receive_arp (arp_bytes m) (counted h)
demuxer_broadcast m source h v =
    let all : mac_eq create_broadcast_mac create_broadcast_mac ≡ true = (mac_eq_iff _ _).1 refl in
    unfold demuxer in
    rw (process_frame_arp m source create_broadcast_mac h) (
      unfold arp_frame in
      elim (Bool-cases (mac_eq create_broadcast_mac h.mac)) [
        | inl mine ↦ rw (compare_macs-eq create_broadcast_mac h.mac broadcast-IsMac v, mine) refl
        | inr other ↦
            rw
              (
                compare_macs-eq create_broadcast_mac h.mac broadcast-IsMac v,
                other,
                is_broadcast-eq create_broadcast_mac broadcast-IsMac,
                all,
              )
              refl
      ])

demuxer_own :
    (m : Arp) (source : List ℕ) (h : Host)
    → IsMac h.mac
    → demuxer (arp_frame m source h.mac) h ≡ receive_arp (arp_bytes m) (counted h)
demuxer_own m source h v =
    let mine : mac_eq h.mac h.mac ≡ true = (mac_eq_iff _ _).1 refl in
    unfold demuxer in
    rw (process_frame_arp m source h.mac h)
      (unfold arp_frame in rw (compare_macs-eq h.mac h.mac v v, mine) refl)

counted-IsHost : (h : Host) → IsHost h → IsHost (counted h)
unfolding counted
counted-IsHost h v = record { mac = v.mac; ip = v.ip; cache = v.cache }

-- A request for a host makes it answer.
request_answered :
    (m : Arp) (h : Host)
    → FitsArp m
    → IsHost h
    → m.target_ip ≡ h.ip
    → m.opcode ≡ arp_request
    → receive_arp (arp_bytes m) h
      ≡ ok (record h {
        cache = cache_after m h.cache;
        sent = h.sent ++ arp_frame (reply_to m h) h.mac m.sender_mac ∷ [];
      })
request_answered m h w v mine kind = receive_arp_lem m h w v ∙ ground (arith, mine, kind)

reply_learned :
    (m : Arp) (h : Host)
    → FitsArp m
    → IsHost h
    → m.target_ip ≡ h.ip
    → m.opcode ≡ arp_reply
    → receive_arp (arp_bytes m) h ≡ ok (record h { cache = cache_after m h.cache })
reply_learned m h w v mine kind = receive_arp_lem m h w v ∙ ground (arith, mine, kind)

pub asked : (a b : Host) → IsHost a → IsHost b → known a.cache b.ip ≡ false → Asked a b
asked a b va vb new =
    let ask = request_for b.ip a in
    let answer = reply_to ask (counted b) in
    let fits_ask = request_for-FitsArp b.ip a vb.ip va in
    let fits_answer = reply_to-FitsArp ask (counted b) fits_ask (counted-IsHost b vb) in
    let query = arp_frame ask a.mac create_broadcast_mac in
    let reply = arp_frame answer b.mac a.mac in
    let a' : Host = record a { sent = a.sent ++ query ∷ [] } in
    let va' : IsHost a' = record { mac = va.mac; ip = va.ip; cache = va.cache } in
    record {
      a' = a';
      a'' = record (counted a') { cache = cache_after answer a.cache };
      b' = record (counted b) { cache = cache_after ask b.cache; sent = b.sent ++ reply ∷ [] };
      query = query;
      reply = reply;
      query_frame = refl;
      query_way = unfold arp_frame in (refl, refl);
      reply_way = unfold arp_frame in (refl, refl);
      asks = send_request_arp_lem b.ip a vb.ip va;
      made = refl;
      taken =
          demuxer_broadcast ask a.mac b vb.mac
          ∙ request_answered ask (counted b) fits_ask (counted-IsHost b vb)
              (unfold request_for counted in refl) (unfold request_for in refl)
          ∙ unfold counted request_for in refl;
      answered = refl;
      arrived =
          demuxer_own answer b.mac a' va.mac
          ∙ reply_learned answer (counted a') fits_answer (counted-IsHost a' va')
              (unfold reply_to request_for counted in refl) (unfold reply_to in refl)
          ∙ unfold counted in refl;
      cache = refl;
      found =
          unfold reply_to counted request_for in
          cache_after_new (unfold reply_to counted in answer) a.cache new;
      same_a = unfold counted in (refl, refl, refl, refl);
      same_b = unfold counted in (refl, refl, refl);
    }
