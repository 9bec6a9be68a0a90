-- ===== src/Host/Resolve.antt =====
-- An ARP exchange between two hosts.
use network_simulation.Common.{
  ℕ, ◌^◌, ◌<◌, ◌≡◌, refl, ◌∙◌, true, false, List, [], ◌∷◌, ◌++◌, ok, if◌then◌else◌, ◌==◌, arith,
  ==_iff,
}
use network_simulation.Addressing.{create_broadcast_mac, create_uniform_mac, compare_ips}
use network_simulation.Addressing.Macs.{IsMac, mac_eq, mac_eq_iff, is_broadcast-eq, uniform-IsMac}
use network_simulation.L3.{Arp, ArpCache, get_mac, add_entry, arp_request, arp_reply}
use network_simulation.L3.Cache.{IsCache, known, get_mac-IsMac, get_mac_unknown, get_mac-add_entry}
use network_simulation.Pdu.{Mpdu, new_mpdu, set_source_mac, set_destination_mac, mpdu_arp_type}
use network_simulation.Pdu.Arps.{FitsArp, arp_bytes, encap_arp_lem, generate_arp-arp_bytes}
use network_simulation.Host.{Host, send_mpdu, send_arp, send_request_arp, learn, receive_arp}

pub record IsHost (h : Host) : Type 0 where
  pub mac : IsMac h.mac
  pub ip : h.ip < 2 ^ 32
  pub cache : IsCache h.cache

-- The frame of an ARP message.
unfoldable pub arp_frame : Arp → List ℕ → List ℕ → Mpdu
arp_frame a source destination = record {
  source_mac = source;
  destination_mac = destination;
  sdu_type = mpdu_arp_type;
  sdu = arp_bytes a;
}

send_arp_lem :
    (a : Arp) (destination : List ℕ) (h : Host)
    → FitsArp a
    → send_arp a destination h
      ≡ ok (record h { sent = h.sent ++ arp_frame a h.mac destination ∷ [] })
unfolding send_arp send_mpdu arp_frame new_mpdu set_source_mac set_destination_mac
send_arp_lem a destination h w =
    rw (encap_arp_lem a (set_destination_mac destination (set_source_mac h.mac (new_mpdu 0))) w)

-- The cache after a message for this host.
unfoldable pub cache_after : Arp → ArpCache → ArpCache
cache_after a c =
    if mac_eq (get_mac c a.sender_ip) create_broadcast_mac
    then add_entry c a.sender_ip a.sender_mac
    else c

pub learn_lem :
    (a : Arp) (h : Host) → IsHost h → learn a h ≡ ok (record h { cache = cache_after a h.cache })
unfolding learn cache_after
learn_lem a h w =
    rw (is_broadcast-eq (get_mac h.cache a.sender_ip) (get_mac-IsMac h.cache a.sender_ip w.cache))
      (ground arith)

-- The reply to a request for this host.
unfoldable pub reply_to : Arp → Host → Arp
reply_to a h = record {
  opcode = arp_reply;
  sender_mac = h.mac;
  sender_ip = h.ip;
  target_mac = a.sender_mac;
  target_ip = a.sender_ip;
}

pub reply_to-FitsArp : (a : Arp) (h : Host) → FitsArp a → IsHost h → FitsArp (reply_to a h)
unfolding reply_to
reply_to-FitsArp a h w v = record {
  opcode = omega arith;
  sender_mac = v.mac;
  sender_ip = v.ip;
  target_mac = w.sender_mac;
  target_ip = w.sender_ip;
}

-- What a host does with an ARP message that fits its fields: nothing if another host is the target;
-- otherwise it fills its cache, and answers a request with one reply to the sender.
pub receive_arp_lem :
    (a : Arp) (h : Host)
    → FitsArp a
    → IsHost h
    → receive_arp (arp_bytes a) h
      ≡ ok (
          if a.target_ip == h.ip
          then record h {
            cache = cache_after a h.cache;
            sent =
                if a.opcode == arp_request
                then h.sent ++ arp_frame (reply_to a h) h.mac a.sender_mac ∷ []
                else h.sent;
          }
          else h)
unfolding receive_arp compare_ips reply_to
receive_arp_lem a h w v =
    rw
      (
        generate_arp-arp_bytes a w,
        learn_lem a h v,
        send_arp_lem (reply_to a h) a.sender_mac (record h { cache = cache_after a h.cache })
            (reply_to-FitsArp a h w v),
      )
      (ground arith)

-- The request that `send_request_arp` makes.
unfoldable pub request_for : ℕ → Host → Arp
request_for requested_ip h = record {
  opcode = arp_request;
  sender_mac = h.mac;
  sender_ip = h.ip;
  target_mac = create_uniform_mac 0;
  target_ip = requested_ip;
}

pub request_for-FitsArp : (ip : ℕ) (h : Host) → ip < 2 ^ 32 → IsHost h → FitsArp (request_for ip h)
unfolding request_for
request_for-FitsArp ip h i v = record {
  opcode = omega arith;
  sender_mac = v.mac;
  sender_ip = v.ip;
  target_mac = uniform-IsMac 0;
  target_ip = i;
}

pub send_request_arp_lem :
    (ip : ℕ) (h : Host)
    → ip < 2 ^ 32
    → IsHost h
    → send_request_arp ip h
      ≡ ok (record h {
        sent = h.sent ++ arp_frame (request_for ip h) h.mac create_broadcast_mac ∷ [];
      })
unfolding send_request_arp
send_request_arp_lem ip h i v =
    unfold request_for in
    send_arp_lem
      (record {
        opcode = arp_request;
        sender_mac = h.mac;
        sender_ip = h.ip;
        target_mac = create_uniform_mac 0;
        target_ip = ip;
      })
      create_broadcast_mac h (unfold request_for in request_for-FitsArp ip h i v)

pub cache_after_new :
    (a : Arp) (c : ArpCache)
    → known c a.sender_ip ≡ false
    → get_mac (cache_after a c) a.sender_ip ≡ a.sender_mac
unfolding cache_after
cache_after_new a c new =
    let same : (a.sender_ip == a.sender_ip) ≡ true = (==_iff _ _).1 refl in
    let self : mac_eq create_broadcast_mac create_broadcast_mac ≡ true = (mac_eq_iff _ _).1 refl in
    rw (get_mac_unknown c a.sender_ip new, self, get_mac-add_entry, new, same)

-- The frame that a host has sent last.
abbrev pub Sends : Host → Host → Mpdu → Type 0
Sends h h' f = h'.sent ≡ h.sent ++ f ∷ []

-- A host asks for the MAC of another, and neither has an entry for the other: the request is
-- broadcast, the other host answers the asking host alone and has its MAC, and the asking host sends
-- nothing for the answer and has the MAC of the other.
pub arp_resolves :
    (a b : Host)
    → IsHost a
    → IsHost b
    → known a.cache b.ip ≡ false
    → known b.cache a.ip ≡ false
    → (a' b' a'' : Host) × (query reply : Mpdu) × (send_request_arp b.ip a ≡ ok a')
      × Sends a a' query
      × (query.destination_mac ≡ create_broadcast_mac)
      × (receive_arp query.sdu b ≡ ok b')
      × Sends b b' reply
      × (reply.destination_mac ≡ a.mac)
      × (get_mac b'.cache a.ip ≡ a.mac)
      × (receive_arp reply.sdu a' ≡ ok a'')
      × (a''.sent ≡ a'.sent)
      × (get_mac a''.cache b.ip ≡ b.mac)
unfolding arp_frame request_for reply_to
arp_resolves a b va vb new fresh =
    let ask = request_for b.ip a in
    let answer = reply_to ask b in
    let fits_ask = request_for-FitsArp b.ip a vb.ip va in
    let fits_answer = reply_to-FitsArp ask b fits_ask vb in
    let query = arp_frame ask a.mac create_broadcast_mac in
    let reply = arp_frame answer b.mac a.mac in
    let a' : Host = record a { sent = a.sent ++ query ∷ [] } in
    (
      a',
      record b { cache = cache_after ask b.cache; sent = b.sent ++ reply ∷ [] },
      record a' { cache = cache_after answer a.cache },
      query,
      reply,
      send_request_arp_lem b.ip a vb.ip va,
      refl,
      refl,
      receive_arp_lem ask b fits_ask vb ∙ ground arith,
      refl,
      refl,
      cache_after_new ask b.cache fresh,
      receive_arp_lem answer a' fits_answer (record { mac = va.mac; ip = va.ip; cache = va.cache })
          ∙ ground arith,
      refl,
      cache_after_new answer a.cache new,
    )
