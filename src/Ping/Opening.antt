-- ===== src/Ping/Opening.antt =====
-- A whole ping, from the request for the MAC on.
use mathlib.Core.Path.{subst}
use network_simulation.Common.{
  ℕ, suc, ◌+◌, ◌-◌, ◌%◌, ◌^◌, ◌≤◌, ◌<◌, ◌≡◌, refl, ap, ◌∙◌, true, false, List, [], ◌∷◌, ok, length,
  length-append, arith,
}
use network_simulation.Addressing.{create_broadcast_mac, in_subnet, is_broadcast}
use network_simulation.Addressing.Macs.{IsMac, mac_eq, mac_eq_iff, is_broadcast-eq, broadcast-IsMac}
use network_simulation.L3.{Icmp, ip_protocol_icmp, icmp_echo_request, get_mac}
use network_simulation.L3.Cache.{known, get_mac_unknown}
use network_simulation.Pdu.{new_socket}
use network_simulation.Host.{Host, has_protocol, packet_to}
use network_simulation.Host.Resolve.{IsHost}
use network_simulation.Host.Asked.{Asked, asked}
use network_simulation.Host.Ping.{packet_to-IsHeader}
use network_simulation.Host.Ports.{create_socket-first}
use network_simulation.Ping.{Pinger, PingPhase, PingStart, send_ping, start_ping, poll_cache, ping}
use network_simulation.Ping.Answers.{IsPeer}
use network_simulation.Ping.Rounds.{Rounds, IsPinging, send_ping-IsPinging}
use network_simulation.Ping.Whole.{Rounds-complete}

-- The state at the first request.
record Started (mac : List ℕ) (count : ℕ) (p : Pinger) : Type 0 where
  pinging : IsPinging mac p
  attempts : p.transmission_attempts ≡ 1
  receptions : p.receptions ≡ 0
  left : p.check_count ≡ (count + (2 ^ 32 - 1)) % 2 ^ 32

start_ping-Started :
    (fuel : ℕ) (blank : Icmp) (rand ip count : ℕ) (mac : List ℕ) (h : Host)
    → h.open_ports ≡ []
    → IsMac h.mac
    → h.ip < 2 ^ 32
    → ip < 2 ^ 32
    → blank.checksum < 2 ^ 16
    → (p : Pinger) × (start_ping fuel blank rand ip count mac h ≡ PingStart.pinging p)
      × Started mac count p
start_ping-Started fuel blank rand ip count mac h closed v hip dip sum =
    let p : Pinger = record {
      host = record h { open_ports = new_socket 7 ip_protocol_icmp ∷ [] };
      destination_mac = mac;
      port = 7;
      ping_to_send = record blank {
        icmp_type = icmp_echo_request;
        identifier = rand % 65536;
        sequence_number = 0;
        payload = [];
      };
      ip_to_send = packet_to h.ip ip;
      transmission_attempts = 0;
      receptions = 0;
      check_count = count;
      phase = PingPhase.waiting;
    } in
    (
      send_ping p,
      unfold start_ping new_socket in
          rw (create_socket-first fuel 7 ip_protocol_icmp h closed, start_ping) refl,
      record {
        pinging = send_ping-IsPinging mac p (record {
          own_mac = v;
          socket = refl;
          port = refl;
          to = refl;
          fits = record { checksum = sum; identifier = omega arith; sequence_number = omega arith };
          kind = refl;
          header = packet_to-IsHeader h.ip ip hip dip;
        });
        attempts = unfold send_ping in omega arith;
        receptions = unfold send_ping in refl;
        left = unfold send_ping in refl;
      },
    )

-- A ping that does not know the MAC asks for it, and polls the cache.
ping_asks :
    (fuel : ℕ) (blank : Icmp) (rand count : ℕ) (a b : Host)
    → (q : Asked a b) → known a.cache b.ip ≡ false
    → in_subnet a.ip b.ip a.netmask ≡ true
    → ping fuel blank rand b.ip count a ≡ ok (PingStart.resolving q.a')
unfolding ping poll_cache
ping_asks fuel blank rand count a b q new near =
    let all : mac_eq create_broadcast_mac create_broadcast_mac ≡ true = (mac_eq_iff _ _).1 refl in
    rw
      (
        near,
        get_mac_unknown a.cache b.ip new,
        is_broadcast-eq create_broadcast_mac broadcast-IsMac,
        all,
        q.asks,
        q.cache,
        get_mac_unknown a.cache b.ip new,
        is_broadcast-eq create_broadcast_mac broadcast-IsMac,
        all,
      )
      refl

-- A host that does not know the MAC of another of its subnet pings it `count` times. It asks for the
-- MAC, and with the answer the loop that polls the cache ends. Then each of `count` rounds is one
-- request, one answer of the other host to it, and its way through the socket of `ping` back to the
-- loop; after them `ping` has ended, its port is closed, and it counts `count` transmissions and
-- `count` receptions. The other host has an own MAC that is not the broadcast one, and no socket for
-- ICMP; the pinging host has no open port, and `count` is at least 1.
pub ping_completes :
    (fuel : ℕ) (blank : Icmp) (rand count : ℕ) (a b : Host)
    → IsHost a
    → IsHost b
    → known a.cache b.ip ≡ false
    → mac_eq b.mac create_broadcast_mac ≡ false
    → in_subnet a.ip b.ip a.netmask ≡ true
    → a.open_ports ≡ []
    → has_protocol ip_protocol_icmp b.open_ports ≡ false
    → blank.checksum < 2 ^ 16
    → 1 ≤ count
    → count < 2 ^ 31
    → (q : Asked a b) × (ping fuel blank rand b.ip count a ≡ ok (PingStart.resolving q.a'))
      × (p p' : Pinger) × (b'' : Host) × (poll_cache fuel blank rand b.ip count q.a''
          ≡ ok (PingStart.pinging p))
      × Rounds count p q.b' p' b''
      × (p'.phase ≡ PingPhase.finished)
      × (p'.host.open_ports ≡ [])
      × (p'.transmission_attempts ≡ count)
      × (p'.receptions ≡ count)
      × (length b''.sent ≡ length b.sent + 1 + count)
ping_completes fuel blank rand count a b va vb new real near closed free sum some_pings small =
    let q = asked a b va vb new in
    let (mac, ip, ports, _) = q.same_a in
    let (mac', ip', ports') = q.same_b in
    let (p, started, s) =
      start_ping-Started fuel blank rand b.ip count b.mac q.a'' (ports ∙ closed) (rw mac va.mac)
        (rw ip va.ip) vb.ip sum in
    let known_now : is_broadcast (get_mac q.a''.cache b.ip) ≡ ok false =
      rw q.found (is_broadcast-eq b.mac vb.mac ∙ ap ok real) in
    let peer : IsPeer q.b' = record {
      mac = rw mac' vb.mac;
      ip = rw ip' vb.ip;
      free = rw ports' free;
    } in
    let (p', b'', rounds, phase, ended, attempts, receptions, sent) =
      Rounds-complete (count - 1) p q.b' peer (rw mac' s.pinging) (s.left ∙ omega arith)
        (omega arith) in
    let all : suc (count - 1) ≡ count = omega arith in
    (
      q,
      ping_asks fuel blank rand count a b q new near,
      p,
      p',
      b'',
      unfold poll_cache in rw (known_now, q.found, started) refl,
      subst (λ k. Rounds k p q.b' p' b'') all rounds,
      phase,
      ended,
      omega (arith, attempts, s.attempts),
      omega (arith, receptions, s.receptions),
      omega (arith, sent, ap length q.answered, length-append b.sent (q.reply ∷ [])),
    )
