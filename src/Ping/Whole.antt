-- ===== src/Ping/Whole.antt =====
-- A whole ping, from the request for the MAC on.
use mathlib.Core.Path.{subst}
use network_simulation.Common.{
  ℕ, zero, suc, ◌+◌, ◌^◌, ◌<◌, ◌≡◌, refl, sym, true, false, List, [], ◌==◌, ==_iff, length, arith,
}
use network_simulation.L3.{ip_protocol_icmp}
use network_simulation.Host.{Host}
use network_simulation.Host.Ports.{delete_socket-only}
use network_simulation.Ping.{Pinger, PingPhase, send_ping, on_reply}
use network_simulation.Ping.Answers.{IsPeer}
use network_simulation.Ping.Rounds.{
  Rounds, IsPinging, send_ping-IsPinging, one-Round, encap_icmp-IsHeader, received, reply_message,
}

-- The end of the loop.
record Ends (p p' : Pinger) : Type 0 where
  phase : p'.phase ≡ PingPhase.finished
  closed : p'.host.open_ports ≡ []
  attempts : p'.transmission_attempts ≡ p.transmission_attempts
  receptions : p'.receptions ≡ p.receptions + 1

-- Its next round.
record GoesOn (mac : List ℕ) (left : ℕ) (p p' : Pinger) : Type 0 where
  pinging : IsPinging mac p'
  attempts : p'.transmission_attempts ≡ p.transmission_attempts + 1
  receptions : p'.receptions ≡ p.receptions + 1
  left_over : p'.check_count ≡ left

on_reply-Ends :
    (p : Pinger) → p.port ≡ 7 → p.check_count ≡ 0 → Ends p (on_reply (reply_message p) (received p))
unfolding on_reply received
on_reply-Ends p port left =
    let same : (p.ping_to_send.identifier == p.ping_to_send.identifier) ≡ true =
      (==_iff _ _).1 refl in
    rw (same, left)
      (record {
        phase = refl;
        closed = rw port (delete_socket-only 7 ip_protocol_icmp _ refl);
        attempts = refl;
        receptions = refl;
      })

on_reply-GoesOn :
    (mac : List ℕ) (k : ℕ) (p : Pinger)
    → IsPinging mac p
    → p.check_count ≡ suc k
    → suc k < 2 ^ 32
    → GoesOn mac k p (on_reply (reply_message p) (received p))
unfolding on_reply received
on_reply-GoesOn mac k p g left small =
    let same : (p.ping_to_send.identifier == p.ping_to_send.identifier) ≡ true =
      (==_iff _ _).1 refl in
    let some_left : (p.check_count == 0) ≡ false = ground (arith, left) in
    rw (same, some_left)
      (record {
        pinging = send_ping-IsPinging mac _ (record {
          own_mac = g.own_mac;
          socket = refl;
          port = g.port;
          to = g.to;
          fits = g.fits;
          kind = g.kind;
          header = rw g.current (encap_icmp-IsHeader p.ping_to_send g.packet g.header);
        });
        attempts = unfold send_ping in refl;
        receptions = unfold send_ping in refl;
        left_over = unfold send_ping in omega (arith, left, small);
      })

-- From a request on its way to the end of the loop.
pub Rounds-complete :
    (k : ℕ) (p : Pinger) (b : Host)
    → IsPeer b
    → IsPinging b.mac p
    → p.check_count ≡ k
    → k < 2 ^ 32
    → (p' : Pinger) × (b' : Host) × Rounds (suc k) p b p' b'
      × (p'.phase ≡ PingPhase.finished)
      × (p'.host.open_ports ≡ [])
      × (p'.transmission_attempts ≡ p.transmission_attempts + k)
      × (p'.receptions ≡ p.receptions + suc k)
      × (length b'.sent ≡ length b.sent + suc k)
Rounds-complete zero p b v g left small =
    let (b', round, _, _, more) = one-Round p b v g in
    let e = on_reply-Ends p g.port left in
    (
      on_reply (reply_message p) (received p),
      b',
      (on_reply (reply_message p) (received p), b', round, (refl, refl)),
      e.phase,
      e.closed,
      omega (arith, e.attempts),
      omega (arith, e.receptions),
      omega (arith, more),
    )
Rounds-complete (suc k) p b v g left small =
    let (b1, round, v1, same, more) = one-Round p b v g in
    let p1 = on_reply (reply_message p) (received p) in
    let n = on_reply-GoesOn b.mac k p g left small in
    let (p', b', rounds, phase, closed, attempts, receptions, sent) =
      Rounds-complete k p1 b1 v1 (subst (λ mac. IsPinging mac p1) (sym same) n.pinging) n.left_over
        (omega arith) in
    (
      p',
      b',
      (p1, b1, round, rounds),
      phase,
      closed,
      omega (arith, attempts, n.attempts),
      omega (arith, receptions, n.receptions),
      omega (arith, sent, more),
    )
