-- ===== src/Program/Requests.antt =====
-- The ARP request of a host of test.cpp, at the gateway, which the switch sends it to as well.
use mathlib.Core.Path.{subst}
use network_simulation.Common.{◌^◌, ◌<◌, ◌≡◌, refl, sym, ◌∙◌, inl, All, fault}
use network_simulation.Addressing.{create_broadcast_mac}
use network_simulation.Pdu.Arps.{encap_arp_lem}
use network_simulation.Host.{Host}
use network_simulation.Host.Resolve.{IsHost, arp_frame, request_for, request_for-FitsArp}
use network_simulation.Host.Asked.{Asked}
use network_simulation.Gateway
use network_simulation.Gateway.{Gateway}
use network_simulation.Gateway.Arp.{run_faults_on_arp}

pub request_stops_gateway :
    (a b : Host) (q : Asked a b) (g : Gateway)
    → IsHost a
    → b.ip < 2 ^ 32
    → All (λ x. x < 256) a.mac
    → Gateway.run q.query g ≡ fault
unfolding arp_frame request_for
request_stops_gateway a b q g v i bytes =
    let m = request_for b.ip a in
    let fits = request_for-FitsArp b.ip a i v in
    let f = arp_frame m a.mac create_broadcast_mac in
    let (h, made, stops) = run_faults_on_arp m f g fits (inl refl) bytes in
    let same : h ≡ f = cc (made, encap_arp_lem m f fits) in
    subst (λ x. Gateway.run x g ≡ fault) (same ∙ sym q.query_frame) stops
