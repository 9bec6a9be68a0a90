-- ===== src/Dhcp/Serve.antt =====
-- What a client gets from the server for a discover and for a request.
use network_simulation.Common.{
  ℕ, ◌^◌, ◌<◌, ◌≡◌, refl, ◌∙◌, none, some, inl, inr, List, [], ◌∷◌, ◌++◌, ok, if◌then◌else◌, ◌==◌,
  Option-cases, arith,
}
use network_simulation.Addressing.{create_broadcast_ip}
use network_simulation.Addressing.Macs.{IsMac, mac_eq, mac_eq_iff}
use network_simulation.L4.{Udp}
use network_simulation.L3.{Ip}
use network_simulation.Pdu.{Mpdu}
use network_simulation.Dhcp.{
  Dhcp, DhcpEntry, DhcpServer, discover, request, answer, serve, dhcp_discover, dhcp_offer,
  dhcp_request, dhcp_ack, dhcp_nack,
}
use network_simulation.Dhcp.Messages.{Carries, FitsDhcp, IsQuery, answer-Carries}
use network_simulation.Dhcp.Leases.{
  held, IsLeases, or_else, get_entry-eq, held-some, held-append, append-IsLeases, address_for,
  new_ip_for-eq, address_for-lt,
}

-- The address that a discover from `mac` is answered with.
unfoldable pub offered : ℕ → DhcpServer → List ℕ → ℕ
offered blank server mac = elim (held server.table mac) [
  | some e ↦ e.ip
  | none ↦ address_for blank mac
]

-- The entry that the client has afterwards.
unfoldable pub lease : ℕ → DhcpServer → List ℕ → DhcpEntry
lease blank server mac = record {
  mac = mac;
  ip = offered blank server mac;
  current_opcode = dhcp_offer;
}

lease_new :
    (blank : ℕ) (server : DhcpServer) (mac : List ℕ)
    → held server.table mac ≡ none
    → lease blank server mac
      ≡ record { mac = mac; ip = address_for blank mac; current_opcode = dhcp_offer }
unfolding lease offered
lease_new blank server mac new = rw (new, offered)

lease_old :
    (blank : ℕ) (server : DhcpServer) (mac : List ℕ) (e : DhcpEntry)
    → IsLeases server.table
    → held server.table mac ≡ some e
    → lease blank server mac ≡ e
unfolding lease offered
lease_old blank server mac e t old =
    rw (old, offered) (ground (arith, held-some server.table mac e t old))

pub offered-lt :
    (blank : ℕ) (server : DhcpServer) (mac : List ℕ)
    → blank < 2 ^ 32
    → IsLeases server.table
    → offered blank server mac < 2 ^ 32
unfolding offered
offered-lt blank server mac b t = elim (Option-cases (held server.table mac)) [
  | inl new ↦ rw (new, offered) (address_for-lt blank mac b)
  | inr (e, old) ↦ rw (old, offered) ((held-some server.table mac e t old).2)
]

discover_lem :
    (blank : ℕ) (server : DhcpServer) (mac : List ℕ)
    → blank < 2 ^ 32
    → IsLeases server.table
    → IsMac mac
    → (server' : DhcpServer) × (discover server mac
          (or_else (held server.table mac) (record { mac = []; ip = blank; current_opcode = 0 }))
        ≡ ok (server', lease blank server mac))
      × (server'.gw_mac ≡ server.gw_mac)
      × IsLeases server'.table
      × ((x : List ℕ)
          → held server'.table x
            ≡ (if mac_eq x mac then some (lease blank server mac) else held server.table x))
unfolding discover
discover_lem blank server mac b t h = elim (Option-cases (held server.table mac)) [
  | inl new ↦
      let e : DhcpEntry = record { mac = mac; ip = address_for blank mac; current_opcode = 2 } in
      (
        record server { table = server.table ++ e ∷ [] },
        rw (new, new_ip_for-eq mac blank h, lease_new blank server mac new),
        refl,
        append-IsLeases server.table e t h refl (address_for-lt blank mac b) new,
        λ x. held-append server.table e x ∙ rw (lease_new blank server mac new),
      )
  | inr (e, old) ↦
      let (m, o, i) = held-some server.table mac e t old in
      let same = lease_old blank server mac e t old in
      (
        server,
        rw (old, same) (ground (arith, o)),
        refl,
        t,
        λ x. rw same (ground (arith, mac_eq_iff x mac, old)),
      )
]

-- A discover is answered by one offer, addressed to the client and sent from the gateway to the
-- broadcast address. It offers the address of the client's entry, or that of a new entry; afterwards
-- the client has that entry, the other clients have what they had, and the table is well formed.
pub serve_discover :
    (blank : ℕ) (server : DhcpServer) (f : Mpdu) (p : Ip) (s : Udp) (m : Dhcp)
    → blank < 2 ^ 32
    → server.gw_ip < 2 ^ 32
    → IsLeases server.table
    → IsMac f.source_mac
    → IsQuery f p s m
    → m.opcode ≡ dhcp_discover
    → let ip = offered blank server f.source_mac in
      (server' : DhcpServer) × (reply : Mpdu) × (serve blank server f ≡ ok (server', reply ∷ []))
      × Carries server.gw_mac f.source_mac
          (record p { source_ip = server.gw_ip; destination_ip = create_broadcast_ip })
          (record { opcode = dhcp_offer; client_ip = m.client_ip; your_ip = ip })
          reply
      × IsLeases server'.table
      × ((x : List ℕ)
          → held server'.table x ≡ (
              if mac_eq x f.source_mac
              then some (lease blank server f.source_mac)
              else held server.table x))
unfolding serve lease
serve_discover blank server f p s m b g t h q o =
    let (server', run, gw, leases, maps) = discover_lem blank server f.source_mac b t h in
    let offer : Dhcp = record {
      opcode = dhcp_offer;
      client_ip = m.client_ip;
      your_ip = offered blank server f.source_mac;
    } in
    let packet : Ip = record p { source_ip = server.gw_ip; destination_ip = create_broadcast_ip } in
    (
      server',
      answer server' (lease blank server f.source_mac) packet s offer,
      simp (get_entry-eq blank server.table f.source_mac h t, q.opens, q.message, o, run),
      rw gw at (
          answer-Carries server' (lease blank server f.source_mac) packet s offer f.source_mac refl
            (record { header = q.header.header; source = g; destination = omega arith }) q.segment
            (record {
              client_ip = q.fits.client_ip;
              your_ip = offered-lt blank server f.source_mac b t;
            })),
      leases,
      maps,
    )

request-FitsDhcp : (e : DhcpEntry) (m : Dhcp) → e.ip < 2 ^ 32 → FitsDhcp m → FitsDhcp (request e m)
unfolding request
request-FitsDhcp e m i w = record {
  client_ip = ground (arith, w.client_ip);
  your_ip = ground (arith, w.your_ip);
}

-- A request of a client that has an entry changes nothing and is answered by one message, addressed
-- to the client: an ACK that repeats the client's message if it asks for the address of its entry,
-- and otherwise a NACK with the address of the entry.
pub serve_request :
    (blank : ℕ) (server : DhcpServer) (f : Mpdu) (p : Ip) (s : Udp) (m : Dhcp) (e : DhcpEntry)
    → IsLeases server.table
    → IsMac f.source_mac
    → IsQuery f p s m
    → m.opcode ≡ dhcp_request
    → held server.table f.source_mac ≡ some e
    → (reply : Mpdu) × (serve blank server f ≡ ok (server, reply ∷ []))
      × Carries server.gw_mac f.source_mac p
          (if m.client_ip == e.ip
            then record m { opcode = dhcp_ack }
            else record m { opcode = dhcp_nack; your_ip = e.ip })
          reply
unfolding serve request
serve_request blank server f p s m e t h q o old =
    let (mac, offer, ip) = held-some server.table f.source_mac e t old in
    (
      answer server e p s (request e m),
      simp (get_entry-eq blank server.table f.source_mac h t, old, q.opens, q.message, o),
      answer-Carries server e p s (request e m) f.source_mac mac q.header q.segment
          (request-FitsDhcp e m ip q.fits),
    )
