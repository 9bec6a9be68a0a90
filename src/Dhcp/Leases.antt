-- ===== src/Dhcp/Leases.antt =====
-- The server's table: one entry to a client, and what a client gets for a discover or a request.
use network_simulation.Common.{
  ℕ, ◌^◌, ◌<◌, ◌≡◌, refl, Option, none, some, List, [], ◌∷◌, ◌++◌, ok, if◌then◌else◌, arith,
}
use network_simulation.Addressing.{create_uniform_mac, create_ip}
use network_simulation.Addressing.Macs.{IsMac, mac_eq, mac_eq_iff, compare_macs-eq, uniform-IsMac}
use network_simulation.Dhcp.{DhcpEntry, get_entry_from, get_entry, new_ip_for, dhcp_offer}

-- The entry of a client, the last one if there were several.
unfoldable pub held : List DhcpEntry → List ℕ → Option DhcpEntry
held [] mac = none
held (e ∷ es) mac = elim (held es mac) [
  | some e' ↦ some e'
  | none ↦ if mac_eq mac e.mac then some e else none
]

-- One entry to a client, for an offered address.
abbrev pub IsLeases : List DhcpEntry → Type 0
IsLeases [] = Unit
IsLeases (e ∷ es) =
    IsMac e.mac
    × (e.current_opcode ≡ dhcp_offer)
    × (e.ip < 2 ^ 32)
    × (held es e.mac ≡ none)
    × IsLeases es

abbrev pub or_else : Option DhcpEntry → DhcpEntry → DhcpEntry
or_else none d = d
or_else (some e) d = e

get_entry_from-eq :
    (table : List DhcpEntry) (mac : List ℕ) (result : DhcpEntry)
    → IsMac mac
    → IsLeases table
    → get_entry_from table mac result ≡ ok (or_else (held table mac) result)
unfolding get_entry_from held
get_entry_from-eq [] mac result h t = refl
get_entry_from-eq (e ∷ es) mac result h t =
    rw
      (
        compare_macs-eq mac e.mac h t.0,
        get_entry_from-eq es mac (if mac_eq mac e.mac then e else result) h t.4,
      )
      (ground arith)

pub get_entry-eq :
    (blank : ℕ) (table : List DhcpEntry) (mac : List ℕ)
    → IsMac mac
    → IsLeases table
    → get_entry blank table mac
      ≡ ok (or_else (held table mac) (record { mac = []; ip = blank; current_opcode = 0 }))
unfolding get_entry
get_entry-eq blank table mac h t = get_entry_from-eq table mac _ h t

-- What an entry in the table satisfies.
pub held-some :
    (table : List DhcpEntry) (mac : List ℕ) (e : DhcpEntry)
    → IsLeases table
    → held table mac ≡ some e
    → (e.mac ≡ mac) × (e.current_opcode ≡ dhcp_offer) × (e.ip < 2 ^ 32)
unfolding held
held-some [] mac e t h = cc
held-some (x ∷ xs) mac e t h =
    ground (arith, held-some xs mac e t.4, mac_eq_iff mac x.mac, t.1, t.2)

pub held-append :
    (table : List DhcpEntry) (e : DhcpEntry) (mac : List ℕ)
    → held (table ++ e ∷ []) mac ≡ (if mac_eq mac e.mac then some e else held table mac)
unfolding held
held-append [] e mac = ground arith
held-append (x ∷ xs) e mac = rw (held-append xs e mac) (ground arith)

pub append-IsLeases :
    (table : List DhcpEntry) (e : DhcpEntry)
    → IsLeases table
    → IsMac e.mac
    → e.current_opcode ≡ dhcp_offer
    → e.ip < 2 ^ 32
    → held table e.mac ≡ none
    → IsLeases (table ++ e ∷ [])
unfolding held
append-IsLeases [] e t m o i n = (m, o, i, refl, tt)
append-IsLeases (x ∷ xs) e t m o i n = ground (
  arith,
  t,
  append-IsLeases xs e t.4 m o i,
  held-append xs e x.mac,
  mac_eq_iff e.mac x.mac,
  mac_eq_iff x.mac e.mac,
)

-- The address that the server hands to a new client.
unfoldable pub address_for : ℕ → List ℕ → ℕ
address_for blank mac =
    if mac_eq (create_uniform_mac 0x11) mac
    then create_ip 111 111 111 111
    else if mac_eq (create_uniform_mac 0x22) mac
    then create_ip 222 222 222 222
    else blank

pub new_ip_for-eq :
    (mac : List ℕ) (blank : ℕ) → IsMac mac → new_ip_for mac blank ≡ ok (address_for blank mac)
unfolding new_ip_for address_for
new_ip_for-eq mac blank h = rw (
  compare_macs-eq (create_uniform_mac 0x11) mac (uniform-IsMac 0x11) h,
  compare_macs-eq (create_uniform_mac 0x22) mac (uniform-IsMac 0x22) h,
)

pub address_for-lt : (blank : ℕ) (mac : List ℕ) → blank < 2 ^ 32 → address_for blank mac < 2 ^ 32
unfolding address_for create_ip
address_for-lt blank mac h = ground arith
