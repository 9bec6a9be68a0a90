-- ===== src/Program/Addresses.antt =====
-- The addresses that the hosts of test.cpp get are those that their drivers are told.
use mathlib.Core.Path.{subst}
use network_simulation.Common.{ℕ, ◌^◌, ◌<◌, ◌≡◌, refl, ap, ◌∙◌, sym, none, List, [], arith}
use network_simulation.Addressing.{create_uniform_mac, create_ip}
use network_simulation.Addressing.Macs.{mac_eq, IsMac, uniform-IsMac}
use network_simulation.Pdu.{Mpdu}
use network_simulation.Dhcp.{DhcpServer}
use network_simulation.L4.{Udp}
use network_simulation.L3.{Ip}
use network_simulation.Drivers.Acquires.{Acquires, host-Acquires}
use network_simulation.Dhcp.Leases.{held, IsLeases, address_for}
use network_simulation.Dhcp.Serve.{offered}
use network_simulation.Host.{Host, new_host}
use network_simulation.Host.Resolve.{IsHost}
use network_simulation.Program.{alice_ip, bob_ip}

pub offered_alice :
    (blank : ℕ) (server : DhcpServer)
    → held server.table (create_uniform_mac 0x11) ≡ none
    → offered blank server (create_uniform_mac 0x11) ≡ alice_ip
unfolding offered address_for create_uniform_mac create_ip mac_eq
offered_alice blank server new = rw (new, offered) refl

pub offered_bob :
    (blank : ℕ) (server : DhcpServer)
    → held server.table (create_uniform_mac 0x22) ≡ none
    → offered blank server (create_uniform_mac 0x22) ≡ bob_ip
unfolding offered address_for create_uniform_mac create_ip mac_eq
offered_bob blank server new = rw (new, offered) refl

-- A host of the test that has got its address. Its netmask is what was in its memory, and it has no
-- router.
pub record IsReady (host_memory ip : ℕ) (mac : List ℕ) (h : Host) : Type 0 where
  pub has_ip : h.ip ≡ ip
  pub has_mac : h.mac ≡ mac
  pub is_host : IsHost h
  pub no_cache : h.cache ≡ record { cache = [] }
  pub no_ports : h.open_ports ≡ []
  pub has_netmask : h.netmask ≡ host_memory
  pub no_router : h.router_mac ≡ []

pub ready :
    (blank host_memory ip : ℕ) (mac : List ℕ) (server : DhcpServer) (frames : List Mpdu) (h : Host)
    → IsMac mac
    → ip < 2 ^ 32
    → offered blank server mac ≡ ip
    → h ≡ record (new_host host_memory mac) { ip = offered blank server mac; sent = frames }
    → IsReady host_memory ip mac h
unfolding new_host
ready blank host_memory ip mac server frames h v small e result = record {
  has_ip = ap (λ (k : Host). k.ip) result ∙ e;
  has_mac = ap (λ (k : Host). k.mac) result;
  is_host = subst IsHost (sym result) (record { mac = v; ip = rw e small; cache = tt });
  no_cache = ap (λ (k : Host). k.cache) result;
  no_ports = ap (λ (k : Host). k.open_ports) result;
  has_netmask = ap (λ (k : Host). k.netmask) result;
  no_router = ap (λ (k : Host). k.router_mac) result;
}

-- The indeterminate values around one DHCP client, and the server that it meets.
pub record DhcpMemory : Type 0 where
  pub entry_ip : ℕ
  pub your_ip : ℕ
  pub segment : Udp
  pub packet : Ip
  pub server : DhcpServer

-- They fit their fields, and the server has no entry for the MAC.
pub record IsFresh (mac : List ℕ) (d : DhcpMemory) : Type 0 where
  pub entry_ip : d.entry_ip < 2 ^ 32
  pub your_ip : d.your_ip < 2 ^ 32
  pub gw_ip : d.server.gw_ip < 2 ^ 32
  pub udp_length : d.segment.udp_length < 2 ^ 16
  pub checksum : d.segment.checksum < 2 ^ 16
  pub leases : IsLeases d.server.table
  pub no_entry : held d.server.table mac ≡ none

-- Alice and Bob have got their addresses.
pub alice_ready :
    (fuel host_memory : ℕ) (d : DhcpMemory)
    → IsFresh (create_uniform_mac 0x11) d
    → let h = new_host host_memory (create_uniform_mac 0x11) in
      (alice : Host) × Acquires d.entry_ip fuel d.your_ip d.segment d.packet h d.server alice
      × IsReady host_memory alice_ip (create_uniform_mac 0x11) alice
unfolding new_host
alice_ready fuel host_memory d f =
    let mac = create_uniform_mac 0x11 in
    let (alice, got) =
      host-Acquires d.entry_ip fuel d.your_ip d.segment d.packet (new_host host_memory mac) d.server
        f.entry_ip f.your_ip f.gw_ip f.leases (uniform-IsMac 0x11) refl f.udp_length f.checksum in
    (
      alice,
      got,
      ready d.entry_ip host_memory alice_ip mac d.server _ alice (uniform-IsMac 0x11)
          (unfold create_ip in omega arith) (offered_alice d.entry_ip d.server f.no_entry)
          got.result,
    )

pub bob_ready :
    (fuel host_memory : ℕ) (d : DhcpMemory)
    → IsFresh (create_uniform_mac 0x22) d
    → let h = new_host host_memory (create_uniform_mac 0x22) in
      (bob : Host) × Acquires d.entry_ip fuel d.your_ip d.segment d.packet h d.server bob
      × IsReady host_memory bob_ip (create_uniform_mac 0x22) bob
unfolding new_host
bob_ready fuel host_memory d f =
    let mac = create_uniform_mac 0x22 in
    let (bob, got) =
      host-Acquires d.entry_ip fuel d.your_ip d.segment d.packet (new_host host_memory mac) d.server
        f.entry_ip f.your_ip f.gw_ip f.leases (uniform-IsMac 0x22) refl f.udp_length f.checksum in
    (
      bob,
      got,
      ready d.entry_ip host_memory bob_ip mac d.server _ bob (uniform-IsMac 0x22)
          (unfold create_ip in omega arith) (offered_bob d.entry_ip d.server f.no_entry) got.result,
    )
