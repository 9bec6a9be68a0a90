-- ===== src/Program/WholeUdp.antt =====
-- The whole of `./test udp`, from the command line to the file that is written.
use mathlib.Core.Path.{subst}
use network_simulation.Common.{
  ◌<◌, ◌^◌, ℕ, ◌≤◌, ◌≡◌, refl, some, List, [], ◌∷◌, ok, length, codes, arith,
}
use network_simulation.Addressing.{create_uniform_mac, create_broadcast_mac}
use network_simulation.Addressing.Macs.{mac_eq}
use network_simulation.L4.{Udp}
use network_simulation.L3.Codec.{FitsUdp}
use network_simulation.L3.Cache.{known}
use network_simulation.Host.{Host, new_host}
use network_simulation.UdpTransfer.{ClientState, new_udp_server}
use network_simulation.UdpTransfer.Delivery.{Plain}
use network_simulation.Drivers.{transmitting, receiving}
use network_simulation.Drivers.Acquires.{Acquires}
use network_simulation.Program.{
  main, TestKind, starts, threads, udp_thread, alice_ip, alice_port, bob_ip, bob_port, TestNetwork,
  test_network,
}
use network_simulation.Program.Addresses.{DhcpMemory, IsFresh, IsReady, alice_ready, bob_ready}
use network_simulation.Program.Datagrams.{Receives, receives}

-- What `./test udp if_name of_name` does to a network `w`.
pub record DatagramRun (files : List ℕ → List ℕ) (fuel : ℕ) (program if_name of_name : List ℕ)
    (w : TestNetwork) (da db : DhcpMemory) (m n : Udp) : Type 0 where
  pub command :
      main (program ∷ codes "udp" ∷ if_name ∷ of_name ∷ [])
      ≡ starts TestKind.udp (some (if_name, of_name))
  pub alice : Host
  pub bob : Host
  pub alice_acquires :
      Acquires da.entry_ip fuel da.your_ip da.segment da.packet w.alice da.server alice
  pub bob_acquires : Acquires db.entry_ip fuel db.your_ip db.segment db.packet w.bob db.server bob
  pub run :
      Receives fuel alice_ip alice_port bob_port bob_ip m n
        (files if_name)
        (files of_name)
        alice
        bob
  pub alice_thread :
      udp_thread files fuel m (threads TestKind.udp (some if_name) (some of_name)).0 alice
      ≡ ok (receiving run.server_socket run.a' new_udp_server)
  pub bob_thread :
      udp_thread files fuel n (threads TestKind.udp (some if_name) (some of_name)).1 bob
      ≡ ok (transmitting run.client_socket (ClientState.waiting run.arp.a'))

ready_receives :
    (fuel memory : ℕ) (m n : Udp) (file output : List ℕ) (a b : Host)
    → IsReady memory alice_ip (create_uniform_mac 0x11) a
    → IsReady memory bob_ip (create_uniform_mac 0x22) b
    → FitsUdp n
    → 1 ≤ length file
    → length file < 2 ^ 31
    → Plain file
    → Receives fuel alice_ip alice_port bob_port bob_ip m n file output a b
unfolding known
ready_receives fuel memory m n file output a b ra rb fits some_bytes small plain =
    subst (λ ip. Receives fuel ip alice_port bob_port bob_ip m n file output a b) ra.has_ip
      (receives fuel alice_port bob_port bob_ip m n file output a b (omega arith, omega arith) fits
        ra.is_host rb.is_host ra.no_ports rb.no_ports (rw rb.no_cache refl)
        (unfold mac_eq create_uniform_mac create_broadcast_mac in rw ra.has_mac refl)
        (unfold create_uniform_mac in
          rw rb.has_mac (
            omega arith,
            (omega arith, (omega arith, (omega arith, (omega arith, (omega arith, tt))))),
          ))
        some_bytes small plain)

-- `./test udp` with the names of two files. Both hosts get their addresses as for TCP; Alice's thread
-- waits on its socket, and Bob's asks for her MAC, which both demuxers see to; but a gateway that takes
-- the same request from its queue, since it is for all, reads out of range. Then Bob's thread sends the
-- file in datagrams to her MAC alone, and a server that gets them in order ends with exactly the input
-- file written. The file is not empty, has less than 2 ^ 31 bytes and no byte 0xFF.
pub udp_test_delivers :
    (files : List ℕ → List ℕ) (fuel : ℕ) (program if_name of_name : List ℕ) (rand : ℕ → ℕ)
    (host_memory : ℕ) (da db : DhcpMemory) (m n : Udp)
    → IsFresh (create_uniform_mac 0x11) da
    → IsFresh (create_uniform_mac 0x22) db
    → FitsUdp n
    → 1 ≤ length (files if_name)
    → length (files if_name) < 2 ^ 31
    → Plain (files if_name)
    → DatagramRun files fuel program if_name of_name (test_network rand host_memory) da db m n
unfolding main threads udp_thread test_network new_host create_uniform_mac
udp_test_delivers files fuel program if_name of_name rand host_memory da db m n fa fb fits
      some_bytes small plain =
    let (alice, got_a, ready_a) = alice_ready fuel host_memory da fa in
    let (bob, got_b, ready_b) = bob_ready fuel host_memory db fb in
    let run =
      ready_receives fuel host_memory m n (files if_name) (files of_name) alice bob ready_a ready_b
        fits some_bytes small plain in
    record {
      command = refl;
      alice = alice;
      bob = bob;
      alice_acquires = got_a;
      bob_acquires = got_b;
      run = run;
      alice_thread = run.waits;
      bob_thread = run.asks;
    }
