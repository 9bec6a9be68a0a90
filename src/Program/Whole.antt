-- ===== src/Program/Whole.antt =====
-- The whole of `./test tcp`, from the command line to the file that is written.
use mathlib.Core.Path.{subst}
use network_simulation.Common.{
  ℕ, ◌^◌, ◌≤◌, ◌<◌, ◌≡◌, refl, some, List, [], ◌∷◌, ok, length, codes, arith,
}
use network_simulation.Addressing.{create_uniform_mac, create_broadcast_mac}
use network_simulation.Addressing.Macs.{mac_eq}
use network_simulation.L3.Cache.{known}
use network_simulation.Host.{Host, new_host}
use network_simulation.Drivers.{connecting, serving}
use network_simulation.Drivers.Acquires.{Acquires}
use network_simulation.TcpClient.{Opening}
use network_simulation.Program.{
  main, TestKind, starts, threads, tcp_thread, alice_ip, alice_port, bob_ip, bob_port, TestNetwork,
  test_network,
}
use network_simulation.Program.Addresses.{DhcpMemory, IsFresh, alice_ready, bob_ready, IsReady}
use network_simulation.Program.Transfer.{TcpMemory, FitsMemory, Delivers, delivers}

-- What `./test tcp if_name of_name` does to a network `w`: both hosts get an address, the threads run
-- their drivers, and the file is delivered. `m` and `n` are the memory of Alice and of Bob.
pub record TransferRun (files : List ℕ → List ℕ) (fuel : ℕ) (program if_name of_name : List ℕ)
    (w : TestNetwork) (da db : DhcpMemory) (m n : TcpMemory) : Type 0 where
  pub command :
      main (program ∷ codes "tcp" ∷ if_name ∷ of_name ∷ [])
      ≡ starts TestKind.tcp (some (if_name, of_name))
  pub alice : Host
  pub bob : Host
  pub alice_acquires :
      Acquires da.entry_ip fuel da.your_ip da.segment da.packet w.alice da.server alice
  pub bob_acquires : Acquires db.entry_ip fuel db.your_ip db.segment db.packet w.bob db.server bob
  pub run :
      Delivers fuel alice_ip alice_port bob_port bob_ip m n
        (files if_name)
        (files of_name)
        alice
        bob
  pub alice_thread :
      tcp_thread files fuel m.segment_field m.tx_segment m.tx_packet
        (threads TestKind.tcp (some if_name) (some of_name)).0
        alice
      ≡ ok (serving run.server_socket run.a' run.server)
  pub bob_thread :
      tcp_thread files fuel n.segment_field n.tx_segment n.tx_packet
        (threads TestKind.tcp (some if_name) (some of_name)).1
        bob
      ≡ ok (connecting run.client_socket run.b' (Opening.resolving run.arp.a'))

ready_delivers :
    (fuel memory : ℕ) (m n : TcpMemory) (file output : List ℕ) (a b : Host)
    → IsReady memory alice_ip (create_uniform_mac 0x11) a
    → IsReady memory bob_ip (create_uniform_mac 0x22) b
    → FitsMemory m
    → FitsMemory n
    → 1 ≤ length file
    → length file < 2 ^ 31
    → Delivers fuel alice_ip alice_port bob_port bob_ip m n file output a b
unfolding known
ready_delivers fuel memory m n file output a b ra rb fm fn some_bytes small =
    subst (λ ip. Delivers fuel ip alice_port bob_port bob_ip m n file output a b) ra.has_ip
      (delivers fuel alice_port bob_port bob_ip m n file output a b (omega arith, omega arith) fm fn
        ra.is_host rb.is_host ra.no_ports rb.no_ports (rw rb.no_cache refl)
        (unfold mac_eq create_uniform_mac create_broadcast_mac in rw ra.has_mac refl)
        (unfold create_uniform_mac in
          rw rb.has_mac (
            omega arith,
            (omega arith, (omega arith, (omega arith, (omega arith, (omega arith, tt))))),
          ))
        some_bytes small)

-- `./test tcp` with the names of two files. Each host gets its address from a well-formed DHCP server
-- that has no entry for it, by way of the gateway; the address of Alice is the one that Bob's driver
-- is told. Then Alice's thread serves, and Bob's asks for her MAC, which both demuxers see to, and
-- opens the connection; but a gateway that takes the same request from its queue, since it is for all,
-- reads out of range. In every run of the two hosts from there, none of their steps faults, the session
-- ends, and the server has written exactly the input file. The file is not empty and has less than
-- 2 ^ 31 bytes, and the frames between the two sides are neither lost nor reordered.
pub tcp_test_delivers :
    (files : List ℕ → List ℕ) (fuel : ℕ) (program if_name of_name : List ℕ) (rand : ℕ → ℕ)
    (host_memory : ℕ) (da db : DhcpMemory) (m n : TcpMemory)
    → IsFresh (create_uniform_mac 0x11) da
    → IsFresh (create_uniform_mac 0x22) db
    → FitsMemory m
    → FitsMemory n
    → 1 ≤ length (files if_name)
    → length (files if_name) < 2 ^ 31
    → TransferRun files fuel program if_name of_name (test_network rand host_memory) da db m n
unfolding main threads tcp_thread test_network new_host create_uniform_mac
tcp_test_delivers files fuel program if_name of_name rand host_memory da db m n fa fb fm fn
      some_bytes small =
    let (alice, got_a, ready_a) = alice_ready fuel host_memory da fa in
    let (bob, got_b, ready_b) = bob_ready fuel host_memory db fb in
    let run =
      ready_delivers fuel host_memory m n (files if_name) (files of_name) alice bob ready_a ready_b
        fm fn some_bytes small in
    record {
      command = refl;
      alice = alice;
      bob = bob;
      alice_acquires = got_a;
      bob_acquires = got_b;
      run = run;
      alice_thread = run.serves;
      bob_thread = run.asks;
    }
