-- ===== src/Tests/Programs.antt =====
-- The test program with a file of three bytes.
use network_simulation.Common.{
  ℕ, ◌≡◌, refl, ◌⊎◌, true, false, none, ok, List, [], ◌∷◌, codes, arith,
}
use network_simulation.Addressing.{create_uniform_mac, in_subnet}
use network_simulation.Dhcp.Leases.{held}
use network_simulation.Host.{Host, new_host}
use network_simulation.Drivers.Acquires.{Acquires, host-Acquires}
use network_simulation.Drivers
use network_simulation.Program.{
  main, says_tests, says_files, test_network, TestKind, threads, ping_thread, alice_ip, bob_ip,
}
use network_simulation.Program.Transfer.{TcpMemory, FitsMemory}
use network_simulation.Program.Addresses.{DhcpMemory, IsFresh}
use network_simulation.Program.Whole.{TransferRun, tcp_test_delivers}
use network_simulation.Program.WholeUdp.{DatagramRun, udp_test_delivers}
use network_simulation.Program.Pings.{Pings, Strays, ping_test_cases}
use network_simulation.Tests.Data.{
  mac_11, echo_request, blank_udp, blank_tcp, header_1_to_2, empty_server,
}

-- A program run with no argument, one name too few, and both.
says_tests_alone : main (codes "./test" ∷ []) ≡ says_tests
unfolding main
says_tests_alone = refl

says_files_for_one : main (codes "./test" ∷ codes "udp" ∷ codes "a" ∷ []) ≡ says_files
unfolding main
says_files_for_one = refl

abbrev dhcp_memory : DhcpMemory
dhcp_memory = record {
  entry_ip = 0;
  your_ip = 5;
  segment = blank_udp;
  packet = header_1_to_2;
  server = empty_server;
}

abbrev tcp_memory : TcpMemory
tcp_memory = record { segment_field = blank_tcp; tx_segment = blank_tcp; tx_packet = header_1_to_2 }

tcp_memory-FitsMemory : FitsMemory tcp_memory
tcp_memory-FitsMemory = record {
  segment_field = record {
    source_port = omega arith;
    destination_port = omega arith;
    sequence_number = omega arith;
    ack_number = omega arith;
    details = omega arith;
    receive_window = omega arith;
    checksum = omega arith;
  };
  receive_window = omega arith;
  checksum = omega arith;
}

dhcp_memory-IsFresh : (mac : List ℕ) → IsFresh mac dhcp_memory
unfolding held
dhcp_memory-IsFresh mac = record {
  entry_ip = omega arith;
  your_ip = omega arith;
  gw_ip = omega arith;
  udp_length = omega arith;
  checksum = omega arith;
  leases = tt;
  no_entry = refl;
}

-- Every name is that of the same file.
abbrev abc_everywhere : List ℕ → List ℕ
abc_everywhere name = codes "abc"

tcp_test_delivers_example :
    TransferRun abc_everywhere 9
      (codes "./test")
      (codes "in")
      (codes "out")
      (test_network (λ i. i) 77)
      dhcp_memory
      dhcp_memory
      tcp_memory
      tcp_memory
tcp_test_delivers_example =
    tcp_test_delivers abc_everywhere 9 (codes "./test") (codes "in") (codes "out") (λ i. i) 77
      dhcp_memory dhcp_memory tcp_memory tcp_memory (dhcp_memory-IsFresh (create_uniform_mac 0x11))
      (dhcp_memory-IsFresh (create_uniform_mac 0x22)) tcp_memory-FitsMemory tcp_memory-FitsMemory
      (omega arith) (omega arith)

host-Acquires_example :
    (h' : Host) × Acquires 0 9 5 blank_udp header_1_to_2 (new_host 77 mac_11) empty_server h'
host-Acquires_example =
    host-Acquires 0 9 5 blank_udp header_1_to_2 (new_host 77 mac_11) empty_server (omega arith)
      (omega arith) (omega arith) tt (unfold new_host in refl) (unfold new_host in refl)
      (omega arith) (omega arith)

udp_test_delivers_example :
    DatagramRun abc_everywhere 9
      (codes "./test")
      (codes "in")
      (codes "out")
      (test_network (λ i. i) 77)
      dhcp_memory
      dhcp_memory
      blank_udp
      blank_udp
udp_test_delivers_example =
    udp_test_delivers abc_everywhere 9 (codes "./test") (codes "in") (codes "out") (λ i. i) 77
      dhcp_memory dhcp_memory blank_udp blank_udp (dhcp_memory-IsFresh (create_uniform_mac 0x11))
      (dhcp_memory-IsFresh (create_uniform_mac 0x22))
      (record {
        source_port = omega arith;
        destination_port = omega arith;
        udp_length = omega arith;
        checksum = omega arith;
      })
      (omega arith) (omega arith) (λ e. omega arith, (λ e. omega arith, (λ e. omega arith, tt)))

-- The memory of the hosts is 77, which is no mask of a subnet.
ping_test_cases_example :
    let w = test_network (λ i. i) 77 in
    let (alice_driver, bob_driver) = threads TestKind.ping none none in
    (alice bob : Host) × Acquires 0 9 5 blank_udp header_1_to_2 w.alice empty_server alice
    × Acquires 0 9 5 blank_udp header_1_to_2 w.bob empty_server bob
    × (ping_thread 9 echo_request 7 alice_driver alice ≡ ok none)
    × (ping_thread 9 echo_request 7 bob_driver bob
        ≡ Drivers.ping_test 9 echo_request 7 alice_ip 10 bob)
    × (((in_subnet bob_ip alice_ip 77 ≡ true) × Pings 9 echo_request 7 alice_ip alice bob)
        ⊎ ((in_subnet bob_ip alice_ip 77 ≡ false)
            × Strays 9 echo_request 7 alice_ip bob w.bob_plug w.el2))
ping_test_cases_example =
    ping_test_cases 9 echo_request 7 (λ i. i) 77 dhcp_memory dhcp_memory
      (dhcp_memory-IsFresh (create_uniform_mac 0x11))
      (dhcp_memory-IsFresh (create_uniform_mac 0x22)) (omega arith)
