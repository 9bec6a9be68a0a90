-- ===== src/Program.antt =====
-- test.cpp: the command line, the network that `test` puts together, and what it has its two hosts
-- do. A name or a file is the list of its bytes.
pub mod Addresses
pub mod Requests
pub mod Transfer
pub mod Whole
pub mod Datagrams
pub mod WholeUdp
pub mod Pings
use network_simulation.Common.{
  ℕ, Bool, true, false, ◌&&◌, Option, none, some, List, [], ◌∷◌, if◌then◌else◌, ◌==◌, ltb, length,
  codes, Run, fault,
}
use network_simulation.Addressing.{
  create_uniform_mac, create_random_mac, create_ip, create_broadcast_ip,
}
use network_simulation.Switch.{Switch, new_switch, connect_ethernet}
use network_simulation.Gateway.{Gateway, new_gateway}
use network_simulation.DataLinks.{EthernetLink, Plug, new_link, connect}
use network_simulation.L4.{Tcp, Udp}
use network_simulation.L3.{Ip}
use network_simulation.L3.{Icmp}
use network_simulation.Ping.{PingStart}
use network_simulation.Host.{Host, new_host}
use network_simulation.Drivers
use network_simulation.Drivers.{TcpActivity, UdpActivity}

-- `ARP_TEST` and so on.
pub data TestKind : Type 0 where
  arp ping dhcp tcp udp : TestKind

-- What `main` does: a line that says which tests there are, or which file names are needed, or a test
-- with the two names of files that it gets.
pub data Command : Type 0 where
  says_tests : Command
  says_files : Command
  starts : TestKind → Option (List ℕ × List ℕ) → Command

-- `==` of strings.
unfoldable pub text_eq : List ℕ → List ℕ → Bool
text_eq [] [] = true
text_eq [] (y ∷ ys) = false
text_eq (x ∷ xs) [] = false
text_eq (x ∷ xs) (y ∷ ys) = x == y && text_eq xs ys

-- `argc != 4`, and otherwise `argv[2]` and `argv[3]`.
file_test : TestKind → List (List ℕ) → Command
file_test kind (program ∷ name ∷ if_name ∷ of_name ∷ []) = starts kind (some (if_name, of_name))
file_test kind argv = says_files

by_name : List ℕ → List (List ℕ) → Command
unfolding text_eq file_test
by_name argv1 argv =
    if text_eq argv1 (codes "arp")
    then starts arp none
    else if text_eq argv1 (codes "ping")
    then starts ping none
    else if text_eq argv1 (codes "dhcp")
    then starts dhcp none
    else if text_eq argv1 (codes "tcp")
    then file_test tcp argv
    else if text_eq argv1 (codes "udp")
    then file_test udp argv
    else says_tests

-- `argc < 2`, and otherwise `argv[1]`.
unfoldable pub main : List (List ℕ) → Command
unfolding by_name
main [] = says_tests
main (program ∷ []) = says_tests
main (program ∷ argv1 ∷ args) = by_name argv1 (program ∷ argv1 ∷ args)

abbrev pub alice_port : ℕ
alice_port = 50000

abbrev pub bob_port : ℕ
bob_port = 30000

abbrev pub alice_ip : ℕ
unfolding create_ip
alice_ip = create_ip 111 111 111 111

abbrev pub bob_ip : ℕ
unfolding create_ip
bob_ip = create_ip 222 222 222 222

-- The driver that a host's thread runs, with its arguments.
pub data Driver : Type 0 where
  arp_test : ℕ → ℕ → Driver
  ping_test : ℕ → ℕ → ℕ → Driver
  dhcp_test : Driver
  tcp_test : Option (List ℕ) → ℕ → ℕ → ℕ → Bool → Driver
  udp_test : Option (List ℕ) → ℕ → ℕ → ℕ → Bool → Driver

-- `switch (test_num)`: the driver of Alice and that of Bob.
unfoldable pub threads : TestKind → Option (List ℕ) → Option (List ℕ) → Driver × Driver
threads arp if_name of_name = (arp_test create_broadcast_ip 0, arp_test alice_ip 10)
threads ping if_name of_name = (ping_test create_broadcast_ip 0 0, ping_test alice_ip 10 0)
threads dhcp if_name of_name = (dhcp_test, dhcp_test)
threads tcp if_name of_name = (
  tcp_test of_name bob_ip alice_port bob_port false,
  tcp_test if_name alice_ip bob_port alice_port true,
)
threads udp if_name of_name = (
  udp_test of_name bob_ip alice_port bob_port false,
  udp_test if_name alice_ip bob_port alice_port true,
)

-- A thread that runs `Host::tcp_test` on a host, with the files by their names. Without a name, or
-- with another driver, it is not TCP's.
unfoldable pub tcp_thread : (List ℕ → List ℕ) → ℕ → Tcp → Tcp → Ip → Driver → Host → Run TcpActivity
tcp_thread files fuel blank blank_segment blank_packet
      (tcp_test (some name) destination_ip source_port destination_port is_client) h =
    Drivers.tcp_test fuel blank blank_segment blank_packet (files name) destination_ip source_port
      destination_port is_client h
tcp_thread files fuel blank blank_segment blank_packet driver h = fault

-- The same for `Host::udp_test`.
unfoldable pub udp_thread : (List ℕ → List ℕ) → ℕ → Udp → Driver → Host → Run UdpActivity
udp_thread files fuel blank
      (udp_test (some name) destination_ip source_port destination_port is_client) h =
    Drivers.udp_test fuel blank (files name) destination_ip source_port destination_port is_client h
udp_thread files fuel blank driver h = fault

-- The same for `Host::ping_test`; `rand` is what `rand()` gives.
unfoldable pub ping_thread : ℕ → Icmp → ℕ → Driver → Host → Run (Option PingStart)
ping_thread fuel blank rand (ping_test destination_ip number_of_pings delay) h =
    Drivers.ping_test fuel blank rand destination_ip number_of_pings h
ping_thread fuel blank rand driver h = fault

-- What `test` builds. Each device transmits on one wire of its link and receives on the other;
-- `switch_plugs` are the switch's ends, by the number of the interface.
pub record TestNetwork : Type 0 where
  pub test_switch : Switch
  pub gw : Gateway
  pub alice : Host
  pub bob : Host
  pub el1 : EthernetLink
  pub el2 : EthernetLink
  pub el3 : EthernetLink
  pub alice_plug : Plug
  pub bob_plug : Plug
  pub gw_plug : Plug
  pub switch_plugs : List Plug

-- `rand` is what `rand()` gives for the MAC of the gateway, and `blank` is in the memory of a new
-- host.
unfoldable pub test_network : (ℕ → ℕ) → ℕ → TestNetwork
test_network rand blank = record {
  test_switch = connect_ethernet (connect_ethernet (connect_ethernet new_switch));
  gw = new_gateway (create_random_mac rand) (create_ip 192 168 0 1);
  alice = new_host blank (create_uniform_mac 0x11);
  bob = new_host blank (create_uniform_mac 0x22);
  el1 = new_link true (codes "A-S");
  el2 = new_link true (codes "B-S");
  el3 = new_link true (codes "GW-S");
  alice_plug = connect false;
  bob_plug = connect false;
  gw_plug = connect false;
  switch_plugs = connect true ∷ connect true ∷ connect true ∷ [];
}
