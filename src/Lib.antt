-- ===== src/Lib.antt =====
-- A network simulation in C++: hosts, a switch and a gateway, joined by Ethernet links, that exchange
-- frames with ARP, IP, ICMP, UDP, TCP and DHCP in them.
--
-- A frame is made in layers. l4_protocols.cpp has the UDP and TCP segments, and cuts a file into
-- them: L4. l3_protocols.cpp has ICMP, ARP, the ARP cache and the IP packet: L3. pdu.cpp has the
-- frame, MPDU, and the socket, which is a queue of frames: Pdu. addressing.cpp has the MAC and IP
-- addresses that all of them use: Addressing. Each file above keeps the names of the source
-- (generate_UDP is generate_udp, encap_SDU is encap_ip, encap_arp, encap_tcp and so on, by its argument).
--
-- Frames move through queues. wqueue.h is the bounded queue shared by threads: WQueue. The lock of the
-- source makes each critical section one step of the model; `remove` stops where the code waits on the
-- condition variable, and `resume` is the rest of it, after a notification or a spurious wake-up. data_links.cpp has the wires, queues of one
-- frame, and the links: DataLinks.
--
-- Devices are states with one function per handler. networking_devices.cpp has the switch, the DHCP
-- server and the gateway: Switch, Dhcp, Gateway. host.cpp has the host: Host for the addresses, the
-- ARP cache, the ports and the handlers of incoming frames; TcpServer and TcpClient for
-- Host::TCP_server and Host::TCP_client; UdpTransfer for Host::UDP_client and Host::UDP_server;
-- DhcpClient for Host::DHCP_client; Ping for Host::ping and its statistics. sim_tcpdump.cpp has the
-- line of text that a monitored wire prints for a frame: Capture, and DataLinks prints it. A
-- device's endless loop is modelled by its round, for the frame that its queue hands out; the loops
-- that end are functions of the list of those frames. What a device hands to `transmit` is collected
-- in a list, oldest first.
--
-- The test drivers of host.cpp are Drivers: each gets an address and then runs one of these functions on
-- a socket. test.cpp, with its command line, the network that it builds and what it has Alice and Bob
-- do, is Program; its threads are the drivers. frame_generators.cpp is Poisson. Two experiments are
-- small programs of their own: tcp_test.cpp is Handshake, and cv.cpp is Cv.
--
-- Parties that talk to each other are put together in modules of their own, which are specification and
-- model no code. TcpSession has a client, a server and the frames on their way in either direction: a
-- step is one side taking one frame, either may be next, and `Inevitable` says that every run reaches a
-- state, without a fault. Ping/Rounds.antt has a pinging host and its peer, with the `demuxer` of both.
-- Lan has two hosts on a switch; DhcpClient/Acquire.antt has a client, the gateway and its DHCP server.
-- Program/Whole.antt puts the test program for TCP together from the drivers, the DHCP server, the
-- demuxers and TcpSession, and so do Program/WholeUdp.antt and Program/Pings.antt for UDP and for ping;
-- there the frames of one host reach the other, without the switch between, and what a gateway does
-- with a broadcast stands beside.
--
-- The number types of the source are natural numbers with the wrap-around written out where a field is
-- computed; bytes and fields that come from outside are bounded by the hypotheses. `Run` in
-- Common/Outcome.antt has the outcome `fault` for code that reads out of range, takes from an empty
-- container or lets an int overflow: the ints that count the bytes of a file, the frames of a link and
-- a loss in percent. A text is the list of its bytes, and `to_string` writes numbers of 64 bits, which
-- have 20 digits at most. An indeterminate local is an argument, usually named `blank` or `memory`.
-- The floating-point numbers of Poisson and of the statistics of ping are types with a record of
-- operations: of `Floating` the theorems assume nothing, of `Timing` that numbers are ordered and that
-- the cast to int of a number from 0 on and below 1 is 0. Three loops are on fuel or may not end in
-- the source: `find_port` in Host/Ports.antt has fuel, and its theorem is about every amount of it;
-- `pass_intervals` in Poisson has fuel, and any number of intervals by which all frames are sent is
-- enough; the server of TcpServer has a phase `hung` for the loop that never reads another frame. All
-- other functions are total.
--
-- Not modelled: threads as such, with their races on state that no lock protects; pauses and the
-- clock; printing, but that of a monitored link, of the table of the switch, of the statistics of ping, of
-- cv.cpp and of Poisson; the copy of MD5 in md5.cpp; misc.cpp, whose functions have no effect. A frame that
-- the code passes by pointer is passed by value. Tests runs the components on small inputs.
pub mod Common
pub mod L4
pub mod Addressing
pub mod L3
pub mod WQueue
pub mod Pdu
pub mod Switch
pub mod DataLinks
pub mod Dhcp
pub mod Gateway
pub mod Host
pub mod TcpServer
pub mod UdpTransfer
pub mod DhcpClient
pub mod TcpClient
pub mod TcpSession
pub mod Ping
pub mod Lan
pub mod Capture
pub mod Cv
pub mod Handshake
pub mod Poisson
pub mod Drivers
pub mod Program
pub mod Tests
