-- ===== src/Handshake/Whole.antt =====
-- How the two threads of tcp_test.cpp open their connection, and what ends a tester's loop.
use network_simulation.Common.{ℕ, Bool, true, false, List, [], ◌∷◌, ◌≡◌, refl, ◌||◌, ◌==◌, arith}
use network_simulation.L4.{Tcp}
use network_simulation.Handshake.{
  Tester, Table, syn, syn_segment, send_segment, begin, round, add_all, client_opens, server_turn,
  client_turn, Step, opens, server_takes, client_takes, main_table, Inevitable, reached, onward,
  rounds,
}

-- Both threads are past their loops, and no segment is left.
pub record Synced (t : Table) : Type 0 where
  pub server : t.server.exited ≡ true
  pub client : t.client.exited ≡ true
  pub interface_1 : t.interface_1 ≡ []
  pub interface_2 : t.interface_2 ≡ []

-- The handshake before the SYN, and with one segment of details `d` on its way to a side.
record Opening (t : Table) : Type 0 where
  sender : t.client.is_sender ≡ true
  answerer : t.server.is_sender ≡ false
  opened : t.opened ≡ false
  server : t.server.exited ≡ false
  client : t.client.exited ≡ false
  interface_1 : t.interface_1 ≡ []
  interface_2 : t.interface_2 ≡ []

record ToServer (d : ℕ) (gone : Bool) (t : Table) : Type 0 where
  answerer : t.server.is_sender ≡ false
  sender : t.client.is_sender ≡ true
  opened : t.opened ≡ true
  server : t.server.exited ≡ false
  client : t.client.exited ≡ gone
  interface_1 : t.interface_1 ≡ []
  segment : Tcp
  interface_2 : t.interface_2 ≡ segment ∷ []
  details : segment.details ≡ d

record ToClient (t : Table) : Type 0 where
  answerer : t.server.is_sender ≡ false
  sender : t.client.is_sender ≡ true
  opened : t.opened ≡ true
  server : t.server.exited ≡ false
  client : t.client.exited ≡ false
  segment : Tcp
  interface_1 : t.interface_1 ≡ segment ∷ []
  details : segment.details ≡ 0
  interface_2 : t.interface_2 ≡ []

ack-Synced : (t t' : Table) → ToServer 0 true t → Step t t' → Synced t'
unfolding server_turn round add_all
ack-Synced t t' v (opens blank e) = absurd (cc)
ack-Synced t t' v (server_takes blank s ss e up) = ground arith
ack-Synced t t' v (client_takes blank s ss e o up) = absurd (cc)

synack-ToServer : (t t' : Table) → ToClient t → Step t t' → ToServer 0 true t'
unfolding client_turn round add_all send_segment
synack-ToServer t t' v (opens blank e) = absurd (cc)
synack-ToServer t t' v (server_takes blank s ss e up) = absurd (cc)
synack-ToServer t t' v (client_takes blank s ss e o up) = record {
  answerer = v.answerer;
  sender = ground arith;
  opened = v.opened;
  server = v.server;
  client = ground arith;
  interface_1 = ground arith;
  segment = send_segment blank t.client;
  interface_2 = ground arith;
  details = refl;
}

syn-ToClient : (t t' : Table) → ToServer syn false t → Step t t' → ToClient t'
unfolding server_turn round add_all send_segment
syn-ToClient t t' v (opens blank e) = absurd (cc)
syn-ToClient t t' v (server_takes blank s ss e up) = record {
  answerer = ground arith;
  sender = v.sender;
  opened = v.opened;
  server = ground arith;
  client = v.client;
  segment = send_segment blank t.server;
  interface_1 = ground arith;
  details = refl;
  interface_2 = ground arith;
}
syn-ToClient t t' v (client_takes blank s ss e o up) = absurd (cc)

open-ToServer : (t t' : Table) → Opening t → Step t t' → ToServer syn false t'
unfolding client_opens begin add_all syn_segment
open-ToServer t t' v (opens blank e) = record {
  answerer = v.answerer;
  sender = v.sender;
  opened = refl;
  server = v.server;
  client = v.client;
  interface_1 = v.interface_1;
  segment = syn_segment blank t.client;
  interface_2 = ground arith;
  details = refl;
}
open-ToServer t t' v (server_takes blank s ss e up) = absurd (cc)
open-ToServer t t' v (client_takes blank s ss e o up) = absurd (cc)

-- Memory for a new segment; the proof needs that there is some.
abbrev memory : Tcp
memory = record {
  source_port = 0;
  destination_port = 0;
  sequence_number = 0;
  ack_number = 0;
  details = 0;
  receive_window = 0;
  checksum = 0;
  payload = [];
}

ack-Inevitable : (t : Table) → ToServer 0 true t → Inevitable Synced t
ack-Inevitable t v =
    onward t _ (server_takes memory v.segment [] v.interface_2 v.server)
      (λ t' s. reached t' (ack-Synced t t' v s))

synack-Inevitable : (t : Table) → ToClient t → Inevitable Synced t
synack-Inevitable t v =
    onward t _ (client_takes memory v.segment [] v.interface_1 v.opened v.client)
      (λ t' s. ack-Inevitable t' (synack-ToServer t t' v s))

syn-Inevitable : (t : Table) → ToServer syn false t → Inevitable Synced t
syn-Inevitable t v =
    onward t _ (server_takes memory v.segment [] v.interface_2 v.server)
      (λ t' s. synack-Inevitable t' (syn-ToClient t t' v s))

Opening-Inevitable : (t : Table) → Opening t → Inevitable Synced t
Opening-Inevitable t v =
    onward t _ (opens memory v.opened) (λ t' s. syn-Inevitable t' (open-ToServer t t' v s))

-- Whatever the ports, the order in which the threads run and the memory that new segments get: after
-- finitely many steps both testers are past their loops, and no segment is left in a queue.
pub handshake_completes :
    (first_port second_port : ℕ) → Inevitable Synced (main_table first_port second_port)
unfolding main_table
handshake_completes first_port second_port =
    Opening-Inevitable (main_table first_port second_port) (record {
      sender = refl;
      answerer = refl;
      opened = refl;
      server = refl;
      client = refl;
      interface_1 = refl;
      interface_2 = refl;
    })

rounds-ended :
    (blank : Tcp) (ss : List Tcp) (t : Tester) → t.exited ≡ true → (rounds blank ss t).exited ≡ true
unfolding rounds
rounds-ended blank [] t off = off
rounds-ended blank (s ∷ ss) t off = simp off

-- Some segment has no flag at all.
abbrev pub flagless : List Tcp → Bool
flagless [] = false
flagless (s ∷ ss) = s.details == 0 || flagless ss

-- A tester's loop ends at the first segment that has no flag at all, and at no other: segments that
-- each have one, be it SYN and ACK together, keep it running for ever.
pub rounds-exited :
    (blank : Tcp) (ss : List Tcp) (t : Tester)
    → t.exited ≡ false
    → (rounds blank ss t).exited ≡ flagless ss
unfolding rounds round
rounds-exited blank [] t on = on
rounds-exited blank (s ∷ ss) t on =
    ground (arith, rounds-exited blank ss t, rounds-ended blank ss (record t { exited = true }))
