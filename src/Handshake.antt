-- ===== src/Handshake.antt =====
-- tcp_test.cpp: two threads that open a TCP connection over two queues of segments.
pub mod Whole
use network_simulation.Common.{
  ℕ, Bool, true, false, List, [], ◌∷◌, ◌++◌, ◌≡◌, if◌then◌else◌, ◌==◌, leb, length, bit_and,
}
use network_simulation.L4.{Tcp}
use network_simulation.WQueue.{max_queue_length}

abbrev pub syn : ℕ
syn = 0x0002

abbrev pub ack : ℕ
ack = 0x0010

-- `SYN & ACK`: the source takes the bits that both have, and there are none.
abbrev pub syn_and_ack : ℕ
syn_and_ack = bit_and syn ack

-- The arguments of `TCP_tester`, and whether its loop has ended.
pub record Tester : Type 0 where
  pub my_port : ℕ
  pub dst_port : ℕ
  pub is_sender : Bool
  pub exited : Bool

-- The SYN of a sender, made in the memory `blank`.
unfoldable pub syn_segment : Tcp → Tester → Tcp
syn_segment blank t = record blank {
  source_port = t.my_port;
  destination_port = t.dst_port;
  sequence_number = t.my_port;
  details = syn;
}

-- What a tester sends later: the source port is not set.
unfoldable pub send_segment : Tcp → Tester → Tcp
send_segment blank t = record blank {
  destination_port = t.dst_port;
  sequence_number = t.my_port;
  details = syn_and_ack;
}

-- The segments put into the `tx_interface` before the loop.
unfoldable pub begin : Tcp → Tester → List Tcp
begin blank t = if t.is_sender then syn_segment blank t ∷ [] else []

-- One round of the loop, for the segment that the queue hands out, and what it sends.
unfoldable pub round : Tcp → Tcp → Tester → Tester × List Tcp
round blank rcv_segment t =
    if rcv_segment.details == syn_and_ack
    then (record t { exited = true }, if t.is_sender then send_segment blank t ∷ [] else [])
    else if rcv_segment.details == syn
    then (t, send_segment blank t ∷ [])
    else (t, [])

-- Both threads and the queues between them; `opened` when the client is past what it sends before
-- the loop.
pub record Table : Type 0 where
  pub server : Tester
  pub client : Tester
  pub opened : Bool
  pub interface_1 : List Tcp
  pub interface_2 : List Tcp

-- `wqueue::add` of each segment: a full queue drops it.
unfoldable pub add_all : List Tcp → List Tcp → List Tcp
add_all [] queue = queue
add_all (s ∷ ss) queue =
    add_all ss (if leb max_queue_length (length queue) then queue else queue ++ s ∷ [])

unfoldable pub client_opens : Tcp → Table → Table
client_opens blank t = record t {
  opened = true;
  interface_2 = add_all (begin blank t.client) t.interface_2;
}

-- The server takes `s` from `interface_2`, and `ss` is left in it.
unfoldable pub server_turn : Tcp → Tcp → List Tcp → Table → Table
server_turn blank s ss t =
    let (server, tx) = round blank s t.server in
    record t { server = server; interface_2 = ss; interface_1 = add_all tx t.interface_1 }

unfoldable pub client_turn : Tcp → Tcp → List Tcp → Table → Table
client_turn blank s ss t =
    let (client, tx) = round blank s t.client in
    record t { client = client; interface_1 = ss; interface_2 = add_all tx t.interface_2 }

-- The scheduler's choice, and whatever is in the memory of a new segment.
pub data Step (t : Table) : Table → Type 0 where
  opens : (blank : Tcp) → t.opened ≡ false → Step t (client_opens blank t)
  server_takes :
      (blank s : Tcp) (ss : List Tcp)
      → t.interface_2 ≡ s ∷ ss
      → t.server.exited ≡ false
      → Step t (server_turn blank s ss t)
  client_takes :
      (blank s : Tcp) (ss : List Tcp)
      → t.interface_1 ≡ s ∷ ss
      → t.opened ≡ true
      → t.client.exited ≡ false
      → Step t (client_turn blank s ss t)

-- `main`: the server transmits on `interface_1` and the client on `interface_2`.
unfoldable pub main_table : ℕ → ℕ → Table
main_table first_port second_port = record {
  server = record {
    my_port = first_port;
    dst_port = second_port;
    is_sender = false;
    exited = false;
  };
  client = record {
    my_port = second_port;
    dst_port = first_port;
    is_sender = true;
    exited = false;
  };
  opened = false;
  interface_1 = [];
  interface_2 = [];
}

-- Every run reaches `P` after finitely many steps.
pub data Inevitable (P : Table → Type 0) : Table → Type 0 where
  reached : (t : Table) → P t → Inevitable P t
  onward :
      (t t1 : Table) → Step t t1 → ((t' : Table) → Step t t' → Inevitable P t') → Inevitable P t

-- The loop over the segments that arrive, until it ends.
unfoldable pub rounds : Tcp → List Tcp → Tester → Tester
rounds blank [] t = t
rounds blank (s ∷ ss) t = if t.exited then t else rounds blank ss (round blank s t).0
