-- ===== src/TcpSession.antt =====
-- The client and the server of host.cpp, one TCP_client and one TCP_server, over a network that loses
-- nothing and keeps the order of the frames of each direction. Which side takes its next frame first
-- is left open: a step is one side taking one frame, and a run is any sequence of steps.
pub mod Exchange
pub mod Turns
pub mod Delivery
pub mod Opening
pub mod Whole
use network_simulation.Common.{true, List, [], ◌∷◌, ◌++◌, ◌≡◌, ◌≢◌, Run, ok, ◌>>=◌, length, drop}
use network_simulation.Pdu.{Mpdu}
use network_simulation.TcpServer.{Server, step, waits}
use network_simulation.TcpClient.{Client, ClientPhase, client_step}

-- Both sides and the frames on their way.
pub record Network : Type 0 where
  pub client : Client
  pub server : Server
  pub to_server : List Mpdu
  pub to_client : List Mpdu

-- The server takes `f`; what it sends goes behind the frames to the client.
unfoldable pub server_turn : Mpdu → List Mpdu → Network → Run Network
server_turn f fs n = do
  s ← step f n.server
  ok (record n {
    server = s;
    to_server = fs;
    to_client = n.to_client ++ drop (length n.server.sent) s.sent;
  })

unfoldable pub client_turn : Mpdu → List Mpdu → Network → Run Network
client_turn f fs n = do
  c ← client_step f n.client
  ok (record n {
    client = c;
    to_client = fs;
    to_server = n.to_server ++ drop (length n.client.sent) c.sent;
  })

-- A side that waits on its socket takes the next frame, if there is one.
pub data Step (n : Network) : Run Network → Type 0 where
  server_takes :
      (f : Mpdu) (fs : List Mpdu)
      → n.to_server ≡ f ∷ fs
      → waits n.server.phase ≡ true
      → Step n (server_turn f fs n)
  client_takes :
      (f : Mpdu) (fs : List Mpdu)
      → n.to_client ≡ f ∷ fs
      → n.client.phase ≢ ClientPhase.finished
      → Step n (client_turn f fs n)

-- Every run reaches `P` after finitely many steps, and no step on the way faults or is missing.
pub data Inevitable (P : Network → Type 0) : Run Network → Type 0 where
  reached : (n : Network) → P n → Inevitable P (ok n)
  onward :
      (n : Network) (r : Run Network)
      → Step n r
      → ((r' : Run Network) → Step n r' → Inevitable P r')
      → Inevitable P (ok n)

-- The client has made its first SYN, and the server listens.
unfoldable pub open_session : Client → Server → Network
open_session c s = record { client = c; server = s; to_server = c.sent; to_client = [] }
