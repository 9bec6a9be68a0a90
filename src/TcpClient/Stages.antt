-- ===== src/TcpClient/Stages.antt =====
-- Every step of the TCP client keeps what its frames carry.
use network_simulation.Common.{
  ℕ, ◌+◌, ◌%◌, ◌^◌, ◌≡◌, ◌≢◌, refl, ◌⊎◌, inl, inr, List, [], ◌∷◌, Run, ok, fault, ◌==◌, ==_iff,
  Bool-cases, Run-cases, has_flag, arith,
}
use network_simulation.L4.{Tcp, tcp_ack, tcp_synack}
use network_simulation.Pdu.{Mpdu, open_tcp}
use network_simulation.TcpClient.{
  Client, ClientPhase, send_segment, on_synack, on_ack, handle, client_step, run_client,
}
use network_simulation.TcpClient.Pieces.{
  Sendable, IsClient, Holds, Holds-bind, InLoop, send_segment-IsClient, send_segment-InLoop,
  loop_head-InLoop, on_ack-InLoop,
}

-- A client at its handshake sends again what it has sent, or goes on with the ACK.
abbrev pub Stage : List ℕ → List ℕ → Client → Type 0
Stage file mac c =
    IsClient file mac c × ((c.tx_segment.payload ≡ []) ⊎ (c.phase ≢ ClientPhase.syn_sent))

InLoop-Stage :
    (file mac : List ℕ) (r : Run Client) → Holds (InLoop file mac) r → Holds (Stage file mac) r
InLoop-Stage file mac (ok c) (g, ne) = (g, inr ne)
InLoop-Stage file mac fault h = tt

again :
    (file mac : List ℕ) (c : Client)
    → IsClient file mac c
    → c.tx_segment.payload ≡ []
    → Holds (Stage file mac) (ok (send_segment c.tx_segment c))
again file mac c g empty =
    (send_segment-IsClient file mac c.tx_segment c g.current g, inl (unfold send_segment in empty))

pub sending-InLoop :
    (file mac : List ℕ) (c : Client)
    → IsClient file mac c
    → InLoop file mac (record c { phase = ClientPhase.sending })
sending-InLoop file mac c g = (
  record {
    dest_mac = g.dest_mac;
    ports = g.ports;
    header = g.header;
    current = g.current;
    segments = g.segments;
    sent = g.sent;
  },
  λ e. cc,
)

-- The last segment of the handshake.
pub ack-Sendable :
    (file mac : List ℕ) (r : Tcp) (c : Client)
    → IsClient file mac c
    → c.tx_segment.payload ≡ []
    → r.ack_number ≡ (c.tx_segment.sequence_number + 1) % 2 ^ 32
    → Sendable file (record (c.tx_segment) {
      details = tcp_ack;
      sequence_number = r.ack_number;
      ack_number = (r.sequence_number + 1) % 2 ^ 32;
      destination_port = c.dest_port;
      source_port = c.this_port;
    })
ack-Sendable file mac r c g empty e = record {
  fits = record {
    source_port = g.ports.0;
    destination_port = g.ports.1;
    sequence_number = omega arith;
    ack_number = omega arith;
    details = omega arith;
    receive_window = g.current.fits.receive_window;
    checksum = g.current.fits.checksum;
  };
  room = g.current.room;
  small = g.current.small;
  ours = inl empty;
}

on_synack-Stage :
    (file mac : List ℕ) (r : Tcp) (c : Client)
    → IsClient file mac c
    → c.tx_segment.payload ≡ []
    → Holds (Stage file mac) (on_synack r c)
unfolding on_synack
on_synack-Stage file mac r c g empty =
    let number = (c.tx_segment.sequence_number + 1) % 2 ^ 32 in
    elim (Bool-cases (r.ack_number == number)) [
      | inr other ↦ rw other (again file mac c g empty)
      | inl this ↦ elim (Bool-cases (has_flag r.details tcp_synack)) [
        | inr neither ↦ rw (this, neither) (again file mac c g empty)
        | inl both ↦
            rw (this, both)
              (InLoop-Stage file mac _ (
                loop_head-InLoop file mac _ (
                  send_segment-InLoop file mac _ (record c { phase = ClientPhase.sending })
                    (ack-Sendable file mac r c g empty ((==_iff _ _).0 this))
                    (sending-InLoop file mac c g))))
      ]
    ]

handle-Stage :
    (file mac : List ℕ) (phase : ClientPhase) (r : Tcp) (c : Client)
    → c.phase ≡ phase
    → Stage file mac c
    → Holds (Stage file mac) (handle phase r c)
unfolding handle
handle-Stage file mac ClientPhase.syn_sent r c e (g, inl empty) =
    on_synack-Stage file mac r c g empty
handle-Stage file mac ClientPhase.syn_sent r c e (g, inr ne) = absurd (ne e)
handle-Stage file mac ClientPhase.sending r c e (g, h) =
    InLoop-Stage file mac (on_ack r c) (on_ack-InLoop file mac r c (g, λ p. cc (p, e)))
handle-Stage file mac ClientPhase.finished r c e s = s

client_step-Stage :
    (file mac : List ℕ) (f : Mpdu) (c : Client)
    → Stage file mac c
    → Holds (Stage file mac) (client_step f c)
unfolding client_step
client_step-Stage file mac f c s = elim (Run-cases (open_tcp f)) [
  | inl ((p, r), e) ↦ rw e (handle-Stage file mac c.phase r c refl s)
  | inr e ↦ rw e (tt)
]

phase_step-Stage :
    (file mac : List ℕ) (f : Mpdu) (c : Client) (phase : ClientPhase)
    → Stage file mac c
    → Holds (Stage file mac) (elim phase [ ClientPhase.finished ↦ ok c | _ ↦ client_step f c ])
phase_step-Stage file mac f c ClientPhase.syn_sent s = client_step-Stage file mac f c s
phase_step-Stage file mac f c ClientPhase.sending s = client_step-Stage file mac f c s
phase_step-Stage file mac f c ClientPhase.finished s = s

pub run_client-Stage :
    (file mac : List ℕ) (fs : List Mpdu) (c : Client)
    → Stage file mac c
    → Holds (Stage file mac) (run_client fs c)
unfolding run_client
run_client-Stage file mac [] c s = s
run_client-Stage file mac (f ∷ fs) c s =
    Holds-bind (Stage file mac) (Stage file mac) _ (run_client fs)
      (phase_step-Stage file mac f c c.phase s) (run_client-Stage file mac fs)
