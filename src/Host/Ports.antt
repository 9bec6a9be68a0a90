-- ===== src/Host/Ports.antt =====
-- The port numbers of a host: `create_socket` and `delete_socket` of host.cpp.
use network_simulation.Common.{
  ℕ, zero, suc, ◌+◌, ◌%◌, ◌^◌, Bool, ◌++◌, ◌≤◌, ◌≡◌, refl, ◌⊎◌, inl, inr, true, false, Option, none,
  some, List, [], ◌∷◌, if◌then◌else◌, ◌==◌, length, arith,
}
use network_simulation.Pdu.{Socket, new_socket}
use network_simulation.Host.{Host}

-- The `for` loop in `create_socket`: does some open port have this number?
pub in_use : ℕ → List Socket → Bool
in_use port [] = false
in_use port (s ∷ ss) = if s.port == port then true else in_use port ss

-- Its `do … while (port_found == 0)`, on fuel: `none` is a loop that has not ended.
pub find_port : ℕ → List Socket → ℕ → ℕ → Option ℕ
unfolding in_use
find_port zero sockets port_found test_port = none
find_port (suc fuel) sockets port_found test_port =
    let taken = in_use test_port sockets in
    let found' = if taken then 0 else port_found in
    let port' = if taken then (test_port + 1) % 2 ^ 16 else test_port in
    let next = find_port fuel sockets found' port' in if found' == 0 then next else some port'

unfoldable pub create_socket : ℕ → ℕ → ℕ → Host → Option (Socket × Host)
unfolding find_port
create_socket fuel requested_port protocol h =
    elim (if length h.open_ports == 0
      then some requested_port
      else find_port fuel h.open_ports 0 requested_port) [
        | none ↦ none
        | some port ↦ some (
          new_socket port protocol,
          record h { open_ports = h.open_ports ++ new_socket port protocol ∷ [] },
        )
      ]

delete_from : ℕ → List Socket → List Socket
delete_from port [] = []
delete_from port (s ∷ ss) = if s.port == port then delete_from port ss else s ∷ delete_from port ss

unfoldable pub delete_socket : ℕ → Host → Host
unfolding delete_from
delete_socket port_num h = record h { open_ports = delete_from port_num h.open_ports }

List-cases {ℓ} : {A : Type ℓ} (xs : List A) → (xs ≡ []) ⊎ (1 ≤ length xs)
List-cases [] = inl refl
List-cases (x ∷ xs) = inr (omega arith)

-- The loop has no way out: `port_found` is only ever set to 0.
find_port_loops :
    (fuel : ℕ) (sockets : List Socket) (port : ℕ) → find_port fuel sockets 0 port ≡ none
unfolding find_port
find_port_loops zero sockets port = refl
find_port_loops (suc fuel) sockets port =
    ground
      (arith, find_port_loops fuel sockets port, find_port_loops fuel sockets ((port + 1) % 2 ^ 16))

-- `create_socket` returns at once when no port is open, and then `delete_socket` takes the host back;
-- when some port is open it never returns, whatever the ports and however long it runs.
pub create_socket_returns :
    (fuel port protocol : ℕ) (h : Host)
    → ((h.open_ports ≡ [])
        × (h' : Host) × (create_socket fuel port protocol h ≡ some (new_socket port protocol, h'))
        × (delete_socket port h' ≡ h))
      ⊎ ((1 ≤ length h.open_ports) × (create_socket fuel port protocol h ≡ none))
create_socket_returns fuel port protocol h = elim (List-cases h.open_ports) [
  | inl e ↦ inl (
    e,
    record h { open_ports = h.open_ports ++ new_socket port protocol ∷ [] },
    created h e,
    deleted h e,
  )
  | inr l ↦ inr (l, hangs h l)
]
  where
    created :
        (k : Host)
        → k.open_ports ≡ []
        → create_socket fuel port protocol k
          ≡ some (
            new_socket port protocol,
            record k { open_ports = k.open_ports ++ new_socket port protocol ∷ [] },
          )
    created k e = unfold create_socket in ground arith

    deleted :
        (k : Host)
        → k.open_ports ≡ []
        → delete_socket port
            (record k { open_ports = k.open_ports ++ new_socket port protocol ∷ [] })
          ≡ k
    deleted k e = unfold delete_socket delete_from new_socket in ground arith

    hangs : (k : Host) → 1 ≤ length k.open_ports → create_socket fuel port protocol k ≡ none
    hangs k l = unfold create_socket in ground (arith, find_port_loops fuel k.open_ports port)

pub create_socket-first :
    (fuel port protocol : ℕ) (h : Host)
    → h.open_ports ≡ []
    → create_socket fuel port protocol h
      ≡ some (new_socket port protocol, record h { open_ports = new_socket port protocol ∷ [] })
unfolding create_socket
create_socket-first fuel port protocol h e = ground arith

-- The only open port, closed.
pub delete_socket-only :
    (port protocol : ℕ) (h : Host)
    → h.open_ports ≡ new_socket port protocol ∷ []
    → (delete_socket port h).open_ports ≡ []
unfolding delete_socket delete_from new_socket
delete_socket-only port protocol h e = rw e (ground arith)

in_use-delete_from :
    (port x : ℕ) (ss : List Socket)
    → in_use x (delete_from port ss) ≡ (if x == port then false else in_use x ss)
unfolding in_use delete_from
in_use-delete_from port x [] = ground arith
in_use-delete_from port x (s ∷ ss) = ground (arith, in_use-delete_from port x ss)

-- After `delete_socket` no open port has the number, and every other number is open as before.
pub in_use-delete_socket :
    (h : Host) (port x : ℕ)
    → in_use x (delete_socket port h).open_ports
      ≡ (if x == port then false else in_use x h.open_ports)
unfolding delete_socket
in_use-delete_socket h port x = in_use-delete_from port x h.open_ports
