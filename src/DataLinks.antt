-- ===== src/DataLinks.antt =====
-- data_links.h and data_links.cpp: an Ethernet link is two wires, each a queue of one frame.
pub mod Wires
pub mod Monitor
use network_simulation.Common.{
  ℕ, List, [], ◌∷◌, ◌++◌, ◌+◌, Bool, true, false, Option, Run, ok, fault, ◌>>=◌, if◌then◌else◌,
  ◌==◌, int_max, codes, to_string,
}
use network_simulation.Capture.{get_frame_details}
use network_simulation.Pdu.{Mpdu}
use network_simulation.WQueue
use network_simulation.WQueue.{WQueue}

-- `interface`, of `set_max_size(1)`.
pub record EthernetWire : Type 0 where
  pub interface : WQueue Mpdu

unfoldable pub new_wire : EthernetWire
new_wire = record { interface = WQueue.set_max_size 1 WQueue.new_wqueue }

-- Both wires share the flag and the name and, by a pointer, the count.
pub record EthernetLink : Type 0 where
  pub fd_wire_1 : EthernetWire
  pub fd_wire_2 : EthernetWire
  pub print_metadata : Bool
  pub if_name : List ℕ
  pub frame_count : ℕ

unfoldable pub new_link : Bool → List ℕ → EthernetLink
unfolding new_wire
new_link monitor_interface name = record {
  fd_wire_1 = new_wire;
  fd_wire_2 = new_wire;
  print_metadata = monitor_interface;
  if_name = name;
  frame_count = 0;
}

pub data Side : Type 0 where
  wire_1 wire_2 : Side

-- What `connect_ethernet` of a host, switch or gateway stores: the wire to transmit on and the wire
-- to receive on.
pub record Plug : Type 0 where
  pub tx_if : Side
  pub rx_if : Side

unfoldable pub connect : Bool → Plug
connect flip_wires =
    if flip_wires
    then record { tx_if = wire_2; rx_if = wire_1 }
    else record { tx_if = wire_1; rx_if = wire_2 }

unfoldable pub wire : Side → EthernetLink → EthernetWire
wire wire_1 l = l.fd_wire_1
wire wire_2 l = l.fd_wire_2

unfoldable pub set_wire : Side → EthernetWire → EthernetLink → EthernetLink
set_wire wire_1 w l = record l { fd_wire_1 = w }
set_wire wire_2 w l = record l { fd_wire_2 = w }

-- `interface->add(tx_frame)`.
unfoldable pub placed : Side → Mpdu → EthernetLink → EthernetLink
unfolding wire set_wire
placed side tx_frame l =
    set_wire side (record { interface = WQueue.add tx_frame (wire side l).interface }) l

unfoldable pub statement : List ℕ → List ℕ → ℕ → List ℕ → List ℕ
statement if_name elapsed frame_count frame_info =
    codes "["
    ++ (if_name
        ++ (codes "] "
            ++ (to_string frame_count ++ (codes " " ++ (elapsed ++ (codes " " ++ frame_info))))))

-- What `transmit` prints, and the link after it. The time since the link was made is an argument, as
-- text. The count is an int, and the details of a frame may be read out of range.
unfoldable pub transmit : List ℕ → Side → Mpdu → EthernetLink → Run (List (List ℕ) × EthernetLink)
unfolding placed
transmit elapsed side tx_frame l =
    if l.print_metadata
    then (if l.frame_count == int_max then fault else (do
      let counted : EthernetLink = record l { frame_count = l.frame_count + 1 }
      frame_info ← get_frame_details tx_frame
      ok (
        statement l.if_name elapsed counted.frame_count frame_info ∷ [],
        placed side tx_frame counted,
      )))
    else ok ([], placed side tx_frame l)

-- `receive` up to its end or its `wait`.
unfoldable pub receive : Side → EthernetLink → Run (Option Mpdu × EthernetLink)
unfolding wire set_wire
receive side l = do
  (frame, q) ← WQueue.remove (wire side l).interface
  ok (frame, set_wire side (record { interface = q }) l)
