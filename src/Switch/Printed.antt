-- ===== src/Switch/Printed.antt =====
-- Switch::print_routing_table of networking_devices.cpp: the lines that it gives to `switch_print`.
use mathlib.Core.List.{append_assoc}
use mathlib.Core.Path.{subst}
use network_simulation.Common.{
  ℕ, ◌≡◌, refl, ◌∙◌, sym, ap, Bool-cases, true, inl, inr, some, List, [], ◌∷◌, ◌++◌, All, Run, ok,
  ◌>>=◌, if◌then◌else◌, ltb, length, codes, to_string, arith,
}
use network_simulation.Addressing.Macs.{IsMac, mac_eq, mac_eq_iff}
use network_simulation.Addressing.Text.{mac_to_string, mac_to_string-ok}
use network_simulation.Switch.{TableEntry, Switch}
use network_simulation.Pdu.{Mpdu}
use network_simulation.Switch.History.{
  Event, IsEvent, IsSwitch, run_events, first_from, or_else, switch_learns_first,
}
use network_simulation.Switch.Table.{listed, learned, IsTable}

-- The loop over `address_list`.
address_lines : ℕ → List (List ℕ) → Run (List (List ℕ))
address_lines interface_number [] = ok []
address_lines interface_number (m ∷ ms) = do
  text ← mac_to_string m
  rest ← address_lines interface_number ms
  ok ((to_string interface_number ++ (codes " : " ++ text)) ∷ rest)

-- The loop over the table.
table_lines : List TableEntry → Run (List (List ℕ))
unfolding address_lines
table_lines [] = ok []
table_lines (e ∷ es) = do
  lines ← address_lines e.interface_number e.address_list
  rest ← table_lines es
  ok (lines ++ rest)

abbrev pub stars : List ℕ
stars = codes "***************************"

unfoldable pub print_routing_table : Switch → Run (List (List ℕ))
unfolding table_lines
print_routing_table s =
    if ltb 0 (length s.switch_table)
    then (do lines ← table_lines s.switch_table; ok (stars ∷ (lines ++ stars ∷ [])))
    else ok []

-- One of the lines is that of an address with its interface.
pub record Shows (lines : List (List ℕ)) (interface_number : ℕ) (mac : List ℕ) : Type 0 where
  pub text : List ℕ
  pub before : List (List ℕ)
  pub after : List (List ℕ)
  pub of_mac : mac_to_string mac ≡ ok text
  pub is_line : lines ≡ before ++ (to_string interface_number ++ (codes " : " ++ text)) ∷ after

Shows-before :
    (i : ℕ) (mac : List ℕ) (front lines : List (List ℕ))
    → Shows lines i mac
    → Shows (front ++ lines) i mac
Shows-before i mac front lines v = record {
  text = v.text;
  before = front ++ v.before;
  after = v.after;
  of_mac = v.of_mac;
  is_line = ap (λ ls. front ++ ls) v.is_line ∙ sym (append_assoc front v.before _);
}

Shows-after :
    (i : ℕ) (mac : List ℕ) (lines back : List (List ℕ))
    → Shows lines i mac
    → Shows (lines ++ back) i mac
Shows-after i mac lines back v = record {
  text = v.text;
  before = v.before;
  after = v.after ++ back;
  of_mac = v.of_mac;
  is_line = ap (λ ls. ls ++ back) v.is_line ∙ append_assoc v.before _ back;
}

address_lines_lem :
    (i : ℕ) (mac : List ℕ) (ms : List (List ℕ))
    → All IsMac ms
    → (lines : List (List ℕ)) × (address_lines i ms ≡ ok lines)
      × (listed mac ms ≡ true → Shows lines i mac)
unfolding address_lines listed
address_lines_lem i mac [] a = ([], refl, λ e. cc)
address_lines_lem i mac (m ∷ ms) (v, a) =
    let (text, written) = mac_to_string-ok m v in
    let (lines, rest, shows) = address_lines_lem i mac ms a in
    let line = to_string i ++ (codes " : " ++ text) in
    (
      line ∷ lines,
      rw (written, rest) refl,
      λ e. elim (Bool-cases (mac_eq mac m)) [
        | inl same ↦ record {
          text = text;
          before = [];
          after = lines;
          of_mac = rw ((mac_eq_iff mac m).0 same) written;
          is_line = refl;
        }
        | inr other ↦ Shows-before i mac (line ∷ []) lines (shows (ground (arith, other, e)))
      ],
    )

table_lines_lem :
    (ports : ℕ) (mac : List ℕ) (table : List TableEntry)
    → IsTable ports table
    → (lines : List (List ℕ)) × (table_lines table ≡ ok lines)
      × ((i : ℕ) → learned table mac ≡ some i → Shows lines i mac)
unfolding table_lines learned
table_lines_lem ports mac [] v = ([], refl, λ i e. cc)
table_lines_lem ports mac (t ∷ ts) (v, vs) =
    let (here, one, shows) = address_lines_lem t.interface_number mac t.address_list v.0 in
    let (rest, more, later) = table_lines_lem ports mac ts vs in
    (
      here ++ rest,
      rw (one, more) refl,
      λ i e. elim (Bool-cases (listed mac t.address_list)) [
        | inl listed_here ↦
            Shows-after i mac here rest
              (subst (λ j. Shows here j mac) (ground (arith, listed_here, e)) (shows listed_here))
        | inr elsewhere ↦ Shows-before i mac here rest (later i (ground (arith, elsewhere, e)))
      ],
    )

not_empty :
    (table : List TableEntry) (mac : List ℕ) (i : ℕ)
    → learned table mac ≡ some i
    → ltb 0 (length table) ≡ true
unfolding learned
not_empty [] mac i e = cc
not_empty (t ∷ ts) mac i e = ground arith

-- What a switch prints after any sequence of frames and looks into its queue: printing does not fault,
-- and if the table has had an address before, with an interface, or otherwise the first frame from it
-- came in on that interface, one of the lines is that of the interface and the address. The frames have
-- addresses of six bytes and come from addresses that are not the broadcast address.
pub print_after_events :
    (es : List Event) (s : Switch) (mac : List ℕ) (i : ℕ)
    → All (IsEvent s.ports) es
    → IsSwitch s
    → or_else (learned s.switch_table mac) (first_from mac es) ≡ some i
    → (s' : Switch) × (out : List (ℕ × Mpdu)) × (lines : List (List ℕ)) × (run_events es s
        ≡ ok (s', out))
      × (print_routing_table s' ≡ ok lines)
      × Shows lines i mac
unfolding print_routing_table learned
print_after_events es s mac i all v e =
    let (s', out, run, v', learns) = switch_learns_first es s all v in
    let (lines, prints, shows) = table_lines_lem s'.ports mac s'.switch_table v'.table in
    (
      s',
      out,
      stars ∷ (lines ++ stars ∷ []),
      run,
      rw (not_empty s'.switch_table mac i (learns mac ∙ e), prints) refl,
      Shows-before i mac (stars ∷ []) (lines ++ stars ∷ [])
          (Shows-after i mac lines (stars ∷ []) (shows i (learns mac ∙ e))),
    )
