-- ===== src/Switch/Table.antt =====
-- The address table as a finite map: the first interface that an address was seen on.
use network_simulation.Common.{
  ℕ, ◌≡◌, refl, Bool, false, ◌||◌, Option, none, some, List, [], ◌∷◌, ◌++◌, ok, if◌then◌else◌, All,
  All-append, arith, ◌<◌,
}
use network_simulation.Addressing.{create_broadcast_mac}
use network_simulation.Addressing.Macs.{IsMac, mac_eq, mac_eq_iff, compare_macs-eq, is_broadcast-eq}
use network_simulation.Switch.{
  TableEntry, find_address, find_entry, get_table_interface_number, add_table_entry,
}

-- Is the address in the list?
unfoldable pub listed : List ℕ → List (List ℕ) → Bool
listed mac [] = false
listed mac (m ∷ ms) = mac_eq mac m || listed mac ms

-- The interface under which an address stands.
unfoldable pub learned : List TableEntry → List ℕ → Option ℕ
unfolding listed
learned [] mac = none
learned (e ∷ es) mac = if listed mac e.address_list then some e.interface_number else learned es mac

-- Every address has six bytes, and every interface exists.
abbrev pub IsEntry : ℕ → TableEntry → Type 0
IsEntry ports e = All IsMac e.address_list × (e.interface_number < ports)

abbrev pub IsTable : ℕ → List TableEntry → Type 0
IsTable ports table = All (IsEntry ports) table

find_address-eq :
    (mac : List ℕ) (ms : List (List ℕ))
    → IsMac mac
    → All IsMac ms
    → find_address mac ms ≡ ok (listed mac ms)
unfolding find_address listed
find_address-eq mac [] h a = refl
find_address-eq mac (m ∷ ms) h a =
    rw (compare_macs-eq mac m h a.0, find_address-eq mac ms h a.1) (ground arith)

find_entry-eq :
    (ports : ℕ) (mac : List ℕ) (table : List TableEntry)
    → IsMac mac
    → IsTable ports table
    → find_entry mac table ≡ ok (learned table mac)
unfolding find_entry learned
find_entry-eq ports mac [] h a = refl
find_entry-eq ports mac (e ∷ es) h a =
    rw (find_address-eq mac e.address_list h a.0.0, find_entry-eq ports mac es h a.1) (ground arith)

-- The lookup on a well-formed table: the broadcast address is never found.
pub get_table_interface_number-eq :
    (ports : ℕ) (table : List TableEntry) (mac : List ℕ)
    → IsMac mac
    → IsTable ports table
    → get_table_interface_number table mac
      ≡ ok (if mac_eq mac create_broadcast_mac then none else learned table mac)
unfolding get_table_interface_number learned
get_table_interface_number-eq ports [] mac h a = ground arith
get_table_interface_number-eq ports (e ∷ es) mac h a =
    rw (is_broadcast-eq mac h, find_entry-eq ports mac (e ∷ es) h a) (ground arith)

listed-append :
    (mac m : List ℕ) (ms : List (List ℕ))
    → listed mac (ms ++ m ∷ []) ≡ (listed mac ms || mac_eq mac m)
unfolding listed
listed-append mac m [] = ground arith
listed-append mac m (x ∷ ms) = rw (listed-append mac m ms) (ground arith)

-- A new address joins the map and changes no other entry.
pub learned-add_table_entry :
    (table : List TableEntry) (mac x : List ℕ) (i : ℕ)
    → learned table mac ≡ none
    → learned (add_table_entry mac i table) x ≡ (if mac_eq x mac then some i else learned table x)
unfolding learned add_table_entry
learned-add_table_entry [] mac x i e = unfold listed in ground arith
learned-add_table_entry (t ∷ ts) mac x i e = ground (
  arith,
  listed-append x mac t.address_list,
  learned-add_table_entry ts mac x i,
  mac_eq_iff x mac,
)

pub add_table_entry-IsTable :
    (ports : ℕ) (table : List TableEntry) (mac : List ℕ) (i : ℕ)
    → IsMac mac
    → i < ports
    → IsTable ports table
    → IsTable ports (add_table_entry mac i table)
unfolding add_table_entry
add_table_entry-IsTable ports [] mac i h l a = (((h, tt), l), tt)
add_table_entry-IsTable ports (t ∷ ts) mac i h l a = ground (
  arith,
  add_table_entry-IsTable ports ts mac i h l a.1,
  All-append IsMac t.address_list (mac ∷ []) a.0.0 (h, tt),
)

-- A known interface exists.
pub learned-lt :
    (ports : ℕ) (table : List TableEntry) (mac : List ℕ) (j : ℕ)
    → IsTable ports table
    → learned table mac ≡ some j
    → j < ports
unfolding learned
learned-lt ports [] mac j t e = cc
learned-lt ports (x ∷ xs) mac j t e = ground (arith, t.0.1, learned-lt ports xs mac j t.1)
