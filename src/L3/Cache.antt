-- ===== src/L3/Cache.antt =====
-- The ARP cache: the first entry of an address counts, and no entry reads as the broadcast MAC.
use network_simulation.Common.{
  ℕ, ◌≡◌, refl, Bool, true, false, List, [], ◌∷◌, ◌++◌, if◌then◌else◌, ◌==◌, All, All-append, arith,
}
use network_simulation.Addressing.{create_broadcast_mac, compare_ips}
use network_simulation.Addressing.Macs.{IsMac, broadcast-IsMac}
use network_simulation.L3.{ArpEntry, ArpCache, find_mac, get_mac, add_entry}

abbrev HasMac : ArpEntry → Type 0
HasMac e = IsMac e.mac

abbrev pub IsCache : ArpCache → Type 0
IsCache c = All HasMac c.cache

known_in : List ArpEntry → ℕ → Bool
known_in [] ip = false
known_in (e ∷ es) ip = if compare_ips ip e.ip then true else known_in es ip

-- Is there an entry for the address?
unfoldable pub known : ArpCache → ℕ → Bool
unfolding known_in
known c ip = known_in c.cache ip

find_mac-IsMac : (es : List ArpEntry) (ip : ℕ) → All HasMac es → IsMac (find_mac ip es)
unfolding find_mac
find_mac-IsMac [] ip a = broadcast-IsMac
find_mac-IsMac (e ∷ es) ip a = ground (arith, a.0, find_mac-IsMac es ip a.1)

pub get_mac-IsMac : (c : ArpCache) (ip : ℕ) → IsCache c → IsMac (get_mac c ip)
unfolding get_mac
get_mac-IsMac c ip a = find_mac-IsMac c.cache ip a

pub add_entry-IsCache :
    (c : ArpCache) (ip : ℕ) (mac : List ℕ) → IsCache c → IsMac mac → IsCache (add_entry c ip mac)
unfolding add_entry
add_entry-IsCache c ip mac a h = All-append HasMac c.cache _ a (h, tt)

find_mac-append :
    (es : List ArpEntry) (e : ArpEntry) (ip : ℕ)
    → find_mac ip (es ++ e ∷ []) ≡ (
        if known_in es ip
        then find_mac ip es
        else if compare_ips ip e.ip
        then e.mac
        else create_broadcast_mac)
unfolding find_mac known_in
find_mac-append [] e ip = refl
find_mac-append (x ∷ es) e ip = rw (find_mac-append es e ip) (ground arith)

find_mac_unknown :
    (es : List ArpEntry) (ip : ℕ) → known_in es ip ≡ false → find_mac ip es ≡ create_broadcast_mac
unfolding find_mac known_in
find_mac_unknown [] ip h = refl
find_mac_unknown (e ∷ es) ip h = ground (arith, find_mac_unknown es ip)

pub get_mac_unknown :
    (c : ArpCache) (ip : ℕ) → known c ip ≡ false → get_mac c ip ≡ create_broadcast_mac
unfolding get_mac known
get_mac_unknown c ip h = find_mac_unknown c.cache ip h

-- A new entry is found unless an older one for the address is, and no other address changes.
pub get_mac-add_entry :
    (c : ArpCache) (ip x : ℕ) (mac : List ℕ)
    → get_mac (add_entry c ip mac) x
      ≡ (if known c x then get_mac c x else if x == ip then mac else create_broadcast_mac)
unfolding get_mac add_entry known compare_ips
get_mac-add_entry c ip x mac = find_mac-append c.cache _ x
