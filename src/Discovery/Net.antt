-- ===== src/Discovery/Net.antt =====
-- IP addresses and networks, as daemon/discovery/browse.go uses them from package net. A `net.IP` is
-- its bytes, four or sixteen of them, and a network its number and the length of its mask.
use sharing.Base.{
  ℕ, ◌-◌, ◌/◌, ◌^◌, Bool, true, false, ◌&&◌, ◌||◌, not, Option, none, some, List, [], ◌∷◌, length,
  leb, ◌==◌, if◌then◌else◌, take, drop, get_elem?,
}

abbrev pub Ip : Type 0
Ip = List ℕ

-- `bytes.Equal`
unfoldable pub same_bytes : Ip → Ip → Bool
same_bytes [] [] = true
same_bytes [] (y ∷ ys) = false
same_bytes (x ∷ xs) [] = false
same_bytes (x ∷ xs) (y ∷ ys) = x == y && same_bytes xs ys

-- The first twelve bytes of an IPv4 address in sixteen bytes.
abbrev v4_prefix : Ip
v4_prefix = 0 ∷ 0 ∷ 0 ∷ 0 ∷ 0 ∷ 0 ∷ 0 ∷ 0 ∷ 0 ∷ 0 ∷ 255 ∷ 255 ∷ []

-- `ip.To4()`; `none` is nil.
unfoldable pub to4 : Ip → Option Ip
unfolding same_bytes
to4 ip =
    if length ip == 4
    then some ip
    else if length ip == 16 && same_bytes (take 12 ip) v4_prefix
    then some (drop 12 ip)
    else none

-- The byte at an index, as far as the address has it.
abbrev byte : Ip → ℕ → ℕ
byte ip i = elim (get_elem? ip i) [ none ↦ 0 | some b ↦ b ]

-- `net.IPv6loopback` and `net.IPv6unspecified`
abbrev v6_loopback : Ip
v6_loopback = 0 ∷ 0 ∷ 0 ∷ 0 ∷ 0 ∷ 0 ∷ 0 ∷ 0 ∷ 0 ∷ 0 ∷ 0 ∷ 0 ∷ 0 ∷ 0 ∷ 0 ∷ 1 ∷ []

abbrev v6_unspecified : Ip
v6_unspecified = 0 ∷ 0 ∷ 0 ∷ 0 ∷ 0 ∷ 0 ∷ 0 ∷ 0 ∷ 0 ∷ 0 ∷ 0 ∷ 0 ∷ 0 ∷ 0 ∷ 0 ∷ 0 ∷ []

unfoldable pub is_loopback : Ip → Bool
unfolding to4 same_bytes
is_loopback ip = elim (to4 ip) [ none ↦ same_bytes ip v6_loopback | some v4 ↦ byte v4 0 == 127 ]

unfoldable pub is_unspecified : Ip → Bool
unfolding to4 same_bytes
is_unspecified ip = elim (to4 ip) [
  | none ↦ same_bytes ip v6_unspecified
  | some v4 ↦ same_bytes v4 (0 ∷ 0 ∷ 0 ∷ 0 ∷ [])
]

unfoldable pub is_multicast : Ip → Bool
unfolding to4
is_multicast ip = elim (to4 ip) [
  | none ↦ length ip == 16 && byte ip 0 == 255
  | some v4 ↦ byte v4 0 / 16 == 14
]

unfoldable pub is_link_local_unicast : Ip → Bool
unfolding to4
is_link_local_unicast ip = elim (to4 ip) [
  | none ↦ length ip == 16 && byte ip 0 == 254 && byte ip 1 / 64 == 2
  | some v4 ↦ byte v4 0 == 169 && byte v4 1 == 254
]

unfoldable is_broadcast : Ip → Bool
unfolding to4 same_bytes
is_broadcast ip = elim (to4 ip) [
  | none ↦ false
  | some v4 ↦ same_bytes v4 (255 ∷ 255 ∷ 255 ∷ 255 ∷ [])
]

unfoldable pub is_global_unicast : Ip → Bool
unfolding is_broadcast is_unspecified is_loopback is_multicast is_link_local_unicast
is_global_unicast ip =
    (length ip == 4 || length ip == 16)
    && not (is_broadcast ip)
    && not (is_unspecified ip)
    && not (is_loopback ip)
    && not (is_multicast ip)
    && not (is_link_local_unicast ip)

-- `net.IPNet`, with the mask by its length.
pub record IpNet : Type 0 where
  pub ip : Ip
  pub ones : ℕ

-- Whether two addresses of one length agree on the first bits.
unfoldable same_network : ℕ → Ip → Ip → Bool
same_network ones [] [] = true
same_network ones [] (y ∷ ys) = false
same_network ones (x ∷ xs) [] = false
same_network ones (x ∷ xs) (y ∷ ys) =
    let rest = same_network (ones - 8) xs ys in
    if leb 8 ones
    then x == y && rest
    else x / 2 ^ (8 - ones) == y / 2 ^ (8 - ones) && length xs == length ys

-- An IPv4 address in four bytes, and any other one as it is.
unfoldable pub short : Ip → Ip
unfolding to4
short ip = elim (to4 ip) [ none ↦ ip | some v4 ↦ v4 ]

-- `n.Contains(ip)`
unfoldable pub net_contains : IpNet → Ip → Bool
unfolding same_network short
net_contains n ip = same_network n.ones (short n.ip) (short ip)
