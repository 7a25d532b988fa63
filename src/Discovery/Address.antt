-- ===== src/Discovery/Address.antt =====
-- The choice among the addresses that a peer advertises: `addrPref` of daemon/discovery/browse.go.
use sharing.Base.{
  ℕ, Bool, true, false, ◌&&◌, ◌||◌, not, Option, none, some, List, [], ◌∷◌, ◌++◌, ltb,
  if◌then◌else◌, ◌+◌,
}
use sharing.Base.Dict.{is_some}
use sharing.Discovery.Net.{
  Ip, to4, IpNet, is_loopback, is_unspecified, is_multicast, is_link_local_unicast,
  is_global_unicast, same_bytes, short, net_contains,
}

-- `addrPref`; `own` has the addresses, in four bytes where they are IPv4, in place of their texts.
pub record AddrPref : Type 0 where
  pub nets : List IpNet
  pub own : List Ip
  pub primary : Option IpNet

-- `inLocalNet`
unfoldable in_local_net : List IpNet → Ip → Bool
unfolding net_contains
in_local_net [] ip = false
in_local_net (n ∷ nets) ip = net_contains n ip || in_local_net nets ip

-- `p.own[ip.String()]`
unfoldable is_own : List Ip → Ip → Bool
unfolding same_bytes short
is_own [] ip = false
is_own (own ∷ owns) ip = same_bytes (short own) (short ip) || is_own owns ip

-- The `switch` of `score`.
unfoldable base_score : Ip → ℕ
unfolding to4 is_link_local_unicast is_global_unicast
base_score ip =
    if is_some (to4 ip) && not (is_link_local_unicast ip)
    then 8
    else if is_some (to4 ip)
    then 2
    else if is_global_unicast ip
    then 4
    else 1

-- What `score` adds for the subnet that this machine routes through.
unfoldable primary_bonus : Option IpNet → Ip → ℕ
unfolding net_contains
primary_bonus none ip = 0
primary_bonus (some n) ip = if net_contains n ip then 4 else 0

-- `score`; `none` is -1.
unfoldable pub score : AddrPref → Ip → Option ℕ
unfolding is_loopback is_unspecified is_multicast base_score primary_bonus in_local_net is_own
score p ip =
    if is_loopback ip || is_unspecified ip || is_multicast ip
    then none
    else some (
        base_score ip
        + primary_bonus p.primary ip
        + (if in_local_net p.nets ip then 2 else 0)
        + (if is_own p.own ip then 0 else 1))

-- `s > best`
unfoldable pub beats : Option ℕ → Option ℕ → Bool
beats none best = false
beats (some s) none = true
beats (some s) (some b) = ltb b s

-- The loop of `pick` over the addresses, with the best so far.
unfoldable pub pick_loop : AddrPref → List Ip → Option ℕ → Option Ip → Option Ip
unfolding score beats
pick_loop p [] best chosen = chosen
pick_loop p (ip ∷ ips) best chosen =
    let better = beats (score p ip) best in
    pick_loop p ips (if better then score p ip else best) (if better then some ip else chosen)

-- `pick`
unfoldable pub pick : AddrPref → List Ip → List Ip → Option Ip
unfolding pick_loop
pick p v4 v6 = pick_loop p (v4 ++ v6) none none

-- A network interface as package net reports it: whether it is up, and its addresses, if they can be
-- read; an address that is not a network is `none`.
pub record Interface : Type 0 where
  pub up : Bool
  pub networks : Option (List (Option IpNet))

-- The inner loop of `localAddrPref`.
unfoldable add_networks : Option Ip → List (Option IpNet) → AddrPref → AddrPref
unfolding net_contains
add_networks primary [] p = p
add_networks primary (none ∷ ns) p = add_networks primary ns p
add_networks primary (some n ∷ ns) p = add_networks primary ns (record {
  nets = p.nets ++ n ∷ [];
  own = n.ip ∷ p.own;
  primary = elim primary [
    | none ↦ p.primary
    | some ip ↦ if net_contains n ip then some n else p.primary
  ];
})

-- The outer loop of `localAddrPref`.
unfoldable add_interfaces : Option Ip → List Interface → AddrPref → AddrPref
unfolding add_networks
add_interfaces primary [] p = p
add_interfaces primary (i ∷ is) p =
    add_interfaces primary is
      (if i.up then elim i.networks [ none ↦ p | some ns ↦ add_networks primary ns p ] else p)

-- `localAddrPref`, from the interfaces, if they can be listed, and the result of `primaryLocalIP`.
unfoldable pub local_addr_pref : Option (List Interface) → Option Ip → AddrPref
unfolding add_interfaces
local_addr_pref none primary = record { nets = []; own = []; primary = none }
local_addr_pref (some is) primary =
    add_interfaces primary is (record { nets = []; own = []; primary = none })
