-- ===== src/Ip.antt =====
-- Addresses and subnets: what controller/ipPool.go uses of Go's package net.
pub mod Bump
use colex.Base.{
  ℕ, zero, suc, ◌+◌, ◌%◌, bit_and, Bool, true, false, ◌&&◌, Option, none, some, List, [], ◌∷◌,
  if◌then◌else◌, ◌==◌, length, get_or, set, drop, take,
}

-- net.IP and net.IPMask: the bytes, the most significant first
abbrev pub Ip : Type 0
Ip = List ℕ

pub record IpNet : Type 0 where
  pub address : Ip
  pub mask : List ℕ

unfoldable pub is_zeros : List ℕ → Bool
is_zeros [] = true
is_zeros (b ∷ bs) = b == 0 && is_zeros bs

-- net.IP.To4: the prefix ::ffff:0:0/96 marks a 16-byte form of an IPv4 address
unfoldable pub to4 : Ip → Option Ip
unfolding is_zeros
to4 ip =
    if length ip == 4
    then some ip
    else if (length ip == 16 && is_zeros (take 10 ip))
        && (get_or ip 10 0 == 255 && get_or ip 11 0 == 255)
    then some (drop 12 ip)
    else none

abbrev or_self : Option Ip → Ip → Ip
or_self none ip = ip
or_self (some short) ip = short

-- net.networkNumberAndMask; (nil, nil) is a pair of empty lists
unfoldable pub network_number_and_mask : IpNet → Ip × List ℕ
unfolding to4
network_number_and_mask n =
    let ip = or_self (to4 n.address) n.address in
    if length ip == 4
    then (if length n.mask == 4
        then (ip, n.mask)
        else if length n.mask == 16
        then (ip, drop 12 n.mask)
        else ([], []))
    else if length ip == 16 && length n.mask == 16
    then (ip, n.mask)
    else ([], [])

-- nn[i]&m[i] == ip[i]&m[i] at every i
unfoldable pub masked_equal : List ℕ → Ip → Ip → Bool
masked_equal m [] ip = true
masked_equal m (n ∷ nn) [] = true
masked_equal [] (n ∷ nn) (b ∷ ip) = true
masked_equal (k ∷ m) (n ∷ nn) (b ∷ ip) = bit_and n k == bit_and b k && masked_equal m nn ip

-- net.IPNet.Contains
unfoldable pub contains : IpNet → Ip → Bool
unfolding to4 network_number_and_mask masked_equal
contains n ip =
    let (nn, m) = network_number_and_mask n in
    let short = or_self (to4 ip) ip in length short == length nn && masked_equal m nn short

-- `for i := len(next) - 1; i >= 0; i--` of getNextFromPool, with `suc i` rounds left
unfoldable pub bump_from : ℕ → Ip → Ip
bump_from zero next = next
bump_from (suc i) next =
    let b = (get_or next i 0 + 1) % 256 in
    let bumped = set next i b in let rest = bump_from i bumped in if b == 0 then rest else bumped

unfoldable pub bump : Ip → Ip
unfolding bump_from
bump ip = bump_from (length ip) ip
