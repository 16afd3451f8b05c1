-- ===== src/Examples/Addresses.antt =====
-- The pool's theorems at 10.21.0.0/24.
use mathlib.Core.List.{Nodup-nil}
use colex.Base.{◌<◌, false, ℕ, ◌%◌, ◌+◌, ◌^◌, ◌≡◌, refl, [], ◌∷◌, arith}
use colex.Base.Outcome.{ok, err, pool_exhausted}
use colex.Ip.{bump, contains}
use colex.Ip.Bump.{value, value-bump, IsBytes}
use colex.IpPool.{
  IpInterface, get_next_from_pool, assignment, ip_interface, free_assignment, interface_of,
}
use colex.IpPool.Ownership.{Owns}
use colex.IpPool.Slices.{Made, ip_interface-Owns, ip_interface-free_assignment, ip_interface_leaks}
use colex.IpPool.Sequence.{Blocks}
use colex.Examples.{address, subnet, pool_at, first_slice, first_interface}

pub address-IsBytes : (n : ℕ) → n < 256 → IsBytes (address n)
address-IsBytes n h = ground arith

value-bump_example : value (bump (address 255)) ≡ (value (address 255) + 1) % 256 ^ 16
value-bump_example = value-bump (address 255) (address-IsBytes 255 (omega arith))

-- a pool that nobody holds anything of
pub new_pool-Owns : Owns 104 (pool_at 1 []) []
unfolding value
new_pool-Owns = record {
  bytes = address-IsBytes 1 (omega arith);
  room = omega arith;
  below = tt;
  distinct = Nodup-nil;
}

ip_interface-Owns_example : Made 100 (pool_at 1 []) [] (ip_interface (pool_at 1 []))
ip_interface-Owns_example = ip_interface-Owns 100 (pool_at 1 []) [] new_pool-Owns

-- the first slice is out
pub first_slice-Owns : Owns 100 (pool_at 5 []) first_slice
unfolding ip_interface assignment get_next_from_pool bump contains
first_slice-Owns = (ip_interface-Owns 100 (pool_at 1 []) [] new_pool-Owns).own

ip_interface-free_assignment_example :
    ip_interface (free_assignment first_slice (pool_at 5 [])) ≡ (ok first_interface, pool_at 5 [])
ip_interface-free_assignment_example =
    ip_interface-free_assignment (pool_at 5 []) (address 1) (address 2) (address 3) (address 4) refl

outside : contains subnet (bump (address 255)) ≡ false
unfolding contains bump
outside = refl

ip_interface_leaks_example :
    ip_interface (pool_at 255 (address 1 ∷ address 2 ∷ []))
    ≡ (err pool_exhausted, record (pool_at 255 []) { last_from_pool = bump (address 255) })
ip_interface_leaks_example =
    ip_interface_leaks (pool_at 255 (address 1 ∷ address 2 ∷ [])) (address 1) (address 2) refl
      outside

first_slice-Blocks : Blocks first_slice
unfolding value
first_slice-Blocks = (record { aligned = refl; second = refl; third = refl; fourth = refl }, tt)

abbrev second_interface : IpInterface
second_interface = interface_of (address 5) (address 6) (address 7) (address 8)

room : value (address 5) + 4 < 256 ^ 16
unfolding value
room = omega arith
