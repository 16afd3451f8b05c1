-- ===== src/IpPool.antt =====
-- controller/ipPool.go: the pool from which silos get their addresses.
-- The pool's mutex makes each method one step, so a method is a function on the pool.
pub mod Ownership
pub mod Slices
pub mod Sequence
use colex.Base.{ℕ, String, Bool, true, false, List, [], ◌∷◌, ◌++◌, if◌then◌else◌}
use colex.Base.Outcome.{Result, Exec, ok, err, pool_exhausted, pure, modify, on_error, ◌>>=◌, ◌>>◌}
use colex.Ip.{Ip, IpNet, contains, bump}

pub record IpPool : Type 0 where
  pub subnet : IpNet
  pub last_from_pool : Ip
  pub free : List Ip

-- `parse_cidr` is net.ParseCIDR: the address, and its network.
unfoldable pub new_ip_pool : (String → Result (Ip × IpNet)) → String → Result IpPool
new_ip_pool parse_cidr address = elim (parse_cidr address) [
  | Result.ok (ip, net) ↦ ok (record { subnet = net; last_from_pool = ip; free = [] })
  | Result.err e ↦ err e
  | Result.panic ↦ Result.panic
]

unfoldable pub free_assignment : List Ip → IpPool → IpPool
free_assignment ip p = record p { free = p.free ++ ip }

-- The counter moves on also when the next address is out of the subnet.
unfoldable pub get_next_from_pool : Exec IpPool Ip
get_next_from_pool p =
    let next = bump p.last_from_pool in
    let moved = record p { last_from_pool = next } in
    if contains p.subnet next then (ok p.last_from_pool, moved) else (err pool_exhausted, moved)

assignment_from : List Ip → Exec IpPool Ip
unfolding get_next_from_pool
assignment_from (f ∷ rest) p = (ok f, record p { free = rest })
assignment_from [] p = get_next_from_pool p

unfoldable pub assignment : Exec IpPool Ip
unfolding assignment_from
assignment p = assignment_from p.free p

-- IPInterface of controller/interfaces.go. `freeer` says whether Freeer is set: it is the pool.
pub record IpInterface : Type 0 where
  pub is_setup : Bool
  pub bridge_ip : Ip
  pub bridge_mask : List ℕ
  pub silo_ip : Ip
  pub silo_mask : List ℕ
  pub bridge_name : String
  pub host_veth : String
  pub silo_veth : String
  pub internet_access : Bool
  pub slice : List Ip
  pub freeer : Bool

abbrev pub mask30 : List ℕ
mask30 = 255 ∷ 255 ∷ 255 ∷ 252 ∷ []

abbrev pub interface_of : Ip → Ip → Ip → Ip → IpInterface
interface_of bridge silo unused1 unused2 = record {
  is_setup = false;
  bridge_ip = bridge;
  bridge_mask = mask30;
  silo_ip = silo;
  silo_mask = mask30;
  bridge_name = "";
  host_veth = "";
  silo_veth = "";
  internet_access = false;
  slice = bridge ∷ silo ∷ unused1 ∷ unused2 ∷ [];
  freeer = true;
}

-- Only the second call gives back what came before it, as in the source.
unfoldable pub ip_interface : Exec IpPool IpInterface
unfolding ◌>>=◌
ip_interface = do
  bridge ← assignment
  silo ← on_error assignment (free_assignment (bridge ∷ []))
  unused1 ← assignment
  unused2 ← assignment
  pure (interface_of bridge silo unused1 unused2)
