-- ===== src/IpPool/Sequence.antt =====
-- controller/ipPool.go: the blocks of four consecutive addresses that IPInterface hands out: the hosts 1, 2 and 3 of a
-- /30 and the address 0 of the next one, so that the bridge and the silo reach one another under the mask.
use colex.Base.{◌+◌, ◌/◌, ◌%◌, ◌≡◌, List, [], ◌∷◌, ◌++◌}
use colex.Ip.{Ip}
use colex.Ip.Bump.{value, IsBytes}
use colex.IpPool.{IpPool, IpInterface, free_assignment}

-- Four consecutive addresses, the first of them the first host of a /30.
pub record IsBlock (b s u v : Ip) : Type 0 where
  pub aligned : value b % 4 ≡ 1
  pub second : value s ≡ value b + 1
  pub third : value u ≡ value b + 2
  pub fourth : value v ≡ value b + 3

-- A list of whole blocks.
abbrev pub Blocks : List Ip → Type 0
Blocks [] = Unit {0}
Blocks (b ∷ s ∷ u ∷ v ∷ rest) = IsBlock b s u v × Blocks rest
Blocks _ = ⊥

pub record IsAligned (p : IpPool) : Type 0 where
  pub bytes : IsBytes p.last_from_pool
  pub counter : value p.last_from_pool % 4 ≡ 1
  pub free : Blocks p.free

-- What the theorem below says of an interface and the pool that is left.
pub record IsPaired (i : IpInterface) (q : IpPool) : Type 0 where
  pub slice : Blocks i.slice
  pub same_subnet : value i.silo_ip / 4 ≡ value i.bridge_ip / 4
  pub successor : value i.silo_ip ≡ value i.bridge_ip + 1
  pub rest : IsAligned q

Blocks-append : (xs ys : List Ip) → Blocks xs → Blocks ys → Blocks (xs ++ ys)
Blocks-append [] ys h k = k
Blocks-append (b ∷ s ∷ u ∷ v ∷ rest) ys h k = (h.0, Blocks-append rest ys h.1 k)
Blocks-append (_ ∷ []) ys h k = absurd h
Blocks-append (_ ∷ _ ∷ []) ys h k = absurd h
Blocks-append (_ ∷ _ ∷ _ ∷ []) ys h k = absurd h

-- Giving back a whole slice keeps the pool in that form.
pub free_assignment-IsAligned :
    (p : IpPool) (xs : List Ip) → IsAligned p → Blocks xs → IsAligned (free_assignment xs p)
unfolding free_assignment
free_assignment-IsAligned p xs a h = record {
  bytes = a.bytes;
  counter = a.counter;
  free = Blocks-append p.free xs a.free h;
}
