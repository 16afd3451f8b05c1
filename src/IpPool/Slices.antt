-- ===== src/IpPool/Slices.antt =====
-- IPInterface of controller/ipPool.go: four addresses in one go.
use mathlib.Core.List.{reverse_perm, perm-append_right_iff}
use colex.Base.{ℕ, suc, ◌≤◌, ◌≡◌, refl, false, List, [], ◌∷◌, ◌++◌, arith, length}
use colex.Base.Outcome.{
  Error, Result, ok, err, panic, pool_exhausted, continue, on_error, recover_with, pure, ◌>>=◌,
}
use colex.Ip.{Ip, bump, contains}
use colex.IpPool.{
  IpPool, IpInterface, get_next_from_pool, interface_of, assignment, free_assignment, ip_interface,
}
use colex.IpPool.Ownership.{
  Owns, Assigned, assignment-Owns, free_assignment-Owns, Owns-perm, Owns-mono,
}

-- These addresses, the newest first, were assigned one after the other.
abbrev pub Takes : IpPool → List Ip → IpPool → Type 0
Takes p [] q = p ≡ q
Takes p (a ∷ before) q = (m : IpPool) × Takes p before m × (assignment m ≡ (ok a, q))

-- IPInterface gives back what it has assigned only where that is one address.
abbrev pub returned : List Ip → IpPool → IpPool
returned (b ∷ []) q = free_assignment (b ∷ []) q
returned _ q = q

abbrev pub unreturned : List Ip → List Ip
unreturned (b ∷ []) = []
unreturned taken = taken

-- The interface is made of the four addresses assigned last, and its caller holds them as well.
pub record Handed (budget : ℕ) (p : IpPool) (held : List Ip) (i : IpInterface) (q : IpPool)
    : Type 0 where
  pub bridge : Ip
  pub silo : Ip
  pub unused1 : Ip
  pub unused2 : Ip
  pub made : i ≡ interface_of bridge silo unused1 unused2
  pub taken : Takes p (unused2 ∷ unused1 ∷ silo ∷ bridge ∷ []) q
  pub own : Owns budget q (i.slice ++ held)

-- At most three were assigned, and the next assignment failed.
pub record Exhausted (budget : ℕ) (p : IpPool) (held : List Ip) (e : Error) (q : IpPool)
    : Type 0 where
  pub taken : List Ip
  pub few : length taken ≤ 3
  pub before : IpPool
  pub after : IpPool
  pub steps : Takes p taken before
  pub failing : assignment before ≡ (err e, after)
  pub left : q ≡ returned taken after
  pub own : Owns budget q (unreturned taken ++ held)

abbrev pub Made : ℕ → IpPool → List Ip → Result IpInterface × IpPool → Type 0
Made budget p held (ok i, q) = Handed budget p held i q
Made budget p held (err e, q) = Exhausted budget p held e q
Made budget p held (panic, q) = ⊥

module _ (budget : ℕ) (p : IpPool) (held : List Ip) where
  fourth_step :
      (b s u : Ip) (m : IpPool) (r : Result Ip × IpPool)
      → Takes p (u ∷ s ∷ b ∷ []) m
      → assignment m ≡ r
      → Assigned budget (u ∷ s ∷ b ∷ held) r
      → Made budget p held (continue r (λ v. pure (interface_of b s u v)))
  unfolding ◌>>=◌ assignment
  fourth_step b s u m (ok v, q) t e o = record {
    bridge = b;
    silo = s;
    unused1 = u;
    unused2 = v;
    made = refl;
    taken = (m, t, e);
    own =
        Owns-perm budget q (v ∷ u ∷ s ∷ b ∷ held) (b ∷ s ∷ u ∷ v ∷ held)
          ((perm-append_right_iff held).1 (reverse_perm (b ∷ s ∷ u ∷ v ∷ []))) o;
  }
  fourth_step b s u m (err y, q) t e o = record {
    taken = u ∷ s ∷ b ∷ [];
    few = omega arith;
    before = m;
    after = q;
    steps = t;
    failing = e;
    left = refl;
    own = o;
  }
  fourth_step b s u m (panic, q) t e o = o

  third_step :
      (b s : Ip) (m : IpPool) (r : Result Ip × IpPool)
      → Takes p (s ∷ b ∷ []) m
      → assignment m ≡ r
      → Assigned (suc budget) (s ∷ b ∷ held) r
      → Made budget p held (continue r (λ u. do v ← assignment; pure (interface_of b s u v)))
  unfolding ◌>>=◌ assignment
  third_step b s m (ok u, q) t e o =
      fourth_step b s u q (assignment q) (m, t, e) refl
        (assignment-Owns budget q (u ∷ s ∷ b ∷ held) o)
  third_step b s m (err y, q) t e o = record {
    taken = s ∷ b ∷ [];
    few = omega arith;
    before = m;
    after = q;
    steps = t;
    failing = e;
    left = refl;
    own = Owns-mono budget (suc budget) q _ (omega arith) o;
  }
  third_step b s m (panic, q) t e o = o

  second_step :
      (b : Ip) (m : IpPool) (r : Result Ip × IpPool)
      → Takes p (b ∷ []) m
      → assignment m ≡ r
      → Assigned (suc (suc budget)) (b ∷ held) r
      → Made budget p held (
          continue
            (recover_with (free_assignment (b ∷ [])) r)
            (λ s. do u ← assignment; v ← assignment; pure (interface_of b s u v)))
  unfolding ◌>>=◌ assignment
  second_step b m (ok s, q) t e o =
      third_step b s q (assignment q) (m, t, e) refl
        (assignment-Owns (suc budget) q (s ∷ b ∷ held) o)
  second_step b m (err y, q) t e o = record {
    taken = b ∷ [];
    few = omega arith;
    before = m;
    after = q;
    steps = t;
    failing = e;
    left = refl;
    own =
        free_assignment-Owns budget q (b ∷ []) held
          (Owns-mono budget (suc (suc budget)) q _ (omega arith) o);
  }
  second_step b m (panic, q) t e o = o

  first_step :
      (r : Result Ip × IpPool)
      → assignment p ≡ r
      → Assigned (suc (suc (suc budget))) held r
      → Made budget p held (
          continue r (λ b. do
            s ← on_error assignment (free_assignment (b ∷ []))
            u ← assignment
            v ← assignment
            pure (interface_of b s u v)))
  unfolding ◌>>=◌ assignment
  first_step (ok b, q) e o =
      second_step b q (assignment q) (p, refl, e) refl
        (assignment-Owns (suc (suc budget)) q (b ∷ held) o)
  first_step (err y, q) e o = record {
    taken = [];
    few = omega arith;
    before = p;
    after = q;
    steps = refl;
    failing = e;
    left = refl;
    own = Owns-mono budget (suc (suc (suc budget))) q _ (omega arith) o;
  }
  first_step (panic, q) e o = o

-- Where the counter has four increments left and what is held is not free, IPInterface makes its slice of the next
-- four assignments, and its caller then holds four addresses that nobody else holds and that are not free.
-- Otherwise at most three assignments went well before one failed, and the pool is the one that this left: a
-- single address is given back to it; of two or three each is neither held nor free.
pub ip_interface-Owns :
    (budget : ℕ) (p : IpPool) (held : List Ip)
    → Owns (suc (suc (suc (suc budget)))) p held
    → Made budget p held (ip_interface p)
unfolding ip_interface
ip_interface-Owns budget p held o =
    first_step budget p held (assignment p) refl (assignment-Owns (suc (suc (suc budget))) p held o)

-- A slice that its holder gives back is handed out again whole: the interface made next, on a pool
-- with nothing else free, has the same addresses in the same roles, and leaves the pool as it was.
pub ip_interface-free_assignment :
    (p : IpPool) (b s u v : Ip)
    → p.free ≡ []
    → ip_interface (free_assignment (interface_of b s u v).slice p) ≡ (ok (interface_of b s u v), p)
unfolding ip_interface free_assignment assignment
ip_interface-free_assignment p b s u v e = rw e (ground arith)

-- The bug: with two free addresses left and the subnet used up, IPInterface fails and both are lost.
-- Nothing is free afterwards, and the caller gets no interface to give back.
pub ip_interface_leaks :
    (p : IpPool) (a b : Ip)
    → p.free ≡ a ∷ b ∷ []
    → contains p.subnet (bump p.last_from_pool) ≡ false
    → ip_interface p
      ≡ (err pool_exhausted, record p { free = []; last_from_pool = bump p.last_from_pool })
unfolding ip_interface assignment get_next_from_pool
ip_interface_leaks p a b e x = ground arith
