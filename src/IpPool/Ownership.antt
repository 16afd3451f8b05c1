-- ===== src/IpPool/Ownership.antt =====
-- Who holds which address: the pool's free list and what its clients hold are disjoint.
use mathlib.Core.List.{
  Mem, Nodup, Perm, Nodup-cons, perm_middle, mem-cons, not-mem-nil, append_assoc,
  perm-append_left_iff, perm_append_comm,
}
use native.Mathlib.Bridge.{le_prop}
use mathlib.Core.List.Perm
use mathlib.Core.Logic.Or
use mathlib.Core.HLevel.{⊥_prop}
use native.Mathlib.Nat.{mod-eq_of_lt}
use colex.Base.{
  ◌∙◌, ℕ, suc, ◌+◌, ◌<◌, ◌≤◌, ◌^◌, ◌≡◌, refl, List, [], ◌∷◌, ◌++◌, arith, All, All-append,
  All-append_left, All-append_right, All-mono, All-perm, length, sym, subst, inl, inr, Bool-cases,
}
use colex.Base.Outcome.{Result, ok, err, panic}
use colex.Ip.{Ip, bump, contains}
use colex.Ip.Bump.{value, value-bump, IsBytes, bump-IsBytes, length-bump}
use colex.IpPool.{IpPool, assignment, get_next_from_pool, assignment_from, free_assignment}

abbrev pub IsBelow : ℕ → List Ip → Type 0
IsBelow n = All (λ a. value a < n)

-- The pool `p` while its clients hold the addresses `held`, with `budget` increments of the counter
-- left before it wraps: no address is free and held, or twice either, and all lie below the counter.
pub record Owns (budget : ℕ) (p : IpPool) (held : List Ip) : Type 0 where
  pub bytes : IsBytes p.last_from_pool
  pub room : value p.last_from_pool + budget < 256 ^ length p.last_from_pool
  pub below : IsBelow (value p.last_from_pool) (p.free ++ held)
  pub distinct : Nodup (p.free ++ held)

-- What an assignment leaves: on success the client holds one more address.
abbrev pub Assigned : ℕ → List Ip → Result Ip × IpPool → Type 0
Assigned budget held (ok a, q) = Owns budget q (a ∷ held)
Assigned budget held (err e, q) = Owns budget q held
Assigned budget held (panic, q) = ⊥

not-mem-below : (n : ℕ) (a : Ip) (xs : List Ip) → IsBelow n xs → n ≤ value a → ¬ Mem a xs
not-mem-below n a [] b h m = not-mem-nil m
not-mem-below n a (x ∷ xs) b h m =
    Or.elim ⊥_prop (mem-cons.0 m)
      (λ e. let bound : value a < n = subst (λ y. value y < n) (sym e) b.0 in absurd (omega arith))
      (not-mem-below n a xs b.1 h)

-- A permutation of the addresses keeps the invariant.
IsBelow-middle :
    (n : ℕ) (a : Ip) (xs ys : List Ip) → IsBelow n (a ∷ xs ++ ys) → IsBelow n (xs ++ a ∷ ys)
IsBelow-middle n a xs ys h =
    All-append _ xs (a ∷ ys) (All-append_left _ xs ys h.1) (h.0, All-append_right _ xs ys h.1)

IsBelow-suc : (n : ℕ) (xs : List Ip) → IsBelow n xs → IsBelow (n + 1) xs
IsBelow-suc n xs = All-mono xs (λ a h. omega arith)

pub value-bump_room :
    (ip : Ip) (budget : ℕ)
    → IsBytes ip
    → value ip + suc budget < 256 ^ length ip
    → value (bump ip) ≡ value ip + 1
value-bump_room ip budget b r =
    let fits : value ip + 1 < 256 ^ length ip = omega arith in value-bump ip b ∙ mod-eq_of_lt fits

bumped-Owns :
    (budget : ℕ) (p : IpPool) (held : List Ip)
    → Owns (suc budget) p held
    → Owns budget (record p { last_from_pool = bump p.last_from_pool }) held
bumped-Owns budget p held o =
    let step = value-bump_room p.last_from_pool budget o.bytes o.room in
    record {
      bytes = bump-IsBytes p.last_from_pool o.bytes;
      room = rw (step, length-bump p.last_from_pool) (let r = o.room in omega arith);
      below = rw step (IsBelow-suc _ _ o.below);
      distinct = o.distinct;
    }

counter-Owns :
    (budget : ℕ) (p : IpPool) (held : List Ip)
    → Owns (suc budget) p held
    → Owns budget (record p { last_from_pool = bump p.last_from_pool }) (p.last_from_pool ∷ held)
counter-Owns budget p held o =
    let step = value-bump_room p.last_from_pool budget o.bytes o.room in
    let moved = bumped-Owns budget p held o in
    record {
      bytes = moved.bytes;
      room = moved.room;
      below = IsBelow-middle _ p.last_from_pool p.free held (rw step (omega arith), moved.below);
      distinct =
          Perm.nodup (Perm.symm (perm_middle p.free held))
            (Nodup-cons.1 (not-mem-below _ _ _ o.below (omega arith), o.distinct));
    }

next-Owns :
    (budget : ℕ) (p : IpPool) (held : List Ip)
    → Owns (suc budget) p held
    → Assigned budget held (get_next_from_pool p)
unfolding get_next_from_pool
next-Owns budget p held o = elim (Bool-cases (contains p.subnet (bump p.last_from_pool))) [
  | inl inside ↦ rw inside (counter-Owns budget p held o)
  | inr outside ↦ rw outside (bumped-Owns budget p held o)
]

recycled-Owns :
    (budget : ℕ) (p : IpPool) (f : Ip) (rest held : List Ip)
    → p.free ≡ f ∷ rest
    → Owns (suc budget) p held
    → Owns budget (record p { free = rest }) (f ∷ held)
recycled-Owns budget p f rest held e o = record {
  bytes = o.bytes;
  room = let r = o.room in omega arith;
  below =
      IsBelow-middle _ f rest held
        (subst (λ (free : List Ip). IsBelow (value p.last_from_pool) (free ++ held)) e o.below);
  distinct =
      Perm.nodup (Perm.symm (perm_middle rest held))
        (subst (λ (free : List Ip). Nodup (free ++ held)) e o.distinct);
}

assignment_from-Owns :
    (budget : ℕ) (free : List Ip) (p : IpPool) (held : List Ip)
    → p.free ≡ free
    → Owns (suc budget) p held
    → Assigned budget held (assignment_from free p)
unfolding assignment_from
assignment_from-Owns budget [] p held e o = next-Owns budget p held o
assignment_from-Owns budget (f ∷ rest) p held e o = recycled-Owns budget p f rest held e o

-- An assignment hands out an address that nobody holds and that is no longer free; one that fails
-- leaves the holders as they were.
pub assignment-Owns :
    (budget : ℕ) (p : IpPool) (held : List Ip)
    → Owns (suc budget) p held
    → Assigned budget held (assignment p)
unfolding assignment
assignment-Owns budget p held o = assignment_from-Owns budget p.free p held refl o

-- Addresses that their holder gives back are free.
pub free_assignment-Owns :
    (budget : ℕ) (p : IpPool) (ip held : List Ip)
    → Owns budget p (ip ++ held)
    → Owns budget (free_assignment ip p) held
unfolding free_assignment
free_assignment-Owns budget p ip held o = record {
  bytes = o.bytes;
  room = o.room;
  below = rw append_assoc o.below;
  distinct = rw append_assoc o.distinct;
}

IsBelow-perm : (n : ℕ) (xs ys : List Ip) → Perm xs ys → IsBelow n xs → IsBelow n ys
IsBelow-perm n xs ys p = All-perm (λ a. le_prop) p

pub Owns-perm :
    (budget : ℕ) (p : IpPool) (xs ys : List Ip) → Perm xs ys → Owns budget p xs → Owns budget p ys
Owns-perm budget p xs ys e o =
    let whole : Perm (p.free ++ xs) (p.free ++ ys) = (perm-append_left_iff p.free).1 e in
    record {
      bytes = o.bytes;
      room = o.room;
      below = IsBelow-perm _ _ _ whole o.below;
      distinct = Perm.nodup whole o.distinct;
    }

pub Owns-mono : (k n : ℕ) (p : IpPool) (held : List Ip) → k ≤ n → Owns n p held → Owns k p held
Owns-mono k n p held h o = record {
  bytes = o.bytes;
  room = let r = o.room in omega arith;
  below = o.below;
  distinct = o.distinct;
}

-- The holders `held`, where some addresses may have been lost: no longer free, and nobody's.
abbrev pub Accounts : ℕ → IpPool → List Ip → Type 0
Accounts budget p held = (lost : List Ip) × Owns budget p (held ++ lost)

pub Accounts-free :
    (budget : ℕ) (p : IpPool) (ip held : List Ip)
    → Accounts budget p (ip ++ held)
    → Accounts budget (free_assignment ip p) held
Accounts-free budget p ip held (lost, o) =
    (lost, free_assignment-Owns budget p ip (held ++ lost) (rw (← append_assoc) o))

-- What nobody gives back is lost.
pub Accounts-forget :
    (budget : ℕ) (p : IpPool) (ip held : List Ip)
    → Accounts budget p (ip ++ held)
    → Accounts budget p held
Accounts-forget budget p ip held (lost, o) = (ip ++ lost, Owns-perm budget p _ _ swapped o)
  where
    swapped : Perm ((ip ++ held) ++ lost) (held ++ (ip ++ lost))
    swapped =
        subst (λ l. Perm ((ip ++ held) ++ lost) l) (append_assoc held ip lost)
          (Perm.append_right lost (perm_append_comm ip held))
