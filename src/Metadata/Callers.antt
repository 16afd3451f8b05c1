-- ===== src/Metadata/Callers.antt =====
-- colexd/metadata_service.go: findSiloIDForIP, which walks a Go map in whatever order it has.
use mathlib.Core.List.{
  Mem, mem-cons_self, mem-cons_of_mem, not-mem-nil, eq-or-mem_of_mem-cons, Perm,
}
use mathlib.Core.Logic.Or
use mathlib.Core.List.Perm
use mathlib.Core.HLevel.{hedberg}
use colex.Base.{
  String, Bool, true, false, [], ◌∷◌, ◌≡◌, refl, ap, arith, same_text, same_text_iff, if◌then◌else◌,
}
use colex.Base.Map.{Map}
use colex.Metadata.{SiloInfo, has_veth, find_silo_id}

text_decided : (s t : String) (same : Bool) → same_text s t ≡ same → Dec (s ≡ t)
text_decided s t true e = yes ((same_text_iff s t).0 e)
text_decided s t false e = no (λ p. ground (arith, same_text_iff s t))

pub text-IsSet : IsSet String
text-IsSet = hedberg (λ s t. text_decided s t (same_text s t) refl)

-- No address is that of two silos.
pub record IsSeparate (table : Map SiloInfo) : Type 0 where
  pub same_id :
      (addr : String) (one other : String × SiloInfo)
      → Mem one table
      → Mem other table
      → has_veth addr (one.1).interfaces ≡ true
      → has_veth addr (other.1).interfaces ≡ true
      → one.0 ≡ other.0

IsSeparate-rest :
    (e : String × SiloInfo) (rest : Map SiloInfo) → IsSeparate (e ∷ rest) → IsSeparate rest
IsSeparate-rest e rest sep = record {
  same_id =
      λ addr one other m n. sep.same_id addr one other (mem-cons_of_mem _ m) (mem-cons_of_mem _ n);
}

no_veth :
    (addr id : String) (s : SiloInfo) (e : String × SiloInfo)
    → e ≡ (id, s)
    → has_veth addr s.interfaces ≡ false
    → has_veth addr (e.1).interfaces ≡ true
    → ⊥
no_veth addr id s e is none there =
    let both : has_veth addr (e.1).interfaces ≡ has_veth addr s.interfaces =
      ap (λ (x : String × SiloInfo). has_veth addr (x.1).interfaces) is in
    ground (arith, both)

at_head :
    (addr id : String) (s : SiloInfo) (rest : Map SiloInfo) (e : String × SiloInfo) (here : Bool)
    → has_veth addr s.interfaces ≡ here
    → IsSeparate ((id, s) ∷ rest)
    → Mem e ((id, s) ∷ rest)
    → has_veth addr (e.1).interfaces ≡ true
    → (Mem e rest → find_silo_id addr rest ≡ e.0)
    → (if here then id else find_silo_id addr rest) ≡ e.0
at_head addr id s rest e true same sep m h later = sep.same_id addr (id, s) e mem-cons_self m same h
at_head addr id s rest e false same sep m h later =
    let its_prop : IsProp (find_silo_id addr rest ≡ e.0) = hlevel (text-IsSet) in
    Or.elim its_prop (eq-or-mem_of_mem-cons m) (λ is. absurd (no_veth addr id s e is same h)) later

found_in :
    (addr : String) (table : Map SiloInfo) (e : String × SiloInfo)
    → IsSeparate table
    → Mem e table
    → has_veth addr (e.1).interfaces ≡ true
    → find_silo_id addr table ≡ e.0
unfolding find_silo_id
found_in addr [] e sep m h = absurd (not-mem-nil m)
found_in addr ((id, s) ∷ rest) e sep m h =
    at_head addr id s rest e (has_veth addr s.interfaces) refl sep m h
      (λ later. found_in addr rest e (IsSeparate-rest _ rest sep) later h)

IsSeparate-Perm :
    (table order : Map SiloInfo) → Perm table order → IsSeparate table → IsSeparate order
IsSeparate-Perm table order p sep = record {
  same_id = λ addr one other m n.
      sep.same_id addr one other ((Perm.mem_iff p).1 m) ((Perm.mem_iff p).1 n);
}

-- While no address is that of two silos, a request from a silo's address is taken to be from that silo, in whatever
-- order the map of the silos is walked.
pub find_silo_id-Perm :
    (addr id : String) (info : SiloInfo) (table order : Map SiloInfo)
    → IsSeparate table
    → Mem (id, info) table
    → has_veth addr info.interfaces ≡ true
    → Perm table order
    → find_silo_id addr order ≡ id
find_silo_id-Perm addr id info table order sep m h p =
    found_in addr order (id, info) (IsSeparate-Perm table order p sep) ((Perm.mem_iff p).0 m) h
