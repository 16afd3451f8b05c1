-- ===== src/Server/Claims.antt =====
-- The addresses that the silos of a server claim together, as its map of silos changes.
use mathlib.Core.List.{Perm, append_assoc, perm_append_comm, perm-append_left_iff}
use mathlib.Core.List.Perm
use colex.Base.{
  ℕ, String, Bool-cases, inl, inr, some, List, [], ◌∷◌, ◌++◌, ◌≡◌, sym, subst, arith, same_text,
}
use colex.Base.Map.{Map, lookup, insert, remove}
use colex.Ip.{Ip}
use colex.IpPool.{IpPool}
use colex.IpPool.Ownership.{Accounts, Accounts-forget, Owns-perm}
use colex.Controller.Types.{Silo}
use colex.Controller.Silo.Ownership.{claims}

abbrev pub all_claims : Map Silo → List Ip
all_claims [] = []
all_claims ((name, s) ∷ rest) = claims s ++ all_claims rest

module _ (budget : ℕ) (p : IpPool) where
  Accounts-perm : (xs ys : List Ip) → Perm xs ys → Accounts budget p xs → Accounts budget p ys
  Accounts-perm xs ys e (lost, o) = (lost, Owns-perm budget p _ _ (Perm.append_right lost e) o)

  -- `b` comes to the front, behind `h`.
  Accounts-swap :
      (h a b c : List Ip)
      → Accounts budget p (h ++ (a ++ (b ++ c)))
      → Accounts budget p (h ++ (b ++ (a ++ c)))
  Accounts-swap h a b c = Accounts-perm _ _ ((perm-append_left_iff h).1 swapped)
    where
      swapped : Perm (a ++ (b ++ c)) (b ++ (a ++ c))
      swapped =
          subst (λ l. Perm l (b ++ (a ++ c))) (append_assoc a b c)
            (subst (λ l. Perm ((a ++ b) ++ c) l) (append_assoc b a c)
              (Perm.append_right c (perm_append_comm a b)))

  regroup :
      (h a c : List Ip) → Accounts budget p (h ++ (a ++ c)) → Accounts budget p ((h ++ a) ++ c)
  regroup h a c = subst (Accounts budget p) (sym (append_assoc h a c))

  ungroup :
      (h a c : List Ip) → Accounts budget p ((h ++ a) ++ c) → Accounts budget p (h ++ (a ++ c))
  ungroup h a c = subst (Accounts budget p) (append_assoc h a c)

  Accounts-drop : (h a c : List Ip) → Accounts budget p (h ++ (a ++ c)) → Accounts budget p (h ++ c)
  Accounts-drop h a c o = Accounts-forget budget p a (h ++ c) (Accounts-swap [] h a c o)

  pub removed-Accounts :
      (name : String) (m : Map Silo) (held : List Ip)
      → Accounts budget p (held ++ all_claims m)
      → Accounts budget p (held ++ all_claims (remove name m))
  unfolding remove
  removed-Accounts name [] held o = o
  removed-Accounts name ((its, s) ∷ m) held o = elim (Bool-cases (same_text its name)) [
    | inl same ↦
        rw same (removed-Accounts name m held (Accounts-drop held (claims s) (all_claims m) o))
    | inr other ↦ rw other (
        ungroup held (claims s) _
          (removed-Accounts name m (held ++ claims s) (regroup held (claims s) (all_claims m) o)))
  ]

  -- What the map claims is what one silo of it claims, and what the others do.
  pub found-Accounts :
      (name : String) (silo : Silo) (m : Map Silo) (held : List Ip)
      → lookup name m ≡ some silo
      → Accounts budget p (held ++ all_claims m)
      → Accounts budget p (held ++ (claims silo ++ all_claims (remove name m)))
  unfolding lookup remove
  found-Accounts name silo [] held e o = cc
  found-Accounts name silo ((its, s) ∷ m) held e o = elim (Bool-cases (same_text its name)) [
    | inl same ↦
        let it : s ≡ silo = ground arith in
        rw (same, ← it)
          (ungroup held (claims s) _
            (removed-Accounts name m (held ++ claims s) (regroup held (claims s) (all_claims m) o)))
    | inr other ↦
        let further : lookup name m ≡ some silo = ground arith in
        rw other (
          Accounts-swap held (claims s) (claims silo) _ (
            ungroup held (claims s) _ (
              found-Accounts name silo m (held ++ claims s) further
                (regroup held (claims s) (all_claims m) o))))
  ]

  -- A silo that is put into the map brings its claims with it, and takes the place of another.
  pub inserted-Accounts :
      (name : String) (silo : Silo) (m : Map Silo) (held : List Ip)
      → Accounts budget p (held ++ (claims silo ++ all_claims m))
      → Accounts budget p (held ++ all_claims (insert name silo m))
  unfolding insert
  inserted-Accounts name silo [] held o = o
  inserted-Accounts name silo ((its, s) ∷ m) held o = elim (Bool-cases (same_text its name)) [
    | inl same ↦ rw same (
        ungroup held (claims silo) _ (
          Accounts-drop (held ++ claims silo) (claims s) (all_claims m)
            (regroup held (claims silo) _ o)))
    | inr other ↦ rw other (
        ungroup held (claims s) _ (
          inserted-Accounts name silo m (held ++ claims s) (
            regroup held (claims s) _
              (Accounts-swap held (claims silo) (claims s) (all_claims m) o))))
  ]
