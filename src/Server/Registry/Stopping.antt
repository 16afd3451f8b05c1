-- ===== src/Server/Registry/Stopping.antt =====
-- serv.go: what the stop of a silo does to the registry of names.
use text.Mathlib.TextEquality.{eq_iff}
use colex.Base.{String, true, Option, none, some, ◌≡◌, refl, sym, ap, ◌∙◌, arith, same_text_iff}
use colex.Base.Int.{ℤ}
use colex.Base.Keeps.{Keeps}
use colex.Base.Map.{lookup, insert, remove, lookup-insert, lookup-remove}
use colex.Base.Outcome.{gets, modify}
use colex.Base.Yields.{Yields, Ends, Yields-bind, Yields-keep, Yields-raise}
use colex.Controller.Types.{Silo}
use colex.Server.{Server, Env}
use colex.Server.Silos.{stop_silo_internal, stop_found, close_stored}
use colex.Server.Registry.{Registry, drop_name, is_there, notify-Knows, registry, Knows}

module _ (env : Env) (now : ℤ) (name : String) (names : Registry) where
  stored-Knows :
      (silo : Silo) → names name ≡ true → Keeps (Knows names) (close_stored env name silo)
  unfolding close_stored
  stored-Knows silo there = record { at = λ s h. record { at = λ key. still s h _ key } }
    where
      still :
          (s : Server)
          → Knows names s
          → (left : Silo) (key : String)
          → is_there (lookup key (insert name left (remove name s.silos))) ≡ names key
      still s h left key = ground (
        arith,
        there,
        h.at key,
        lookup-insert name key left (remove name s.silos),
        lookup-remove name key s.silos,
        eq_iff name key,
        same_text_iff name key,
        ap names,
      )

  removed-Knows :
      (s : Server)
      → Knows names s
      → Knows (drop_name name names) (record s { silos = remove name s.silos })
  removed-Knows s h = record {
    at = λ key.
        ground (
          arith,
          h.at key,
          lookup-remove name key s.silos,
          eq_iff name key,
          same_text_iff name key,
        );
  }

  found-Knows :
      (found : Option Silo)
      → Yields
          (λ s. (found ≡ lookup name s.silos) × Knows names s)
          (λ _. Knows (drop_name name names))
          (Knows names)
          (stop_found env now name found)
  unfolding stop_found modify
  found-Knows none = Yields-raise _ (λ s (e, h). h)
  found-Knows (some silo) = record {
    ends = λ s (e, h).
        let there : names name ≡ true = sym (h.at name) ∙ sym (ap is_there e) in
        (Yields-bind _ _ (Yields-keep _ (notify-Knows env names now _) (λ a t k. k) (λ t k. k))
            (λ u.
              Yields-bind _ _ (Yields-keep _ (stored-Knows silo there) (λ a t k. k) (λ t k. k))
                (λ v. removing))).ends
          s h;
  }
    where
      removing :
          Yields
            (Knows names)
            (λ _. Knows (drop_name name names))
            (Knows names)
            (modify (λ (s : Server). record s { silos = remove name s.silos }))
      removing = record { ends = removed-Knows }

  stop-Knows :
      Yields
        (Knows names)
        (λ _. Knows (drop_name name names))
        (Knows names)
        (stop_silo_internal env now name)
  unfolding stop_silo_internal gets
  stop-Knows = Yields-bind _ _ looking found-Knows
    where
      looking :
          Yields
            (Knows names)
            (λ found s. (found ≡ lookup name s.silos) × Knows names s)
            (Knows names)
            (gets (λ (s : Server). lookup name s.silos))
      looking = record { ends = λ s h. (refl, h) }

-- Stopping a silo takes its name from the names of the server's silos and changes no other; where it fails
-- it changes none.
pub stop_silo_internal-registry :
    (env : Env) (now : ℤ) (name : String) (s : Server)
    → Ends
        (λ _. Knows (drop_name name (registry s)))
        (Knows (registry s))
        (stop_silo_internal env now name s)
stop_silo_internal-registry env now name s =
    (stop-Knows env now name (registry s)).ends s (record { at = λ key. refl })
