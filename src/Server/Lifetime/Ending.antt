-- ===== src/Server/Lifetime/Ending.antt =====
-- The shutdown of the daemon: Close stops every silo of the server.
use text.Mathlib.TextEquality.{eq_iff}
use colex.Base.{
  String, Bool, true, false, ◌||◌, Option, none, some, List, [], ◌∷◌, ◌≡◌, refl, subst, arith,
  same_text, same_text_iff, if◌then◌else◌,
}
use colex.Base.Int.{ℤ}
use colex.Base.Keeps.{Keeps, keeps_rules}
use colex.Base.Map.{Map, lookup, insert, remove, lookup-insert, lookup-remove}
use colex.Base.Outcome.{
  Error, Result, Exec, ok, err, panic, pure, raise, crash, gets, modify, ◌>>=◌, ◌>>◌,
}
use colex.Base.Yields.{Yields, Ends, Yields-bind, Yields-keep, Yields-pure, Yields-raise}
use colex.Controller.Types.{Silo}
use colex.Metadata.{Event}
use colex.Server.{Server, Env, notify}
use colex.Server.Silos.{stop_silo_internal, stop_found, close_stored}
use colex.Server.Lifetime.{names, stop_all, close_server}

unfoldable listed : String → List String → Bool
listed key [] = false
listed key (name ∷ rest) = same_text name key || listed key rest

-- Every silo of the server has one of the names.
record AreAll (keys : List String) (s : Server) : Type 0 where
  absent : (key : String) → listed key keys ≡ false → lookup key s.silos ≡ none

names-listed : (m : Map Silo) (key : String) → listed key (names m) ≡ false → lookup key m ≡ none
unfolding listed lookup
names-listed [] key l = refl
names-listed ((name, s) ∷ rest) key l =
    ground (arith, names-listed rest key, eq_iff name key, same_text_iff name key)

removed-AreAll :
    (name : String) (rest : List String) (s : Server)
    → AreAll (name ∷ rest) s
    → AreAll rest (record s { silos = remove name s.silos })
unfolding listed
removed-AreAll name rest s all = record {
  absent = λ key l. ground (
    arith,
    all.absent key,
    lookup-remove name key s.silos,
    eq_iff name key,
    same_text_iff name key,
  );
}

stored-AreAll :
    (name : String) (rest : List String) (silo : Silo) (s : Server)
    → AreAll (name ∷ rest) s
    → (key : String) → listed key (name ∷ rest) ≡ false
    → lookup key (insert name silo (remove name s.silos)) ≡ none
unfolding listed
stored-AreAll name rest silo s all key l = ground (
  arith,
  all.absent key,
  lookup-insert name key silo (remove name s.silos),
  lookup-remove name key s.silos,
  eq_iff name key,
  same_text_iff name key,
)

module _ (env : Env) where
  notify-AreAll :
      (now : ℤ) (keys : List String) (e : Event) → Keeps (AreAll keys) (notify env.os now e)
  unfolding colex.Base.Outcome.within
  notify-AreAll now keys e = record { at = λ s h. record { absent = λ key l. h.absent key l } }

  close_stored-AreAll :
      (name : String) (rest : List String) (silo : Silo)
      → Keeps (AreAll (name ∷ rest)) (close_stored env name silo)
  unfolding close_stored
  close_stored-AreAll name rest silo = record {
    at = λ s h. record { absent = stored-AreAll name rest _ s h };
  }

  abbrev Anything : Server → Type 0
  Anything s = Unit

  removing :
      (name : String) (rest : List String)
      → Yields
          (AreAll (name ∷ rest))
          (λ _. AreAll rest)
          Anything
          (modify (λ (s : Server). record s { silos = remove name s.silos }))
  unfolding modify
  removing name rest = record { ends = λ s h. removed-AreAll name rest s h }

  stop_found-AreAll :
      (now : ℤ) (name : String) (rest : List String) (silo : Option Silo)
      → Yields (AreAll (name ∷ rest)) (λ _. AreAll rest) Anything (stop_found env now name silo)
  unfolding stop_found
  stop_found-AreAll now name rest none = Yields-raise _ (λ s h. tt)
  stop_found-AreAll now name rest (some silo) =
      Yields-bind _ _ (Yields-keep _ (notify-AreAll now (name ∷ rest) _) (λ a s h. h) (λ s h. tt))
        (λ _.
          Yields-bind _ _
            (Yields-keep _ (close_stored-AreAll name rest silo) (λ a s h. h) (λ s h. tt))
            (λ _. removing name rest))

  stop_all-AreAll :
      (now : ℤ) (keys : List String)
      → Yields (AreAll keys) (λ _. AreAll []) Anything (stop_all env now keys)
  unfolding stop_all stop_silo_internal
  stop_all-AreAll now [] = Yields-pure tt (λ s h. h)
  stop_all-AreAll now (name ∷ rest) =
      Yields-bind _ _
        (Yields-bind _ _ (Yields-keep _ (search keeps_rules) (λ a s h. h) (λ s h. tt))
          (stop_found-AreAll now name rest))
        (λ _. stop_all-AreAll now rest)

  outcome_lem :
      (r : Result {0} Unit × Server) (t : Server)
      → Ends (λ _. AreAll []) Anything r
      → r ≡ (ok tt, t)
      → AreAll [] t
  outcome_lem (ok u, s) t h e = let it : s ≡ t = ground arith in subst (AreAll []) it h
  outcome_lem (err x, s) t h e = cc
  outcome_lem (panic, s) t h e = cc

  anyway : {A : Type 0} (m : Exec Server A) → Yields Anything (λ a. Anything) Anything m
  anyway m = Yields-keep m (record { at = λ s h. tt }) (λ a s h. tt) (λ s h. tt)

  listing :
      Yields Anything (λ silos. AreAll (names silos)) Anything (gets (λ (s : Server). s.silos))
  unfolding gets
  listing = record { ends = λ s h. record { absent = names-listed s.silos } }

  close_server-AreAll : (now : ℤ) → Yields Anything (λ _. AreAll []) Anything (close_server env now)
  unfolding close_server
  close_server-AreAll now = Yields-bind _ _ (anyway _) (λ u1.
      Yields-bind _ _ (anyway _)
        (λ u2. Yields-bind _ _ listing (λ silos. stop_all-AreAll now (names silos))))

  -- A shutdown that ends without an error has stopped every silo: the server holds none any more.
  pub close_server_empties :
      (now : ℤ) (s t : Server) (key : String)
      → close_server env now s ≡ (ok tt, t)
      → lookup key t.silos ≡ none
  unfolding listed
  close_server_empties now s t key e =
      let all = outcome_lem (close_server env now s) t ((close_server-AreAll now).ends s tt) e in
      all.absent key refl
