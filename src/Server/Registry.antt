-- ===== src/Server/Registry.antt =====
-- serv.go: what the start and the stop of a silo do to the names under which the server knows its silos.
-- A registry is all that a client sees of the map of silos: which names are taken.
pub mod Stopping
use text.Mathlib.TextEquality.{eq_iff}
use colex.Base.{
  ℕ, String, Bool, true, false, Option, none, some, List, [], ◌∷◌, ◌≡◌, ◌⊎◌, inl, inr, refl, sym,
  ap, subst, ◌∙◌, arith, if◌then◌else◌, same_text, same_text_iff, ◌&&◌, ltb,
}
use colex.Base.Int.{ℤ}
use colex.Base.Keeps.{Keeps, keeps_rules, Keeps-bind}
use colex.Base.Map.{lookup, insert, remove, lookup-insert, lookup-remove}
use colex.Base.Outcome.{
  Error, Result, Exec, ok, err, panic, pure, raise, gets, lift, modify, ◌>>=◌, ◌>>◌,
}
use colex.Base.Yields.{Yields, Ends, Yields-bind, Yields-keep, Yields-raise, Yields-if}
use colex.Ip.{Ip}
use colex.IpPool.{IpPool}
use colex.Wire.{SiloConf, File}
use colex.Os.{Host}
use colex.Controller.Silo.{new_silo}
use colex.Metadata.{Event}
use colex.Controller.Types.{Silo, Ctx, Options}
use colex.Server.{Server, Env, on_host, on_pool, notify, run_method, ended}
use colex.Server.Silos.{
  create_silo, made_silo, after_init, after_start, announce, bring_up, start_silo_internal,
  stop_silo_internal, stop_found, close_stored,
}

abbrev pub Registry : Type 0
Registry = String → Bool

abbrev pub is_there : Option Silo → Bool
is_there none = false
is_there (some s) = true

abbrev pub registry : Server → Registry
registry s key = is_there (lookup key s.silos)

abbrev pub add_name : String → Registry → Registry
add_name name names key = if same_text name key then true else names key

abbrev pub drop_name : String → Registry → Registry
drop_name name names key = if same_text name key then false else names key

-- The server knows its silos under these names.
pub record Knows (names : Registry) (s : Server) : Type 0 where
  pub at : (key : String) → registry s key ≡ names key

module _ (env : Env) (names : Registry) where
  on_host-Knows : {A : Type 0} (m : Exec Host A) → Keeps (Knows names) (on_host m)
  unfolding colex.Base.Outcome.within
  on_host-Knows m = record { at = λ s h. record { at = λ key. h.at key } }

  on_pool-Knows : {A : Type 0} (m : Exec IpPool A) → Keeps (Knows names) (on_pool m)
  unfolding colex.Base.Outcome.within
  on_pool-Knows m = record { at = λ s h. record { at = λ key. h.at key } }

  pub notify-Knows : (now : ℤ) (e : Event) → Keeps (Knows names) (notify env.os now e)
  unfolding colex.Base.Outcome.within
  notify-Knows now e = record { at = λ s h. record { at = λ key. h.at key } }

  ended-Knows : (r : Result {0} Unit × Ctx) (s : Server) → Knows names s → Knows names (ended r s).1
  ended-Knows (ok u, c) s h = record { at = λ key. h.at key }
  ended-Knows (err e, c) s h = record { at = λ key. h.at key }
  ended-Knows (panic, c) s h = record { at = λ key. h.at key }

  run_method-Knows : (m : Exec Ctx Unit) (silo : Silo) → Keeps (Knows names) (run_method m silo)
  unfolding run_method
  run_method-Knows m silo = record {
    at = λ s h. ended-Knows (m (record { silo = silo; host = s.host })) s h;
  }

  made_silo-Knows :
      (slice : List Ip) (r : Result Silo) (s : Server)
      → Knows names s
      → Knows names (made_silo env slice (r, s)).1
  made_silo-Knows slice (ok silo) s h = h
  made_silo-Knows slice (err e) s h =
      (Keeps-bind _ _ (on_pool-Knows _) (λ u. search keeps_rules)).at s h
  made_silo-Knows slice panic s h = h

  create_silo-Knows :
      (name : String) (slice : List Ip) (o : Options)
      → Keeps (Knows names) (create_silo env name slice o)
  unfolding create_silo
  create_silo-Knows name slice o = record {
    at = λ s h.
        let (r, t) = on_host (new_silo env.os name o) s in
        made_silo-Knows slice r t ((on_host-Knows (new_silo env.os name o)).at s h);
  }

  after_init-Knows :
      (slice : List Ip) (r : Option Error × Silo) → Keeps (Knows names) (after_init env slice r)
  unfolding after_init
  after_init-Knows slice (none, silo) = search keeps_rules
  after_init-Knows slice (some e, silo) =
      Keeps-bind _ _ (run_method-Knows _ _)
        (λ u. Keeps-bind _ _ (on_pool-Knows _) (λ v. search keeps_rules))

  after_start-Knows : (r : Option Error × Silo) → Keeps (Knows names) (after_start env r)
  unfolding after_start
  after_start-Knows (none, silo) = search keeps_rules
  after_start-Knows (some e, silo) = Keeps-bind _ _ (run_method-Knows _ _) (λ u. search keeps_rules)

module _ (env : Env) (name : String) (names : Registry) where
  -- A start that fails has changed no name, or has added this one.
  abbrev pub MayHaveAdded : Server → Type 0
  MayHaveAdded s = Knows names s ⊎ Knows (add_name name names) s

  inserted-Knows :
      (silo : Silo) (s : Server)
      → Knows names s
      → Knows (add_name name names) (record s { silos = insert name silo s.silos })
  inserted-Knows silo s h = record {
    at = λ key. ground (
      arith,
      h.at key,
      lookup-insert name key silo s.silos,
      eq_iff name key,
      same_text_iff name key,
    );
  }

  announce-Knows :
      (now : ℤ) (silo : Silo)
      → Yields
          (Knows names)
          (λ _. Knows (add_name name names))
          MayHaveAdded
          (announce env now name silo)
  unfolding announce modify
  announce-Knows now silo =
      Yields-bind _ _ (record { ends = inserted-Knows silo })
        (λ u.
          Yields-bind _ _
            (Yields-keep _ (on_host-Knows env (add_name name names) _) (λ a s h. h) (λ s h. inr h))
            (λ interfaces.
              Yields-keep _ (notify-Knows env (add_name name names) now _) (λ a s h. h)
                (λ s h. inr h)))

  kept :
      {A : Type 0} (m : Exec Server A)
      → Keeps (Knows names) m
      → Yields (Knows names) (λ _. Knows names) MayHaveAdded m
  kept m k = Yields-keep m k (λ a s h. h) (λ s h. inl h)

module _ (env : Env) (now : ℤ) (conf : SiloConf) (names : Registry) where
  bring_up-Knows :
      (o : Options)
      → Yields
          (Knows names)
          (λ _. Knows (add_name conf.name names))
          (MayHaveAdded env conf.name names)
          (bring_up env now conf o)
  unfolding bring_up
  bring_up-Knows o =
      Yields-bind _ _ (kept env conf.name names _ (on_pool-Knows env names _)) (λ made.
        Yields-bind _ _ (kept env conf.name names _ (create_silo-Knows env names _ _ _)) (λ fresh.
          Yields-bind _ _ (kept env conf.name names _ (run_method-Knows env names _ _)) (λ inited.
            Yields-bind _ _ (kept env conf.name names _ (after_init-Knows env names _ inited))
              (λ ready.
                Yields-bind _ _ (kept env conf.name names _ (run_method-Knows env names _ _))
                  (λ started.
                    Yields-bind _ _
                      (kept env conf.name names _ (after_start-Knows env names started))
                      (λ up. announce-Knows env conf.name names now up))))))

  start-Knows :
      (files : List File)
      → Yields
          (Knows names)
          (λ _. Knows (add_name conf.name names))
          (MayHaveAdded env conf.name names)
          (start_silo_internal env now conf files)
  unfolding start_silo_internal
  start-Knows files = Yields-if _ _ _ (Yields-raise _ (λ s h. inl h)) (
      Yields-bind _ _ (kept env conf.name names _ (search keeps_rules)) (λ c.
        Yields-bind _ _ (kept env conf.name names _ (search keeps_rules)) (λ base.
          Yields-bind _ _ (kept env conf.name names _ (search keeps_rules))
            (λ o. bring_up-Knows o))))

-- Starting a silo adds its name to the names of the server's silos and changes no other; where it fails it
-- has added no name, or at most this one.
pub start_silo_internal-registry :
    (env : Env) (now : ℤ) (conf : SiloConf) (files : List File) (s : Server)
    → Ends
        (λ _. Knows (add_name conf.name (registry s)))
        (MayHaveAdded env conf.name (registry s))
        (start_silo_internal env now conf files s)
start_silo_internal-registry env now conf files s =
    (start-Knows env now conf (registry s) files).ends s (record { at = λ key. refl })
