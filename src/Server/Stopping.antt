-- ===== src/Server/Stopping.antt =====
-- serv.go: what the end of a silo does to the addresses of all silos of the server.
use colex.Base.{ℕ, String, Option, none, some, List, [], ◌∷◌, ◌++◌, ◌≡◌, refl}
use colex.Base.Int.{ℤ}
use colex.Base.Keeps
use colex.Base.Keeps.{
  Keeps, keeps_rules, Keeps-within, Keeps-modify, Leads, Leads-bind, Leads-modify, Leads-keep,
}
use colex.Base.Map.{Map, lookup, remove}
use colex.Base.Outcome.{Exec, raise, modify, ◌>>=◌}
use colex.IpPool.{IpPool}
use colex.IpPool.Ownership.{Accounts}
use colex.Os.{Os, Host, SamePool, os_keeps_pool}
use colex.Metadata.{
  Service, on_host, Event, silo_started, silo_stopped, host_event, handle_event, setup_listeners,
  stop_listeners, stop_all_listeners, close_metadata, SiloInfo,
}
use colex.Controller.Types.{Silo}
use colex.Controller.Silo.Lifecycle.{close_lem}
use colex.Controller.Silo.Ownership.{claims}
use colex.Server.{Server, Env, notify, on_metadata}
use colex.Server.Silos.{stop_silo_internal, stop_found, close_stored}
use colex.Server.Claims.{all_claims, found-Accounts, removed-Accounts, inserted-Accounts}

-- The addresses that the server's silos claim are all different and not free.
abbrev pub ServerAccounts : ℕ → Server → Type 0
ServerAccounts budget s = Accounts budget s.host.pool (all_claims s.silos)

-- The pool and the silos are as they were.
pub record IsQuiet (p : IpPool) (m : Map Silo) (s : Server) : Type 0 where
  pub pool : s.host.pool ≡ p
  pub silos : s.silos ≡ m

abbrev ServicePool : IpPool → Service → Type 0
ServicePool p v = v.host.pool ≡ p

module _ (os : Os) (p : IpPool) where
  setup_listeners-Keeps_pool : (ip : String) → Keeps (SamePool p) (setup_listeners os ip)
  unfolding setup_listeners
  setup_listeners-Keeps_pool ip = search os_keeps_pool depth 20

  stop_listeners-Keeps_pool : (ls : List String) → Keeps (SamePool p) (stop_listeners os ls)
  unfolding stop_listeners
  stop_listeners-Keeps_pool [] = search os_keeps_pool
  stop_listeners-Keeps_pool (l ∷ rest) =
      Keeps.Keeps-bind _ _ (search os_keeps_pool) (λ _. stop_listeners-Keeps_pool rest)

  service-Keeps_pool :
      {A : Type 0} (m : Exec Host A) → Keeps (SamePool p) m → Keeps (ServicePool p) (on_host m)
  service-Keeps_pool m k = Keeps-within _ _ m (λ v h. record { at = k.at }) (λ v h. h)

  handle_event-Keeps_pool : (now : ℤ) (e : Event) → Keeps (ServicePool p) (handle_event os now e)
  unfolding handle_event ◌>>=◌
  handle_event-Keeps_pool now (silo_started name id tags interfaces silo) =
      search (keeps_rules, service-Keeps_pool, setup_listeners-Keeps_pool) depth 20
  handle_event-Keeps_pool now (silo_stopped name id) =
      search (keeps_rules, service-Keeps_pool, stop_listeners-Keeps_pool) depth 20

  host_event-Keeps_pool : (now : ℤ) (e : Event) → Keeps (ServicePool p) (host_event os now e)
  unfolding host_event
  host_event-Keeps_pool now e = search (keeps_rules, handle_event-Keeps_pool) depth 20

  stop_all_listeners-Keeps_pool :
      (known : Map SiloInfo) → Keeps (SamePool p) (stop_all_listeners os known)
  unfolding stop_all_listeners
  stop_all_listeners-Keeps_pool [] = search os_keeps_pool
  stop_all_listeners-Keeps_pool ((id, s) ∷ rest) =
      Keeps.Keeps-bind _ _ (stop_listeners-Keeps_pool s.listeners)
        (λ u. stop_all_listeners-Keeps_pool rest)

  close_metadata-Keeps_pool : Keeps (ServicePool p) (close_metadata os)
  unfolding close_metadata
  close_metadata-Keeps_pool = Keeps.Keeps-bind _ _ (search keeps_rules) (λ closed.
      Keeps.Keeps-if closed _ _ (search keeps_rules) (
        Keeps.Keeps-bind _ _ (Keeps-modify _ (λ v h. h)) (λ u.
          Keeps.Keeps-bind _ _ (search keeps_rules)
            (λ known. service-Keeps_pool _ (stop_all_listeners-Keeps_pool known)))))

  on_metadata-IsQuiet :
      (m : Map Silo) (action : Exec Service Unit)
      → Keeps (ServicePool p) action
      → Keeps (IsQuiet p m) (on_metadata action)
  on_metadata-IsQuiet m action k =
      Keeps-within _ _ action
        (λ s q. record { at = λ v h. record { pool = k.at v h.pool; silos = q.silos } })
        (λ s q. record { pool = q.pool; silos = q.silos })

  pub notify-IsQuiet : (m : Map Silo) (now : ℤ) (e : Event) → Keeps (IsQuiet p m) (notify os now e)
  notify-IsQuiet m now e = on_metadata-IsQuiet m _ (host_event-Keeps_pool now e)

  pub close_metadata-IsQuiet :
      (m : Map Silo) → Keeps (IsQuiet p m) (on_metadata (close_metadata os))
  close_metadata-IsQuiet m = on_metadata-IsQuiet m _ close_metadata-Keeps_pool

-- All is well, and one silo of the map claims its addresses while the others claim theirs.
record Stopping (budget : ℕ) (name : String) (silo : Silo) (s : Server) : Type 0 where
  whole : ServerAccounts budget s
  parts : Accounts budget s.host.pool (claims silo ++ all_claims (remove name s.silos))

module _ (env : Env) (budget : ℕ) where
  notify-Stopping :
      (name : String) (silo : Silo) (now : ℤ) (e : Event)
      → Keeps (Stopping budget name silo) (notify env.os now e)
  notify-Stopping name silo now e = record {
    at = λ s h.
        let quiet =
          (notify-IsQuiet env.os s.host.pool s.silos now e).at s
            (record { pool = refl; silos = refl }) in
        record {
          whole = rw (quiet.pool, quiet.silos) h.whole;
          parts = rw (quiet.pool, quiet.silos) h.parts;
        };
  }

  close_stored-Leads :
      (name : String) (silo : Silo)
      → Leads (Stopping budget name silo) (ServerAccounts budget) (close_stored env name silo)
  unfolding close_stored
  close_stored-Leads name silo = record {
    at = λ s h. inserted-Accounts budget _ name _ (remove name s.silos) [] (
        close_lem env.os budget (all_claims (remove name s.silos))
          (record { silo = silo; host = s.host }) h.parts);
  }

  remove-Keeps :
      (name : String)
      → Keeps
          (ServerAccounts budget)
          (modify (λ (s : Server). record s { silos = remove name s.silos }))
  remove-Keeps name = Keeps-modify _ (λ s h. removed-Accounts budget s.host.pool name s.silos [] h)

  stop_found-ServerAccounts :
      (now : ℤ) (name : String) (found : Option Silo) (s : Server)
      → lookup name s.silos ≡ found
      → ServerAccounts budget s
      → ServerAccounts budget (stop_found env now name found s).1
  unfolding stop_found raise
  stop_found-ServerAccounts now name none s e h = h
  stop_found-ServerAccounts now name (some silo) s e h =
      (Leads-bind _ _ (Leads-keep (notify-Stopping name silo now (silo_stopped name silo.id_hex)))
          (λ _.
            Leads-bind _ _ (close_stored-Leads name silo) (λ _. Leads-keep (remove-Keeps name))
              (λ t k. k))
          (λ t k. k.whole)).at
        s (record { whole = h; parts = found-Accounts budget s.host.pool name silo s.silos [] e h })

  -- Stopping a silo, whether it is there or not and however its Close ends, leaves the addresses that
  -- the server's silos claim all different and not free.
  pub stop_silo_internal-ServerAccounts :
      (now : ℤ) (name : String) (s : Server)
      → ServerAccounts budget s
      → ServerAccounts budget (stop_silo_internal env now name s).1
  unfolding stop_silo_internal ◌>>=◌
  stop_silo_internal-ServerAccounts now name s h =
      stop_found-ServerAccounts now name (lookup name s.silos) s refl h
