-- ===== src/Server/Launch.antt =====
-- colexd/main.go: main up to the running server.
use colex.Base.{
  ℕ, String, Bool, Option, none, some, List, [], ◌∷◌, ◌≡◌, refl, sym, ap, subst, ◌∙◌, arith,
}
use colex.Base.Int.{ℤ}
use colex.Base.Keeps.{Keeps, keeps_rules, Keeps-bind, Keeps-if, Keeps-modify}
use colex.Base.Outcome.{Error, Result, Exec, ok, err, panic, pure}
use colex.Base.Text.{Bytes}
use colex.IpPool.{IpPool, new_ip_pool}
use colex.Os.{Host, Call}
use colex.Config.{Config, from_flags, sanitize, validate_config}
use colex.Config.Defaults.{IsValid, validate_config-IsValid}
use colex.Server.{Server, Env, on_host}
use colex.Server.Lifetime.{
  Startup, enable_enrollment, set_up, started_server, from_pool, new_server, blank,
}

module _ {A B : Type 0} where
  abbrev pub then_result : Result A → (A → Result B) → Result B
  then_result (ok a) f = f a
  then_result (err e) f = err e
  then_result panic f = panic

-- What the launch has outside: hcl's decoding of a file, os.Stat on the certificates file
pub record Files : Type 0 where
  pub decode : String → Result Config
  pub certs_file_error : String → Option String

module _ (env : Env) (start : Startup) (files : Files) where
  -- loadConfigFile
  unfoldable pub load_config_file : String → String → String → Result Config
  load_config_file addr ip_pool path =
      then_result (files.decode path) (λ c. ok (sanitize addr ip_pool c))

  -- The configuration, for the flags and the arguments
  unfoldable pub config_for : String → String → List String → Result Config
  config_for addr ip_pool [] = ok (from_flags addr ip_pool)
  config_for addr ip_pool (path ∷ rest) = load_config_file addr ip_pool path

  unfoldable pub start_daemon :
      ℤ → List Call → Bytes → String → String → List String → Result Server
  start_daemon now calls certs addr ip_pool args = then_result (config_for addr ip_pool args) (λ c.
      then_result (validate_config start.key_pair_ok files.certs_file_error c)
        (λ u. new_server env start now c calls certs))

module _ (env : Env) (start : Startup) (now : ℤ) (c : Config) where
  abbrev HasConfig : Server → Type 0
  HasConfig s = s.config ≡ c

  on_host-HasConfig : {A : Type 0} (m : Exec Host A) → Keeps HasConfig (on_host m)
  unfolding colex.Base.Outcome.within
  on_host-HasConfig m = record { at = λ s h. h }

  set_up-HasConfig : Keeps HasConfig (set_up env start now c)
  unfolding set_up enable_enrollment
  set_up-HasConfig = Keeps-bind _ _ (search keeps_rules) (λ u1.
      Keeps-bind _ _
        (Keeps-if _ _ (pure tt)
          (Keeps-bind _ _ (Keeps-modify _ (λ s h. h))
            (λ u2. Keeps-bind _ _ (on_host-HasConfig _) (λ b. Keeps-modify _ (λ s h. h))))
          (search keeps_rules))
        (λ u3. on_host-HasConfig _))

  server-HasConfig :
      (r : Result {0} Unit × Server) (s : Server)
      → HasConfig r.1
      → started_server r ≡ ok s
      → HasConfig s
  server-HasConfig (ok u, t) s h e = let it : t ≡ s = ground arith in subst HasConfig it h
  server-HasConfig (err x, t) s h e = cc
  server-HasConfig (panic, t) s h e = cc

  pool-HasConfig :
      (calls : List Call) (certs : Bytes) (r : Result IpPool) (s : Server)
      → from_pool env start now c calls certs r ≡ ok s
      → HasConfig s
  pool-HasConfig calls certs (ok pool) s e =
      server-HasConfig (set_up env start now c (blank env c calls certs pool)) s
        (set_up-HasConfig.at (blank env c calls certs pool) refl) e
  pool-HasConfig calls certs (err x) s e = cc
  pool-HasConfig calls certs panic s e = cc

module _ (env : Env) (start : Startup) (files : Files) (now : ℤ) (calls : List Call)
    (certs : Bytes) where
  abbrev Good : Server → Type 0
  Good s = IsValid start.key_pair_ok files.certs_file_error s.config

  validated :
      (c : Config) (v : Result {0} Unit) (s : Server)
      → validate_config start.key_pair_ok files.certs_file_error c ≡ v
      → then_result v (λ u. new_server env start now c calls certs) ≡ ok s
      → Good s
  unfolding new_server
  validated c (ok u) s valid e =
      subst (IsValid start.key_pair_ok files.certs_file_error)
        (sym (
          pool-HasConfig env start now c calls certs (new_ip_pool start.parse_cidr c.address_pool) s
            e))
        (validate_config-IsValid start.key_pair_ok files.certs_file_error c valid)
  validated c (err x) s valid e = cc
  validated c panic s valid e = cc

  configured_lem :
      (r : Result Config) (s : Server)
      → then_result r (λ c.
        then_result
          (validate_config start.key_pair_ok files.certs_file_error c)
          (λ u. new_server env start now c calls certs))
        ≡ ok s
      → Good s
  configured_lem (ok c) s e =
      validated c (validate_config start.key_pair_ok files.certs_file_error c) s refl e
  configured_lem (err x) s e = cc
  configured_lem panic s e = cc

  -- A daemon that starts, from the flags or from a file, runs with a valid configuration: its keys, a pool,
  -- a listener, and a mode that the server knows, with a certificates file where the mode needs one.
  pub start_daemon-IsValid :
      (addr ip_pool : String) (args : List String) (s : Server)
      → start_daemon env start files now calls certs addr ip_pool args ≡ ok s
      → IsValid start.key_pair_ok files.certs_file_error s.config
  unfolding start_daemon
  start_daemon-IsValid addr ip_pool args s e =
      configured_lem (config_for env start files addr ip_pool args) s e
