-- ===== src/Server/Lifetime.antt =====
-- serv.go: the daemon from NewServer to Close, and what reaches it in between. The lock makes each
-- request and each notice one step, so a history is the list of these steps in the order of the lock.
pub mod Addresses
pub mod Ending
use colex.Base.{
  ℕ, suc, String, Bool, true, false, ◌&&◌, not, Option, none, some, List, [], ◌∷◌, if◌then◌else◌,
  same_text,
}
use colex.Base.Int.{ℤ, pos, negsuc, ◌+ℤ◌, times_int64}
use colex.Base.Map.{Map}
use colex.Base.Outcome.{
  Error, system, Result, Exec, ok, err, panic, bad_key_source, bad_key_pair, pure, crash, lift,
  gets, modify, attempt, ◌>>=◌, ◌>>◌,
}
use colex.Base.Text.{Bytes}
use colex.Ip.{Ip, IpNet}
use colex.IpPool.{IpPool, new_ip_pool}
use colex.Os.{Os, Host, Call, rand_bytes, ask_bytes, random}
use colex.Net.{ipv4_forwarding_enabled, ipv4_enable_forwarding}
use colex.Config.{Config, auth_mode_certfile, key_source_ephemeral, key_source_embedded}
use colex.Metadata.{Metadata, new_metadata_service, close_metadata}
use colex.Controller.Types.{Silo}
use colex.Server.{Server, Env, on_host, on_metadata}
use colex.Server.Silos.{stop_silo_internal}
use colex.Server.Requests.{Request, serve_http, collect_finished}

-- What NewServer calls of net and of crypto/tls, and the error of minting a key, if any.
pub record Startup : Type 0 where
  pub parse_cidr : String → Result (Ip × IpNet)
  pub key_pair_ok : String → String → Bool
  pub mint_error : Option Error

-- makeTLSConfig: whether there is a certificate to serve
unfoldable pub make_tls_config : Startup → Config → Result {0} Unit
make_tls_config start c =
    if same_text c.key_source key_source_ephemeral
    then elim start.mint_error [ none ↦ ok tt | some e ↦ err e ]
    else if same_text c.key_source key_source_embedded
    then (if start.key_pair_ok c.cert_pem c.key_pem then ok tt else err bad_key_pair)
    else err bad_key_source

abbrev is_minus_one : ℤ → Bool
is_minus_one (negsuc ℕ.zero) = true
is_minus_one _ = false

abbrev pub started_server : Result {0} Unit × Server → Result Server
started_server (Result.ok u, s) = ok s
started_server (Result.err e, s) = err e
started_server (Result.panic, s) = panic

abbrev pub names : Map Silo → List String
names [] = []
names ((name, s) ∷ rest) = name ∷ names rest

-- What happens to a running daemon, each at a time: a request, or the end of a silo's process.
pub data Action : Type 0 where
  request : ℤ → Request → Action
  silo_ended : ℤ → String → String → Action
  interrupt : ℤ → Action

module _ (env : Env) where
  unfoldable pub network_setup : Exec Host Unit
  network_setup = do
    enabled ← ipv4_forwarding_enabled env.os
    if enabled then pure tt else ipv4_enable_forwarding env.os true

  -- the blind enrollment of a server that has just started
  unfoldable pub enable_enrollment : ℤ → Config → Exec Server Unit
  enable_enrollment now c =
      if same_text c.mode auth_mode_certfile && not (is_minus_one c.blind_enrollment_window)
      then (do
        modify (λ (s : Server). record s {
          blind_enrollment_deadline = now +ℤ times_int64 c.blind_enrollment_window 1000000000;
        })
        b ← on_host (rand_bytes env.os 8)
        modify (λ (s : Server). record s { blind_enrollment_key = env.url_text b }))
      else pure tt

  -- A server before its listeners: no silo, nothing known to the metadata service. The zero time is in
  -- the past at any time, so here it is 0; the key is empty.
  abbrev pub blank : Config → List Call → Bytes → IpPool → Server
  blank c calls certs pool = record {
    config = c;
    host = record { pool = pool; calls = calls };
    metadata = new_metadata_service;
    silos = [];
    closing = false;
    blind_enrollment_deadline = pos 0;
    blind_enrollment_key = "";
    certs = certs;
  }

  unfoldable pub set_up : Startup → ℤ → Config → Exec Server Unit
  set_up start now c = do
    lift (make_tls_config start c)
    enable_enrollment now c
    on_host network_setup

  abbrev pub from_pool : Startup → ℤ → Config → List Call → Bytes → Result IpPool → Result Server
  from_pool start now c calls certs (Result.err e) = err e
  from_pool start now c calls certs Result.panic = panic
  from_pool start now c calls certs (Result.ok pool) =
      started_server (set_up start now c (blank c calls certs pool))

  -- NewServer, after `calls` of the system and with `certs` in the certificates file
  unfoldable pub new_server : Startup → ℤ → Config → List Call → Bytes → Result Server
  new_server start now c calls certs =
      from_pool start now c calls certs (new_ip_pool start.parse_cidr c.address_pool)

  unfoldable pub stop_all : ℤ → List String → Exec Server Unit
  stop_all now [] = pure tt
  stop_all now (name ∷ rest) = do stop_silo_internal env now name; stop_all now rest

  -- Close. A second one closes closed channels, which panics.
  unfoldable pub close_server : ℤ → Exec Server Unit
  close_server now = do
    on_metadata (close_metadata env.os)
    modify (λ (s : Server). record s { closing = true })
    silos ← gets (λ (s : Server). s.silos)
    stop_all now (names silos)

  -- waitNotifySilo, once the process has ended, and the collector
  unfoldable pub wait_notify_silo : ℤ → String → String → Server → Server
  wait_notify_silo now name id s = if s.closing then s else (collect_finished env now name id s).1

  unfoldable pub act : Action → Server → Server
  act (request now r) s = (serve_http env now r s).1
  act (silo_ended now name id) s = wait_notify_silo now name id s
  act (interrupt now) s = (close_server now s).1

  unfoldable pub run_actions : List Action → Server → Server
  unfolding act
  run_actions [] s = s
  run_actions (a ∷ rest) s = run_actions rest (act a s)
