-- ===== src/Server/Requests/Keeping.antt =====
-- serv.go: every request, and the addresses of the server's silos.
use colex.Base.{ℕ, suc, String, Bool, true, Option, none, some, List, [], ◌∷◌}
use colex.Base.Int.{ℤ, ◌+ℤ◌, times_int64}
use colex.Base.Keeps.{
  Keeps, keeps_rules, Keeps-bind, Keeps-attempt, Keeps-modify, Keeps-within, Leads, Leads-bind,
  Leads-if, Leads-keep, Leads-attempt, Leads-weaken,
}
use colex.Base.Map.{Map}
use colex.Base.Outcome.{Error, not_authorized, Result, Exec, ok, err, panic, pure, within}
use colex.Base.Text.{Bytes}
use colex.Os.{os_keeps_pool, rand_bytes}
use colex.Wire.{Payload, list_request, up_packet, set_host, SetHostRequest, SiloRow, SiloConf, File}
use colex.Auth.{AuthorizedUser}
use colex.Processes.{mem_stats}
use colex.Metadata.{describe_interfaces}
use colex.Processes.Pool.{mem_stats-Keeps_pool}
use colex.Controller.Types.{Silo}
use colex.Server.{Server, Env, Reply, on_host, http_error}
use colex.Server.Stopping.{ServerAccounts}
use colex.Server.Starting.{
  start_silo_internal-ServerAccounts, on_host-ServerAccounts, describe_interfaces-Keeps_pool,
  ServerAccounts-fewer,
}
use colex.Server.Requests.{
  Request, or_reply, up_reply, start_and_reply, up_with, silo_up_handler, stop_or_reply, list_rows,
  list_reply, list_silos_handler, with_hostname, set_host_handler, announced, set_key,
  enable_enroll_handler, blind_enroll_handler, dispatch, admitted, serve_http,
}
use colex.Server.Requests.Ending.{or_reply-Keeps, stop-Keeps, silo_down_handler-Keeps}

module _ (env : Env) (budget : ℕ) where
  memory-ServerAccounts : (s : Silo) → Keeps (ServerAccounts budget) (on_host (mem_stats env.os s))
  memory-ServerAccounts s =
      on_host-ServerAccounts env budget _ (λ p. mem_stats-Keeps_pool env.os p s)

  describing-ServerAccounts :
      (s : Silo) (stats : Bool)
      → Keeps (ServerAccounts budget) (on_host (describe_interfaces env.os s stats))
  describing-ServerAccounts s stats =
      on_host-ServerAccounts env budget _ (λ p. describe_interfaces-Keeps_pool env budget p s stats)

  up_reply-Keeps : (found : Option Silo) → Keeps (ServerAccounts budget) (up_reply env found)
  unfolding up_reply
  up_reply-Keeps none = search keeps_rules
  up_reply-Keeps (some silo) = search (keeps_rules, describing-ServerAccounts) depth 20

  list_rows-Keeps : (m : Map Silo) → Keeps (ServerAccounts budget) (list_rows env m)
  unfolding list_rows
  list_rows-Keeps [] = search keeps_rules
  list_rows-Keeps ((name, silo) ∷ rest) = Keeps-bind _ _ (memory-ServerAccounts silo) (λ mem.
      Keeps-bind _ _ (describing-ServerAccounts silo true)
        (λ is. Keeps-bind _ _ (list_rows-Keeps rest) (λ rows. search keeps_rules)))

  listed :
      (name : String) (r : Result (List SiloRow)) (s : Server)
      → ServerAccounts budget s
      → ServerAccounts budget (list_reply env name (r, s)).1
  listed name (ok rows) s h = h
  listed name (err e) s h = h
  listed name panic s h = h

  list_silos_handler-Keeps :
      (p : Payload) → Keeps (ServerAccounts budget) (list_silos_handler env p)
  unfolding list_silos_handler
  list_silos_handler-Keeps list_request = record {
    at = λ s h.
        let (r, t) = list_rows env s.silos s in
        listed s.config.name r t ((list_rows-Keeps s.silos).at s h);
  }
  list_silos_handler-Keeps _ = record { at = λ s h. h }

  with_hostname-Keeps :
      (p : SetHostRequest) (m : Option (Map String))
      → Keeps (ServerAccounts budget) (with_hostname env p m)
  with_hostname-Keeps p none = search keeps_rules
  with_hostname-Keeps p (some m) =
      Keeps-bind _ _ (Keeps-modify _ (λ s h. h)) (λ _. search keeps_rules)

  set_host_handler-Keeps : (p : Payload) → Keeps (ServerAccounts budget) (set_host_handler env p)
  unfolding set_host_handler
  set_host_handler-Keeps (set_host p) = search (keeps_rules, with_hostname-Keeps) depth 20
  set_host_handler-Keeps _ = search keeps_rules

  announced-Keeps : (u : Option AuthorizedUser) → Keeps (ServerAccounts budget) (announced env u)
  announced-Keeps none = search keeps_rules
  announced-Keeps (some u) = search keeps_rules depth 20

  key_set :
      (u : Option AuthorizedUser) (r : Result Bytes) (s : Server)
      → ServerAccounts budget s
      → ServerAccounts budget (set_key env u (r, s)).1
  key_set u (ok b) s h = (announced-Keeps u).at _ h
  key_set u (err e) s h = h
  key_set u panic s h = h

  enable_enroll_handler-Keeps :
      (now : ℤ) (u : Option AuthorizedUser)
      → Keeps (ServerAccounts budget) (enable_enroll_handler env now u)
  unfolding enable_enroll_handler
  enable_enroll_handler-Keeps now u = record {
    at = λ s h.
        let (r, t) = on_host (rand_bytes env.os 8) (dated s) in
        key_set u r t
          ((on_host-ServerAccounts env budget _ (λ p. search os_keeps_pool)).at (dated s) h);
  }
    where
      dated : Server → Server
      dated s = record s {
        blind_enrollment_deadline = now +ℤ times_int64 s.config.blind_enrollment_window 1000000000;
      }

  enrolled-Keeps :
      (m : Exec Bytes Unit)
      → Keeps
          (ServerAccounts budget)
          (within (λ (s : Server). s.certs) (λ c s. record s { certs = c }) m)
  enrolled-Keeps m = Keeps-within _ _ m (λ s h. record { at = λ c k. k }) (λ s h. h)

  blind_enroll_handler-Keeps :
      (now : ℤ) (r : Request) → Keeps (ServerAccounts budget) (blind_enroll_handler env now r)
  unfolding blind_enroll_handler
  blind_enroll_handler-Keeps now r =
      search (keeps_rules, enrolled-Keeps, or_reply-Keeps env budget) depth 20

module _ (env : Env) (budget : ℕ) where
  -- Before an UP the counter must have four increments left.
  abbrev Ready : Server → Type 0
  Ready = ServerAccounts (suc (suc (suc (suc budget))))

  abbrev Kept : {A : Type 0} → Exec Server A → Type 0
  Kept = Leads Ready (ServerAccounts budget)

  fewer-Kept : {A : Type 0} (m : Exec Server A) → Keeps (ServerAccounts budget) m → Kept m
  fewer-Kept m k = Leads-weaken m (ServerAccounts-fewer env budget) (Leads-keep k)

  start_and_reply-Kept :
      (now : ℤ) (conf : SiloConf) (files : List File) → Kept (start_and_reply env now conf files)
  unfolding start_and_reply
  start_and_reply-Kept now conf files =
      Leads-bind _ _
        (Leads-attempt _
          (record { at = start_silo_internal-ServerAccounts env budget now conf files }))
        (λ failed. Leads-keep (
          Keeps-bind _ _ (search keeps_rules)
            (λ found. or_reply-Keeps env budget 500 failed _ (up_reply-Keeps env budget found))))
        (λ s h. h)

  or_reply-Kept :
      (status : ℕ) (failed : Option Error) (further : Exec Server Reply)
      → Kept further
      → Kept (or_reply status failed further)
  or_reply-Kept status none further k = k
  or_reply-Kept status (some e) further k = fewer-Kept _ (search keeps_rules)

  stop_or_reply-Kept :
      (now : ℤ) (name : String) (further : Exec Server Reply)
      → Kept further
      → Kept (stop_or_reply env now name further)
  unfolding stop_or_reply
  stop_or_reply-Kept now name further k =
      Leads-bind _ _
        (Leads-keep (Keeps-attempt _ (stop-Keeps env (suc (suc (suc (suc budget)))) now name)))
        (λ failed. or_reply-Kept 500 failed further k) (ServerAccounts-fewer env budget)

  up_with-Kept :
      (now : ℤ) (conf : Option SiloConf) (files : List File) → Kept (up_with env now conf files)
  unfolding up_with
  up_with-Kept now none files = fewer-Kept _ (search keeps_rules)
  up_with-Kept now (some conf) files =
      Leads-bind _ _ (Leads-keep (search keeps_rules))
        (λ known.
          Leads-if known _ _
            (stop_or_reply-Kept now conf.name _ (start_and_reply-Kept now conf files))
            (start_and_reply-Kept now conf files))
        (ServerAccounts-fewer env budget)

  silo_up_handler-Kept : (now : ℤ) (p : Payload) → Kept (silo_up_handler env now p)
  unfolding silo_up_handler
  silo_up_handler-Kept now (up_packet p) = up_with-Kept now p.silo_conf p.files
  silo_up_handler-Kept now _ = fewer-Kept _ (search keeps_rules)

  dispatch-Kept : (now : ℤ) (u : Option AuthorizedUser) (r : Request) → Kept (dispatch env now u r)
  unfolding dispatch
  dispatch-Kept now u r =
      Leads-if _ _ _ (fewer-Kept _ (enable_enroll_handler-Keeps env budget now u)) (
        Leads-if _ _ _ (fewer-Kept _ (blind_enroll_handler-Keeps env budget now r)) (
          Leads-if _ _ _ (silo_up_handler-Kept now r.payload) (
            Leads-if _ _ _ (fewer-Kept _ (silo_down_handler-Keeps env budget now r.payload)) (
              Leads-if _ _ _ (fewer-Kept _ (list_silos_handler-Keeps env budget r.payload)) (
                Leads-if _ _ _ (fewer-Kept _ (set_host_handler-Keeps env budget r.payload))
                  (fewer-Kept (pure (http_error 404 "No such endpoint")) (search keeps_rules)))))))

  admitted-Kept :
      (now : ℤ) (r : Request) (c : Result (Option AuthorizedUser)) → Kept (admitted env now r c)
  unfolding admitted
  admitted-Kept now r (ok u) = dispatch-Kept now u r
  admitted-Kept now r (err not_authorized) = fewer-Kept _ (search keeps_rules)
  admitted-Kept now r (err _) = fewer-Kept _ (search keeps_rules)
  admitted-Kept now r panic = fewer-Kept _ (search keeps_rules)

  serve_http-Kept : (now : ℤ) (r : Request) → Kept (serve_http env now r)
  unfolding serve_http
  serve_http-Kept now r =
      Leads-bind _ _ (Leads-keep (search keeps_rules)) (λ s. admitted-Kept now r _)
        (ServerAccounts-fewer env budget)

  -- Whatever a client sends, the addresses that the server's silos claim stay all different and not free,
  -- while the address counter has four increments left before it wraps.
  pub serve_http-ServerAccounts :
      (now : ℤ) (r : Request) (s : Server)
      → ServerAccounts (suc (suc (suc (suc budget)))) s
      → ServerAccounts budget (serve_http env now r s).1
  serve_http-ServerAccounts now r = (serve_http-Kept now r).at
