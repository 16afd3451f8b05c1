-- ===== src/Server/Lifetime/Addresses.antt =====
-- The addresses of the server's silos over a whole run_actions of the daemon.
use mathlib.Core.List.{Nodup, Nodup-nil, Nodup-append, append_assoc}
use colex.Base.{
  refl, ℕ, suc, ◌+◌, ◌<◌, ◌^◌, String, Bool, true, false, List, [], ◌∷◌, ◌++◌, ◌≡◌, ◌∙◌, ap, sym,
  subst, arith, length, if◌then◌else◌,
}
use colex.Base.Int.{ℤ}
use colex.Base.Keeps.{Keeps, keeps_rules, Keeps-bind, Keeps-modify, Keeps-if}
use colex.Base.Outcome.{Result, ok, err, panic, pure, ◌>>=◌}
use colex.Base.Text.{Bytes}
use colex.Ip.{Ip, IpNet}
use colex.Ip.Bump.{value, IsBytes}
use colex.IpPool.{IpPool, new_ip_pool}
use colex.IpPool.Ownership.{Accounts}
use colex.Os.{Os, Host, Call, SamePool, os_keeps_pool}
use colex.Net.Devices.{net_keeps_pool}
use colex.Config.{Config}
use colex.Server.{Server, Env, on_metadata}
use colex.Metadata.{close_metadata}
use colex.Server.Claims.{all_claims}
use colex.Server.Stopping.{ServerAccounts, close_metadata-IsQuiet}
use colex.Server.Starting.{on_host-ServerAccounts, ServerAccounts-fewer}
use colex.Server.Requests.Ending.{stop-Keeps, collect_finished-ServerAccounts}
use colex.Server.Requests.{collect_finished}
use colex.Server.Requests.Keeping.{serve_http-ServerAccounts}
use colex.Server.Lifetime.{
  Startup, network_setup, enable_enrollment, blank, set_up, started_server, from_pool, new_server,
  stop_all, close_server, Action, request, silo_ended, interrupt, wait_notify_silo, act,
  run_actions,
}

-- The increments of the address counter that a history may take: four for each of its steps.
unfoldable pub spent : List Action → ℕ → ℕ
spent [] budget = budget
spent (a ∷ rest) budget = suc (suc (suc (suc (spent rest budget))))

module _ (env : Env) where
  module _ (budget : ℕ) where
    enable_enrollment-Keeps :
        (now : ℤ) (c : Config) → Keeps (ServerAccounts budget) (enable_enrollment env now c)
    unfolding enable_enrollment
    enable_enrollment-Keeps now c =
        Keeps-if _ _ (pure tt)
          (Keeps-bind _ _ (Keeps-modify _ (λ s h. h)) (λ _.
            Keeps-bind _ _ (on_host-ServerAccounts env budget _ (λ p. search os_keeps_pool))
              (λ b. Keeps-modify _ (λ s h. h))))
          (search keeps_rules)

    network_setup-Keeps_pool : (p : IpPool) → Keeps (SamePool p) (network_setup env)
    unfolding network_setup ◌>>=◌ colex.Net.ipv4_enable_forwarding colex.Net.ipv4_forwarding_enabled
        colex.Os.ask_bytes colex.Os.perform
    network_setup-Keeps_pool p = search net_keeps_pool depth 20

    set_up-Keeps :
        (start : Startup) (now : ℤ) (c : Config)
        → Keeps (ServerAccounts budget) (set_up env start now c)
    unfolding set_up
    set_up-Keeps start now c = Keeps-bind _ _ (search keeps_rules) (λ _.
        Keeps-bind _ _ (enable_enrollment-Keeps now c)
          (λ _. on_host-ServerAccounts env budget _ network_setup-Keeps_pool))

    stop_all-Keeps :
        (now : ℤ) (ns : List String) → Keeps (ServerAccounts budget) (stop_all env now ns)
    unfolding stop_all
    stop_all-Keeps now [] = search keeps_rules
    stop_all-Keeps now (n ∷ rest) =
        Keeps-bind _ _ (stop-Keeps env budget now n) (λ _. stop_all-Keeps now rest)

    metadata-Keeps : Keeps (ServerAccounts budget) (on_metadata (close_metadata env.os))
    metadata-Keeps = record {
      at = λ s h.
          let quiet =
            (close_metadata-IsQuiet env.os s.host.pool s.silos).at s
              (record { pool = refl; silos = refl }) in
          rw (quiet.pool, quiet.silos) h;
    }

    close_server-Keeps : (now : ℤ) → Keeps (ServerAccounts budget) (close_server env now)
    unfolding close_server
    close_server-Keeps now = Keeps-bind _ _ metadata-Keeps (λ u.
        Keeps-bind _ _ (Keeps-modify _ (λ s h. h))
          (λ _. Keeps-bind _ _ (search keeps_rules) (λ silos. stop_all-Keeps now _)))

    ended_lem :
        (b : Bool) (now : ℤ) (name id : String) (s : Server)
        → ServerAccounts budget s
        → ServerAccounts budget (if b then s else (collect_finished env now name id s).1)
    ended_lem true now name id s h = h
    ended_lem false now name id s h = collect_finished-ServerAccounts env budget now name id s h

    act-ServerAccounts :
        (a : Action) (s : Server)
        → ServerAccounts (suc (suc (suc (suc budget)))) s
        → ServerAccounts budget (act env a s)
    unfolding act wait_notify_silo
    act-ServerAccounts (request now r) s h = serve_http-ServerAccounts env budget now r s h
    act-ServerAccounts (silo_ended now name id) s h =
        ended_lem s.closing now name id s (ServerAccounts-fewer env budget s h)
    act-ServerAccounts (interrupt now) s h =
        (close_server-Keeps now).at s (ServerAccounts-fewer env budget s h)

  run_actions-ServerAccounts :
      (budget : ℕ) (history : List Action) (s : Server)
      → ServerAccounts (spent history budget) s
      → ServerAccounts budget (run_actions env history s)
  unfolding run_actions spent
  run_actions-ServerAccounts budget [] s h = h
  run_actions-ServerAccounts budget (a ∷ rest) s h =
      run_actions-ServerAccounts budget rest (act env a s)
        (act-ServerAccounts (spent rest budget) a s h)

  abbrev fresh_pool : Ip → IpNet → IpPool
  fresh_pool ip net = record { subnet = net; last_from_pool = ip; free = [] }

  -- A pool that was just made, of which nobody holds anything.
  new_pool-Accounts :
      (budget : ℕ) (ip : Ip) (net : IpNet)
      → IsBytes ip
      → value ip + budget < 256 ^ length ip
      → Accounts budget (fresh_pool ip net) []
  new_pool-Accounts budget ip net b r =
      ([], record { bytes = b; room = r; below = tt; distinct = Nodup-nil })

  module _ (start : Startup) (now : ℤ) (c : Config) (calls : List Call) (certs : Bytes) where
    started_server-ServerAccounts :
        (budget : ℕ) (r : Result {0} Unit × Server) (s : Server)
        → started_server r ≡ ok s
        → ServerAccounts budget r.1
        → ServerAccounts budget s
    started_server-ServerAccounts budget (ok u, t) s same h =
        let it : t ≡ s = ground arith in subst (ServerAccounts budget) it h
    started_server-ServerAccounts budget (err x, t) s same h = cc
    started_server-ServerAccounts budget (panic, t) s same h = cc

    pool_lem :
        (ip : Ip) (net : IpNet)
        → start.parse_cidr c.address_pool ≡ ok (ip, net)
        → new_ip_pool start.parse_cidr c.address_pool ≡ ok (fresh_pool ip net)
    unfolding new_ip_pool
    pool_lem ip net e = rw (new_ip_pool, e)

    new_server-ServerAccounts :
        (budget : ℕ) (ip : Ip) (net : IpNet) (s : Server)
        → start.parse_cidr c.address_pool ≡ ok (ip, net)
        → IsBytes ip
        → value ip + budget < 256 ^ length ip
        → new_server env start now c calls certs ≡ ok s
        → ServerAccounts budget s
    unfolding new_server
    new_server-ServerAccounts budget ip net s e b r made =
        started_server-ServerAccounts budget
          (set_up env start now c (blank env c calls certs (fresh_pool ip net))) s
          (sym (ap (from_pool env start now c calls certs) (pool_lem ip net e)) ∙ made)
          ((set_up-Keeps budget start now c).at (blank env c calls certs (fresh_pool ip net))
            (new_pool-Accounts budget ip net b r))

    -- From NewServer on, after any history of requests, ended silos and shutdowns, no address belongs to two
    -- silos or twice to one, and none that a silo has is free, while the counter has room for four
    -- increments for each step of the history.
    pub run_actions-Nodup :
        (history : List Action) (ip : Ip) (net : IpNet) (s : Server)
        → start.parse_cidr c.address_pool ≡ ok (ip, net)
        → IsBytes ip
        → value ip + spent history 0 < 256 ^ length ip
        → new_server env start now c calls certs ≡ ok s
        → Nodup (
            (run_actions env history s).host.pool.free
            ++ all_claims (run_actions env history s).silos)
    run_actions-Nodup history ip net s e b r made =
        let (lost, o) =
          run_actions-ServerAccounts 0 history s
            (new_server-ServerAccounts (spent history 0) ip net s e b r made) in
        distinct_lem (run_actions env history s).host.pool.free
          (all_claims (run_actions env history s).silos) lost o.distinct
      where
        distinct_lem :
            (free claims lost : List Ip) → Nodup (free ++ (claims ++ lost)) → Nodup (free ++ claims)
        distinct_lem free claims lost d =
            (Nodup-append.0 (subst Nodup (sym (append_assoc free claims lost)) d)).0
