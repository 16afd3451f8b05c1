-- ===== src/Server/Starting.antt =====
-- serv.go: what the start of a silo does to the addresses of all silos of the server.
use mathlib.Core.List.{append-nil}
use colex.Base.{ℕ, suc, String, Bool, false, none, some, List, [], ◌∷◌, ◌≡◌, refl, ap, ◌∙◌, arith}
use colex.Base.Int.{ℤ}
use colex.Base.Keeps.{Keeps, keeps_rules, Keeps-within, Keeps-bind}
use colex.Base.Map.{Map}
use colex.Base.Outcome.{Exec, ok, modify}
use colex.Base.Yields.{
  Yields, Yields-bind, Yields-raise, Yields-if, Yields-keep, Yields-lift, Yields→Keeps,
}
use colex.IpPool.{IpPool, IpInterface}
use colex.IpPool.Ownership.{Owns-mono}
use colex.Wire.{SiloConf, File, Bind}
use colex.Config.{Config}
use colex.Controller.Types.{Silo, Options}
use colex.Controller.Silo.Starting.{start_silo}
use colex.Controller.Silo.Fresh.{IsFresh}
use colex.Controller.Silo.Lifecycle.{start_silo_lem}
use colex.Controller.Silo.Ownership.{slices}
use colex.Os.{Host, SamePool}
use colex.Os.{os_keeps_pool}
use colex.Controller.Options.{finalize, add_fs}
use colex.Controller.Types.{InterfaceInfo, Base}
use colex.Controller.Interfaces.Ownership.{Keeps-HostAccounts}
use colex.Metadata.{Event, describe_all, describe, describe_interfaces}
use colex.Server.{notify, Server, Env, on_host}
use colex.Server.Silos.{
  announce, with_network, options_of, resolve_files, resolve_binds, find_bind, bound, then_options,
  bring_up, start_silo_internal,
}
use colex.Server.Claims.{all_claims, inserted-Accounts}
use colex.Server.Stopping.{ServerAccounts, notify-IsQuiet}
use colex.Server.Reserving.{
  Claimed, Claimed-method-Yields, after_init-Yields, after_start-Yields, create_silo-Yields,
  init-Yields, reserve-Yields,
}

module _ (env : Env) (budget : ℕ) where
  -- What only makes calls of the system keeps the accounts.
  pub on_host-ServerAccounts :
      {A : Type 0} (m : Exec Host A)
      → ((p : IpPool) → Keeps (SamePool p) m)
      → Keeps (ServerAccounts budget) (on_host m)
  on_host-ServerAccounts m k =
      Keeps-within _ _ m (λ s h. Keeps-HostAccounts budget (all_claims s.silos) k) (λ s h. h)

  describe_one-Keeps_pool :
      (p : IpPool) (stats : Bool) (d : InterfaceInfo) → Keeps (SamePool p) (describe env.os stats d)
  unfolding describe
  describe_one-Keeps_pool p stats d = search os_keeps_pool depth 20

  describe-Keeps_pool :
      (p : IpPool) (stats : Bool) (ds : List InterfaceInfo)
      → Keeps (SamePool p) (describe_all env.os stats ds)
  unfolding describe_all
  describe-Keeps_pool p stats [] = search os_keeps_pool
  describe-Keeps_pool p stats (d ∷ rest) =
      Keeps-bind _ _ (describe_one-Keeps_pool p stats d)
        (λ i. Keeps-bind _ _ (describe-Keeps_pool p stats rest) (λ is. search os_keeps_pool))

  pub describe_interfaces-Keeps_pool :
      (p : IpPool) (silo : Silo) (stats : Bool)
      → Keeps (SamePool p) (describe_interfaces env.os silo stats)
  unfolding describe_interfaces
  describe_interfaces-Keeps_pool p silo stats = describe-Keeps_pool p stats _

  pub notify-ServerAccounts :
      (now : ℤ) (e : Event) → Keeps (ServerAccounts budget) (notify env.os now e)
  notify-ServerAccounts now e = record {
    at = λ s h.
        let quiet =
          (notify-IsQuiet env.os s.host.pool s.silos now e).at s
            (record { pool = refl; silos = refl }) in
        rw (quiet.pool, quiet.silos) h;
  }

  announce-Yields :
      (now : ℤ) (name : String) (silo : Silo)
      → Yields
          (Claimed budget silo)
          (λ _. ServerAccounts budget)
          (ServerAccounts budget)
          (announce env now name silo)
  unfolding announce modify
  announce-Yields now name silo =
      Yields-bind _ _
        (record { ends = λ s h. inserted-Accounts budget s.host.pool name silo s.silos [] h })
        (λ _.
          Yields-bind _ _
            (Yields-keep _
              (on_host-ServerAccounts _ (λ p. describe_interfaces-Keeps_pool p silo false))
              (λ _ s h. h) (λ s h. h))
            (λ interfaces. Yields-keep _ (notify-ServerAccounts now _) (λ _ s h. h) (λ s h. h)))

  -- The interfaces of the silo that is made from these options: the network's slice is all it has.
  network_slices :
      (conf : SiloConf) (network : IpInterface) (o : Options)
      → o.interfaces ≡ []
      → slices (finalize env.uid env.gid (with_network env conf network o)).interfaces
        ≡ network.slice
  unfolding finalize with_network
  network_slices conf network o plain = rw plain (append-nil network.slice)

  bring_up-Yields :
      (now : ℤ) (conf : SiloConf) (o : Options)
      → o.interfaces ≡ []
      → Yields
          (ServerAccounts (suc (suc (suc (suc budget)))))
          (λ _. ServerAccounts budget)
          (ServerAccounts budget)
          (bring_up env now conf o)
  unfolding bring_up
  bring_up-Yields now conf o plain = Yields-bind _ _ (reserve-Yields budget) (λ made.
      Yields-bind _ _ (create_silo-Yields budget env made.slice conf.name _) (λ fresh. record {
        ends = λ s (new, h).
            (Yields-bind _ _
                (init-Yields budget env made.slice fresh new.state (its made fresh new))
                (λ inited.
                  Yields-bind _ _ (after_init-Yields budget env made.slice inited) (λ ready.
                    Yields-bind _ _
                      (Claimed-method-Yields budget env made.slice (start_silo env.os) ready
                        (start_silo_lem env.os budget))
                      (λ started.
                        Yields-bind _ _ (after_start-Yields budget env made.slice started)
                          (λ up. announce-Yields now conf.name up))))).ends
              s h;
      }))
    where
      its :
          (made : IpInterface) (fresh : Silo)
          → IsFresh
              (finalize env.uid env.gid (
                with_network env conf
                  (record made { internet_access = conf.network.internet_access })
                  o))
              fresh
          → slices fresh.interfaces ≡ made.slice
      its made fresh new = ap slices new.interfaces ∙ network_slices conf _ o plain

-- What the files and the binds of a packet add to the options are bases.
add_fs_interfaces : (b : Base) (o : Options) → (add_fs b o).interfaces ≡ o.interfaces
unfolding add_fs
add_fs_interfaces b o = refl

resolve_files_interfaces :
    (fs : List File) (o : Options) → (resolve_files fs o).interfaces ≡ o.interfaces
unfolding resolve_files add_fs
resolve_files_interfaces [] o = refl
resolve_files_interfaces (f ∷ rest) o = resolve_files_interfaces rest _

resolve_binds_interfaces :
    (c : Config) (binds : Map Bind) (o q : Options)
    → resolve_binds c binds o ≡ ok q
    → q.interfaces ≡ o.interfaces
unfolding resolve_binds add_fs
resolve_binds_interfaces c [] o q e = ground arith
resolve_binds_interfaces c ((_, m) ∷ rest) o q e =
    elim (find_bind m.id c.binds)
        as (λ b.
          then_options (bound b m o) (resolve_binds c rest) ≡ ok q → q.interfaces ≡ o.interfaces) [
            | none ↦ λ f. cc
            | some spec ↦ λ f. resolve_binds_interfaces c rest _ q f
          ]
      e

module _ (env : Env) (budget : ℕ) where
  abbrev pub Before : Server → Type 0
  Before = ServerAccounts (suc (suc (suc (suc budget))))

  pub ServerAccounts-fewer : (s : Server) → Before s → ServerAccounts budget s
  ServerAccounts-fewer s (lost, o) = (lost, Owns-mono budget _ s.host.pool _ (omega arith) o)

  start-Yields :
      (now : ℤ) (conf : SiloConf) (files : List File)
      → Yields Before
          (λ _. ServerAccounts budget)
          (ServerAccounts budget)
          (start_silo_internal env now conf files)
  unfolding start_silo_internal options_of
  start-Yields now conf files = Yields-if _ _ _ (Yields-raise _ ServerAccounts-fewer) (
      Yields-bind _ _ (Yields-keep _ (search keeps_rules) (λ _ s h. h) ServerAccounts-fewer) (λ c.
        Yields-bind _ _ (Yields-keep _ (search keeps_rules) (λ _ s h. h) ServerAccounts-fewer)
          (λ base.
            Yields-bind _ _
              (Yields-lift
                (resolve_binds c conf.binds (resolve_files files (add_fs base (options_of c conf))))
                Before (λ o. o.interfaces ≡ []) ServerAccounts-fewer
                (λ o e.
                  resolve_binds_interfaces c conf.binds _ o e
                  ∙ resolve_files_interfaces files _
                  ∙ add_fs_interfaces base _))
              (λ o. record {
                ends = λ s (plain, h). (bring_up-Yields env budget now conf o plain).ends s h;
              }))))

  -- Starting a silo, with at least four increments of the address counter left, leaves the addresses that
  -- the server's silos claim all different and not free: on success, when its packet or its options are
  -- refused, when the pool is exhausted, and when any step of NewSilo, Init or Start fails.
  pub start_silo_internal-ServerAccounts :
      (now : ℤ) (conf : SiloConf) (files : List File) (s : Server)
      → ServerAccounts (suc (suc (suc (suc budget)))) s
      → ServerAccounts budget (start_silo_internal env now conf files s).1
  start_silo_internal-ServerAccounts now conf files = Yields→Keeps _ (start-Yields now conf files)
