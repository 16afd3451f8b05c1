-- ===== src/Server/Reserving.antt =====
-- serv.go: the steps of the start of a silo, each with the slice that was taken for it.
use mathlib.Core.List.{append_assoc}
use colex.Base.{ℕ, suc, String, Option, none, some, List, ◌++◌, ◌≡◌, refl, sym, subst}
use colex.Base.Outcome.{Error, Result, Exec, ok, err, panic, raise, within, put_back, ◌>>=◌, ◌>>◌}
use colex.Base.Yields.{Yields, Ends, Yields-bind, Yields-pure, Yields-raise}
use colex.Ip.{Ip}
use colex.IpPool.{IpPool, IpInterface, ip_interface}
use colex.IpPool.Ownership.{Accounts, Accounts-free, Accounts-forget, Owns}
use colex.IpPool.Slices.{Made, unreturned, ip_interface-Owns}
use colex.Controller.Types.{Silo, Ctx, Options, setup}
use colex.Controller.Silo.{new_silo, init}
use colex.Controller.Silo.Ending.{close}
use colex.Controller.Silo.Fresh.{
  IsFresh, new_silo-Yields, init-Holds, close-Holds, Holds_preparing→SiloAccounts,
}
use colex.Controller.Silo.Lifecycle.{close_lem}
use colex.Controller.Silo.Ownership.{slices, claims, SiloAccounts, Holds, preparing}
use colex.Os.{Host, SamePool}
use colex.Server.{Server, Env, on_pool, run_method, ended}
use colex.Server.Silos.{give_slice, made_silo, create_silo, after_init, after_start}
use colex.Server.Claims.{all_claims}
use colex.Server.Stopping.{ServerAccounts}

module _ (budget : ℕ) where
  -- A slice has been taken out of the pool for a silo that is not in the map yet.
  abbrev pub Reserved : List Ip → Server → Type 0
  Reserved slice s = Accounts budget s.host.pool (slice ++ all_claims s.silos)

  -- A silo that is not in the map yet has its addresses.
  abbrev pub Claimed : Silo → Server → Type 0
  Claimed silo s = Reserved (claims silo) s

  reserved_whole : (slice : List Ip) (s : Server) → Reserved slice s → ServerAccounts budget s
  reserved_whole slice s = Accounts-forget budget s.host.pool slice (all_claims s.silos)

  -- IPInterface on the server's pool, which needs four increments of the counter at most.
  reserve-Ends :
      (s : Server) (lost : List Ip) (r : Result IpInterface × IpPool)
      → Made budget s.host.pool (all_claims s.silos ++ lost) r
      → Ends
          (λ (i : IpInterface) t. Reserved i.slice t)
          (ServerAccounts budget)
          (put_back (λ p. record s { host = record s.host { pool = p } }) r)
  reserve-Ends s lost (ok i, q) o =
      (lost, subst (Owns budget q) (sym (append_assoc i.slice _ lost)) o.own)
  reserve-Ends s lost (err e, q) o =
      let gone = unreturned o.taken in
      Accounts-forget budget q gone (all_claims s.silos)
        (lost, subst (Owns budget q) (sym (append_assoc gone _ lost)) o.own)
  reserve-Ends s lost (panic, q) o = absurd o

  pub reserve-Yields :
      Yields
        (ServerAccounts (suc (suc (suc (suc budget)))))
        (λ (i : IpInterface) s. Reserved i.slice s)
        (ServerAccounts budget)
        (on_pool ip_interface)
  unfolding within
  reserve-Yields = record {
    ends = λ s (lost, o).
        reserve-Ends s lost (ip_interface s.host.pool)
          (ip_interface-Owns budget s.host.pool (all_claims s.silos ++ lost) o);
  }

  -- A method of a silo that is not in the map: what it does to the pool is all that the server sees.
  method-Ends :
      (After : Silo → Server → Type 0) (s : Server)
      → ((silo : Silo) (t : Server) → After silo t → ServerAccounts budget t)
      → (r : Result {0} Unit) (c : Ctx) → After c.silo (record s { host = c.host })
      → Ends (λ (p : Option Error × Silo) t. After p.1 t) (ServerAccounts budget) (ended (r, c) s)
  method-Ends After s whole (ok u) c h = h
  method-Ends After s whole (err e) c h = h
  method-Ends After s whole panic c h = whole c.silo _ h

  run_method-Yields :
      (m : Exec Ctx Unit) (silo : Silo) (Before : Server → Type 0) (After : Silo → Server → Type 0)
      → ((s : Server)
          → Before s
          → let c = (m (record { silo = silo; host = s.host })).1 in
            After c.silo (record s { host = c.host }))
      → ((its : Silo) (t : Server) → After its t → ServerAccounts budget t)
      → Yields Before
          (λ (p : Option Error × Silo) t. After p.1 t)
          (ServerAccounts budget)
          (run_method m silo)
  unfolding run_method
  run_method-Yields m silo Before After k whole = record {
    ends = λ s h.
        let (r, c) = m (record { silo = silo; host = s.host }) in
        method-Ends After s whole r c (k s h);
  }

  -- A silo that is not running yet, with its slice.
  pub record Prepared (slice : List Ip) (silo : Silo) (s : Server) : Type 0 where
    holds :
        Holds preparing budget slice (all_claims s.silos) (record { silo = silo; host = s.host })

  give_slice-Yields :
      {A : Type 0} (Done : A → Server → Type 0) (env : Env) (slice : List Ip) (e : Error)
      → Yields (Reserved slice) Done (ServerAccounts budget) (give_slice env slice >> raise e)
  unfolding ◌>>=◌
  give_slice-Yields Done env slice e = record {
    ends = λ s h. Accounts-free budget s.host.pool slice (all_claims s.silos) h;
  }

  module _ (env : Env) (slice : List Ip) where
    pub init-Yields :
        (silo : Silo)
        → silo.state ≡ setup
        → slices silo.interfaces ≡ slice
        → Yields
            (Reserved slice)
            (λ (p : Option Error × Silo) s. Prepared slice p.1 s)
            (ServerAccounts budget)
            (run_method (init env.os) silo)
    init-Yields silo new its =
        run_method-Yields _ silo _ (Prepared slice)
          (λ s h. record {
            holds = init-Holds env.os budget slice (all_claims s.silos) _ new its h;
          })
          (λ its t p. reserved_whole slice t p.holds.accounts)

    close-Prepared-Yields :
        (silo : Silo)
        → Yields
            (Prepared slice silo)
            (λ (p : Option Error × Silo) s. Reserved slice s)
            (ServerAccounts budget)
            (run_method (close env.os) silo)
    close-Prepared-Yields silo =
        run_method-Yields _ silo _ (λ its t. Reserved slice t)
          (λ s p. ((close-Holds env.os budget slice (all_claims s.silos)).at _ p.holds).accounts)
          (λ its t h. reserved_whole slice t h)

    pub after_init-Yields :
        (p : Option Error × Silo)
        → Yields (Prepared slice p.1) Claimed (ServerAccounts budget) (after_init env slice p)
    unfolding after_init
    after_init-Yields (none, silo) = Yields-pure silo (λ s p. Holds_preparing→SiloAccounts p.holds)
    after_init-Yields (some e, silo) =
        Yields-bind _ _ (close-Prepared-Yields silo) (λ _. give_slice-Yields Claimed env slice e)

    pub Claimed-method-Yields :
        (m : Exec Ctx Unit) (silo : Silo)
        → ((held : List Ip) (c : Ctx)
            → SiloAccounts budget held c
            → SiloAccounts budget held (m c).1)
        → Yields
            (Claimed silo)
            (λ (p : Option Error × Silo) s. Claimed p.1 s)
            (ServerAccounts budget)
            (run_method m silo)
    Claimed-method-Yields m silo k =
        run_method-Yields m silo _ Claimed
          (λ s h. k (all_claims s.silos) (record { silo = silo; host = s.host }) h)
          (λ its t h. reserved_whole (claims its) t h)

    pub after_start-Yields :
        (p : Option Error × Silo)
        → Yields (Claimed p.1) Claimed (ServerAccounts budget) (after_start env p)
    unfolding after_start
    after_start-Yields (none, silo) = Yields-pure silo (λ s h. h)
    after_start-Yields (some e, silo) =
        Yields-bind _ _ (Claimed-method-Yields (close env.os) silo (close_lem env.os budget))
          (λ p. Yields-raise e (λ s h. reserved_whole (claims p.1) s h))

    pub create_silo-Yields :
        (name : String) (o : Options)
        → Yields
            (Reserved slice)
            (λ silo s. IsFresh o silo × Reserved slice s)
            (ServerAccounts budget)
            (create_silo env name slice o)
    unfolding create_silo within ◌>>=◌
    create_silo-Yields name o = record {
      ends = λ s h.
          let (r, g) = new_silo env.os name o s.host in
          finish s h r g ((new_silo-Yields env.os s.host.pool o name).ends s.host refl);
    }
      where
        finish :
            (s : Server)
            → Reserved slice s
            → (r : Result Silo) (g : Host)
            → Ends (λ silo h. IsFresh o silo × SamePool s.host.pool h) (SamePool s.host.pool) (r, g)
            → Ends
                (λ silo t. IsFresh o silo × Reserved slice t)
                (ServerAccounts budget)
                (made_silo env slice (r, record s { host = g }))
        finish s h (ok silo) g (fresh, same) =
            (fresh, subst (λ p. Accounts budget p (slice ++ all_claims s.silos)) (sym same) h)
        finish s h (err e) g same =
            Accounts-free budget g.pool slice (all_claims s.silos)
              (subst (λ p. Accounts budget p (slice ++ all_claims s.silos)) (sym same) h)
        finish s h panic g same =
            Accounts-forget budget g.pool slice (all_claims s.silos)
              (subst (λ p. Accounts budget p (slice ++ all_claims s.silos)) (sym same) h)
