-- ===== src/Controller/Silo/Fresh.antt =====
-- NewSilo and Init: the silo that is made, and where an Init that fails leaves it.
use colex.Base.{ℕ, String, Bool, true, false, ◌≡◌, refl, List, ◌++◌}
use colex.Base.Keeps.{Keeps, keeps_rules, Keeps-bind, Keeps-gets, Keeps-if}
use colex.Base.Outcome.{pure}
use colex.Base.Yields.{Yields, Yields-bind, Yields-pure, Yields-raise, Yields-if, Yields-keep}
use colex.Ip.{Ip}
use colex.IpPool.{IpPool}
use colex.IpPool.Ownership.{Accounts}
use colex.Os.{Os, Host, FilePath, SamePool, os_keeps_pool}
use colex.Controller.Types.{
  SiloState, setup, internal_error, pending, running, finished, Silo, Options, Ctx,
}
use colex.Controller.Silo.{new_silo, silo_of, init, is_setup, is_running}
use colex.Controller.Silo.Ending.{close, delete_root}
use colex.Controller.Silo.Ownership.{
  slices, Holds, on_host-Holds, preparing, live, SiloAccounts, Holds→SiloAccounts,
}
use colex.Controller.Silo.Launching.{prepare-Holds}

-- A silo that NewSilo has made for these options.
pub record IsFresh (o : Options) (s : Silo) : Type 0 where
  pub state : s.state ≡ setup
  pub interfaces : s.interfaces ≡ o.interfaces

module _ (os : Os) (p : IpPool) (o : Options) where
  Made : Silo → Host → Type 0
  Made s h = IsFresh o s × SamePool p h

  made :
      (name : String) (id : List ℕ) (root : FilePath) (delete : Bool)
      → Yields (SamePool p) Made (SamePool p) (pure (silo_of name id root delete o))
  unfolding Made
  made name id root delete = Yields-pure _ (λ h e. (record { state = refl; interfaces = refl }, e))

  pub new_silo-Yields :
      (name : String)
      → Yields (SamePool p) (λ s h. IsFresh o s × SamePool p h) (SamePool p) (new_silo os name o)
  unfolding new_silo Made
  new_silo-Yields name =
      Yields-bind _ _ (Yields-keep _ (search os_keeps_pool) (λ _ h e. e) (λ h e. e)) (λ id.
        Yields-if _ _ _ (made name id _ false) (
          Yields-if _ _ _ (Yields-raise _ (λ h e. e)) (
            Yields-bind _ _ (Yields-keep _ (search os_keeps_pool) (λ _ h e. e) (λ h e. e))
              (λ _. made name id _ true))))

module _ (os : Os) (budget : ℕ) (slice held : List Ip) where
  -- Init of a new silo, however it ends, leaves a silo that holds its slice and is not running.
  pub init-Holds :
      (c : Ctx)
      → c.silo.state ≡ setup
      → slices c.silo.interfaces ≡ slice
      → Accounts budget c.host.pool (slice ++ held)
      → Holds preparing budget slice held (init os c).1
  unfolding init
  init-Holds c new its a =
      let start : is_setup c.silo.state ≡ true = rw new refl in
      let ready : preparing c.silo.state ≡ true = rw new refl in
      rw start (
        (prepare-Holds os preparing budget slice held refl refl).at c
          (record { active = ready; slices = its; accounts = a }))

  delete_root-Holds : Keeps (Holds preparing budget slice held) (delete_root os)
  unfolding delete_root
  delete_root-Holds = Keeps-bind _ _ (Keeps-gets _) (λ s.
      Keeps-if s.should_delete_root _ _
        (on_host-Holds preparing budget slice held _ (λ p. search os_keeps_pool))
        (search keeps_rules))

  -- Close of such a silo takes none of its addresses.
  pub close-Holds : Keeps (Holds preparing budget slice held) (close os)
  unfolding close
  close-Holds = record {
    at = λ c h. rw (not_running c.silo.state h.active) (delete_root-Holds.at c h);
  }
    where
      not_running : (st : SiloState) → preparing st ≡ true → is_running st ≡ false
      not_running running h = cc
      not_running finished h = refl
      not_running setup h = refl
      not_running internal_error h = refl
      not_running pending h = refl

preparing-live : (st : SiloState) → preparing st ≡ true → live st ≡ true
preparing-live setup h = refl
preparing-live internal_error h = refl
preparing-live pending h = refl
preparing-live running h = cc
preparing-live finished h = cc

-- A silo that is prepared claims its slice.
pub Holds_preparing→SiloAccounts :
    {budget : ℕ} {slice held : List Ip} {c : Ctx}
    → Holds preparing budget slice held c
    → SiloAccounts budget held c
Holds_preparing→SiloAccounts {c = c} h = Holds→SiloAccounts {c = c} (record {
  active = preparing-live c.silo.state h.active;
  slices = h.slices;
  accounts = h.accounts;
})
