-- ===== src/Controller/Silo/Ownership.antt =====
-- The addresses of a silo from Init to Close. A silo that is not finished claims the slices of its
-- interfaces. No method frees an address that the silo does not claim, or one twice.
use mathlib.Core.List.{append_assoc}
use colex.Base.{
  ℕ, String, Bool, true, false, not, Option, none, some, ◌≡◌, refl, sym, List, [], ◌∷◌, ◌++◌,
}
use colex.Base.Outcome.{Error, system, Result, Exec, ok, err, panic}
use colex.Base.Keeps
use colex.Base.Keeps.{
  Keeps, keeps_rules, Leads, Leads-bind, Leads-keep, Leads-if, Leads-read, Leads-modify,
  Keeps-within, Keeps-modify,
}
use colex.Ip.{Ip}
use colex.IpPool.{IpPool}
use colex.IpPool.Ownership.{Accounts}
use colex.Os.{Os, Host, Call, FilePath, SamePool, os_keeps_pool}
use colex.Controller.Types.{
  SiloState, setup, internal_error, pending, running, finished, Silo, Ctx, Base, busybox, tarball,
  dev_nodes, file_loader, file_loader_tarball, bind, Interf, loopback, ip,
}
use colex.Controller.Bases.{
  Placed, on_host, on_ctx, become, call, busybox_path, make_if_missing, setup_base, setup_bases,
  after_base,
}
use colex.Controller.Interfaces.Ownership.{Keeps-HostAccounts}

abbrev pub slices : List Interf → List Ip
slices [] = []
slices (loopback ∷ rest) = slices rest
slices (ip i ∷ rest) = i.slice ++ slices rest

pub slices-append : (xs ys : List Interf) → slices (xs ++ ys) ≡ slices xs ++ slices ys
slices-append [] ys = refl
slices-append (loopback ∷ rest) ys = slices-append rest ys
slices-append (ip i ∷ rest) ys =
    rw (slices-append rest ys) (sym (append_assoc i.slice (slices rest) (slices ys)))

abbrev pub is_finished : SiloState → Bool
is_finished finished = true
is_finished _ = false

-- From Start to Close, and before Start: the states in which a silo claims its addresses, and those of
-- them in which Close does nothing to its interfaces.
abbrev pub live : SiloState → Bool
live st = not (is_finished st)

abbrev pub preparing : SiloState → Bool
preparing running = false
preparing finished = false
preparing _ = true

-- The silo is in one of the states `phase`, its slices are `total`, and nobody else holds them.
pub record Holds (phase : SiloState → Bool) (budget : ℕ) (total held : List Ip) (c : Ctx)
    : Type 0 where
  pub active : phase c.silo.state ≡ true
  pub slices : slices c.silo.interfaces ≡ total
  pub accounts : Accounts budget c.host.pool (total ++ held)

module _ (phase : SiloState → Bool) (budget : ℕ) (total held : List Ip) where
  pub on_host-Holds :
      {A : Type 0} (m : Exec Host A)
      → ((p : IpPool) → Keeps (SamePool p) m)
      → Keeps (Holds phase budget total held) (on_host m)
  on_host-Holds m k =
      Keeps-within _ _ m
        (λ c s. record {
          at = λ h e. record {
            active = s.active;
            slices = s.slices;
            accounts = (Keeps-HostAccounts budget (total ++ held) k).at h e.accounts;
          };
        })
        (λ c s. s)

-- The same of a silo that one of its bases is being set up for.
abbrev PlacedHolds : (SiloState → Bool) → ℕ → List Ip → List Ip → Placed → Type 0
PlacedHolds phase budget total held p = Holds phase budget total held p.ctx

module _ (os : Os) (phase : SiloState → Bool) (budget : ℕ) (total held : List Ip) where
  placed_host-Holds :
      {A : Type 0} (m : Exec Host A)
      → ((p : IpPool) → Keeps (SamePool p) m)
      → Keeps (PlacedHolds phase budget total held) (on_ctx (on_host m))
  placed_host-Holds m k =
      Keeps-within _ _ (on_host m) (λ p s. on_host-Holds phase budget total held m k) (λ p s. s)

  call-Holds : (c : Call) → Keeps (PlacedHolds phase budget total held) (call os c)
  unfolding call
  call-Holds c = placed_host-Holds _ (λ p. search os_keeps_pool)

  become-Holds : (b : Base) → Keeps (PlacedHolds phase budget total held) (become b)
  become-Holds b = Keeps-modify _ (λ p s. s)

  busybox_path-Keeps_pool :
      (path : FilePath) (p : IpPool) → Keeps (SamePool p) (busybox_path os path)
  unfolding busybox_path
  busybox_path-Keeps_pool [] p = search os_keeps_pool depth 20
  busybox_path-Keeps_pool (dir ∷ rest) p = search keeps_rules

  make_if_missing-Holds :
      (path : FilePath) (e : Option Error)
      → Keeps (PlacedHolds phase budget total held) (make_if_missing os path e)
  unfolding make_if_missing
  make_if_missing-Holds path (some (system e)) = search (keeps_rules, call-Holds)
  make_if_missing-Holds path none = search keeps_rules
  make_if_missing-Holds path (some _) = search keeps_rules

  bind-Holds :
      (sys_path silo_path : String) (is_file : Bool)
      → Keeps
          (PlacedHolds phase budget total held)
          (setup_base os (bind sys_path silo_path is_file))
  unfolding setup_base
  bind-Holds sys_path silo_path is_file =
      Keeps-modify _ (λ p s. record { active = s.active; slices = s.slices; accounts = s.accounts })

  setup_base-Holds : (b : Base) → Keeps (PlacedHolds phase budget total held) (setup_base os b)
  unfolding setup_base
  setup_base-Holds (busybox path) =
      Keeps.Keeps-bind _ _ (placed_host-Holds _ (busybox_path-Keeps_pool path))
        (λ archive. search (keeps_rules, become-Holds, call-Holds) depth 12)
  setup_base-Holds (tarball path) = search (keeps_rules, call-Holds) depth 12
  setup_base-Holds dev_nodes = search (keeps_rules, call-Holds) depth 12
  setup_base-Holds (file_loader remote content) =
      search (keeps_rules, become-Holds, call-Holds) depth 12
  setup_base-Holds (file_loader_tarball remote content) =
      search (keeps_rules, become-Holds, call-Holds, make_if_missing-Holds) depth 16
  setup_base-Holds (bind sys_path silo_path is_file) = bind-Holds sys_path silo_path is_file

  after_base-Holds :
      (done rest : List Base) (further : List Base → Exec Ctx Unit)
      → ((passed : List Base) → Keeps (Holds phase budget total held) (further passed))
      → (r : Result Unit) (p : Placed) → PlacedHolds phase budget total held p
      → Holds phase budget total held (after_base os done rest further (r, p)).1
  unfolding after_base
  after_base-Holds done rest further k (ok _) p s =
      (k _).at _ (record { active = s.active; slices = s.slices; accounts = s.accounts })
  after_base-Holds done rest further k (err e) p s = record {
    active = s.active;
    slices = s.slices;
    accounts = s.accounts;
  }
  after_base-Holds done rest further k panic p s = record {
    active = s.active;
    slices = s.slices;
    accounts = s.accounts;
  }

  pub setup_bases-Holds :
      (done todo : List Base) → Keeps (Holds phase budget total held) (setup_bases os done todo)
  unfolding setup_bases
  setup_bases-Holds done [] = record { at = λ c s. s }
  setup_bases-Holds done (b ∷ rest) = record {
    at = λ c s.
        let (r, p) = setup_base os b (record { self = b; ctx = c }) in
        after_base-Holds done rest _ (λ passed. setup_bases-Holds passed rest) r p
          ((setup_base-Holds b).at _ s);
  }

-- What a silo claims: the slices of its interfaces, until it is finished.
abbrev claims_in : SiloState → List Interf → List Ip
claims_in finished interfaces = []
claims_in _ interfaces = slices interfaces

abbrev pub claims : Silo → List Ip
claims s = claims_in s.state s.interfaces

abbrev pub SiloAccounts : ℕ → List Ip → Ctx → Type 0
SiloAccounts budget held c = Accounts budget c.host.pool (claims c.silo ++ held)

claims_active : (st : SiloState) (is : List Interf) → live st ≡ true → claims_in st is ≡ slices is
claims_active setup is h = refl
claims_active internal_error is h = refl
claims_active pending is h = refl
claims_active running is h = refl
claims_active finished is h = cc

pub Holds→SiloAccounts :
    {budget : ℕ} {total held : List Ip} {c : Ctx}
    → Holds live budget total held c
    → SiloAccounts budget held c
Holds→SiloAccounts {c = c} s =
    rw (claims_active c.silo.state c.silo.interfaces s.active, s.slices) s.accounts

pub SiloAccounts→Holds :
    (budget : ℕ) (held : List Ip) (c : Ctx)
    → live c.silo.state ≡ true
    → SiloAccounts budget held c
    → Holds live budget (slices c.silo.interfaces) held c
SiloAccounts→Holds budget held c a h = record {
  active = a;
  slices = refl;
  accounts = rw (claims_active c.silo.state c.silo.interfaces a) at h;
}
