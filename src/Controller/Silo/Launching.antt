-- ===== src/Controller/Silo/Launching.antt =====
-- Init and Start: the silo claims the same addresses before and after, however they end.
use mathlib.Core.List.{append_assoc}
use colex.Base.{
  ℕ, suc, String, Bool, true, Bool-cases, inl, inr, Option, none, some, ◌≡◌, refl, sym, ap, subst,
  ◌∙◌, List, [], ◌∷◌, ◌++◌,
}
use colex.Base.Outcome.{Result, Exec, ok, err, panic, raise, gets, ◌>>=◌, ◌>>◌}
use colex.Base.Keeps
use colex.Base.Keeps.{Keeps, keeps_rules, Keeps-modify, Keeps-on_error, Leads, Leads-read}
use colex.Ip.{Ip}
use colex.IpPool.{IpPool, IpInterface}
use colex.IpPool.Ownership.{Accounts}
use colex.Os.{Os, Host, FilePath, Call, perform, os_keeps_pool}
use colex.CGroups.{CgroupConfig}
use colex.CGroups.Groups.{new_cgroup_set-Keeps_pool}
use colex.Controller.Types.{
  SiloState, setup, internal_error, pending, finished, Silo, Ctx, Child, AccountMapping, Interf,
  loopback, ip,
}
use colex.Controller.Bases.{on_host}
use colex.Controller.Interfaces.{Wired, setup_ip}
use colex.Controller.Interfaces.Ownership.{SameAddresses, setup_ip-SameAddresses}
use colex.Controller.Silo.{
  init, prepare, ensure_root, write_lines, is_setup, is_pending, fail_setup, write_files,
  become_pending,
}
use colex.Controller.Silo.Starting.{start_silo, launch, limit, after_interface, setup_interfaces}
use colex.Controller.Silo.Ownership.{
  slices, slices-append, live, Holds, on_host-Holds, setup_bases-Holds, SiloAccounts,
  Holds→SiloAccounts, SiloAccounts→Holds,
}

module _ (os : Os) (phase : SiloState → Bool) (budget : ℕ) (total held : List Ip) where
  -- An update of the silo that keeps its interfaces, and does not finish it.
  update-Holds :
      (f : Ctx → Ctx)
      → ((c : Ctx) → phase c.silo.state ≡ true → phase (f c).silo.state ≡ true)
      → ((c : Ctx) → (f c).silo.interfaces ≡ c.silo.interfaces)
      → ((c : Ctx) → (f c).host ≡ c.host)
      → (c : Ctx) → Holds phase budget total held c
      → Holds phase budget total held (f c)
  update-Holds f active same host c s = record {
    active = active c s.active;
    slices = ap slices (same c) ∙ s.slices;
    accounts =
        subst (λ (h : Host). Accounts budget h.pool (total ++ held)) (sym (host c)) s.accounts;
  }

  ensure_root-Holds :
      (root : FilePath) → Keeps (Holds phase budget total held) (ensure_root os root)
  unfolding ensure_root
  ensure_root-Holds [] = Keeps.Keeps-bind _ _ (Keeps.Keeps-gets _) (λ id_hex.
      Keeps.Keeps-bind _ _ (on_host-Holds phase budget total held _ (λ p. search os_keeps_pool))
        (λ made. Keeps-modify _ (update-Holds _ (λ c h. h) (λ c. refl) (λ c. refl))))
  ensure_root-Holds (dir ∷ rest) = search keeps_rules

  write_lines-Holds :
      (path : FilePath) (ls : List String)
      → Keeps (Holds phase budget total held) (write_lines os path ls)
  unfolding write_lines
  write_lines-Holds path [] = search keeps_rules
  write_lines-Holds path (l ∷ ls) =
      Keeps.Keeps-bind _ _
        (Keeps.Keeps-attempt _
          (on_host-Holds phase budget total held _ (λ p. search os_keeps_pool)))
        (λ _. write_lines-Holds path ls)

  host_call-Holds : (c : Call) → Keeps (Holds phase budget total held) (on_host (perform os c))
  host_call-Holds c = on_host-Holds phase budget total held _ (λ p. search os_keeps_pool)

  module _ (at_error : phase internal_error ≡ true) (at_pending : phase pending ≡ true) where
    failed-Holds :
        (c : Ctx)
        → Holds phase budget total held c
        → Holds phase budget total held (fail_setup os c)
    unfolding fail_setup
    failed-Holds = update-Holds _ (λ c h. at_error) (λ c. refl) (λ c. refl)

    files-Holds : (s : Silo) → Keeps (Holds phase budget total held) (write_files os s)
    unfolding write_files
    files-Holds s =
        search (keeps_rules, host_call-Holds, write_lines-Holds, Keeps-on_error, failed-Holds) depth
          20

    pending-Holds :
        (ms : List AccountMapping) → Keeps (Holds phase budget total held) (become_pending os ms)
    unfolding become_pending
    pending-Holds ms = Keeps-modify _ (update-Holds _ (λ c h. at_pending) (λ c. refl) (λ c. refl))

    pub prepare-Holds : Keeps (Holds phase budget total held) (prepare os)
    unfolding prepare
    prepare-Holds =
        search
          (
            keeps_rules, ensure_root-Holds, setup_bases-Holds, Keeps-on_error, failed-Holds,
            files-Holds, pending-Holds,
          )
          depth 20

  -- The loop of Start: an interface goes back to its place with the slice that it had.
  after_interface-Holds :
      (done rest : List Interf) (i : IpInterface) (further : List Interf → Exec Ctx Unit)
      → slices (done ++ ip i ∷ rest) ≡ total
      → ((j : IpInterface)
          → j.slice ≡ i.slice
          → Keeps (Holds phase budget total held) (further (done ++ ip j ∷ [])))
      → (c : Ctx) → Holds phase budget total held c
      → (r : Result Unit) (w : Wired) → SameAddresses c.host.pool i.slice w
      → Holds phase budget total held (after_interface os done rest further c (r, w)).1
  unfolding after_interface
  after_interface-Holds done rest i further e k c s r w same = finish r
    where
      replaced : slices (done ++ ip w.interface ∷ rest) ≡ total
      replaced =
          slices-append done (ip w.interface ∷ rest)
          ∙ ap (λ (l : List Ip). slices done ++ (l ++ slices rest)) same.slice
          ∙ sym (slices-append done (ip i ∷ rest))
          ∙ e

      stored : Holds phase budget total held (record c {
        silo = record c.silo { interfaces = done ++ ip w.interface ∷ rest };
        host = w.host;
      })
      stored = record {
        active = s.active;
        slices = replaced;
        accounts =
            subst (λ (p : IpPool). Accounts budget p (total ++ held)) (sym same.pool) s.accounts;
      }

      finish :
          (r : Result Unit)
          → Holds phase budget total held (after_interface os done rest further c (r, w)).1
      finish (ok _) = (k w.interface same.slice).at _ stored
      finish (err x) = stored
      finish panic = stored

  setup_interfaces-Holds :
      (pid index : ℕ) (done todo : List Interf)
      → slices (done ++ todo) ≡ total
      → Keeps (Holds phase budget total held) (setup_interfaces os pid index done todo)
  unfolding setup_interfaces
  setup_interfaces-Holds pid index done [] e = record { at = λ c s. s }
  setup_interfaces-Holds pid index done (loopback ∷ rest) e = record {
    at =
        (setup_interfaces-Holds pid (suc index) (done ++ loopback ∷ []) rest
          (ap slices (append_assoc done (loopback ∷ []) rest) ∙ e)).at;
  }
  setup_interfaces-Holds pid index done (ip i ∷ rest) e = record {
    at = λ c s.
        let (r, w) =
          setup_ip os c.silo.id_hex pid index (record { interface = i; host = c.host }) in
        after_interface-Holds done rest i _ e
          (λ j same.
            setup_interfaces-Holds pid (suc index) (done ++ ip j ∷ []) rest (passed j same))
          c s r w
          ((setup_ip-SameAddresses os c.host.pool i.slice c.silo.id_hex pid index).at _
            (record { pool = refl; slice = refl }));
  }
    where
      passed : (j : IpInterface) → j.slice ≡ i.slice → slices ((done ++ ip j ∷ []) ++ rest) ≡ total
      passed j same =
          ap slices (append_assoc done (ip j ∷ []) rest)
          ∙ slices-append done (ip j ∷ rest)
          ∙ ap (λ (l : List Ip). slices done ++ (l ++ slices rest)) same
          ∙ sym (slices-append done (ip i ∷ rest))
          ∙ e

  limit-Holds :
      (pid : ℕ) (config : Option CgroupConfig)
      → Keeps (Holds phase budget total held) (limit os pid config)
  unfolding limit
  limit-Holds pid none = search keeps_rules
  limit-Holds pid (some config) = Keeps.Keeps-bind _ _ (Keeps.Keeps-gets _) (λ id_hex.
      Keeps.Keeps-bind _ _
        (on_host-Holds phase budget total held _
          (λ p. new_cgroup_set-Keeps_pool os p id_hex pid config))
        (λ made. Keeps-modify _ (update-Holds _ (λ c h. h) (λ c. refl) (λ c. refl))))

  interfaces-Holds :
      (pid : ℕ) (config : Exec Ctx Unit)
      → Keeps (Holds phase budget total held) config
      → Leads
          (Holds phase budget total held)
          (Holds phase budget total held)
          (do is ← gets (λ (c : Ctx). c.silo.interfaces); setup_interfaces os pid 0 [] is; config)
  interfaces-Holds pid config k = Leads-read _ _ (λ c s. record {
    at = λ d (t, e).
        (Keeps.Keeps-bind _ _ (setup_interfaces-Holds pid 0 [] c.silo.interfaces s.slices)
            (λ _. k)).at
          d t;
  })

  launch-Holds : (child : Option Child) → Keeps (Holds phase budget total held) (launch os child)
  unfolding launch
  launch-Holds none = search keeps_rules
  launch-Holds (some child) = Keeps.Keeps-bind _ _ (Keeps.Keeps-gets _) (λ root.
      Keeps.Keeps-bind _ _ (on_host-Holds phase budget total held _ (λ p. search os_keeps_pool))
        (λ pid.
          Keeps.Keeps-bind _ _ (Keeps-modify _ (update-Holds _ (λ c h. h) (λ c. refl) (λ c. refl)))
            (λ _. record {
              at =
                  (interfaces-Holds pid _
                    (Keeps.Keeps-bind _ _ (Keeps.Keeps-gets _) (limit-Holds pid))).at;
            })))

setup_active : (st : SiloState) → is_setup st ≡ true → live st ≡ true
setup_active setup h = refl
setup_active finished h = cc
setup_active _ h = refl

pending_active : (st : SiloState) → is_pending st ≡ true → live st ≡ true
pending_active pending h = refl
pending_active finished h = cc
pending_active _ h = refl

module _ (os : Os) (budget : ℕ) (held : List Ip) where
  -- Init, on every branch, leaves the addresses of the silo and of all others as they were.
  pub init-SiloAccounts : Keeps (SiloAccounts budget held) (init os)
  unfolding init raise
  init-SiloAccounts = record {
    at = λ c s. elim (Bool-cases (is_setup c.silo.state)) [
      | inl yet ↦ rw yet (
          Holds→SiloAccounts (
            (prepare-Holds os live budget _ held refl refl).at c
              (SiloAccounts→Holds budget held c (setup_active c.silo.state yet) s)))
      | inr later ↦ rw later s
    ];
  }

  -- So does Start, also where the process does not start or an interface fails.
  pub start_silo-SiloAccounts : Keeps (SiloAccounts budget held) (start_silo os)
  unfolding start_silo raise
  start_silo-SiloAccounts = record {
    at = λ c s. elim (Bool-cases (is_pending c.silo.state)) [
      | inl ready ↦ rw ready (
          Holds→SiloAccounts (
            (Keeps.Keeps-bind _ _
                (Keeps-modify _
                  (update-Holds os live budget _ held _ (λ c h. refl) (λ c. refl) (λ c. refl)))
                (λ _. launch-Holds os live budget _ held c.silo.child)).at
              c (SiloAccounts→Holds budget held c (pending_active c.silo.state ready) s)))
      | inr other ↦ rw other s
    ];
  }
