-- ===== src/Controller/Silo/Closing.antt =====
-- Close: a running silo's addresses go back to the pool or are lost, and nobody else's are touched.
use mathlib.Core.List.{append_assoc}
use colex.Base.{
  ℕ, true, Bool-cases, inl, inr, Option, none, some, ◌≡◌, refl, sym, subst, List, [], ◌∷◌, ◌++◌,
}
use colex.Base.Outcome.{Error, system, Exec, pure, crash, within, ◌>>◌}
use colex.Base.Keeps
use colex.Base.Keeps.{
  Keeps, keeps_rules, Keeps-modify, Keeps-within, Leads, Leads-bind, Leads-keep, Leads-read,
  Leads-modify,
}
use colex.Ip.{Ip}
use colex.IpPool.{IpPool}
use colex.IpPool.Ownership.{Accounts, Accounts-forget}
use colex.Os.{Os, Host, SamePool, os_keeps_pool}
use colex.CGroups.{CgroupSet}
use colex.CGroups.Groups.{close_cgroup_set-Keeps_pool}
use colex.Controller.Types.{
  SiloState, running, finished, Silo, Ctx, Child, Base, Interf, loopback, ip,
}
use colex.Controller.Bases.{on_host, teardown_base}
use colex.Controller.Interfaces.Ownership.{HostAccounts, Keeps-HostAccounts, teardown_ip-Leads}
use colex.Controller.Silo.{is_running}
use colex.Controller.Silo.Ending.{
  close, shut_down, shut_down_child, delete_root, kill_if_there, teardown_bases,
  teardown_interfaces, unlimit,
}
use colex.Controller.Silo.Ownership.{
  slices, live, Holds, on_host-Holds, SiloAccounts, Holds→SiloAccounts, SiloAccounts→Holds,
}

-- A silo that is finished but whose interfaces, with the slices `total`, are still to be torn down.
record Closes (budget : ℕ) (total held : List Ip) (c : Ctx) : Type 0 where
  state : c.silo.state ≡ finished
  slices : slices c.silo.interfaces ≡ total
  accounts : Accounts budget c.host.pool (total ++ held)

-- A silo that claims nothing more.
record Closed (budget : ℕ) (held : List Ip) (c : Ctx) : Type 0 where
  state : c.silo.state ≡ finished
  accounts : Accounts budget c.host.pool held

module _ (os : Os) (budget : ℕ) (held : List Ip) where
  teardown_interfaces-Leads :
      (is : List Interf)
      → Leads
          (HostAccounts budget (slices is ++ held))
          (HostAccounts budget held)
          (teardown_interfaces os is)
  unfolding teardown_interfaces pure
  teardown_interfaces-Leads [] = record { at = λ h a. a }
  teardown_interfaces-Leads (loopback ∷ rest) = record { at = (teardown_interfaces-Leads rest).at }
  teardown_interfaces-Leads (ip i ∷ rest) =
      Leads-bind _ _
        (record {
          at = λ h a.
              (teardown_ip-Leads os budget (slices rest ++ held) i).at h
                (subst (λ l. Accounts budget h.pool l) (append_assoc i.slice (slices rest) held) a);
        })
        (λ _. teardown_interfaces-Leads rest)
        (λ h. Accounts-forget budget h.pool (slices rest) held)

  unlimit-Keeps_pool : (p : IpPool) (set : Option CgroupSet) → Keeps (SamePool p) (unlimit os set)
  unfolding unlimit
  unlimit-Keeps_pool p none = search keeps_rules
  unlimit-Keeps_pool p (some set) = close_cgroup_set-Keeps_pool os p set

  kill-Keeps_pool :
      (p : IpPool) (pid : ℕ) (e : Option Error) → Keeps (SamePool p) (kill_if_there os pid e)
  unfolding kill_if_there
  kill-Keeps_pool p pid none = search os_keeps_pool
  kill-Keeps_pool p pid (some (system e)) = search os_keeps_pool
  kill-Keeps_pool p pid (some _) = search os_keeps_pool

  bases-same : {P : Ctx → Type 0} (bs : List Base) → Keeps P (teardown_bases os bs)
  unfolding teardown_bases teardown_base
  bases-same [] = search keeps_rules
  bases-same (b ∷ rest) = Keeps.Keeps-bind _ _ (search keeps_rules) (λ _. bases-same rest)

  on_host-Closed :
      {A : Type 0} (m : Exec Host A)
      → ((p : IpPool) → Keeps (SamePool p) m)
      → Keeps (Closed budget held) (on_host m)
  on_host-Closed m k =
      Keeps-within _ _ m
        (λ c s. record {
          at = λ h e. record {
            state = s.state;
            accounts = (Keeps-HostAccounts budget held k).at h e.accounts;
          };
        })
        (λ c s. s)

  interfaces-Closed :
      (is : List Interf)
      → Leads
          (Closes budget (slices is) held)
          (Closed budget held)
          (on_host (teardown_interfaces os is))
  unfolding within
  interfaces-Closed is = record {
    at = λ c s. record {
      state = s.state;
      accounts = (teardown_interfaces-Leads is).at c.host s.accounts;
    };
  }

  Closes→Closed : {total : List Ip} (c : Ctx) → Closes budget total held c → Closed budget held c
  Closes→Closed {total} c s = record {
    state = s.state;
    accounts = Accounts-forget budget c.host.pool total held s.accounts;
  }

  Closed→SiloAccounts : (c : Ctx) → Closed budget held c → SiloAccounts budget held c
  Closed→SiloAccounts c s = rw (s.state) (s.accounts)

  -- The part of Close behind `s.State = StateFinished`.
  tail-Leads :
      (s : Silo) (total : List Ip)
      → slices s.interfaces ≡ total
      → Leads (Closes budget total held) (Closed budget held) (do
        teardown_bases os s.bases
        on_host (teardown_interfaces os s.interfaces)
        on_host (unlimit os s.cgroup_set))
  tail-Leads s total e =
      Leads-bind _ _ (Leads-keep (bases-same s.bases))
        (λ _.
          Leads-bind _ _
            (record {
              at = λ c h.
                  (interfaces-Closed s.interfaces).at c
                    (subst (λ t. Closes budget t held c) (sym e) h);
            })
            (λ _. Leads-keep (on_host-Closed _ (λ p. unlimit-Keeps_pool p s.cgroup_set)))
            (λ c h. h))
        Closes→Closed

  shut_down-Leads :
      (total : List Ip) (pid : ℕ)
      → Leads (Holds live budget total held) (SiloAccounts budget held) (shut_down os pid)
  unfolding shut_down
  shut_down-Leads total pid =
      Leads-bind _ _
        (Leads-keep (on_host-Holds live budget total held _ (λ p. search os_keeps_pool)))
        (λ there.
          Leads-bind _ _
            (Leads-keep (on_host-Holds live budget total held _ (λ p. kill-Keeps_pool p pid there)))
            (λ _.
              Leads-bind _ _ (Leads-modify _ finish)
                (λ _. Leads-read _ _ (λ c s. record {
                  at =
                      λ d (h, e). Closed→SiloAccounts _ ((tail-Leads c.silo total s.slices).at d h);
                }))
                (λ c s. Closed→SiloAccounts c (Closes→Closed c s)))
            (λ c s. Holds→SiloAccounts s))
        (λ c s. Holds→SiloAccounts s)
    where
      finish :
          (c : Ctx)
          → Holds live budget total held c
          → Closes budget total held (record c { silo = record c.silo { state = finished } })
      finish c s = record { state = refl; slices = s.slices; accounts = s.accounts }

  delete_root-SiloAccounts : Keeps (SiloAccounts budget held) (delete_root os)
  unfolding delete_root
  delete_root-SiloAccounts = Keeps.Keeps-bind _ _ (Keeps.Keeps-gets _) (λ s.
      Keeps.Keeps-if s.should_delete_root _ _
        (Keeps-within _ _ _ (λ c a. Keeps-HostAccounts budget _ (λ p. search os_keeps_pool))
          (λ c a. a))
        (search keeps_rules))

  shut_down_child-Leads :
      (total : List Ip) (child : Option Child)
      → Leads (Holds live budget total held) (SiloAccounts budget held) (shut_down_child os child)
  unfolding shut_down_child crash pure
  shut_down_child-Leads total none = record { at = λ c s. Holds→SiloAccounts s }
  shut_down_child-Leads total (some child) =
      elim child.process
        as (λ o.
          Leads (Holds live budget total held) (SiloAccounts budget held)
            (elim o [ none ↦ pure tt | some pid ↦ shut_down os pid ])) [
              | none ↦ record { at = λ c s. Holds→SiloAccounts s }
              | some pid ↦ shut_down-Leads total pid
            ]

running_active : (st : SiloState) → is_running st ≡ true → live st ≡ true
running_active running h = refl
running_active finished h = cc
running_active _ h = refl

-- Close, on every branch, leaves the addresses of all others as they were, and what the silo still
-- claims afterwards is its own: an address is never given back twice, by one Close or by two.
pub close-SiloAccounts :
    (os : Os) (budget : ℕ) (held : List Ip) → Keeps (SiloAccounts budget held) (close os)
unfolding close
close-SiloAccounts os budget held = record {
  at = λ c s. elim (Bool-cases (is_running c.silo.state)) [
    | inl up ↦ rw up (
        (Leads-bind _ _ (shut_down_child-Leads os budget held _ c.silo.child)
            (λ _. Leads-keep (delete_root-SiloAccounts os budget held)) (λ d h. h)).at
          c (SiloAccounts→Holds budget held c (running_active c.silo.state up) s))
    | inr down ↦ rw down ((delete_root-SiloAccounts os budget held).at c s)
  ];
}
