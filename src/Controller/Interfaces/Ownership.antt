-- ===== src/Controller/Interfaces/Ownership.antt =====
-- The addresses of an interface: Setup never frees them, and Teardown frees them or loses them.
use colex.Base.{ℕ, String, Bool, true, false, ◌≡◌, refl, sym, subst, ◌∙◌, List, ◌++◌}
use colex.Base.Outcome.{Exec, pure, modify}
use colex.Base.Keeps.{
  Keeps, keeps_rules, Leads, Leads-bind, Leads-keep, Leads-if, Keeps-modify, Keeps-within,
  Keeps-gets, Keeps-bind,
}
use colex.Ip.{Ip}
use colex.IpPool.{IpPool, IpInterface}
use colex.IpPool.Ownership.{Accounts, Accounts-free, Accounts-forget}
use colex.Os.{Os, Host, SamePool}
use colex.Net.Devices.{net_keeps_pool}
use colex.Controller.Interfaces.{
  Wired, on_host, update, require_forwarding, wire_devices, wire_ends, wire_namespace, setup_ip,
  give_back, teardown_ip,
}

module _ (os : Os) (p : IpPool) where
  forwarding-Keeps_pool : (b : Bool) → Keeps (SamePool p) (require_forwarding os b)
  unfolding require_forwarding
  forwarding-Keeps_pool false = search keeps_rules
  forwarding-Keeps_pool true = search net_keeps_pool depth 20

  wire-Keeps_pool :
      (i : IpInterface) (prefix : String) (pid : ℕ) (veth : String)
      → Keeps (SamePool p) (wire_devices os i prefix pid veth)
  unfolding wire_devices wire_ends wire_namespace
  wire-Keeps_pool i prefix pid veth = search net_keeps_pool depth 30

-- While an interface is set up, the pool and the slice stay as they are.
pub record SameAddresses (p : IpPool) (addresses : List Ip) (w : Wired) : Type 0 where
  pub pool : w.host.pool ≡ p
  pub slice : w.interface.slice ≡ addresses

module _ (os : Os) (p : IpPool) (slice : List Ip) where
  on_host-SameAddresses :
      {A : Type 0} (m : Exec Host A)
      → Keeps (SamePool p) m
      → Keeps (SameAddresses p slice) (on_host m)
  on_host-SameAddresses m k =
      Keeps-within _ _ m
        (λ w s. record { at = λ h e. record { pool = k.at h e.pool; slice = e.slice } }) (λ w s. s)

  update-SameAddresses :
      (f : IpInterface → IpInterface)
      → ((i : IpInterface) → (f i).slice ≡ i.slice)
      → Keeps (SameAddresses p slice) (update f)
  update-SameAddresses f same =
      Keeps-modify _ (λ w s. record { pool = s.pool; slice = same w.interface ∙ s.slice })

  pub setup_ip-SameAddresses :
      (id_hex : String) (pid index : ℕ)
      → Keeps (SameAddresses p slice) (setup_ip os id_hex pid index)
  unfolding setup_ip
  setup_ip-SameAddresses id_hex pid index = Keeps-bind _ _ (Keeps-gets _) (λ wants.
      Keeps-bind _ _ (on_host-SameAddresses _ (forwarding-Keeps_pool os p wants)) (λ _.
        Keeps-bind _ _ (update-SameAddresses _ (λ i. refl)) (λ _.
          Keeps-bind _ _ (Keeps-gets _) (λ i.
            Keeps-bind _ _ (on_host-SameAddresses _ (wire-Keeps_pool os p i _ pid _))
              (λ _. update-SameAddresses _ (λ i. refl))))))

-- Teardown: whatever becomes of the slice, every other holder keeps its addresses.
abbrev pub HostAccounts : ℕ → List Ip → Host → Type 0
HostAccounts budget held h = Accounts budget h.pool held

pub Keeps-HostAccounts :
    {A : Type 0} {m : Exec Host A} (budget : ℕ) (held : List Ip)
    → ((p : IpPool) → Keeps (SamePool p) m)
    → Keeps (HostAccounts budget held) m
Keeps-HostAccounts budget held k = record {
  at = λ h a. subst (λ p. Accounts budget p held) (sym ((k h.pool).at h refl)) a;
}

module _ (os : Os) (budget : ℕ) (held : List Ip) where
  give_back-Leads :
      (i : IpInterface)
      → Leads (HostAccounts budget (i.slice ++ held)) (HostAccounts budget held) (give_back os i)
  unfolding give_back
  give_back-Leads i =
      Leads-if i.freeer _ _
        (record { at = λ h a. unfold modify in Accounts-free budget h.pool i.slice held a })
        (record { at = λ h a. unfold pure in Accounts-forget budget h.pool i.slice held a })

  pub teardown_ip-Leads :
      (i : IpInterface)
      → Leads (HostAccounts budget (i.slice ++ held)) (HostAccounts budget held) (teardown_ip os i)
  unfolding teardown_ip
  teardown_ip-Leads i =
      Leads-if i.is_setup _ _
        (Leads-bind _ _ (Leads-keep (Keeps-HostAccounts budget _ (λ p. search net_keeps_pool)))
          (λ _.
            Leads-bind _ _ (Leads-keep (Keeps-HostAccounts budget _ (λ p. search net_keeps_pool)))
              (λ _. give_back-Leads i) (λ h. Accounts-forget budget h.pool i.slice held))
          (λ h. Accounts-forget budget h.pool i.slice held))
        (give_back-Leads i)
