-- ===== src/Controller/Interfaces/Wiring.antt =====
-- controller/interfaces.go: the devices, addresses and rules that Setup makes and that Teardown takes down.
use Prim.Native.String.{◌++◌ as join_text}
use colex.Base.{
  ℕ, String, Bool, true, false, some, List, [], ◌∷◌, ◌≡◌, refl, sym, ap, subst, ◌∙◌, if◌then◌else◌,
  same_text,
}
use colex.Base.Keeps.{Keeps-gets}
use colex.Base.Outcome.{Result, Exec, ok, err, panic, pure, gets, within, put_back, ◌>>◌}
use colex.Base.Yields.{
  Yields, Ends, Yields-bind, Yields-pure, Yields-deferring, Yields-known, Yields-keep, Yields-if,
  Yields-raise, Yields-modify, Yields-done,
}
use colex.IpPool.{IpInterface}
use colex.Os.{
  Os, Host, Call, perform, new_iptables, add_bridge, set_up, delete_link, add_address, add_veth,
  set_master, set_namespace, namespace_add_address, namespace_set_up, append_rule, delete_rule,
}
use colex.Os.Called.{
  AreDone, AreDone-nil, Anything, perform-Keeps-AreDone, perform-Yields, kept_calls,
}
use colex.Net.{delete_net_bridge}
use colex.Net.Keeping.{namespace_net_close-Keeps, ipv4_forwarding_enabled-Keeps}
use colex.Controller.Interfaces.{
  Wired, on_host, update, device_name, masquerade_rule, require_forwarding, wire_devices, wire_ends,
  wire_namespace, setup_ip, give_back, teardown_ip,
}
use colex.Controller.Interfaces.Calls.{
  Calls, create_net_bridge-Calls, create_veth_pair-Yields, attach_net_bridge-Calls,
  move_veth_to_namespace-Calls, open-Yields, link_add_address-Calls, set_up-Calls, kept_call,
}
use colex.Controller.Interfaces.Naming.{bridge_named}

-- What Setup does in the end, by the names that the interface then has: the bridge with its address, the
-- pair, one end of it on the bridge and the other in the namespace of the process, with its address and up,
-- and the rule for the network, if it is wanted.
abbrev with_rule : Bool → String → List Call → List Call
with_rule true veth cs = append_rule (masquerade_rule veth) ∷ cs
with_rule false veth cs = cs

abbrev pub wired_calls : ℕ → IpInterface → List Call
wired_calls pid i = with_rule i.internet_access i.host_veth (
    namespace_set_up pid i.silo_veth
    ∷ namespace_add_address pid i.silo_veth i.silo_ip i.silo_mask
    ∷ set_namespace i.silo_veth pid
    ∷ set_master i.host_veth i.bridge_name
    ∷ add_veth i.host_veth i.silo_veth
    ∷ set_up i.bridge_name
    ∷ add_address i.bridge_name i.bridge_ip i.bridge_mask
    ∷ add_bridge i.bridge_name
    ∷ [])

-- What Teardown undoes of it: with the bridge go the devices on it.
abbrev without_rule : Bool → String → List Call
without_rule true veth = delete_rule (masquerade_rule veth) ∷ []
without_rule false veth = []

abbrev pub unwired_calls : IpInterface → List Call
unwired_calls i = delete_link i.bridge_name ∷ without_rule i.internet_access i.host_veth

module _ (os : Os) where
  rule-Calls :
      (wants : Bool) (veth : String) (cs : List Call)
      → Calls os cs
          (with_rule wants veth cs)
          (if wants then perform os (append_rule (masquerade_rule veth)) else pure tt)
  rule-Calls true veth cs = perform-Yields os cs _
  rule-Calls false veth cs = Yields-pure tt (λ h k. k)

  module _ (i : IpInterface) (prefix : String) (pid : ℕ) where
    abbrev named : IpInterface
    named = record i { host_veth = join_text prefix "h"; silo_veth = join_text prefix "s" }

    wire_namespace-Calls :
        Calls os
          (set_namespace named.silo_veth pid
            ∷ set_master named.host_veth i.bridge_name
            ∷ add_veth named.host_veth named.silo_veth
            ∷ set_up i.bridge_name
            ∷ add_address i.bridge_name i.bridge_ip i.bridge_mask
            ∷ add_bridge i.bridge_name
            ∷ [])
          (wired_calls pid named)
          (wire_namespace os named named.silo_veth pid)
    unfolding wire_namespace
    wire_namespace-Calls =
        Yields-deferring _ _
          (Yields-bind _ _ (link_add_address-Calls os _ pid _ i.silo_ip i.silo_mask) (λ u1.
            Yields-bind _ _ (set_up-Calls os _ pid _) (λ u2.
              Yields-bind _ _ (kept_call os _ new_iptables)
                (λ u3. rule-Calls i.internet_access _ _))))
          (λ u. namespace_net_close-Keeps os _ (perform-Keeps-AreDone os _) (some pid))
          (record { at = λ h k. tt })

    wire_devices-Calls :
        Calls os [] (wired_calls pid named) (wire_devices os named prefix pid named.silo_veth)
    unfolding wire_devices wire_ends
    wire_devices-Calls =
        Yields-bind _ _ (create_net_bridge-Calls os [] i.bridge_name i.bridge_ip i.bridge_mask)
          (λ u1. Yields-bind _ _ (create_veth_pair-Yields os _ prefix) (λ ends.
            Yields-known (named.host_veth, named.silo_veth) (wire_ends os named pid named.silo_veth)
              ends
              (Yields-bind _ _ (attach_net_bridge-Calls os _ i.bridge_name _) (λ u2.
                Yields-bind _ _ (move_veth_to_namespace-Calls os _ _ pid) (λ u3.
                  Yields-bind _ _ (open-Yields os _ pid) (λ ns.
                    Yields-known pid (wire_namespace os named named.silo_veth) ns
                      wire_namespace-Calls))))))

-- The interface as Setup names it, and as it leaves it.
abbrev renamed : String → ℕ → IpInterface → IpInterface
renamed id_hex index i = record i {
  bridge_name = device_name "b" index id_hex;
  host_veth = join_text (device_name "v" index id_hex) "h";
  silo_veth = join_text (device_name "v" index id_hex) "s";
}

-- The interface is this one, and these calls were made without an error.
abbrev pub Stands : Os → IpInterface → List Call → Wired → Type 0
Stands os i cs w = (w.interface ≡ i) × AreDone os cs w.host

abbrev AnyWired : Wired → Type 0
AnyWired w = Unit

put_back-Ends :
    {A : Type 0} (os : Os) (i : IpInterface) (cs : List Call) (w : Wired) (r : Result A × Host)
    → w.interface ≡ i
    → Ends (λ a. AreDone os cs) Anything r
    → Ends (λ a. Stands os i cs) AnyWired (put_back (λ h. record w { host = h }) r)
put_back-Ends os i cs w (ok a, h) same k = (same, k)
put_back-Ends os i cs w (err e, h) same k = tt
put_back-Ends os i cs w (panic, h) same k = tt

on_host-Stands :
    {A : Type 0} (os : Os) (i : IpInterface) (before after : List Call) (m : Exec Host A)
    → Yields (AreDone os before) (λ a. AreDone os after) Anything m
    → Yields (Stands os i before) (λ a. Stands os i after) AnyWired (on_host m)
unfolding within
on_host-Stands os i before after m k = record {
  ends = λ w (same, h). put_back-Ends os i after w (m w.host) same (k.ends w.host h);
}

read-Stands :
    (os : Os) (i : IpInterface) (cs : List Call)
    → Yields
        (Stands os i cs)
        (λ j w. (j ≡ i) × Stands os i cs w)
        AnyWired
        (gets (λ (w : Wired). w.interface))
unfolding gets
read-Stands os i cs = record { ends = λ w (same, h). (same, (same, h)) }

module _ (os : Os) (id_hex : String) (pid index : ℕ) where
  forwarding-Calls : (cs : List Call) (wants : Bool) → Calls os cs cs (require_forwarding os wants)
  unfolding require_forwarding
  forwarding-Calls cs false = Yields-pure tt (λ h k. k)
  forwarding-Calls cs true =
      Yields-bind _ _
        (kept_calls os cs _ (ipv4_forwarding_enabled-Keeps os _ (perform-Keeps-AreDone os cs)))
        (λ enabled. Yields-if enabled _ _ (Yields-pure tt (λ h k. k)) (Yields-raise _ (λ h k. tt)))

  setup_ip-Yields :
      (i : IpInterface)
      → Yields
          (Stands os i [])
          (λ u.
            Stands os
              (record (renamed id_hex index i) { is_setup = true })
              (wired_calls pid (renamed id_hex index i)))
          AnyWired
          (setup_ip os id_hex pid index)
  unfolding setup_ip
  setup_ip-Yields i =
      let j = renamed id_hex index i in
      Yields-bind _ _ (Yields-keep _ (Keeps-gets _) (λ a w h. h) (λ w h. tt)) (λ wants.
        Yields-bind _ _ (on_host-Stands os i _ _ _ (forwarding-Calls [] wants)) (λ u1.
          Yields-bind _ _ (Yields-modify _ (λ w (same, h). (ap (renamed id_hex index) same, h)))
            (λ u2. Yields-bind _ _ (read-Stands os j []) (λ named.
              Yields-known j
                (λ (x : IpInterface).
                  on_host (wire_devices os x (device_name "v" index id_hex) pid x.silo_veth)
                  >> update (λ y. record y { is_setup = true }))
                named
                (Yields-bind _ _
                  (on_host-Stands os j _ _ _ (
                    wire_devices-Calls os (record i { bridge_name = device_name "b" index id_hex })
                      (device_name "v" index id_hex) pid))
                  (λ u3. Yields-modify _ (λ w (same, h).
                    (ap (λ (x : IpInterface). record x { is_setup = true }) same, h))))))))

  rule_deleted :
      (wants : Bool) (veth : String)
      → Calls os []
          (without_rule wants veth)
          (if wants then perform os (delete_rule (masquerade_rule veth)) else pure tt)
  rule_deleted true veth = perform-Yields os [] _
  rule_deleted false veth = Yields-pure tt (λ h k. k)

  give_back-Calls : (cs : List Call) (i : IpInterface) → Calls os cs cs (give_back os i)
  unfolding give_back
  give_back-Calls cs i =
      Yields-if i.freeer _ _ (Yields-modify _ (λ h k. record { all = k.all }))
        (Yields-pure tt (λ h k. k))

  teardown_ip-Calls :
      (i : IpInterface)
      → i.is_setup ≡ true
      → same_text i.bridge_name "" ≡ false
      → Calls os [] (unwired_calls i) (teardown_ip os i)
  unfolding teardown_ip delete_net_bridge give_back
  teardown_ip-Calls i is_up has_bridge =
      rw (is_up, has_bridge)
        (Yields-bind _ _ (rule_deleted i.internet_access i.host_veth) (λ u.
          Yields-bind _ _ (perform-Yields os _ (delete_link i.bridge_name))
            (λ v. give_back-Calls _ i)))

  -- Where Setup succeeds, it has, each by a call that was made without an error, added the bridge with its address, put
  -- one end of the pair on it and the other end, with its address and up, into the namespace of the process; where
  -- Teardown then succeeds, it has deleted that bridge so. Where the interface has internet access, Setup has
  -- appended the rule of the host's end, and Teardown has deleted it, also without an error.
  pub setup_ip-teardown_ip :
      (w : Wired)
      → (setup_ip os id_hex pid index w).0 ≡ ok tt
      → let made = (setup_ip os id_hex pid index w).1 in
        (teardown_ip os made.interface made.host).0 ≡ ok tt
        → AreDone os (wired_calls pid made.interface) made.host
          × AreDone os (unwired_calls made.interface) (teardown_ip os made.interface made.host).1
  setup_ip-teardown_ip w is_made is_deleted =
      let made = (setup_ip os id_hex pid index w).1 in
      let (same, wired) =
        Yields-done _ (setup_ip-Yields w.interface) w (refl, AreDone-nil os w.host) is_made in
      let has_name : same_text made.interface.bridge_name "" ≡ false =
        ap (λ (i : IpInterface). same_text i.bridge_name "") same ∙ bridge_named index id_hex in
      let undone =
        teardown_ip-Calls made.interface (ap (λ (i : IpInterface). i.is_setup) same) has_name in
      (
        subst (λ (i : IpInterface). AreDone os (wired_calls pid i) made.host) (sym same) wired,
        Yields-done _ undone made.host (AreDone-nil os made.host) is_deleted,
      )
