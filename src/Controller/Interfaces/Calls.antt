-- ===== src/Controller/Interfaces/Calls.antt =====
-- net.go and net_namespace.go: which calls were made where a function ends well.
use Prim.Native.String.{◌++◌ as join_text}
use colex.Base.{ℕ, String, true, List, ◌∷◌, ◌≡◌, refl}
use colex.Base.Keeps.{Keeps-attempt}
use colex.Base.Outcome.{Exec, attempt}
use colex.Base.Yields.{Yields, Yields-bind, Yields-pure}
use colex.Ip.{Ip}
use colex.Os.{
  Os, Host, Call, perform, interface_by_name, add_bridge, set_up, add_address, add_veth, set_master,
  set_namespace, namespace_add_address, namespace_set_up,
}
use colex.Os.Called.{AreDone, Anything, perform-Keeps-AreDone, perform-Yields, kept_calls}
use colex.Net.{
  create_net_bridge, attach_net_bridge, create_veth_pair, move_veth_to_namespace,
  namespace_net_open, link_add_address, link_set_state,
}
use colex.Net.Keeping.{must_be_absent-Keeps}

-- One call after the other, each of them remembered
module _ (os : Os) where
  abbrev pub Calls : {A : Type 0} → List Call → List Call → Exec Host A → Type 0
  Calls before after m = Yields (AreDone os before) (λ a. AreDone os after) Anything m

  pub kept_call : (cs : List Call) (d : Call) → Calls cs cs (perform os d)
  kept_call cs d = kept_calls os cs _ (perform-Keeps-AreDone os cs d)

  absent :
      (cs : List Call) (name : String) → Calls cs cs (attempt (perform os (interface_by_name name)))
  absent cs name = kept_calls os cs _ (Keeps-attempt _ (perform-Keeps-AreDone os cs _))

  pub create_net_bridge-Calls :
      (cs : List Call) (name : String) (a : Ip) (mask : List ℕ)
      → Calls cs
          (set_up name ∷ add_address name a mask ∷ add_bridge name ∷ cs)
          (create_net_bridge os name a mask)
  unfolding create_net_bridge
  create_net_bridge-Calls cs name a mask = Yields-bind _ _ (absent cs name) (λ found.
      Yields-bind _ _
        (kept_calls os cs _
          (must_be_absent-Keeps os (AreDone os cs) (perform-Keeps-AreDone os cs) found))
        (λ u1. Yields-bind _ _ (perform-Yields os cs _) (λ u2.
          Yields-bind _ _ (perform-Yields os _ _)
            (λ u3. Yields-bind _ _ (perform-Yields os _ _) (λ u4. kept_call _ _)))))

  -- The two ends have the names that the prefix gives.
  abbrev pub HasEnds : String → List Call → String × String → Host → Type 0
  HasEnds prefix cs ends h =
      (ends ≡ (join_text prefix "h", join_text prefix "s"))
      × AreDone os (add_veth (join_text prefix "h") (join_text prefix "s") ∷ cs) h

  pub create_veth_pair-Yields :
      (cs : List Call) (prefix : String)
      → Yields (AreDone os cs) (HasEnds prefix cs) Anything (create_veth_pair os prefix)
  unfolding create_veth_pair
  create_veth_pair-Yields cs prefix = Yields-bind _ _ (absent cs _) (λ found.
      Yields-bind _ _
        (kept_calls os cs _
          (must_be_absent-Keeps os (AreDone os cs) (perform-Keeps-AreDone os cs) found))
        (λ u1. Yields-bind _ _ (perform-Yields os cs _) (λ u2.
          Yields-bind _ _ (kept_call _ _) (λ u3.
            Yields-bind _ _ (kept_call _ _)
              (λ u4. Yields-bind _ _ (kept_call _ _) (λ u5. Yields-pure _ (λ h k. (refl, k))))))))

  pub attach_net_bridge-Calls :
      (cs : List Call) (bridge client : String)
      → Calls cs (set_master client bridge ∷ cs) (attach_net_bridge os bridge client)
  unfolding attach_net_bridge
  attach_net_bridge-Calls cs bridge client =
      Yields-bind _ _ (kept_call cs _)
        (λ u1. Yields-bind _ _ (kept_call cs _) (λ u2. perform-Yields os cs _))

  pub move_veth_to_namespace-Calls :
      (cs : List Call) (veth : String) (pid : ℕ)
      → Calls cs (set_namespace veth pid ∷ cs) (move_veth_to_namespace os veth pid)
  unfolding move_veth_to_namespace
  move_veth_to_namespace-Calls cs veth pid =
      Yields-bind _ _ (kept_call cs _) (λ u1. perform-Yields os cs _)

  pub open-Yields :
      (cs : List Call) (pid : ℕ)
      → Yields
          (AreDone os cs)
          (λ ns h. (ns ≡ pid) × AreDone os cs h)
          Anything
          (namespace_net_open os pid)
  unfolding namespace_net_open
  open-Yields cs pid = Yields-bind _ _ (kept_call cs _) (λ u. Yields-pure pid (λ h k. (refl, k)))

  pub link_add_address-Calls :
      (cs : List Call) (pid : ℕ) (device : String) (a : Ip) (mask : List ℕ)
      → Calls cs
          (namespace_add_address pid device a mask ∷ cs)
          (link_add_address os pid device a mask)
  unfolding link_add_address
  link_add_address-Calls cs pid device a mask =
      Yields-bind _ _ (kept_call cs _) (λ u1. perform-Yields os cs _)

  pub set_up-Calls :
      (cs : List Call) (pid : ℕ) (device : String)
      → Calls cs (namespace_set_up pid device ∷ cs) (link_set_state os pid device true)
  unfolding link_set_state
  set_up-Calls cs pid device = Yields-bind _ _ (kept_call cs _) (λ u1. perform-Yields os cs _)
