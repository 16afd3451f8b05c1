-- ===== src/Net/Keeping.antt =====
-- What each call of the system keeps, every function of net.go and net_namespace.go keeps.
use colex.Base.{ℕ, String, Bool, Option, none, some, List}
use colex.Base.Outcome.{Error}
use colex.Base.Keeps.{Keeps, keeps_rules}
use colex.Ip.{Ip}
use colex.Os.{Os, Host, Call, perform, ask_bytes, ask_text}
use colex.Net.{
  create_net_bridge, delete_net_bridge, attach_net_bridge, create_veth_pair, must_be_absent,
  move_veth_to_namespace, ipv4_forwarding_enabled, namespace_net_open, link_add_address,
  link_set_state, namespace_net_close,
}

module _ (os : Os) (P : Host → Type 0) (kept : (c : Call) → Keeps P (perform os c)) where
  pub ask_bytes-Keeps : (c : Call) → Keeps P (ask_bytes os c)
  unfolding ask_bytes
  ask_bytes-Keeps c = search (keeps_rules, kept)

  pub ask_text-Keeps : (c : Call) → Keeps P (ask_text os c)
  unfolding ask_text
  ask_text-Keeps c = search (keeps_rules, kept)

  pub must_be_absent-Keeps : (found : Option Error) → Keeps P (must_be_absent os found)
  unfolding must_be_absent
  must_be_absent-Keeps none = search keeps_rules
  must_be_absent-Keeps (some e) = search keeps_rules

  pub create_net_bridge-Keeps :
      (name : String) (a : Ip) (mask : List ℕ) → Keeps P (create_net_bridge os name a mask)
  unfolding create_net_bridge
  create_net_bridge-Keeps name a mask = search (keeps_rules, kept, must_be_absent-Keeps) depth 20

  pub delete_net_bridge-Keeps : (name : String) → Keeps P (delete_net_bridge os name)
  unfolding delete_net_bridge
  delete_net_bridge-Keeps name = kept _

  pub attach_net_bridge-Keeps :
      (bridge client : String) → Keeps P (attach_net_bridge os bridge client)
  unfolding attach_net_bridge
  attach_net_bridge-Keeps bridge client = search (keeps_rules, kept) depth 20

  pub create_veth_pair-Keeps : (prefix : String) → Keeps P (create_veth_pair os prefix)
  unfolding create_veth_pair
  create_veth_pair-Keeps prefix = search (keeps_rules, kept, must_be_absent-Keeps) depth 20

  pub move_veth_to_namespace-Keeps :
      (veth : String) (pid : ℕ) → Keeps P (move_veth_to_namespace os veth pid)
  unfolding move_veth_to_namespace
  move_veth_to_namespace-Keeps veth pid = search (keeps_rules, kept) depth 20

  pub ipv4_forwarding_enabled-Keeps : Keeps P (ipv4_forwarding_enabled os)
  unfolding ipv4_forwarding_enabled
  ipv4_forwarding_enabled-Keeps = search (keeps_rules, ask_bytes-Keeps) depth 20

  pub namespace_net_open-Keeps : (pid : ℕ) → Keeps P (namespace_net_open os pid)
  unfolding namespace_net_open
  namespace_net_open-Keeps pid = search (keeps_rules, kept) depth 20

  pub link_add_address-Keeps :
      (pid : ℕ) (device : String) (a : Ip) (mask : List ℕ)
      → Keeps P (link_add_address os pid device a mask)
  unfolding link_add_address
  link_add_address-Keeps pid device a mask = search (keeps_rules, kept) depth 20

  pub link_set_state-Keeps :
      (pid : ℕ) (device : String) (up : Bool) → Keeps P (link_set_state os pid device up)
  unfolding link_set_state
  link_set_state-Keeps pid device up = search (keeps_rules, kept) depth 20

  pub namespace_net_close-Keeps :
      (open_file : Option ℕ) → Keeps P (namespace_net_close os open_file)
  unfolding namespace_net_close
  namespace_net_close-Keeps none = search keeps_rules
  namespace_net_close-Keeps (some pid) = kept _
