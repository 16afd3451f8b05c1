-- ===== src/Net/Devices.antt =====
-- No call of net.go or net_namespace.go touches the address pool.
use colex.Base.{ℕ, String, Bool, Option, List}
use colex.Base.Keeps.{Keeps}
use colex.Ip.{Ip}
use colex.IpPool.{IpPool}
use colex.Os.{Os, SamePool, perform-Keeps_pool, os_keeps_pool}
use colex.Net.{
  create_net_bridge, delete_net_bridge, attach_net_bridge, create_veth_pair, move_veth_to_namespace,
  ipv4_forwarding_enabled, namespace_net_open, link_add_address, link_set_state,
  namespace_net_close,
}
use colex.Net.Keeping.{
  create_net_bridge-Keeps, delete_net_bridge-Keeps, attach_net_bridge-Keeps, create_veth_pair-Keeps,
  move_veth_to_namespace-Keeps, ipv4_forwarding_enabled-Keeps, namespace_net_open-Keeps,
  link_add_address-Keeps, link_set_state-Keeps, namespace_net_close-Keeps,
}

module _ (os : Os) (p : IpPool) where
  pub bridge-Keeps_pool :
      (name : String) (a : Ip) (mask : List ℕ)
      → Keeps (SamePool p) (create_net_bridge os name a mask)
  bridge-Keeps_pool = create_net_bridge-Keeps os (SamePool p) (perform-Keeps_pool os p)

  pub delete_bridge-Keeps_pool : (name : String) → Keeps (SamePool p) (delete_net_bridge os name)
  delete_bridge-Keeps_pool = delete_net_bridge-Keeps os (SamePool p) (perform-Keeps_pool os p)

  pub attach-Keeps_pool :
      (bridge client : String) → Keeps (SamePool p) (attach_net_bridge os bridge client)
  attach-Keeps_pool = attach_net_bridge-Keeps os (SamePool p) (perform-Keeps_pool os p)

  pub veth-Keeps_pool : (prefix : String) → Keeps (SamePool p) (create_veth_pair os prefix)
  veth-Keeps_pool = create_veth_pair-Keeps os (SamePool p) (perform-Keeps_pool os p)

  pub move-Keeps_pool :
      (veth : String) (pid : ℕ) → Keeps (SamePool p) (move_veth_to_namespace os veth pid)
  move-Keeps_pool = move_veth_to_namespace-Keeps os (SamePool p) (perform-Keeps_pool os p)

  pub forwarding-Keeps_pool : Keeps (SamePool p) (ipv4_forwarding_enabled os)
  forwarding-Keeps_pool = ipv4_forwarding_enabled-Keeps os (SamePool p) (perform-Keeps_pool os p)

  pub namespace-Keeps_pool : (pid : ℕ) → Keeps (SamePool p) (namespace_net_open os pid)
  namespace-Keeps_pool = namespace_net_open-Keeps os (SamePool p) (perform-Keeps_pool os p)

  pub namespace_address-Keeps_pool :
      (pid : ℕ) (device : String) (a : Ip) (mask : List ℕ)
      → Keeps (SamePool p) (link_add_address os pid device a mask)
  namespace_address-Keeps_pool = link_add_address-Keeps os (SamePool p) (perform-Keeps_pool os p)

  pub namespace_state-Keeps_pool :
      (pid : ℕ) (device : String) (up : Bool) → Keeps (SamePool p) (link_set_state os pid device up)
  namespace_state-Keeps_pool = link_set_state-Keeps os (SamePool p) (perform-Keeps_pool os p)

  pub namespace_close-Keeps_pool :
      (open_file : Option ℕ) → Keeps (SamePool p) (namespace_net_close os open_file)
  namespace_close-Keeps_pool = namespace_net_close-Keeps os (SamePool p) (perform-Keeps_pool os p)

pub ruleset net_keeps_pool = (
  os_keeps_pool, bridge-Keeps_pool, delete_bridge-Keeps_pool, attach-Keeps_pool, veth-Keeps_pool,
  move-Keeps_pool, forwarding-Keeps_pool, namespace-Keeps_pool, namespace_address-Keeps_pool,
  namespace_state-Keeps_pool, namespace_close-Keeps_pool,
)
