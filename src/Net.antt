-- ===== src/Net.antt =====
-- net.go and net_namespace.go: bridges, veth pairs, forwarding, and a silo's network namespace.
-- A netlink call and the look-ups that the code makes before it are calls of `Os`.
pub mod Devices
pub mod Keeping
use Prim.Native.String.{◌++◌ as join_text}
use colex.Base.{
  ℕ, String, Bool, true, false, Option, none, some, List, [], ◌∷◌, ◌==◌, if◌then◌else◌, length,
}
use colex.Base.Outcome.{
  Error, Exec, device_exists, short_forwarding_read, pure, raise, attempt, ◌>>=◌, ◌>>◌,
}
use colex.Base.Text.{Bytes, codes}
use colex.Ip.{Ip}
use colex.Os.{
  Os, Host, FilePath, perform, ask_bytes, interface_by_name, link_by_name, add_bridge, set_up,
  delete_link, add_address, add_veth, set_master, set_namespace, open_namespace,
  namespace_add_address, namespace_link_by_name, namespace_set_up, namespace_set_down,
  close_namespace, namespace_add_route, read_file, write_file,
}

module _ (os : Os) where
  -- `if _, err := net.InterfaceByName(name); err == nil { return ErrDeviceExists }`
  unfoldable pub must_be_absent : Option Error → Exec Host Unit
  must_be_absent none = raise device_exists
  must_be_absent (some e) = pure tt

  unfoldable pub create_net_bridge : String → Ip → List ℕ → Exec Host Unit
  create_net_bridge name ip mask = do
    found ← attempt (perform os (interface_by_name name))
    must_be_absent found
    perform os (add_bridge name)
    perform os (add_address name ip mask)
    perform os (set_up name)
    perform os (interface_by_name name)

  unfoldable pub delete_net_bridge : String → Exec Host Unit
  delete_net_bridge name = perform os (delete_link name)

  unfoldable pub attach_net_bridge : String → String → Exec Host Unit
  attach_net_bridge bridge client = do
    perform os (link_by_name bridge)
    perform os (link_by_name client)
    perform os (set_master client bridge)

  -- The names of the host's and the silo's end.
  unfoldable pub create_veth_pair : String → Exec Host (String × String)
  create_veth_pair prefix = do
    let host_end = join_text prefix "h"
    let silo_end = join_text prefix "s"
    found ← attempt (perform os (interface_by_name host_end))
    must_be_absent found
    perform os (add_veth host_end silo_end)
    perform os (set_up host_end)
    perform os (interface_by_name host_end)
    perform os (interface_by_name silo_end)
    pure (host_end, silo_end)

  unfoldable pub move_veth_to_namespace : String → ℕ → Exec Host Unit
  move_veth_to_namespace veth pid = do
    perform os (link_by_name veth)
    perform os (set_namespace veth pid)

  abbrev forwarding_file : FilePath
  forwarding_file = "/proc/sys/net/ipv4/ip_forward" ∷ []

  abbrev first_is_one : Bytes → Bool
  first_is_one [] = false
  first_is_one (b ∷ bs) = b == 49

  unfoldable pub ipv4_forwarding_enabled : Exec Host Bool
  ipv4_forwarding_enabled = do
    d ← ask_bytes os (read_file forwarding_file)
    if length d == 2 then pure (first_is_one d) else raise short_forwarding_read

  unfoldable pub ipv4_enable_forwarding : Bool → Exec Host Unit
  ipv4_enable_forwarding state =
      perform os (write_file forwarding_file (codes (if state then "1" else "0")))

  -- NamespaceNetOpen, and the methods that run inside the namespace
  unfoldable pub namespace_net_open : ℕ → Exec Host ℕ
  namespace_net_open pid = do perform os (open_namespace pid); pure pid

  unfoldable pub link_add_address : ℕ → String → Ip → List ℕ → Exec Host Unit
  link_add_address pid device ip mask = do
    perform os (namespace_link_by_name pid device)
    perform os (namespace_add_address pid device ip mask)

  unfoldable pub link_set_state : ℕ → String → Bool → Exec Host Unit
  link_set_state pid device up = do
    perform os (namespace_link_by_name pid device)
    if up
        then perform os (namespace_set_up pid device)
        else perform os (namespace_set_down pid device)

  -- A route is what netlink prints for it.
  unfoldable pub add_route : ℕ → String → Exec Host Unit
  add_route pid route = perform os (namespace_add_route pid route)

  -- Close, of a namespace whose file is open or not; afterwards it is not.
  unfoldable pub namespace_net_close : Option ℕ → Exec Host Unit
  namespace_net_close none = pure tt
  namespace_net_close (some pid) = perform os (close_namespace pid)
