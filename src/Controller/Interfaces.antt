-- ===== src/Controller/Interfaces.antt =====
-- controller/interfaces.go.
pub mod Ownership
pub mod Calls
pub mod Naming
pub mod Unwinding
pub mod Wiring
use Prim.Native.String.{◌++◌ as join_text}
use colex.Base.{
  ℕ, String, Bool, true, false, Option, none, some, List, [], ◌∷◌, ◌++◌, if◌then◌else◌, same_text,
}
use colex.Base.Outcome.{
  Exec, forwarding_disabled, pure, raise, gets, modify, deferring, within, ◌>>=◌, ◌>>◌,
}
use colex.Base.Text.{decimal, dotted}
use colex.Ip.{Ip, to4}
use colex.IpPool.{IpPool, IpInterface, free_assignment}
use colex.Os.{Os, Host, Call, StartupCommand, perform, new_iptables, append_rule, delete_rule}
use colex.Net.{
  create_net_bridge, delete_net_bridge, attach_net_bridge, create_veth_pair, move_veth_to_namespace,
  ipv4_forwarding_enabled, namespace_net_open, link_add_address, link_set_state,
  namespace_net_close,
}
use colex.Controller.Types.{Interf, loopback, ip, InterfaceInfo}

-- An interface while a method of it runs.
pub record Wired : Type 0 where
  pub interface : IpInterface
  pub host : Host

abbrev on_host : {A : Type 0} → Exec Host A → Exec Wired A
on_host = within (λ (w : Wired). w.host) (λ h w. record w { host = h })

abbrev update : (IpInterface → IpInterface) → Exec Wired Unit
update f = modify (λ (w : Wired). record w { interface = f w.interface })

-- fmt.Sprintf("b%d-%s", index, id)
abbrev pub device_name : String → ℕ → String → String
device_name letter index id_hex =
    join_text letter (join_text (decimal index) (join_text "-" id_hex))

-- the arguments of the rule that lets a silo out
abbrev pub masquerade_rule : String → List String
masquerade_rule veth =
    "nat" ∷ "POSTROUTING" ∷ "-m" ∷ "physdev" ∷ "--physdev-in" ∷ veth ∷ "-j" ∷ "MASQUERADE" ∷ []

module _ (os : Os) where
  -- net.IP.String
  unfoldable pub ip_text : Ip → String
  ip_text a = elim (to4 a) [ none ↦ os.long_ip_text a | some short ↦ dotted short ]

  unfoldable pub info : Interf → List InterfaceInfo
  unfolding ip_text
  info loopback = record { address = "127.0.0.1"; name = "lo"; kind = "loopback" } ∷ []
  info (ip i) =
      record { address = ip_text i.bridge_ip; name = i.bridge_name; kind = "bridge" }
      ∷ record { address = ""; name = i.host_veth; kind = "host-veth" }
      ∷ record { address = ip_text i.silo_ip; name = i.silo_veth; kind = "silo-veth" }
      ∷ []

  unfoldable pub silo_setup : Interf → String → ℕ → List StartupCommand
  unfolding ip_text
  silo_setup loopback id_hex index =
      record {
        cmd = "/bin/ifconfig";
        args = "lo" ∷ "127.0.0.1" ∷ "netmask" ∷ "255.0.0.0" ∷ "up" ∷ [];
        wait_for_interface = "";
      }
      ∷ []
  silo_setup (ip i) id_hex index =
      if i.internet_access
      then record {
        cmd = "/bin/route";
        args = "add" ∷ "default" ∷ "gw" ∷ ip_text i.bridge_ip ∷ [];
        wait_for_interface = join_text (device_name "v" index id_hex) "s";
      }
        ∷ []
      else []

  unfoldable pub require_forwarding : Bool → Exec Host Unit
  require_forwarding false = pure tt
  require_forwarding true = do
    enabled ← ipv4_forwarding_enabled os
    if enabled then pure tt else raise forwarding_disabled

  -- What Setup does in the namespace, and then the rule that lets the silo out.
  unfoldable pub wire_namespace : IpInterface → String → ℕ → Exec Host Unit
  wire_namespace i silo_veth ns = deferring (namespace_net_close os (some ns)) (do
    link_add_address os ns silo_veth i.silo_ip i.silo_mask
    link_set_state os ns silo_veth true
    perform os new_iptables
    if i.internet_access then perform os (append_rule (masquerade_rule i.host_veth)) else pure tt)

  -- The host's end on the bridge, and the silo's end in the namespace of the silo.
  unfoldable pub wire_ends : IpInterface → ℕ → String → String × String → Exec Host Unit
  wire_ends i pid silo_veth (host_dev, silo_dev) = do
    attach_net_bridge os i.bridge_name host_dev
    move_veth_to_namespace os silo_dev pid
    ns ← namespace_net_open os pid
    wire_namespace i silo_veth ns

  unfoldable pub wire_devices : IpInterface → String → ℕ → String → Exec Host Unit
  wire_devices i prefix pid silo_veth = do
    create_net_bridge os i.bridge_name i.bridge_ip i.bridge_mask
    ends ← create_veth_pair os prefix
    wire_ends i pid silo_veth ends

  -- Setup, for the silo `id_hex` whose first process is `pid`
  unfoldable pub setup_ip : String → ℕ → ℕ → Exec Wired Unit
  setup_ip id_hex pid index = do
    wants ← gets (λ (w : Wired). w.interface.internet_access)
    on_host (require_forwarding wants)
    update (λ i. record i {
      bridge_name = device_name "b" index id_hex;
      host_veth = join_text (device_name "v" index id_hex) "h";
      silo_veth = join_text (device_name "v" index id_hex) "s";
    })
    named ← gets (λ (w : Wired). w.interface)
    on_host (wire_devices named (device_name "v" index id_hex) pid named.silo_veth)
    update (λ i. record i { is_setup = true })

  -- i.Freeer.FreeAssignment(i.Slice), if Freeer is set
  unfoldable pub give_back : IpInterface → Exec Host Unit
  give_back i =
      if i.freeer
      then modify (λ (h : Host). record h { pool = free_assignment i.slice h.pool })
      else pure tt

  unfoldable pub teardown_ip : IpInterface → Exec Host Unit
  teardown_ip i =
      if i.is_setup
      then (do
        if i.internet_access
            then perform os (delete_rule (masquerade_rule i.host_veth))
            else pure tt
        if same_text i.bridge_name "" then pure tt else delete_net_bridge os i.bridge_name
        give_back i)
      else give_back i
