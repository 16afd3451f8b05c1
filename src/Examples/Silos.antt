-- ===== src/Examples/Silos.antt =====
-- The silo's and the options' theorems at one silo.
use colex.Base.{
  ◌≡◌, arith, Bool, true, false, String, Option, none, some, List, [], ◌∷◌, refl, if◌then◌else◌,
  same_text,
}
use colex.Base.Outcome.{ok, system, ◌>>=◌}
use colex.Controller.Interfaces.Unwinding.{returned_pool, setup_ip_failed-teardown_ip}
use colex.Base.Text.{decimal}
use colex.Base.Yields.{Ends}
use colex.Controller.Silo.DeviceNames.{AreShort, new_silo-AreShort}
use colex.Controller.Silo.{new_silo}
use colex.Os.{Os, Call, add_bridge, add_veth, interface_by_name, perform, ask_bytes}
use colex.Os.Called.{AreDone}
use colex.Net.{
  create_net_bridge, must_be_absent, create_veth_pair, attach_net_bridge, move_veth_to_namespace,
  namespace_net_open, link_add_address, link_set_state, namespace_net_close, delete_net_bridge,
  ipv4_forwarding_enabled,
}
use colex.Controller.Interfaces.{
  Wired, setup_ip, teardown_ip, require_forwarding, wire_devices, wire_ends, wire_namespace,
  give_back,
}
use colex.Controller.Interfaces.Wiring.{wired_calls, unwired_calls, setup_ip-teardown_ip}
use colex.Controller.Silo.Ownership.{SiloAccounts}
use colex.Controller.Silo.Lifecycle.{
  init_method, start_method, close_method, run_methods, run_methods-SiloAccounts,
}
use colex.Examples.{quiet, fresh, no_options, host, first_interface}
use colex.Examples.Addresses.{first_slice-Owns}

fresh-SiloAccounts : SiloAccounts 100 [] fresh
fresh-SiloAccounts = ([], first_slice-Owns)

run_methods-SiloAccounts_example :
    SiloAccounts 100 []
      (run_methods quiet (init_method ∷ start_method ∷ close_method ∷ close_method ∷ []) fresh)
run_methods-SiloAccounts_example =
    run_methods-SiloAccounts quiet 100 []
      (init_method ∷ start_method ∷ close_method ∷ close_method ∷ []) fresh fresh-SiloAccounts

-- A system on which a device is found once it was made.
abbrev makes : String → Call → Bool
makes name (add_bridge made) = same_text made name
makes name (add_veth one other) = if same_text one name then true else same_text other name
makes name _ = false

abbrev is_there : String → List Call → Bool
is_there name [] = false
is_there name (c ∷ calls) = if makes name c then true else is_there name calls

abbrev no_device : List Call → Call → Option String
no_device calls (interface_by_name name) =
    if is_there name calls then none else some "no such device"
no_device calls _ = none

abbrev pub with_devices : Os
with_devices = record quiet { fails = no_device }

abbrev outbound : Wired
outbound = record { interface = record first_interface { internet_access = true }; host = host }

abbrev wired : Wired
wired = (setup_ip with_devices "3938a44e" 4242 0 outbound).1

setup_ip-teardown_ip_example :
    AreDone with_devices (wired_calls 4242 wired.interface) wired.host
    × AreDone with_devices
        (unwired_calls wired.interface)
        (teardown_ip with_devices wired.interface wired.host).1
unfolding setup_ip teardown_ip require_forwarding ipv4_forwarding_enabled ask_bytes wire_devices
    wire_ends wire_namespace create_net_bridge must_be_absent create_veth_pair attach_net_bridge
    move_veth_to_namespace namespace_net_open link_add_address link_set_state namespace_net_close
    delete_net_bridge give_back perform ◌>>=◌ decimal
setup_ip-teardown_ip_example =
    setup_ip-teardown_ip with_devices "3938a44e" 4242 0 outbound refl refl

new_silo-AreShort_example :
    Ends (λ silo t. AreShort silo.id_hex 17) (λ t. Unit) (new_silo quiet "web" no_options host)
new_silo-AreShort_example = new_silo-AreShort quiet "web" no_options host 17 (omega arith)

-- A Setup that fails once the bridge is there, since the pair cannot be made
abbrev no_pair : List Call → Call → Option String
no_pair calls (add_veth one other) = some "no veth"
no_pair calls c = no_device calls c

abbrev without_veth : Os
without_veth = record quiet { fails = no_pair }

abbrev half_way : Wired
half_way = (setup_ip without_veth "3938a44e" 4242 0 outbound).1

setup_ip_failed-teardown_ip_example :
    teardown_ip without_veth half_way.interface half_way.host
    ≡ (ok tt, record half_way.host { pool = returned_pool half_way.interface half_way.host.pool })
unfolding setup_ip require_forwarding ipv4_forwarding_enabled ask_bytes wire_devices
    create_net_bridge must_be_absent create_veth_pair perform ◌>>=◌ decimal
setup_ip_failed-teardown_ip_example =
    setup_ip_failed-teardown_ip without_veth "3938a44e" 4242 0 outbound (system "no veth") refl refl
