-- ===== src/Examples/Lifetime.antt =====
-- One daemon from NewServer to Close.
use colex.Base.{◌<◌, ◌+◌, ◌^◌, true, false, none, some, List, [], ◌∷◌, ◌++◌, ◌≡◌, refl, arith}
use colex.Base.Int.{pos}
use mathlib.Core.List.{Nodup}
use colex.IpPool.{new_ip_pool}
use colex.Os.{read_file, ask_bytes, perform}
use colex.Net.{ipv4_forwarding_enabled}
use colex.Metadata.{new_metadata_service}
use colex.Wire.{SiloConf, up_packet, list_request, ListPacket}
use colex.Server.Claims.{all_claims}
use colex.Server.Stopping.{ServerAccounts}
use colex.Server.Silos.{start_silo_internal, stop_silo_internal}
use colex.Base.Yields.{Ends}
use colex.Examples.{setup_silo}
use colex.Controller.Types.{running}
use colex.Server.Requests.Listing.{listed_as, known_as, list_silos_handler-known_as}
use colex.Config.Defaults.{IsValid}
use colex.Server.Launch.{Files, start_daemon, start_daemon-IsValid}
use colex.Server.Registry.{
  registry, Knows, MayHaveAdded, add_name, drop_name, start_silo_internal-registry,
}
use colex.Server.Registry.Stopping.{stop_silo_internal-registry}
use colex.Server.Starting.{start_silo_internal-ServerAccounts}
use colex.Server.Requests.{Request, serve_http, list_silos_handler}
use colex.Server.Requests.Keeping.{serve_http-ServerAccounts}
use colex.Examples.Addresses.{address-IsBytes}
use colex.Base.Map.{lookup}
use colex.Base.Outcome.{Result, ok, ◌>>=◌}
use colex.Ip.Bump.{value}
use colex.Wire.{down_packet}
use colex.Config.{Config, key_source_ephemeral, auth_mode_open, from_flags}
use colex.Server.{Server, Env, Reply, list_response}
use colex.Server.Lifetime.{
  Startup, Action, request, silo_ended, interrupt, new_server, run_actions, close_server, set_up,
  make_tls_config, enable_enrollment, network_setup,
}
use colex.Server.Lifetime.Addresses.{run_actions-Nodup, spent}
use colex.Server.Lifetime.Ending.{close_server_empties}
use colex.Examples.{address, subnet, pool_at}
use colex.Examples.Silos.{with_devices}
use colex.Examples.Requests.{env, server, web-ServerAccounts}
use colex.Examples.Enrolment.{config}

abbrev start : Startup
start = record {
  parse_cidr = λ a. ok (address 0, subnet);
  key_pair_ok = λ a b. true;
  mint_error = none;
}

abbrev settings : Config
settings = record config { key_source = key_source_ephemeral; mode = auth_mode_open }

abbrev opened : Server
opened = record {
  config = settings;
  host = record {
    pool = pool_at 0 [];
    calls = read_file ("/proc/sys/net/ipv4/ip_forward" ∷ []) ∷ [];
  };
  metadata = new_metadata_service;
  silos = [];
  closing = false;
  blind_enrollment_deadline = pos 0;
  blind_enrollment_key = "";
  certs = [];
}

made : new_server env start (pos 5) settings [] [] ≡ ok opened
unfolding new_server new_ip_pool set_up make_tls_config enable_enrollment network_setup
    ipv4_forwarding_enabled ask_bytes perform ◌>>=◌ from_flags
made = refl

-- A silo of no base, whose address may reach the network.
abbrev pub asked : SiloConf
asked = record {
  name = "web";
  class = "";
  tags = [];
  base = "img://busybox";
  network = record { internet_access = true; nameservers = []; hosts = none };
  binary = record { path = "/bin/sh"; env = []; args = [] };
  resources = record { cpu_percent = 0; max_memory_bytes = 0 };
  grant = [];
  files = [];
  file_balls = [];
  binds = [];
}

abbrev up_request : Request
up_request = record {
  path = "/up";
  peers = none;
  payload = up_packet (record { silo_conf = some asked; files = [] });
  key = "";
  name = "";
}

abbrev history : List Action
history =
    request (pos 7) up_request
    ∷ silo_ended (pos 8) "web" "00000000"
    ∷ request (pos 9) (record up_request {
      payload = down_packet (record { silo_name = "web"; silo_id = "" });
      path = "/down";
    })
    ∷ request (pos 10) up_request
    ∷ interrupt (pos 11)
    ∷ []

room : value (address 0) + spent history 0 < 256 ^ 16
unfolding value spent
room = omega arith

run_actions-Nodup_example : Nodup (
    (run_actions env history opened).host.pool.free
    ++ all_claims (run_actions env history opened).silos)
run_actions-Nodup_example =
    run_actions-Nodup env start (pos 5) settings [] [] history (address 0) subnet opened refl
      (address-IsBytes 0 (omega arith)) room made

start_silo_internal-ServerAccounts_example :
    ServerAccounts 96 (start_silo_internal env (pos 7) asked [] server).1
start_silo_internal-ServerAccounts_example =
    start_silo_internal-ServerAccounts env 96 (pos 7) asked [] server web-ServerAccounts

serve_http-ServerAccounts_example : ServerAccounts 96 (serve_http env (pos 7) up_request server).1
serve_http-ServerAccounts_example =
    serve_http-ServerAccounts env 96 (pos 7) up_request server web-ServerAccounts

abbrev closed : Server
closed = (close_server env (pos 11) server).1

closes : close_server env (pos 11) server ≡ (ok tt, closed)
unfolding close_server colex.Metadata.close_metadata colex.Metadata.stop_all_listeners ◌>>=◌
    colex.Server.Lifetime.stop_all colex.Server.Silos.stop_silo_internal
    colex.Server.Silos.stop_found lookup colex.Metadata.host_event colex.Server.Silos.close_stored
    colex.Controller.Silo.Ending.close colex.Controller.Silo.Ending.delete_root
closes = refl

close_server_empties_example : lookup "web" closed.silos ≡ none
close_server_empties_example = close_server_empties env (pos 11) server closed "web" closes

-- the host where a device is there once it was made, so that the silo starts
abbrev devices_env : Env
devices_env = record env { os = with_devices }

start_silo_internal-registry_example :
    Ends
      (λ _. Knows (add_name "web" (registry opened)))
      (MayHaveAdded devices_env "web" (registry opened))
      (start_silo_internal devices_env (pos 7) asked [] opened)
start_silo_internal-registry_example =
    start_silo_internal-registry devices_env (pos 7) asked [] opened

stop_silo_internal-registry_example :
    Ends
      (λ _. Knows (drop_name "web" (registry server)))
      (Knows (registry server))
      (stop_silo_internal env (pos 9) "web" server)
stop_silo_internal-registry_example = stop_silo_internal-registry env (pos 9) "web" server

-- LIST on a server whose silo runs
abbrev busy : Server
busy = record server {
  silos =
      (
        "web",
        record setup_silo {
          state = running;
          child = some (record {
            user_namespace = false;
            uid_mappings = [];
            gid_mappings = [];
            process = some 4242;
          });
        },
      )
      ∷ [];
}

abbrev listed : Result Reply × Server
listed = list_silos_handler env list_request busy

abbrev packet_of : Result Reply → ListPacket
packet_of (ok (list_response p)) = p
packet_of _ = record { name = ""; matches = [] }

listing :
    list_silos_handler env list_request busy ≡ (ok (list_response (packet_of listed.0)), listed.1)
unfolding list_silos_handler colex.Server.Requests.list_rows ◌>>=◌ colex.Processes.mem_stats
    colex.Processes.memory_of colex.Processes.find_processes_in_namespace colex.Os.ask_text perform
    colex.Processes.collect colex.Processes.sum_memory colex.Metadata.describe_interfaces
    colex.Metadata.describe_all colex.Controller.Interfaces.info colex.Metadata.describe
listing = refl

list_silos_handler-known_as_example :
    (listed_as (packet_of listed.0).matches ≡ known_as busy.silos) × (listed.1.silos ≡ busy.silos)
list_silos_handler-known_as_example =
    list_silos_handler-known_as env busy listed.1 (packet_of listed.0) listing

abbrev files : Files
files = record { decode = λ path. ok settings; certs_file_error = λ path. none }

abbrev flagged : Server
flagged = record opened { config = from_flags "0.0.0.0:8080" "10.21.0.1/24" }

launched : start_daemon env start files (pos 5) [] [] "0.0.0.0:8080" "10.21.0.1/24" [] ≡ ok flagged
unfolding start_daemon colex.Server.Launch.config_for colex.Config.validate_config from_flags
    new_server new_ip_pool set_up ◌>>=◌ make_tls_config enable_enrollment network_setup
    ipv4_forwarding_enabled ask_bytes perform
launched = refl

start_daemon-IsValid_example : IsValid start.key_pair_ok files.certs_file_error flagged.config
start_daemon-IsValid_example =
    start_daemon-IsValid env start files (pos 5) [] [] "0.0.0.0:8080" "10.21.0.1/24" [] flagged
      launched
