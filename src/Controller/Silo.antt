-- ===== src/Controller/Silo.antt =====
-- controller/controller.go: a silo from NewSilo to Close. A silo's lock makes Init, Start and Wait
-- one step each; the server calls Close while it holds its own lock.
pub mod Starting
pub mod Ending
pub mod Lifecycle
pub mod Ownership
pub mod Launching
pub mod DeviceNames
pub mod Fresh
pub mod Closing
use Prim.Native.String.{◌++◌ as join_text}
use colex.Base.{
  ℕ, suc, ◌*◌, ◌%◌, ◌^◌, String, Bool, true, false, ◌&&◌, ◌||◌, not, Option, none, some, List, [],
  ◌∷◌, ◌++◌, map, if◌then◌else◌, ltb, length, ◌==◌, same_text,
}
use colex.Base.Map.{Map}
use colex.Base.Outcome.{
  Error, Result, Exec, ok, err, system, already_running, not_running, not_pending, root_and_folder,
  pure, raise, crash, gets, modify, within, attempt, continue, on_error, ◌>>=◌, ◌>>◌,
}
use colex.Base.Text.{hex}
use colex.IpPool.{IpInterface}
use colex.Os.{
  Os, Host, Call, FilePath, StartupCommand, InvocationInfo, perform, ask_text, ask_bytes,
  ask_number, rand_bytes, mkdir, temp_dir, open_truncate, write_line, write_invocation, start,
  probe, kill, wait, remove_all,
}
use colex.CGroups.{CgroupConfig, CgroupSet, new_cgroup_set, close_cgroup_set}
use colex.Controller.Types.{
  SiloState, setup, internal_error, pending, running, finished, Silo, Options, Ctx, Child, Base,
  Interf, loopback, ip, IdMap, AccountMapping,
}
use colex.Controller.Bases.{on_host, setup_bases, teardown_base}
use colex.Controller.Interfaces.{Wired, silo_setup, setup_ip, teardown_ip}

abbrev pub is_setup : SiloState → Bool
is_setup setup = true
is_setup _ = false

abbrev pub is_pending : SiloState → Bool
is_pending pending = true
is_pending _ = false

abbrev pub is_running : SiloState → Bool
is_running running = true
is_running _ = false

abbrev host_entries : Option (Map String) → Map String
host_entries none = []
host_entries (some m) = m

-- The limits that NewSilo derives: 50 ms periods, and 500 microseconds for each percent, as int64.
unfoldable pub cgroup_config_of : ℕ → ℕ → Option CgroupConfig
cgroup_config_of cpu_percent max_memory =
    if ltb 0 cpu_percent || ltb 0 max_memory
    then some (record {
      cpu_time_between_periods_us = if ltb 0 cpu_percent then 50000 else 0;
      cpu_time_per_period_us = if ltb 0 cpu_percent then 500 * cpu_percent % 2 ^ 64 else 0;
      memory_max_bytes = max_memory;
    })
    else none

abbrev silo_of : String → List ℕ → FilePath → Bool → Options → Silo
silo_of name id root delete_root o = record {
  id = id;
  id_hex = hex id;
  state = setup;
  root = root;
  child = none;
  class = o.class;
  tags = o.tags;
  name = name;
  grant = o.grant;
  cmd = o.cmd;
  args = o.args;
  env = o.env;
  hostname = if same_text o.hostname "" then hex id else o.hostname;
  interfaces = o.interfaces;
  nameservers = o.nameservers;
  host_map = host_entries o.host_map;
  cgroup_config = cgroup_config_of o.cpu_share_percent o.max_memory_bytes;
  cgroup_set = none;
  bases = o.bases;
  user_mappings = o.account_mappers;
  binds = [];
  should_delete_root = delete_root;
}

abbrev path_of : String → FilePath
path_of text = if same_text text "" then [] else text ∷ []

abbrev pub set_state : SiloState → Exec Ctx Unit
set_state st = modify (λ (c : Ctx). record c { silo = record c.silo { state = st } })

module _ (os : Os) where
  -- NewSilo. The source tests the old `err` after Mkdir, so a failing Mkdir goes unnoticed.
  unfoldable pub new_silo : String → Options → Exec Host Silo
  new_silo name o = do
    id ← rand_bytes os 4
    if same_text o.make_from_folder ""
        then pure (silo_of name id (path_of o.root) false o)
        else if not (same_text o.root "")
        then raise root_and_folder
        else (do
          let root : FilePath = o.make_from_folder ∷ join_text "s" (hex id) ∷ []
          attempt (perform os (mkdir root))
          pure (silo_of name id root true o))

  -- `if s.Root == ""`: a temporary folder
  unfoldable pub ensure_root : FilePath → Exec Ctx Unit
  ensure_root [] = do
    id_hex ← gets (λ (c : Ctx). c.silo.id_hex)
    made ← on_host (ask_text os (temp_dir (join_text "s" id_hex)))
    modify (λ (c : Ctx). record c {
      silo = record c.silo { root = made ∷ []; should_delete_root = true };
    })
  ensure_root (dir ∷ rest) = pure tt

  -- The writes' own errors are dropped.
  unfoldable pub write_lines : FilePath → List String → Exec Ctx Unit
  write_lines path [] = pure tt
  write_lines path (l ∷ ls) = do
    attempt (on_host (perform os (write_line path l)))
    write_lines path ls

  unfoldable pub nameserver_lines : List String → List String
  nameserver_lines = map (λ s. join_text "nameserver " (join_text s "\n"))

  unfoldable pub host_lines : Map String → List String
  host_lines = map (λ (host, addr). join_text addr (join_text " " (join_text host "\n")))

  unfoldable pub startup_commands : String → ℕ → List Interf → List StartupCommand
  unfolding silo_setup
  startup_commands id_hex index [] = []
  startup_commands id_hex index (i ∷ rest) =
      silo_setup os i id_hex index ++ startup_commands id_hex (suc index) rest

  -- writeInvocationInfo of reexec.go
  unfoldable pub invocation_of : Silo → InvocationInfo
  unfolding startup_commands
  invocation_of s = record {
    id = s.id;
    id_hex = s.id_hex;
    hostname = s.hostname;
    on_start_commands = startup_commands s.id_hex 0 s.interfaces;
    binds = s.binds;
    cmd = s.cmd;
    args = s.args;
    env = s.env;
  }

  -- The loops of userMaps and groupMaps; a literal mapping has no error.
  unfoldable pub uid_maps : List AccountMapping → List IdMap
  uid_maps [] = []
  uid_maps (m ∷ ms) = m.uid_mappings ++ uid_maps ms

  unfoldable pub gid_maps : List AccountMapping → List IdMap
  gid_maps [] = []
  gid_maps (m ∷ ms) = m.gid_mappings ++ gid_maps ms

  unfoldable pub child_of : List AccountMapping → Child
  unfolding uid_maps gid_maps
  child_of [] = record {
    user_namespace = false;
    uid_mappings = [];
    gid_mappings = [];
    process = none;
  }
  child_of (m ∷ ms) = record {
    user_namespace = true;
    uid_mappings = uid_maps (m ∷ ms);
    gid_mappings = gid_maps (m ∷ ms);
    process = none;
  }

  unfoldable pub fail_setup : Ctx → Ctx
  fail_setup c = record c { silo = record c.silo { state = internal_error } }

  -- resolv.conf, /etc/hosts and the invocation file; only the last one's failure changes the state
  unfoldable pub write_files : Silo → Exec Ctx Unit
  write_files s = do
    let resolv : FilePath = s.root ++ "etc" ∷ "resolv.conf" ∷ []
    on_host (perform os (open_truncate resolv))
    write_lines resolv (nameserver_lines s.nameservers)
    let hosts : FilePath = s.root ++ "etc" ∷ "hosts" ∷ []
    on_host (perform os (open_truncate hosts))
    write_lines hosts (host_lines s.host_map)
    on_error
        (on_host
          (perform os (write_invocation (s.root ++ "invocation.json" ∷ []) (invocation_of s))))
        fail_setup

  unfoldable pub become_pending : List AccountMapping → Exec Ctx Unit
  become_pending mappings = modify (λ (c : Ctx). record c {
    silo = record c.silo { child = some (child_of mappings); state = pending };
  })

  -- Init, once the state is known to be Setup
  unfoldable pub prepare : Exec Ctx Unit
  prepare = do
    before ← gets (λ (c : Ctx). c.silo.root)
    ensure_root before
    bases ← gets (λ (c : Ctx). c.silo.bases)
    on_error (setup_bases os [] bases) fail_setup
    s ← gets (λ (c : Ctx). c.silo)
    write_files s
    become_pending s.user_mappings

  unfoldable pub init : Exec Ctx Unit
  init c = if is_setup c.silo.state then prepare c else raise already_running c
