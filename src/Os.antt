-- ===== src/Os.antt =====
-- The world outside the program: the calls that the code makes of the kernel, of netlink, iptables,
-- tar and the file system, in the order in which it makes them, and an oracle that answers them.
-- A call's answer may depend on everything that was called before. A path is the list of what the
-- code hands to path.Join.
pub mod Called
use colex.Base.{
  ℕ, String, Bool, false, Option, none, some, List, ◌∷◌, ◌==◌, if◌then◌else◌, length, ◌≡◌, arith,
}
use colex.Base.Outcome.{
  Error, Exec, ok, err, system, randomness_not_filled, pure, raise, gets, ◌>>=◌, ◌>>◌,
}
use colex.Base.Keeps.{Keeps, keeps_rules}
use colex.Base.Text.{Bytes}
use colex.Ip.{Ip}
use colex.IpPool.{IpPool}

abbrev pub FilePath : Type 0
FilePath = List String

-- StartupCommand, bindMntInfo and invocationInfo of controller/reexec.go
pub record StartupCommand : Type 0 where
  pub cmd : String
  pub args : List String
  pub wait_for_interface : String

pub record BindMntInfo : Type 0 where
  pub sys_path : String
  pub silo_path : String
  pub is_file : Bool

pub record InvocationInfo : Type 0 where
  pub id : List ℕ
  pub id_hex : String
  pub hostname : String
  pub on_start_commands : List StartupCommand
  pub binds : List BindMntInfo
  pub cmd : String
  pub args : List String
  pub env : List String

pub data Call : Type 0 where
  -- files
  mkdir mkdir_all remove_all stat getwd open_truncate : FilePath → Call
  temp_dir : String → Call
  write_file : FilePath → Bytes → Call
  write_line : FilePath → String → Call
  read_file : FilePath → Call
  write_invocation : FilePath → InvocationInfo → Call
  -- processes
  -- a command line, and what it reads
  run : List FilePath → Call
  run_on : List FilePath → Bytes → Call
  start : FilePath → Call
  kill probe wait : ℕ → Call
  -- network devices, by name
  interface_by_name link_by_name add_bridge set_up delete_link : String → Call
  add_address : String → Ip → List ℕ → Call
  add_veth set_master : String → String → Call
  set_namespace : String → ℕ → Call
  open_namespace close_namespace : ℕ → Call
  namespace_add_route : ℕ → String → Call
  namespace_add_address : ℕ → String → Ip → List ℕ → Call
  namespace_link_by_name namespace_set_up namespace_set_down : ℕ → String → Call
  new_iptables : Call
  append_rule delete_rule : List String → Call
  -- /proc, and listening sockets by their address
  read_link read_dir : FilePath → Call
  process_memory : ℕ → Call
  listen_tcp listen_udp stop_listening : String → Call
  -- randomness
  random : ℕ → Call

-- netlink.LinkStatistics, the counters that the program reads
pub record LinkStatistics : Type 0 where
  pub rx_packets : ℕ
  pub tx_packets : ℕ
  pub rx_bytes : ℕ
  pub tx_bytes : ℕ
  pub rx_errors : ℕ
  pub tx_errors : ℕ
  pub rx_dropped : ℕ
  pub tx_dropped : ℕ

abbrev pub no_statistics : LinkStatistics
no_statistics = record {
  rx_packets = 0;
  tx_packets = 0;
  rx_bytes = 0;
  tx_bytes = 0;
  rx_errors = 0;
  tx_errors = 0;
  rx_dropped = 0;
  tx_dropped = 0;
}

-- gosigar.ProcMem
pub record ProcMem : Type 0 where
  pub size : ℕ
  pub resident : ℕ
  pub share : ℕ
  pub minor_faults : ℕ
  pub major_faults : ℕ
  pub page_faults : ℕ

-- What the calls answer. Every field but `fails` gives the value of a call that does not fail.
pub record Os : Type 0 where
  pub fails : List Call → Call → Option String
  pub exists_already : String → Bool
  pub not_exist : String → Bool
  pub not_permitted : String → Bool
  pub text : List Call → Call → String
  pub bytes : List Call → Call → Bytes
  pub number : List Call → Call → ℕ
  -- the directories in a directory
  pub names : List Call → Call → List String
  -- strconv.Atoi, 0 where it fails
  pub atoi : String → ℕ
  pub statistics : List Call → String → LinkStatistics
  pub memory : List Call → ℕ → ProcMem
  pub arch : String
  -- net.IP.String of an address that is not IPv4
  pub long_ip_text : Ip → String

-- The state that all components of one host share. The newest call stands first.
pub record Host : Type 0 where
  pub pool : IpPool
  pub calls : List Call

module _ (os : Os) where
  abbrev pub answered : Option String → Exec Host Unit
  answered none h = (ok tt, h)
  answered (some e) h = (err (system e), h)

  abbrev pub is_not_exist : Error → Bool
  is_not_exist (system e) = os.not_exist e
  is_not_exist _ = false

  -- Make a call whose result is an error or nothing.
  unfoldable pub perform : Call → Exec Host Unit
  perform c h = answered (os.fails h.calls c) (record h { calls = c ∷ h.calls })

  unfoldable pub ask_text : Call → Exec Host String
  ask_text c = do before ← gets (λ h. h.calls); perform c; gets (λ h. os.text before c)

  unfoldable pub ask_bytes : Call → Exec Host Bytes
  ask_bytes c = do before ← gets (λ h. h.calls); perform c; gets (λ h. os.bytes before c)

  unfoldable pub ask_number : Call → Exec Host ℕ
  ask_number c = do before ← gets (λ h. h.calls); perform c; gets (λ h. os.number before c)

module _ (os : Os) where
  -- util.RandBytes
  unfoldable pub rand_bytes : ℕ → Exec Host Bytes
  rand_bytes count = do
    buffer ← ask_bytes os (random count)
    if length buffer == count then pure buffer else raise randomness_not_filled

-- The address pool is not touched by any call of the system.
abbrev pub SamePool : IpPool → Host → Type 0
SamePool p h = h.pool ≡ p

module _ (os : Os) (p : IpPool) where
  pub perform-Keeps_pool : (c : Call) → Keeps (SamePool p) (perform os c)
  unfolding perform
  perform-Keeps_pool c = record { at = λ h e. ground arith }

  pub ask_text-Keeps_pool : (c : Call) → Keeps (SamePool p) (ask_text os c)
  unfolding ask_text
  ask_text-Keeps_pool c = search (keeps_rules, perform-Keeps_pool)

  pub ask_bytes-Keeps_pool : (c : Call) → Keeps (SamePool p) (ask_bytes os c)
  unfolding ask_bytes
  ask_bytes-Keeps_pool c = search (keeps_rules, perform-Keeps_pool)

  pub ask_number-Keeps_pool : (c : Call) → Keeps (SamePool p) (ask_number os c)
  unfolding ask_number
  ask_number-Keeps_pool c = search (keeps_rules, perform-Keeps_pool)

  pub rand_bytes-Keeps_pool : (count : ℕ) → Keeps (SamePool p) (rand_bytes os count)
  unfolding rand_bytes
  rand_bytes-Keeps_pool count = search (keeps_rules, ask_bytes-Keeps_pool)

pub ruleset os_keeps_pool = (
  rand_bytes-Keeps_pool, keeps_rules, perform-Keeps_pool, ask_text-Keeps_pool, ask_bytes-Keeps_pool,
  ask_number-Keeps_pool,
)
