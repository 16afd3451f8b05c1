-- ===== src/Programs/MainProgram.antt =====
-- colex-main/main.go: one silo with a BusyBox root.
use colex.Base.{String, ℕ, Bool, true, false, none, List, [], ◌∷◌, if◌then◌else◌, ◌++◌}
use colex.Base.Outcome.{
  Result, Exec, ok, err, panic, pure, lift, modify, attempt, deferring, within, ◌>>=◌, ◌>>◌,
}
use colex.IpPool.{IpInterface, new_ip_pool, ip_interface}
use colex.Os.{Os, Host}
use colex.Net.{ipv4_forwarding_enabled, ipv4_enable_forwarding}
use colex.Controller.Types.{Options, Silo, Ctx, ip, loopback, busybox}
use colex.Controller.Options.{finalize, add_fs}
use colex.Controller.Silo.{new_silo, init}
use colex.Controller.Silo.Starting.{start_silo}
use colex.Controller.Silo.Ending.{close, wait_silo}
use colex.Programs.{Standard}

pub record MainFlags : Type 0 where
  pub cmd : String
  pub ip_net : String
  pub internet_access : Bool
  -- what is left of the command line
  pub args : List String

-- controller.Options with the fields that main sets
unfoldable pub builder : MainFlags → Options
builder flags = record {
  class = "test";
  tags = [];
  grant = [];
  bases = [];
  root = "";
  make_from_folder = "";
  account_mappers = [];
  disable_acct_namespace = false;
  hostname = "";
  interfaces = [];
  nameservers = [];
  host_map = none;
  cpu_share_percent = 0;
  max_memory_bytes = 0;
  cmd = flags.cmd;
  args = flags.args;
  env = [];
}

-- The options once the network is known
unfoldable pub options_for : MainFlags → IpInterface → Options
options_for flags network =
    let based = add_fs (busybox []) (builder flags) in
    record based {
      interfaces =
          based.interfaces
          ++ ip (record network { internet_access = flags.internet_access }) ∷ loopback ∷ [];
    }

module _ (os : Os) where
  unfoldable pub ensure_forwarding : Bool → Exec Host Unit
  ensure_forwarding false = pure tt
  ensure_forwarding true = do
    enabled ← ipv4_forwarding_enabled os
    if enabled then pure tt else ipv4_enable_forwarding os true

  -- After NewSilo. Where Init fails log.Fatalf ends the program, so Close is not called.
  unfoldable pub run_to_end : Exec Ctx Unit
  run_to_end = do
    init os
    attempt (start_silo os)
    deferring (close os) (do attempt (wait_silo os); pure tt)

  abbrev leave : Result {0} Unit × Ctx → Result {0} Silo × Host
  leave (ok u, c) = (ok c.silo, c.host)
  leave (err e, c) = (err e, c.host)
  leave (panic, c) = (panic, c.host)

  unfoldable pub as_ctx : Silo → Exec Host Silo
  as_ctx silo h = leave (run_to_end (record { silo = silo; host = h }))

  -- `uid` and `gid` are os.Getuid and os.Getgid. The silo is returned as it is in the end.
  unfoldable pub colex_main : Standard → MainFlags → ℕ → ℕ → Exec Host Silo
  colex_main standard flags uid gid = do
    ensure_forwarding flags.internet_access
    pool ← lift (new_ip_pool standard.parse_cidr flags.ip_net)
    modify (λ (h : Host). record h { pool = pool })
    network ← within (λ (h : Host). h.pool) (λ p h. record h { pool = p }) ip_interface
    silo ← new_silo os "test" (finalize uid gid (options_for flags network))
    as_ctx silo
