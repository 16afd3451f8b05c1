-- ===== src/InitProcess.antt =====
-- controller/reexec.go: isolatedMain, the first process of a silo, with SetRootFS of fs.go and MountProc of
-- process.go. It runs in namespaces of its own, so it has its own list of system calls. Every failure ends
-- the process with status 1, where the model has an error; an unreadable invocation file is a panic.
pub mod Confinement
pub mod Waiting
pub mod Starting
use colex.Base.{
  ℕ, zero, suc, String, Bool, false, Option, none, some, List, [], ◌∷◌, ◌++◌, if◌then◌else◌,
  same_text, ltb,
}
use colex.Base.Outcome.{
  Error, Result, Exec, ok, err, panic, system, bad_invocation, wait_timed_out, pure, raise, crash,
  gets, modify, attempt, ◌>>=◌, ◌>>◌,
}
use colex.Os.{FilePath, InvocationInfo, BindMntInfo, StartupCommand}

-- A path, or path.Dir of it
pub data Place : Type 0 where
  at : FilePath → Place
  parent_of : FilePath → Place

-- The flags of a mount are part of its name: MS_BIND, with MS_REC or not, and none for the type proc.
pub data Step : Type 0 where
  read_invocation : FilePath → Step
  make_dirs stat touch : Place → Step
  mount_proc : Place → Step
  bind_mount : String → Place → Step
  bind_recursive : Place → Place → Step
  pivot_root : Place → Place → Step
  change_dir : String → Step
  detach : String → Step
  remove_tree : Place → Step
  set_hostname : String → Step
  interface_by_name addresses_of : String → Step
  pause : Step
  run_command : String → List String → Step
  run_silo : String → List String → List String → Step

-- What the kernel answers, given the newest-first list of what was called before.
pub record Kernel : Type 0 where
  pub fails : List Step → Step → Option String
  pub not_exist : String → Bool
  pub invocation : FilePath → Option InvocationInfo
  -- net.FlagUp, and the number of addresses
  pub is_up : List Step → String → Bool
  pub address_count : List Step → String → ℕ

unfoldable pub put_old_of : FilePath → FilePath
put_old_of root = root ++ ".temp_old" ∷ []

module _ (kernel : Kernel) where
  abbrev pub answer : Option String → Exec (List Step) Unit
  answer none past = (ok tt, past)
  answer (some e) past = (err (system e), past)

  unfoldable pub step : Step → Exec (List Step) Unit
  step s past = answer (kernel.fails past s) (s ∷ past)

  unfoldable pub mount_proc_at : FilePath → Exec (List Step) Unit
  mount_proc_at target = do step (make_dirs (at target)); step (mount_proc (at target))

  -- `if _, err := os.Stat(p); os.IsNotExist(err)`
  unfoldable pub if_missing : Option Error → Step → Exec (List Step) Unit
  if_missing (some (system e)) s = if kernel.not_exist e then step s else pure tt
  if_missing (some e) s = pure tt
  if_missing none s = pure tt

  unfoldable pub ensure : Place → Step → Exec (List Step) Unit
  ensure p s = do missing ← attempt (step (stat p)); if_missing missing s

  unfoldable pub setup_bind_mounts : FilePath → List BindMntInfo → Exec (List Step) Unit
  setup_bind_mounts root [] = pure tt
  setup_bind_mounts root (b ∷ rest) = do
    let mnt_path = root ++ b.silo_path ∷ []
    if b.is_file
        then (do
          ensure (parent_of mnt_path) (make_dirs (parent_of mnt_path))
          ensure (at mnt_path) (touch (at mnt_path)))
        else ensure (at mnt_path) (make_dirs (at mnt_path))
    step (bind_mount b.sys_path (at mnt_path))
    setup_bind_mounts root rest

  -- After the pivot the last call looks for the old path under the new root.
  unfoldable pub set_root_fs : FilePath → Exec (List Step) Unit
  set_root_fs root = do
    let put_old = put_old_of root
    step (bind_recursive (at root) (at root))
    step (make_dirs (at put_old))
    step (pivot_root (at root) (at put_old))
    step (change_dir "/")
    step (detach "/.temp_old")
    step (remove_tree (at put_old))

  -- One look at an interface: whether it is up and has an address
  unfoldable pub with_addresses : String → Option Error → Exec (List Step) Bool
  with_addresses name (some e) = pure false
  with_addresses name none = gets (λ past. ltb 0 (kernel.address_count past name))

  unfoldable pub look_at : String → Option Error → Exec (List Step) Bool
  look_at name (some e) = pure false
  look_at name none = do
    up ← gets (λ past. kernel.is_up past name)
    if up
        then (do failed ← attempt (step (addresses_of name)); with_addresses name failed)
        else pure false

  unfoldable pub is_ready : String → Exec (List Step) Bool
  is_ready name = do failed ← attempt (step (interface_by_name name)); look_at name failed

  unfoldable pub wait_until_up : ℕ → String → Exec (List Step) Unit
  wait_until_up zero name = raise wait_timed_out
  wait_until_up (suc rounds) name = do
    let later = wait_until_up rounds name
    ready ← is_ready name
    if ready then pure tt else (do modify (λ past. pause ∷ past); later)

  unfoldable pub run_start_commands : List StartupCommand → Exec (List Step) Unit
  run_start_commands [] = pure tt
  run_start_commands (c ∷ rest) = do
    if same_text c.wait_for_interface "" then pure tt else wait_until_up 1000 c.wait_for_interface
    step (run_command c.cmd c.args)
    run_start_commands rest

  unfoldable pub unpack : Option InvocationInfo → Exec (List Step) InvocationInfo
  unpack none = raise bad_invocation
  unpack (some info) = pure info

  unfoldable pub or_panic : Option Error → Exec (List Step) Unit
  or_panic none = pure tt
  or_panic (some e) = crash

  -- isolatedMain from the mount of /proc on
  unfoldable pub run_isolated : FilePath → InvocationInfo → Exec (List Step) Unit
  run_isolated root info = do
    mount_proc_at (root ++ "proc" ∷ [])
    setup_bind_mounts root info.binds
    set_root_fs root
    if same_text info.hostname "" then pure tt else step (set_hostname info.hostname)
    run_start_commands info.on_start_commands
    step (run_silo info.cmd info.args info.env)

  unfoldable pub isolated_main : FilePath → Exec (List Step) Unit
  isolated_main root = do
    read ← attempt (step (read_invocation (root ++ "invocation.json" ∷ [])))
    or_panic read
    info ← unpack (kernel.invocation root)
    run_isolated root info
