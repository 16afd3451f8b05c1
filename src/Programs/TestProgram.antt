-- ===== src/Programs/TestProgram.antt =====
-- colex-test/main.go: one program in namespaces of its own, with a bridge to it.
pub mod Cleaning
pub mod Isolation
use colex.Base.{String, ℕ, Bool, true, Option, ◌++◌, none, some, List, [], ◌∷◌, if◌then◌else◌}
use colex.Base.Outcome.{Error, Exec, pure, raise, lift, attempt, deferring, ◌>>=◌, ◌>>◌}
use colex.Ip.{Ip}
use colex.Os.{
  Os, Host, FilePath, perform, ask_text, ask_number, temp_dir, run, remove_all, start, wait,
}
use colex.Net.{
  create_net_bridge, delete_net_bridge, attach_net_bridge, create_veth_pair, move_veth_to_namespace,
  namespace_net_open, link_add_address, link_set_state, namespace_net_close,
}
use colex.InitProcess.{Kernel, Step, step, mount_proc_at, set_root_fs, set_hostname, run_silo}
use colex.Programs.{Standard}

-- os.Args[1] to os.Args[4] of the isolated process
pub record IsolatedArgs : Type 0 where
  pub root_fs : FilePath
  pub cmd : String
  pub env_list : String
  pub hostname : String

module _ (kernel : Kernel) (standard : Standard) where
  unfoldable pub isolated_test_main : IsolatedArgs → Exec (List Step) Unit
  isolated_test_main args = do
    mount_proc_at kernel (args.root_fs ++ "proc" ∷ [])
    set_root_fs kernel args.root_fs
    step kernel (set_hostname args.hostname)
    step kernel (run_silo args.cmd [] (standard.split_commas args.env_list))

-- The flags
pub record TestFlags : Type 0 where
  pub cmd : String
  pub env_list : String
  pub root_fs : String
  pub hostname : String
  pub make_baseline : Bool
  pub enable_net : Bool
  pub bridge_name : String
  pub veth_name : String
  pub bridge_addr : String
  pub silo_addr : String

module _ (os : Os) where
  -- `if err := untarCmd.Run(); err != nil`
  unfoldable pub or_remove : String → Option Error → Exec Host String
  or_remove dir none = pure dir
  or_remove dir (some e) = do attempt (perform os (remove_all (dir ∷ []))); raise e

  unfoldable pub make_baseline_env : Exec Host String
  make_baseline_env = do
    dir ← ask_text os (temp_dir "colex_exec_root")
    failed ← attempt (
        perform os (
          run (("tar" ∷ []) ∷ ("-C" ∷ []) ∷ (dir ∷ []) ∷ ("-xf" ∷ []) ∷ ("busybox.tar" ∷ []) ∷ [])))
    or_remove dir failed

  unfoldable pub cleanup : TestFlags → String → Exec Host Unit
  cleanup flags root_fs =
      if flags.make_baseline then perform os (remove_all (root_fs ∷ [])) else pure tt

  -- The error of cmd.Wait is only printed.
  unfoldable pub wait_for : ℕ → Exec Host Unit
  wait_for pid = do attempt (perform os (wait pid)); pure tt

  -- In the namespace of the process. The source defers Close and calls it itself where all went well, so the
  -- namespace is closed here in either case; the deferred call then finds no file.
  unfoldable pub join_namespace : Ip → List ℕ → String → ℕ → Exec Host Unit
  join_namespace silo_ip silo_mask device ns =
      deferring (namespace_net_close os (some ns))
        (do link_add_address os ns device silo_ip silo_mask; link_set_state os ns device true)

  unfoldable pub join_ends : TestFlags → Ip → List ℕ → ℕ → String × String → Exec Host Unit
  join_ends flags silo_ip silo_mask pid (host_veth, silo_veth) = do
    attach_net_bridge os flags.bridge_name host_veth
    move_veth_to_namespace os silo_veth pid
    ns ← namespace_net_open os pid
    join_namespace silo_ip silo_mask silo_veth ns
    deferring (namespace_net_close os none) (wait_for pid)

  -- From CreateNetBridge on, where it succeeds
  unfoldable pub with_bridge : TestFlags → Ip → List ℕ → ℕ → Exec Host Unit
  with_bridge flags silo_ip silo_mask pid =
      deferring (delete_net_bridge os flags.bridge_name)
        (do ends ← create_veth_pair os flags.veth_name; join_ends flags silo_ip silo_mask pid ends)

  unfoldable pub run_program : TestFlags → Ip → List ℕ → Ip → List ℕ → String → Exec Host Unit
  run_program flags bridge_ip bridge_mask silo_ip silo_mask root_fs = do
    pid ←
        ask_number os
          (start ("isolatedMain" ∷ root_fs ∷ flags.cmd ∷ flags.env_list ∷ flags.hostname ∷ []))
    if flags.enable_net
        then (do
          create_net_bridge os flags.bridge_name bridge_ip bridge_mask
          with_bridge flags silo_ip silo_mask pid)
        else wait_for pid

  unfoldable pub test_root : Standard → TestFlags → Exec Host String
  test_root standard flags =
      if flags.make_baseline then make_baseline_env else lift (standard.abs flags.root_fs)

  -- An error before the deferred cleanup is log.Fatalf's; each later one is printed by a main that returns, so the
  -- deferred calls run.
  unfoldable pub test_main : Standard → TestFlags → Exec Host Unit
  test_main standard flags = do
    bridge ← lift (standard.parse_cidr flags.bridge_addr)
    silo ← lift (standard.parse_cidr flags.silo_addr)
    root_fs ← test_root standard flags
    deferring (cleanup flags root_fs)
        (run_program flags bridge.0 (bridge.1).mask silo.0 (silo.1).mask root_fs)
