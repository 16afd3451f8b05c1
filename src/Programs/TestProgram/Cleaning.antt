-- ===== src/Programs/TestProgram/Cleaning.antt =====
-- colex-test/main.go: what it takes down again, however it ends.
use colex.Base.{
  ℕ, String, Bool, true, false, Option, none, some, List, [], ◌∷◌, ◌≡◌, refl, sym, subst,
  if◌then◌else◌,
}
use colex.Base.Keeps.{Leads, Leads-attempt, Leads-deferring}
use colex.Base.Outcome.{
  Error, Result, Exec, ok, err, panic, attempt, lift, deferring, continue, ◌>>=◌,
}
use colex.Base.Yields.{
  Yields, Yields-bind, Yields-known, Yields-pure, Yields→Keeps, Yields-raise, Leads→Yields,
}
use colex.Ip.{Ip, IpNet}
use colex.Os.{
  Os, Host, Call, perform, ask_text, ask_number, temp_dir, remove_all, start, delete_link,
}
use colex.Os.Called.{IsCalled, Anything, perform-Leads-IsCalled, attempt-perform}
use colex.Net.{create_net_bridge, delete_net_bridge}
use colex.Programs.{Standard}
use colex.Programs.TestProgram.{
  TestFlags, or_remove, make_baseline_env, cleanup, with_bridge, run_program, test_root, test_main,
}

module _ (os : Os) where
  anywhere : {A : Type 0} (m : Exec Host A) → Leads Anything Anything m
  anywhere m = record { at = λ h k. tt }

  with_bridge-Leads :
      (flags : TestFlags) (silo_ip : Ip) (silo_mask : List ℕ) (pid : ℕ)
      → Leads Anything
          (IsCalled (delete_link flags.bridge_name))
          (with_bridge os flags silo_ip silo_mask pid)
  unfolding with_bridge delete_net_bridge
  with_bridge-Leads flags silo_ip silo_mask pid =
      Leads-deferring _ _ (anywhere _) (perform-Leads-IsCalled os (delete_link flags.bridge_name))

  bridged :
      (r : Result Unit × Host) (flags : TestFlags) (silo_ip : Ip) (silo_mask : List ℕ) (pid : ℕ)
      → r.0 ≡ ok tt
      → IsCalled
          (delete_link flags.bridge_name)
          (continue r (λ u. with_bridge os flags silo_ip silo_mask pid)).1
  bridged (ok u, h) flags silo_ip silo_mask pid e =
      (with_bridge-Leads flags silo_ip silo_mask pid).at h tt
  bridged (err x, h) flags silo_ip silo_mask pid e = cc
  bridged (panic, h) flags silo_ip silo_mask pid e = cc

  taken :
      (c : Call) (b : Bool) (m n : Exec Host Unit) (h : Host)
      → b ≡ true
      → IsCalled c (m h).1
      → IsCalled c ((if b then m else n) h).1
  taken c true m n h e k = k
  taken c false m n h e k = cc

  module _ (flags : TestFlags) (bridge_ip silo_ip : Ip) (bridge_mask silo_mask : List ℕ)
      (root_fs : String) where
    -- The call that starts the isolated process
    abbrev pub start_call : Call
    start_call = start ("isolatedMain" ∷ root_fs ∷ flags.cmd ∷ flags.env_list ∷ flags.hostname ∷ [])

    -- Where the process was started and CreateNetBridge succeeded, DeleteNetBridge is called on that bridge before
    -- the program ends, whichever of the later calls fails.
    pub run_program-IsCalled :
        (h : Host)
        → flags.enable_net ≡ true
        → os.fails h.calls start_call ≡ none
        → (create_net_bridge os flags.bridge_name bridge_ip bridge_mask
            (record h { calls = start_call ∷ h.calls })).0
          ≡ ok tt
        → IsCalled
            (delete_link flags.bridge_name)
            (run_program os flags bridge_ip bridge_mask silo_ip silo_mask root_fs h).1
    unfolding run_program ask_number perform ◌>>=◌
    run_program-IsCalled h net started made =
        rw started (taken _ flags.enable_net _ _ _ net (bridged _ flags silo_ip silo_mask _ made))

  module _ (standard : Standard) (flags : TestFlags) where
    removal : String → Call
    removal dir = remove_all (dir ∷ [])

    or_remove-Yields :
        (dir : String) (failed : Option Error)
        → Yields Anything
            (λ d h. (d ≡ dir) × Anything h)
            (IsCalled (removal dir))
            (or_remove os dir failed)
    unfolding or_remove removal
    or_remove-Yields dir none = Yields-pure dir (λ h k. (refl, tt))
    or_remove-Yields dir (some e) =
        Yields-bind _ _ (Leads→Yields _ (Leads-attempt _ (perform-Leads-IsCalled os (removal dir))))
          (λ u. Yields-raise e (λ h k. k))

    -- From the archive on
    cleaned_run :
        (dir : String) (bridge_ip silo_ip : Ip) (bridge_mask silo_mask : List ℕ)
        → flags.make_baseline ≡ true
        → Leads Anything (IsCalled (removal dir)) (
            deferring
              (cleanup os flags dir)
              (run_program os flags bridge_ip bridge_mask silo_ip silo_mask dir))
    unfolding cleanup removal
    cleaned_run dir bridge_ip silo_ip bridge_mask silo_mask e =
        Leads-deferring _ _ (anywhere _) (record {
          at = λ h k.
              taken _ flags.make_baseline _ _ h e
                ((perform-Leads-IsCalled os (removal dir)).at h tt);
        })

    from_archive :
        (dir : String) (tar : Call) (bridge_ip silo_ip : Ip) (bridge_mask silo_mask : List ℕ)
        → flags.make_baseline ≡ true
        → Yields Anything
            (λ u. IsCalled (removal dir))
            (IsCalled (removal dir))
            ((attempt (perform os tar) >>= or_remove os dir) >>= λ root_fs.
              deferring
                (cleanup os flags root_fs)
                (run_program os flags bridge_ip bridge_mask silo_ip silo_mask root_fs))
    from_archive dir tar bridge_ip silo_ip bridge_mask silo_mask e =
        Yields-bind _ _ (Yields-bind _ _ (attempt-perform os _ tar) (or_remove-Yields dir)) (λ d.
          Yields-known dir
            (λ root_fs.
              deferring (cleanup os flags root_fs)
                (run_program os flags bridge_ip bridge_mask silo_ip silo_mask root_fs))
            d (Leads→Yields _ (cleaned_run dir bridge_ip silo_ip bridge_mask silo_mask e)))

    root_lem : flags.make_baseline ≡ true → test_root os standard flags ≡ make_baseline_env os
    unfolding test_root
    root_lem e =
        subst
          (λ b.
            (if b then make_baseline_env os else lift (standard.abs flags.root_fs))
            ≡ make_baseline_env os)
          (sym e) refl

    -- Where the addresses of the flags parse and the folder for -baseline-env was made, main calls for the removal of that
    -- folder before it ends, whichever other call fails.
    pub test_main-IsCalled :
        (h : Host) (bridge silo : Ip × IpNet)
        → standard.parse_cidr flags.bridge_addr ≡ ok bridge
        → standard.parse_cidr flags.silo_addr ≡ ok silo
        → flags.make_baseline ≡ true
        → os.fails h.calls (temp_dir "colex_exec_root") ≡ none
        → IsCalled
            (remove_all (os.text h.calls (temp_dir "colex_exec_root") ∷ []))
            (test_main os standard flags h).1
    unfolding test_main make_baseline_env ask_text perform ◌>>=◌ removal
    test_main-IsCalled h bridge silo e1 e2 e3 e4 =
        rw (e1, e2, root_lem e3, e4)
          (Yields→Keeps _
            (from_archive (os.text h.calls (temp_dir "colex_exec_root")) _ bridge.0 silo.0
              (bridge.1).mask (silo.1).mask e3)
            _ tt)
