-- ===== src/CGroups/Joining.antt =====
-- cgroups.go: what a set of control groups that was made stands for.
use colex.Base.{ℕ, String, Option, none, some, [], ◌∷◌, ◌++◌, ◌≡◌, ap, subst}
use colex.Base.Keeps.{Keeps, keeps_rules, Keeps-attempt}
use colex.Base.Outcome.{Error, Result, Exec, ok, err, panic, system}
use colex.Base.Text.{codes, decimal}
use colex.Base.Yields.{Yields, Ends, Yields-bind, Yields-keep, Yields-pure}
use colex.Os.{Os, Host, Call, FilePath, write_file, perform, ask_text}
use colex.Os.Called.{IsDone, perform-Keeps-IsDone, perform-Yields-IsDone}
use colex.CGroups.{
  CgroupConfig, CgroupSet, get_subsystem_mountpoint, write_value, unless_exists, new_cpu_group,
  new_memory_group, set_cpu_group_stats, unless_gone, remove_group, close_cgroup_set, give_up_group,
  new_cgroup_set,
}

abbrev pub procs_call : ℕ → FilePath → Call
procs_call pid path = write_file (path ++ "cgroup.procs" ∷ []) (codes (decimal pid))

module _ (os : Os) (c : Call) where
  perform_kept : (d : Call) → Keeps (IsDone os c) (perform os d)
  perform_kept = perform-Keeps-IsDone os c

  ask_text-Keeps-IsDone : (d : Call) → Keeps (IsDone os c) (ask_text os d)
  unfolding ask_text
  ask_text-Keeps-IsDone d = search (keeps_rules, perform_kept)

  mountpoint-Keeps-IsDone : (name : String) → Keeps (IsDone os c) (get_subsystem_mountpoint os name)
  unfolding get_subsystem_mountpoint
  mountpoint-Keeps-IsDone name = search (keeps_rules, ask_text-Keeps-IsDone) depth 20

  write_value-Keeps-IsDone :
      (dir : FilePath) (file content : String)
      → Keeps (IsDone os c) (write_value os dir file content)
  unfolding write_value
  write_value-Keeps-IsDone dir file content = search (keeps_rules, perform_kept)

  unless_exists-Keeps-IsDone : (e : Option Error) → Keeps (IsDone os c) (unless_exists os e)
  unfolding unless_exists
  unless_exists-Keeps-IsDone none = search keeps_rules
  unless_exists-Keeps-IsDone (some (system e)) = search keeps_rules
  unless_exists-Keeps-IsDone (some _) = search keeps_rules

  unless_gone-Keeps-IsDone : (e : Option Error) → Keeps (IsDone os c) (unless_gone os e)
  unfolding unless_gone
  unless_gone-Keeps-IsDone none = search keeps_rules
  unless_gone-Keeps-IsDone (some (system e)) = search keeps_rules
  unless_gone-Keeps-IsDone (some _) = search keeps_rules

  remove_group-Keeps-IsDone : (path : FilePath) → Keeps (IsDone os c) (remove_group os path)
  unfolding remove_group
  remove_group-Keeps-IsDone [] = search keeps_rules
  remove_group-Keeps-IsDone (dir ∷ rest) =
      search (keeps_rules, perform_kept, unless_gone-Keeps-IsDone) depth 20

  give_up-Keeps-IsDone :
      (s : CgroupSet) (e : Option Error) → Keeps (IsDone os c) (give_up_group os s e)
  unfolding give_up_group close_cgroup_set
  give_up-Keeps-IsDone s none = search keeps_rules
  give_up-Keeps-IsDone s (some e) = search (keeps_rules, remove_group-Keeps-IsDone) depth 20

  stats-Keeps-IsDone :
      (path : FilePath) (conf : CgroupConfig)
      → Keeps (IsDone os c) (set_cpu_group_stats os path conf)
  unfolding set_cpu_group_stats
  stats-Keeps-IsDone path conf = search (keeps_rules, write_value-Keeps-IsDone) depth 20

  new_memory_group-Keeps-IsDone :
      (id : String) (pid : ℕ) (conf : CgroupConfig)
      → Keeps (IsDone os c) (new_memory_group os id pid conf)
  unfolding new_memory_group
  new_memory_group-Keeps-IsDone id pid conf =
      search
        (
          keeps_rules, mountpoint-Keeps-IsDone, perform_kept, unless_exists-Keeps-IsDone,
          write_value-Keeps-IsDone,
        )
        depth 30

-- What is kept and what is reached, of one action
both_end :
    {A : Type 0} (P : Host → Type 0) (Q : A → Host → Type 0) (r : Result A × Host)
    → P r.1
    → Ends Q (λ h. Unit) r
    → Ends (λ a h. P h × Q a h) (λ h. Unit) r
both_end P Q (ok a, h) p q = (p, q)
both_end P Q (err e, h) p q = tt
both_end P Q (panic, h) p q = tt

module _ (os : Os) (pid : ℕ) where
  abbrev Anything : Host → Type 0
  Anything h = Unit

  anyway : {A : Type 0} (m : Exec Host A) → Yields Anything (λ a h. Unit) Anything m
  anyway m = Yields-keep m (record { at = λ h k. tt }) (λ a h k. tt) (λ h k. tt)

  -- The process was written without an error into the group of the path.
  abbrev pub IsJoined : FilePath → Host → Type 0
  IsJoined path h = IsDone os (procs_call pid path) h

  joining :
      (path : FilePath)
      → Yields
          (λ h. Unit)
          (λ u. IsJoined path)
          Anything
          (write_value os path "cgroup.procs" (decimal pid))
  unfolding write_value
  joining path = perform-Yields-IsDone os (procs_call pid path)

  new_cpu_group-Yields : (id : String) → Yields Anything IsJoined Anything (new_cpu_group os id pid)
  unfolding new_cpu_group
  new_cpu_group-Yields id = Yields-bind _ _ (anyway _) (λ mount. Yields-bind _ _ (anyway _) (λ made.
      Yields-bind _ _ (anyway _)
        (λ u. Yields-bind _ _ (joining _) (λ v. Yields-pure _ (λ h k. k)))))

  new_memory_group-Yields :
      (id : String) (c : CgroupConfig)
      → Yields Anything IsJoined Anything (new_memory_group os id pid c)
  unfolding new_memory_group
  new_memory_group-Yields id c = Yields-bind _ _ (anyway _) (λ mount.
      Yields-bind _ _ (anyway _) (λ made. Yields-bind _ _ (anyway _) (λ u.
        Yields-bind _ _ (anyway _)
          (λ w. Yields-bind _ _ (joining _) (λ v. Yields-pure _ (λ h k. k))))))

  abbrev pub InBoth : CgroupSet → Host → Type 0
  InBoth set h = IsJoined set.cpu_group_path h × IsJoined set.memory_group_path h

  memory_too :
      (id : String) (c : CgroupConfig) (cpu : FilePath)
      → Yields
          (IsJoined cpu)
          (λ memory h. IsJoined cpu h × IsJoined memory h)
          Anything
          (new_memory_group os id pid c)
  memory_too id c cpu = record {
    ends = λ h k.
        both_end (IsJoined cpu) IsJoined (new_memory_group os id pid c h)
          ((new_memory_group-Keeps-IsDone os (procs_call pid cpu) id pid c).at h k)
          ((new_memory_group-Yields id c).ends h tt);
  }

  Keeps-cpu :
      {A : Type 0} (cpu : FilePath) (m : Exec Host A)
      → Keeps (IsJoined cpu) m
      → Yields (IsJoined cpu) (λ a. IsJoined cpu) Anything m
  Keeps-cpu cpu m k = Yields-keep m k (λ a h j. j) (λ h j. tt)

  set-Yields :
      (id : String) (c : CgroupConfig)
      → Yields Anything InBoth Anything (new_cgroup_set os id pid c)
  unfolding new_cgroup_set
  set-Yields id c = Yields-bind _ _ (new_cpu_group-Yields _) (λ cpu.
      Yields-bind _ _ (Keeps-cpu cpu _ (Keeps-attempt _ (stats-Keeps-IsDone os _ cpu c))) (λ stats.
        Yields-bind _ _ (Keeps-cpu cpu _ (give_up-Keeps-IsDone os _ _ stats))
          (λ u. Yields-bind _ _ (memory_too _ c cpu) (λ memory. Yields-pure _ (λ h k. k)))))

  made_lem :
      (r : Result CgroupSet × Host) (set : CgroupSet) (t : Host)
      → Ends InBoth Anything r
      → r ≡ (ok set, t)
      → InBoth set t
  made_lem (ok g, h) set t k e =
      subst (λ (x : CgroupSet × Host). InBoth x.0 x.1)
        (ap (λ (x : Result CgroupSet × Host). (set_of x.0 g, x.1)) e) k
    where
      set_of : Result CgroupSet → CgroupSet → CgroupSet
      set_of (ok x) y = x
      set_of (err x) y = y
      set_of panic y = y
  made_lem (err x, h) set t k e = cc
  made_lem (panic, h) set t k e = cc

  -- Where NewCGroupSet succeeds, the process was written without an error into cgroup.procs of both groups of the set
  -- that it returns.
  pub new_cgroup_set-InBoth :
      (id : String) (c : CgroupConfig) (h t : Host) (set : CgroupSet)
      → new_cgroup_set os id pid c h ≡ (ok set, t)
      → InBoth set t
  new_cgroup_set-InBoth id c h t set e =
      made_lem (new_cgroup_set os id pid c h) set t ((set-Yields id c).ends h tt) e
