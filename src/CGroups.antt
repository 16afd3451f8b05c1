-- ===== src/CGroups.antt =====
-- cgroups.go: the cpu and memory groups of a silo. Values are int64 in the source; a limit is a
-- number here, and what a negative one would print is not modelled.
pub mod Groups
pub mod Reading
pub mod Joining
use Prim.Native.String.{◌++◌ as join_text}
use colex.Base.{
  ℕ, String, Bool, true, false, Option, none, some, List, [], ◌∷◌, ◌++◌, ◌==◌, ◌||◌, not,
  if◌then◌else◌, same_text,
}
use colex.Base.Outcome.{
  Error, Result, Exec, ok, err, panic, system, no_mountpoint, pure, raise, lift, attempt, ◌>>=◌,
  ◌>>◌,
}
use colex.Base.Text.{codes, split_text, decimal}
use colex.Os.{
  Os, Host, FilePath, perform, ask_text, read_file, mkdir_all, write_file, remove_all, stat,
}

pub record CgroupConfig : Type 0 where
  pub cpu_time_between_periods_us : ℕ
  pub cpu_time_per_period_us : ℕ
  pub memory_max_bytes : ℕ

-- A path is empty where its group was not made.
pub record CgroupSet : Type 0 where
  pub id : String
  pub pid : ℕ
  pub cpu_group_path : FilePath
  pub memory_group_path : FilePath

abbrev last_or_empty : List String → String
last_or_empty [] = ""
last_or_empty (f ∷ []) = f
last_or_empty (f ∷ g ∷ fs) = last_or_empty (g ∷ fs)

abbrev any_same : String → List String → Bool
any_same name [] = false
any_same name (o ∷ rest) = same_text o name || any_same name rest

-- fields[4]; a line with fewer fields is an index out of range
abbrev fifth_field : List String → Result String
fifth_field (a ∷ b ∷ c ∷ d ∷ e ∷ rest) = ok e
fifth_field _ = panic

-- The loop over the lines of /proc/self/mountinfo: fields at spaces, options at commas.
unfoldable pub find_mount : String → List String → Result String
unfolding split_text
find_mount name [] = err no_mountpoint
find_mount name (line ∷ lines) =
    let rest = find_mount name lines in
    let fields = split_text 32 line in
    if any_same name (split_text 44 (last_or_empty fields)) then fifth_field fields else rest

module _ (os : Os) where
  unfoldable pub get_subsystem_mountpoint : String → Exec Host String
  get_subsystem_mountpoint subsystem = do
    content ← ask_text os (read_file ("/proc/self/mountinfo" ∷ []))
    lift (find_mount subsystem (split_text 10 content))

  unfoldable pub write_value : FilePath → String → String → Exec Host Unit
  write_value dir file content = perform os (write_file (dir ++ file ∷ []) (codes content))

  -- `err != nil && !os.IsExist(err)`
  unfoldable pub unless_exists : Option Error → Exec Host Unit
  unless_exists none = pure tt
  unless_exists (some (system e)) = if os.exists_already e then pure tt else raise (system e)
  unless_exists (some e) = raise e

  unfoldable pub new_cpu_group : String → ℕ → Exec Host FilePath
  new_cpu_group id pid = do
    mount ← get_subsystem_mountpoint "cpu"
    let path : FilePath = mount ∷ id ∷ []
    made ← attempt (perform os (mkdir_all path))
    unless_exists made
    write_value path "cgroup.procs" (decimal pid)
    pure path

  unfoldable pub new_memory_group : String → ℕ → CgroupConfig → Exec Host FilePath
  new_memory_group id pid c = do
    mount ← get_subsystem_mountpoint "memory"
    let path : FilePath = mount ∷ id ∷ []
    made ← attempt (perform os (mkdir_all path))
    unless_exists made
    if c.memory_max_bytes == 0
        then pure tt
        else write_value path "memory.limit_in_bytes" (decimal c.memory_max_bytes)
    write_value path "cgroup.procs" (decimal pid)
    pure path

  unfoldable pub set_cpu_group_stats : FilePath → CgroupConfig → Exec Host Unit
  set_cpu_group_stats path c = do
    if c.cpu_time_between_periods_us == 0
        then pure tt
        else write_value path "cpu.cfs_period_us" (decimal c.cpu_time_between_periods_us)
    if c.cpu_time_per_period_us == 0
        then pure tt
        else write_value path "cpu.cfs_quota_us" (decimal c.cpu_time_per_period_us)

  -- `err != nil && !os.IsNotExist(err)` after the Stat; RemoveAll's own error is dropped
  unfoldable pub unless_gone : Option Error → Exec Host Unit
  unless_gone none = pure tt
  unless_gone (some (system e)) = if os.not_exist e then pure tt else raise (system e)
  unless_gone (some e) = raise e

  unfoldable pub remove_group : FilePath → Exec Host Unit
  remove_group [] = pure tt
  remove_group (dir ∷ rest) = do
    attempt (perform os (remove_all (dir ∷ rest)))
    left ← attempt (perform os (stat (dir ∷ rest)))
    unless_gone left

  -- CGroupSet.Close
  unfoldable pub close_cgroup_set : CgroupSet → Exec Host Unit
  close_cgroup_set s = do remove_group s.cpu_group_path; remove_group s.memory_group_path

  -- `s.Close()` before the error goes on
  unfoldable pub give_up_group : CgroupSet → Option Error → Exec Host Unit
  give_up_group s none = pure tt
  give_up_group s (some e) = do attempt (close_cgroup_set s); raise e

  -- NewCGroupSet: a failure of the memory group leaves the cpu group, as in the source.
  unfoldable pub new_cgroup_set : String → ℕ → CgroupConfig → Exec Host CgroupSet
  new_cgroup_set id pid c = do
    let name = join_text "c" id
    cpu ← new_cpu_group name pid
    let started : CgroupSet = record {
      id = name;
      pid = pid;
      cpu_group_path = cpu;
      memory_group_path = [];
    }
    stats ← attempt (set_cpu_group_stats cpu c)
    give_up_group started stats
    memory ← new_memory_group name pid c
    pure (record started { memory_group_path = memory })
