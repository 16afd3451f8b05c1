-- ===== src/CGroups/Groups.antt =====
-- No step of cgroups.go touches the address pool.
use colex.Base.{ℕ, String, Option, none, some, [], ◌∷◌}
use colex.Base.Outcome.{Error, system}
use colex.Base.Keeps.{Keeps, keeps_rules}
use colex.IpPool.{IpPool}
use colex.Os.{Os, FilePath, SamePool, os_keeps_pool}
use colex.CGroups.{
  CgroupConfig, CgroupSet, get_subsystem_mountpoint, write_value, unless_exists, new_cpu_group,
  new_memory_group, set_cpu_group_stats, unless_gone, remove_group, close_cgroup_set, give_up_group,
  new_cgroup_set,
}

module _ (os : Os) (p : IpPool) where
  mountpoint-Keeps_pool : (name : String) → Keeps (SamePool p) (get_subsystem_mountpoint os name)
  unfolding get_subsystem_mountpoint
  mountpoint-Keeps_pool name = search os_keeps_pool depth 20

  write_value-Keeps_pool :
      (dir : FilePath) (file content : String)
      → Keeps (SamePool p) (write_value os dir file content)
  unfolding write_value
  write_value-Keeps_pool dir file content = search os_keeps_pool

  unless_exists-Keeps_pool : (e : Option Error) → Keeps (SamePool p) (unless_exists os e)
  unfolding unless_exists
  unless_exists-Keeps_pool none = search keeps_rules
  unless_exists-Keeps_pool (some (system e)) = search keeps_rules
  unless_exists-Keeps_pool (some _) = search keeps_rules

  unless_gone-Keeps_pool : (e : Option Error) → Keeps (SamePool p) (unless_gone os e)
  unfolding unless_gone
  unless_gone-Keeps_pool none = search keeps_rules
  unless_gone-Keeps_pool (some (system e)) = search keeps_rules
  unless_gone-Keeps_pool (some _) = search keeps_rules

ruleset parts_keep_pool = (
  os_keeps_pool, mountpoint-Keeps_pool, write_value-Keeps_pool, unless_exists-Keeps_pool,
  unless_gone-Keeps_pool,
)

module _ (os : Os) (p : IpPool) where
  cpu-Keeps_pool : (id : String) (pid : ℕ) → Keeps (SamePool p) (new_cpu_group os id pid)
  unfolding new_cpu_group
  cpu-Keeps_pool id pid = search parts_keep_pool depth 20

  memory-Keeps_pool :
      (id : String) (pid : ℕ) (c : CgroupConfig) → Keeps (SamePool p) (new_memory_group os id pid c)
  unfolding new_memory_group
  memory-Keeps_pool id pid c = search parts_keep_pool depth 20

  stats-Keeps_pool :
      (path : FilePath) (c : CgroupConfig) → Keeps (SamePool p) (set_cpu_group_stats os path c)
  unfolding set_cpu_group_stats
  stats-Keeps_pool path c = search parts_keep_pool depth 20

  remove-Keeps_pool : (path : FilePath) → Keeps (SamePool p) (remove_group os path)
  unfolding remove_group
  remove-Keeps_pool [] = search keeps_rules
  remove-Keeps_pool (dir ∷ rest) = search parts_keep_pool depth 20

  pub close_cgroup_set-Keeps_pool : (s : CgroupSet) → Keeps (SamePool p) (close_cgroup_set os s)
  unfolding close_cgroup_set
  close_cgroup_set-Keeps_pool s = search (keeps_rules, remove-Keeps_pool) depth 20

  give_up-Keeps_pool :
      (stats : Option Error) (s : CgroupSet) → Keeps (SamePool p) (give_up_group os s stats)
  unfolding give_up_group
  give_up-Keeps_pool none s = search keeps_rules
  give_up-Keeps_pool (some e) s = search (keeps_rules, close_cgroup_set-Keeps_pool) depth 20

  pub new_cgroup_set-Keeps_pool :
      (id : String) (pid : ℕ) (c : CgroupConfig) → Keeps (SamePool p) (new_cgroup_set os id pid c)
  unfolding new_cgroup_set
  new_cgroup_set-Keeps_pool id pid c =
      search (keeps_rules, cpu-Keeps_pool, memory-Keeps_pool, stats-Keeps_pool, give_up-Keeps_pool)
        depth 20
