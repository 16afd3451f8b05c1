-- ===== src/Examples/Groups.antt =====
-- The control groups of one process, on a system that mounts both kinds at /cg.
use colex.Base.{some, none, [], ◌∷◌, ◌≡◌, refl}
use colex.Base.Outcome.{ok, Result}
use colex.Os.{Os, Host}
use colex.CGroups.{CgroupConfig, CgroupSet, new_cgroup_set}
use colex.CGroups.Joining.{InBoth, new_cgroup_set-InBoth}
use colex.Examples.{quiet, host}

abbrev mounted : Os
mounted = record quiet { text = λ calls c. "a b c d /cg cpu,memory" }

abbrev limits : CgroupConfig
limits = record {
  cpu_time_between_periods_us = 50000;
  cpu_time_per_period_us = 5000;
  memory_max_bytes = 0;
}

abbrev groups : CgroupSet
groups = record {
  id = "c39";
  pid = 42;
  cpu_group_path = "/cg" ∷ "c39" ∷ [];
  memory_group_path = "/cg" ∷ "c39" ∷ [];
}

abbrev after : Host
after = (new_cgroup_set mounted "39" 42 limits host).1

made : new_cgroup_set mounted "39" 42 limits host ≡ (ok groups, after)
unfolding new_cgroup_set colex.Base.Outcome.◌>>=◌ colex.CGroups.new_cpu_group
    colex.CGroups.get_subsystem_mountpoint colex.Os.ask_text colex.Os.perform
    colex.CGroups.find_mount colex.CGroups.unless_exists colex.CGroups.write_value
    colex.CGroups.set_cpu_group_stats colex.CGroups.give_up_group colex.CGroups.new_memory_group
made = refl

new_cgroup_set-InBoth_example : InBoth mounted 42 groups after
new_cgroup_set-InBoth_example = new_cgroup_set-InBoth mounted 42 "39" limits host after groups made
