-- ===== src/Controller/Silo/Ending.antt =====
-- controller/controller.go: Close and Wait, and what they take down.
use colex.Base.{ℕ, Option, none, some, List, [], ◌∷◌, if◌then◌else◌}
use colex.Base.Outcome.{
  Error, Exec, system, not_running, pure, raise, crash, gets, attempt, ◌>>=◌, ◌>>◌,
}
use colex.Os.{Os, Host, perform, probe, kill, wait, remove_all}
use colex.CGroups.{CgroupSet, close_cgroup_set}
use colex.Controller.Types.{finished, Ctx, Child, Base, Interf, loopback, ip}
use colex.Controller.Bases.{on_host, teardown_base}
use colex.Controller.Interfaces.{teardown_ip}
use colex.Controller.Silo.{is_running, set_state}

module _ (os : Os) where
  -- `sigErr == nil || sigErr == syscall.EPERM`, and then Kill
  unfoldable pub kill_if_there : ℕ → Option Error → Exec Host Unit
  kill_if_there pid none = perform os (kill pid)
  kill_if_there pid (some (system e)) =
      if os.not_permitted e then perform os (kill pid) else pure tt
  kill_if_there pid (some e) = pure tt

  unfoldable pub teardown_bases : List Base → Exec Ctx Unit
  teardown_bases [] = pure tt
  teardown_bases (b ∷ rest) = do teardown_base os b; teardown_bases rest

  unfoldable pub teardown_interfaces : List Interf → Exec Host Unit
  teardown_interfaces [] = pure tt
  teardown_interfaces (loopback ∷ rest) = teardown_interfaces rest
  teardown_interfaces (ip i ∷ rest) = do teardown_ip os i; teardown_interfaces rest

  unfoldable pub unlimit : Option CgroupSet → Exec Host Unit
  unlimit none = pure tt
  unlimit (some set) = close_cgroup_set os set

  -- Close's first part, for a running silo with a process
  unfoldable pub shut_down : ℕ → Exec Ctx Unit
  shut_down pid = do
    there ← on_host (attempt (perform os (probe pid)))
    on_host (kill_if_there pid there)
    set_state finished
    s ← gets (λ (c : Ctx). c.silo)
    teardown_bases s.bases
    on_host (teardown_interfaces s.interfaces)
    on_host (unlimit s.cgroup_set)

  unfoldable pub shut_down_child : Option Child → Exec Ctx Unit
  shut_down_child none = crash
  shut_down_child (some child) = elim child.process [ none ↦ pure tt | some pid ↦ shut_down pid ]

  unfoldable pub delete_root : Exec Ctx Unit
  delete_root = do
    s ← gets (λ (c : Ctx). c.silo)
    if s.should_delete_root then on_host (perform os (remove_all s.root)) else pure tt

  unfoldable pub close : Exec Ctx Unit
  close c =
      if is_running c.silo.state
      then (do shut_down_child c.silo.child; delete_root) c
      else delete_root c

  unfoldable pub wait_child : Option Child → Exec Ctx Unit
  wait_child none = crash
  wait_child (some child) = elim child.process [
    | none ↦ raise (system "exec: not started")
    | some pid ↦ on_host (perform os (wait pid))
  ]

  unfoldable pub wait_silo : Exec Ctx Unit
  wait_silo c = if is_running c.silo.state then wait_child c.silo.child c else raise not_running c
