-- ===== src/Controller/Silo/Starting.antt =====
-- controller/controller.go: Start.
use colex.Base.{ℕ, suc, Option, none, some, List, [], ◌∷◌, ◌++◌, if◌then◌else◌}
use colex.Base.Outcome.{
  Result, Exec, ok, not_pending, pure, raise, crash, gets, modify, continue, ◌>>=◌, ◌>>◌,
}
use colex.Os.{Os, ask_number, start}
use colex.CGroups.{CgroupConfig, new_cgroup_set}
use colex.Controller.Types.{running, Ctx, Child, Interf, loopback, ip}
use colex.Controller.Bases.{on_host}
use colex.Controller.Interfaces.{Wired, setup_ip}
use colex.Controller.Silo.{is_pending, set_state}

module _ (os : Os) where
  -- The loop of Start over s.Interfaces, which are pointers: each goes back to its place.
  unfoldable pub after_interface :
      List Interf
      → List Interf
      → (List Interf → Exec Ctx Unit)
      → Ctx
      → Result {0} Unit × Wired
      → Result {0} Unit × Ctx
  after_interface done rest further c (r, w) =
      continue
        (
          r,
          record c {
            silo = record c.silo { interfaces = done ++ ip w.interface ∷ rest };
            host = w.host;
          },
        )
        (λ _. further (done ++ ip w.interface ∷ []))

  unfoldable pub setup_interfaces : ℕ → ℕ → List Interf → List Interf → Exec Ctx Unit
  setup_interfaces pid index done [] c = (ok tt, c)
  setup_interfaces pid index done (loopback ∷ rest) c =
      setup_interfaces pid (suc index) (done ++ loopback ∷ []) rest c
  setup_interfaces pid index done (ip i ∷ rest) c =
      after_interface done rest (λ passed. setup_interfaces pid (suc index) passed rest) c
        (setup_ip os c.silo.id_hex pid index (record { interface = i; host = c.host }))

  unfoldable pub limit : ℕ → Option CgroupConfig → Exec Ctx Unit
  limit pid none = pure tt
  limit pid (some config) = do
    id_hex ← gets (λ (c : Ctx). c.silo.id_hex)
    made ← on_host (new_cgroup_set os id_hex pid config)
    modify (λ (c : Ctx). record c { silo = record c.silo { cgroup_set = some made } })

  unfoldable pub launch : Option Child → Exec Ctx Unit
  launch none = crash
  launch (some child) = do
    root ← gets (λ (c : Ctx). c.silo.root)
    pid ← on_host (ask_number os (start root))
    modify (λ (c : Ctx). record c {
      silo = record c.silo { child = some (record child { process = some pid }) };
    })
    interfaces ← gets (λ (c : Ctx). c.silo.interfaces)
    setup_interfaces pid 0 [] interfaces
    config ← gets (λ (c : Ctx). c.silo.cgroup_config)
    limit pid config

  -- Start. The state is Running from before the process is started, also if that fails.
  unfoldable pub start_silo : Exec Ctx Unit
  start_silo c =
      if is_pending c.silo.state
      then (do set_state running; launch c.silo.child) c
      else raise not_pending c
