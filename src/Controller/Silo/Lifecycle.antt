-- ===== src/Controller/Silo/Lifecycle.antt =====
-- controller.go: what the methods of a silo do to the addresses of the host, each alone and in any order.
use colex.Base.{ℕ, List, [], ◌∷◌}
use colex.Base.Outcome.{Exec}
use colex.Ip.{Ip}
use colex.Os.{Os}
use colex.Controller.Types.{Ctx}
use colex.Controller.Silo.{init}
use colex.Controller.Silo.Starting.{start_silo}
use colex.Controller.Silo.Ending.{close}
use colex.Controller.Silo.Ownership.{SiloAccounts}
use colex.Controller.Silo.Launching.{init-SiloAccounts, start_silo-SiloAccounts}
use colex.Controller.Silo.Closing.{close-SiloAccounts}

pub data Method : Type 0 where
  init_method start_method close_method : Method

module _ (os : Os) where
  abbrev method : Method → Exec Ctx Unit
  method init_method = init os
  method start_method = start_silo os
  method close_method = close os

  -- The callers go on after a method that failed: what it left is where the next one begins.
  unfoldable pub run_methods : List Method → Ctx → Ctx
  run_methods [] c = c
  run_methods (m ∷ ms) c = run_methods ms (method m c).1

  module _ (budget : ℕ) (held : List Ip) where
    -- Init, on every branch, leaves the addresses of the silo and of all others as they were: if no
    -- address was held twice, or held and free, none is afterwards.
    pub init_lem : (c : Ctx) → SiloAccounts budget held c → SiloAccounts budget held (init os c).1
    init_lem c h = (init-SiloAccounts os budget held).at c h

    -- Start, on every branch, leaves the addresses of the silo and of all others as they were, also where
    -- the process does not start, an interface fails half-way, or the limits cannot be set.
    pub start_silo_lem :
        (c : Ctx) → SiloAccounts budget held c → SiloAccounts budget held (start_silo os c).1
    start_silo_lem c h = (start_silo-SiloAccounts os budget held).at c h

    -- Close, whichever of its steps fails, leaves the addresses of all other silos as they were, and what
    -- it gives back the silo no longer claims: no address is held twice, or held and free.
    pub close_lem : (c : Ctx) → SiloAccounts budget held c → SiloAccounts budget held (close os c).1
    close_lem c h = (close-SiloAccounts os budget held).at c h

    method-SiloAccounts :
        (m : Method) (c : Ctx)
        → SiloAccounts budget held c
        → SiloAccounts budget held (method m c).1
    method-SiloAccounts init_method c h = init_lem c h
    method-SiloAccounts start_method c h = start_silo_lem c h
    method-SiloAccounts close_method c h = close_lem c h

    -- Whatever order Init, Start and Close are called in, repeated calls included, and however each of
    -- them ends, no address is given back twice or while another silo holds it.
    pub run_methods-SiloAccounts :
        (ms : List Method) (c : Ctx)
        → SiloAccounts budget held c
        → SiloAccounts budget held (run_methods ms c)
    unfolding run_methods
    run_methods-SiloAccounts [] c h = h
    run_methods-SiloAccounts (m ∷ ms) c h =
        run_methods-SiloAccounts ms _ (method-SiloAccounts m c h)
