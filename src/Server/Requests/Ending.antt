-- ===== src/Server/Requests/Ending.antt =====
-- serv.go: the two ways in which silos end, and the addresses of the server's silos.
use colex.Base.{ℕ, String, Option, none, some}
use colex.Base.Int.{ℤ}
use colex.Base.Keeps.{Keeps, keeps_rules}
use colex.Base.Outcome.{Error, Exec}
use colex.Wire.{Payload, down_packet}
use colex.Server.{Server, Env, Reply}
use colex.Server.Silos.{stop_silo_internal}
use colex.Server.Stopping.{ServerAccounts, stop_silo_internal-ServerAccounts}
use colex.Server.Requests.{collect_finished, silo_down_handler, stop_or_reply, down_by_id, or_reply}

module _ (env : Env) (budget : ℕ) where
  pub stop-Keeps :
      (now : ℤ) (name : String) → Keeps (ServerAccounts budget) (stop_silo_internal env now name)
  stop-Keeps now name = record { at = stop_silo_internal-ServerAccounts env budget now name }

  pub collect_finished-Keeps :
      (now : ℤ) (name id : String)
      → Keeps (ServerAccounts budget) (collect_finished env now name id)
  unfolding collect_finished
  collect_finished-Keeps now name id = search (keeps_rules, stop-Keeps) depth 20

  pub or_reply-Keeps :
      (status : ℕ) (failed : Option Error) (further : Exec Server Reply)
      → Keeps (ServerAccounts budget) further
      → Keeps (ServerAccounts budget) (or_reply status failed further)
  or_reply-Keeps status none further k = k
  or_reply-Keeps status (some e) further k = search keeps_rules

  pub stop_or_reply-Keeps :
      (now : ℤ) (name : String) (further : Exec Server Reply)
      → Keeps (ServerAccounts budget) further
      → Keeps (ServerAccounts budget) (stop_or_reply env now name further)
  unfolding stop_or_reply
  stop_or_reply-Keeps now name further k = search (keeps_rules, stop-Keeps, or_reply-Keeps) depth 20

  down_by_id-Keeps :
      (now : ℤ) (name : String) → Keeps (ServerAccounts budget) (down_by_id env now name)
  unfolding down_by_id
  down_by_id-Keeps now name = search (keeps_rules, stop_or_reply-Keeps) depth 20

  pub silo_down_handler-Keeps :
      (now : ℤ) (p : Payload) → Keeps (ServerAccounts budget) (silo_down_handler env now p)
  unfolding silo_down_handler
  silo_down_handler-Keeps now (down_packet p) =
      search (keeps_rules, stop_or_reply-Keeps, down_by_id-Keeps) depth 20
  silo_down_handler-Keeps now _ = search keeps_rules

  -- A notice of the end of a silo, late ones included, leaves the addresses that the server's silos
  -- claim all different and not free.
  pub collect_finished-ServerAccounts :
      (now : ℤ) (name id : String) (s : Server)
      → ServerAccounts budget s
      → ServerAccounts budget (collect_finished env now name id s).1
  collect_finished-ServerAccounts now name id s h = (collect_finished-Keeps now name id).at s h

  -- Every DOWN request, by name, by ID, with both, with neither, for a silo that is not there, and one
  -- that does not decode, leaves the addresses that the server's silos claim all different and not free.
  pub silo_down_handler-ServerAccounts :
      (now : ℤ) (p : Payload) (s : Server)
      → ServerAccounts budget s
      → ServerAccounts budget (silo_down_handler env now p s).1
  silo_down_handler-ServerAccounts now p s h = (silo_down_handler-Keeps now p).at s h
