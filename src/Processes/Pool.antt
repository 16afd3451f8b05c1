-- ===== src/Processes/Pool.antt =====
-- Counting a silo's memory does not touch the address pool.
use colex.Base.{ℕ, String, true, false, Option, none, some, List, [], ◌∷◌, ◌==◌, if◌then◌else◌}
use colex.Base.Keeps.{Keeps, Keeps-bind, Keeps-if}
use colex.Base.Outcome.{Result, Exec, ok, err, panic}
use colex.IpPool.{IpPool}
use colex.Os.{
  Os, Host, SamePool, ProcMem, os_keeps_pool, ask_text, ask_text-Keeps_pool, is_not_exist,
  read_link,
}
use colex.Processes.{
  namespace_path, candidate, collect, find_processes_in_namespace, sum_memory, memory_of, mem_stats,
}
use colex.Controller.Types.{Silo}

module _ (os : Os) (p : IpPool) where
  candidate_pool :
      (ns : String) (pid : ℕ) (r : Result String) (h : Host) (out : List ℕ)
      (further : List ℕ → Exec Host (List ℕ))
      → ((passed : List ℕ) → Keeps (SamePool p) (further passed))
      → SamePool p h
      → SamePool p (candidate os ns pid (r, h) out further).1
  candidate_pool ns pid (ok its) h out further k e = (k _).at h e
  candidate_pool ns pid (err x) h out further k e =
      elim (is_not_exist os x) as (λ b. SamePool p (if b then further out h else (err x, h)).1) [
        | true ↦ (k out).at h e
        | false ↦ e
      ]
  candidate_pool ns pid panic h out further k e = e

  collect-Keeps_pool :
      (ns : String) (names : List String) (out : List ℕ)
      → Keeps (SamePool p) (collect os ns names out)
  unfolding collect
  collect-Keeps_pool ns [] out = search os_keeps_pool
  collect-Keeps_pool ns (name ∷ rest) out =
      Keeps-if (os.atoi name == 0) _ _ (collect-Keeps_pool ns rest out) (record {
        at = λ h e.
            let kept =
              (ask_text-Keeps_pool os p (read_link (namespace_path (os.atoi name)))).at h e in
            let (r, g) = ask_text os (read_link (namespace_path (os.atoi name))) h in
            candidate_pool ns (os.atoi name) r g out (collect os ns rest)
              (collect-Keeps_pool ns rest) kept;
      })

  find_processes_in_namespace-Keeps_pool :
      (pid : ℕ) → Keeps (SamePool p) (find_processes_in_namespace os pid)
  unfolding find_processes_in_namespace
  find_processes_in_namespace-Keeps_pool pid = search (os_keeps_pool, collect-Keeps_pool) depth 20

  sum_memory-Keeps_pool :
      (pids : List ℕ) (total : ProcMem) → Keeps (SamePool p) (sum_memory os pids total)
  unfolding sum_memory
  sum_memory-Keeps_pool [] total = search os_keeps_pool
  sum_memory-Keeps_pool (pid ∷ rest) total =
      Keeps-bind _ _ (search os_keeps_pool)
        (λ before. Keeps-bind _ _ (search os_keeps_pool) (λ _. sum_memory-Keeps_pool rest _))

  memory_of-Keeps_pool : (pid : Option ℕ) → Keeps (SamePool p) (memory_of os pid)
  unfolding memory_of
  memory_of-Keeps_pool none = search os_keeps_pool
  memory_of-Keeps_pool (some pid) =
      search (os_keeps_pool, find_processes_in_namespace-Keeps_pool, sum_memory-Keeps_pool) depth 20

  pub mem_stats-Keeps_pool : (s : Silo) → Keeps (SamePool p) (mem_stats os s)
  unfolding mem_stats
  mem_stats-Keeps_pool s = search (os_keeps_pool, memory_of-Keeps_pool) depth 20
