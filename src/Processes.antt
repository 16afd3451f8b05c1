-- ===== src/Processes.antt =====
-- util/findpid.go and MemStats of controller/controller.go: the processes of a silo, and the memory
-- that they use together.
pub mod Pool
use colex.Base.{
  ℕ, ◌+◌, ◌%◌, ◌^◌, ◌==◌, ◌++◌, String, Option, none, some, List, [], ◌∷◌, if◌then◌else◌, same_text,
}
use colex.Base.Outcome.{Result, Exec, ok, err, not_running, pure, raise, crash, gets, ◌>>=◌, ◌>>◌}
use colex.Base.Text.{decimal}
use colex.Os.{
  Os, Host, FilePath, ProcMem, perform, ask_text, is_not_exist, read_link, read_dir, process_memory,
}
use colex.Controller.Types.{Silo, Child}
use colex.Controller.Silo.{is_running}

abbrev pub namespace_path : ℕ → FilePath
namespace_path pid = "/proc" ∷ decimal pid ∷ "ns" ∷ "pid" ∷ []

abbrev pub no_memory : ProcMem
no_memory = record {
  size = 0;
  resident = 0;
  share = 0;
  minor_faults = 0;
  major_faults = 0;
  page_faults = 0;
}

-- sums of uint64
unfoldable pub add_memory : ProcMem → ProcMem → ProcMem
add_memory a b = record {
  size = (a.size + b.size) % 2 ^ 64;
  resident = (a.resident + b.resident) % 2 ^ 64;
  share = (a.share + b.share) % 2 ^ 64;
  minor_faults = (a.minor_faults + b.minor_faults) % 2 ^ 64;
  major_faults = (a.major_faults + b.major_faults) % 2 ^ 64;
  page_faults = (a.page_faults + b.page_faults) % 2 ^ 64;
}

module _ (os : Os) where
  -- What becomes of one candidate, once its link is read: a process that has gone is passed over.
  abbrev pub candidate :
      String
      → ℕ
      → Result String × Host
      → List ℕ
      → (List ℕ → Exec Host (List ℕ))
      → Result (List ℕ) × Host
  candidate ns pid (ok its, h) out further =
      further (if same_text ns its then out ++ pid ∷ [] else out) h
  candidate ns pid (err e, h) out further = if is_not_exist os e then further out h else (err e, h)
  candidate ns pid (Result.panic, h) out further = (Result.panic, h)

  unfoldable pub collect : String → List String → List ℕ → Exec Host (List ℕ)
  collect ns [] out = pure out
  collect ns (name ∷ rest) out =
      let pid = os.atoi name in
      if pid == 0 then collect ns rest out else λ h.
      candidate ns pid (ask_text os (read_link (namespace_path pid)) h) out (collect ns rest)

  unfoldable pub find_processes_in_namespace : ℕ → Exec Host (List ℕ)
  find_processes_in_namespace pid = do
    ns ← ask_text os (read_link (namespace_path pid))
    before ← gets (λ (h : Host). h.calls)
    perform os (read_dir ("/proc" ∷ []))
    collect ns (os.names before (read_dir ("/proc" ∷ []))) []

  unfoldable pub sum_memory : List ℕ → ProcMem → Exec Host ProcMem
  sum_memory [] total = pure total
  sum_memory (pid ∷ rest) total = do
    before ← gets (λ (h : Host). h.calls)
    perform os (process_memory pid)
    sum_memory rest (add_memory total (os.memory before pid))

  unfoldable pub memory_of : Option ℕ → Exec Host ProcMem
  memory_of none = crash
  memory_of (some pid) = do pids ← find_processes_in_namespace pid; sum_memory pids no_memory

  abbrev process_of : Option Child → Option ℕ
  process_of none = none
  process_of (some child) = child.process

  -- MemStats
  unfoldable pub mem_stats : Silo → Exec Host ProcMem
  mem_stats s = if is_running s.state then memory_of (process_of s.child) else raise not_running
