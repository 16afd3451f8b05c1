-- ===== src/InitProcess/Starting.antt =====
-- When isolatedMain gets as far as the silo's own program.
use colex.Base.{
  String, Option, none, some, List, [], ◌∷◌, ◌≡◌, ap, sym, subst, ◌⊎◌, inl, inr, refl, arith,
  if◌then◌else◌, same_text, same_text_iff, All,
}
use colex.Base.Outcome.{Error, Result, Exec, ok, err, panic, pure, attempt, inspected}
use colex.Base.Yields.{Yields, Ends, Yields-bind, Yields-pure, Yields-if}
use colex.Os.{FilePath, InvocationInfo, BindMntInfo, StartupCommand}
use colex.InitProcess.{
  Kernel, Step, Place, stat, run_silo, answer, step, ensure, if_missing, mount_proc_at,
  setup_bind_mounts, set_root_fs, wait_until_up, run_start_commands, unpack, or_panic, run_isolated,
  isolated_main,
}
use colex.InitProcess.Waiting.{IsSettled, wait_until_up-ok}

-- A start command that waits for nothing, or for an interface that settles within the thousand rounds.
unfoldable pub IsAwaited : Kernel → StartupCommand → Type 0
IsAwaited kernel c = (c.wait_for_interface ≡ "") ⊎ IsSettled kernel 999 c.wait_for_interface

abbrev Never : List Step → Type 0
Never past = ⊥

abbrev Ever : {A : Type 0} → A → List Step → Type 0
Ever a past = Unit

-- The action has a result, from any list of calls.
abbrev Succeeds : {A : Type 0} → Exec (List Step) A → Type 0
Succeeds m = Yields (λ past. Unit) Ever Never m

module _ (kernel : Kernel) (root : FilePath)
    (quiet : (past : List Step) (s : Step) → kernel.fails past s ≡ none) where
  answer-Succeeds :
      (e : Option String) (past : List Step) → e ≡ none → Ends Ever Never (answer kernel e past)
  answer-Succeeds none past q = tt
  answer-Succeeds (some e) past q = cc

  step-Succeeds : (s : Step) → Succeeds (step kernel s)
  unfolding step
  step-Succeeds s = record {
    ends = λ past h. answer-Succeeds (kernel.fails past s) (s ∷ past) (quiet past s);
  }

  attempt_answer :
      (e : Option String) (past : List Step)
      → e ≡ none
      → Ends (λ (o : Option Error) p. o ≡ none) Never (inspected (answer kernel e past))
  attempt_answer none past q = refl
  attempt_answer (some e) past q = cc

  attempt-Succeeds :
      (s : Step)
      → Yields (λ past. Unit) (λ (o : Option Error) p. o ≡ none) Never (attempt (step kernel s))
  unfolding step attempt
  attempt-Succeeds s = record {
    ends = λ past h. attempt_answer (kernel.fails past s) (s ∷ past) (quiet past s);
  }

  if_missing-Succeeds :
      (o : Option Error) (s : Step) → Yields (λ past. o ≡ none) Ever Never (if_missing kernel o s)
  unfolding if_missing
  if_missing-Succeeds none s = Yields-pure tt (λ past h. tt)
  if_missing-Succeeds (some e) s = record { ends = λ past h. cc }

  ensure-Succeeds : (p : Place) (s : Step) → Succeeds (ensure kernel p s)
  unfolding ensure
  ensure-Succeeds p s = Yields-bind _ _ (attempt-Succeeds (stat p)) (λ o. if_missing-Succeeds o s)

  setup_bind_mounts-Succeeds :
      (binds : List BindMntInfo) → Succeeds (setup_bind_mounts kernel root binds)
  unfolding setup_bind_mounts
  setup_bind_mounts-Succeeds [] = Yields-pure tt (λ past h. tt)
  setup_bind_mounts-Succeeds (b ∷ rest) =
      Yields-bind _ _
        (Yields-if _ _ _ (Yields-bind _ _ (ensure-Succeeds _ _) (λ u. ensure-Succeeds _ _))
          (ensure-Succeeds _ _))
        (λ u. Yields-bind _ _ (step-Succeeds _) (λ v. setup_bind_mounts-Succeeds rest))

  set_root_fs-Succeeds : Succeeds (set_root_fs kernel root)
  unfolding set_root_fs
  set_root_fs-Succeeds = Yields-bind _ _ (step-Succeeds _) (λ u1.
      Yields-bind _ _ (step-Succeeds _) (λ u2. Yields-bind _ _ (step-Succeeds _) (λ u3.
        Yields-bind _ _ (step-Succeeds _)
          (λ u4. Yields-bind _ _ (step-Succeeds _) (λ u5. step-Succeeds _)))))

  ended_well : (r : Result {0} Unit × List Step) → r.0 ≡ ok tt → Ends Ever Never r
  ended_well (ok u, past) e = tt
  ended_well (err x, past) e = cc
  ended_well (panic, past) e = cc

  waited-Succeeds :
      (name : String) → IsSettled kernel 999 name → Succeeds (wait_until_up kernel 1000 name)
  waited-Succeeds name settled = record {
    ends = λ past h.
        ended_well (wait_until_up kernel 1000 name past)
          (wait_until_up-ok kernel 999 name settled 1000 past (omega arith) (omega arith));
  }

  awaited-Succeeds :
      (c : StartupCommand)
      → IsAwaited kernel c
      → Succeeds (
          if same_text c.wait_for_interface ""
          then pure tt
          else wait_until_up kernel 1000 c.wait_for_interface)
  unfolding IsAwaited
  awaited-Succeeds c (inl e) =
      rw ((same_text_iff c.wait_for_interface "").1 e) (Yields-pure tt (λ past h. tt))
  awaited-Succeeds c (inr settled) =
      Yields-if _ (pure tt) _ (Yields-pure tt (λ past h. tt))
        (waited-Succeeds c.wait_for_interface settled)

  run_start_commands-Succeeds :
      (cs : List StartupCommand)
      → All (IsAwaited kernel) cs
      → Succeeds (run_start_commands kernel cs)
  unfolding run_start_commands
  run_start_commands-Succeeds [] h = Yields-pure tt (λ past h. tt)
  run_start_commands-Succeeds (c ∷ rest) (h, hs) =
      Yields-bind _ _ (awaited-Succeeds c h)
        (λ u. Yields-bind _ _ (step-Succeeds _) (λ v. run_start_commands-Succeeds rest hs))

  or_panic-Succeeds : (o : Option Error) → Yields (λ past. o ≡ none) Ever Never (or_panic kernel o)
  unfolding or_panic
  or_panic-Succeeds none = Yields-pure tt (λ past h. tt)
  or_panic-Succeeds (some e) = record { ends = λ past h. cc }

  module _ (info : InvocationInfo) where
    unpack-Succeeds :
        (o : Option InvocationInfo)
        → o ≡ some info
        → Yields (λ past. Unit) (λ i past. i ≡ info) Never (unpack kernel o)
    unfolding unpack
    unpack-Succeeds none e = record { ends = λ past h. cc }
    unpack-Succeeds (some i) e = Yields-pure i (λ past h. ground (arith, e))

    -- The program of the silo was the last thing that was run.
    abbrev Ran : {A : Type 0} → A → List Step → Type 0
    Ran a past = (before : List Step) × (past ≡ run_silo info.cmd info.args info.env ∷ before)

    run_silo-Yields :
        Yields (λ past. Unit) Ran Never (step kernel (run_silo info.cmd info.args info.env))
    unfolding step
    run_silo-Yields = record {
      ends = λ past h. answer-Ran (kernel.fails past program) past (quiet past program);
    }
      where
        program : Step
        program = run_silo info.cmd info.args info.env

        answer-Ran :
            (e : Option String) (past : List Step)
            → e ≡ none
            → Ends Ran Never (answer kernel e (run_silo info.cmd info.args info.env ∷ past))
        answer-Ran none past q = (past, refl)
        answer-Ran (some e) past q = cc

    run_isolated-Yields :
        All (IsAwaited kernel) info.on_start_commands
        → Yields (λ past. Unit) Ran Never (run_isolated kernel root info)
    unfolding run_isolated mount_proc_at
    run_isolated-Yields awaited =
        Yields-bind _ _ (Yields-bind _ _ (step-Succeeds _) (λ u. step-Succeeds _)) (λ u1.
          Yields-bind _ _ (setup_bind_mounts-Succeeds info.binds) (λ u2.
            Yields-bind _ _ set_root_fs-Succeeds (λ u3.
              Yields-bind _ _
                (Yields-if _ (pure tt) _ (Yields-pure tt (λ past h. tt)) (step-Succeeds _))
                (λ u4.
                  Yields-bind _ _ (run_start_commands-Succeeds info.on_start_commands awaited)
                    (λ u5. run_silo-Yields)))))

    known :
        (m : InvocationInfo → Exec (List Step) Unit) (i : InvocationInfo)
        → Yields (λ past. Unit) Ran Never (m info)
        → Yields (λ past. i ≡ info) Ran Never (m i)
    known m i h = record {
      ends = λ past e.
          let it : Yields (λ past. Unit) Ran Never (m i) =
            subst (λ j. Yields (λ past. Unit) Ran Never (m j)) (sym e) h in
          it.ends past tt;
    }

    isolated_main-Yields :
        kernel.invocation root ≡ some info
        → All (IsAwaited kernel) info.on_start_commands
        → Yields (λ past. Unit) Ran Never (isolated_main kernel root)
    unfolding isolated_main
    isolated_main-Yields e awaited = Yields-bind _ _ (attempt-Succeeds _) (λ o.
        Yields-bind _ _ (or_panic-Succeeds o) (λ u.
          Yields-bind _ _ (unpack-Succeeds (kernel.invocation root) e)
            (λ i. known (run_isolated kernel root) i (run_isolated-Yields awaited))))

    last_run :
        (r : Result {0} Unit × List Step)
        → Ends Ran Never r
        → (before : List Step) × (r ≡ (ok tt, run_silo info.cmd info.args info.env ∷ before))
    last_run (ok u, past) (before, e) = (before, ap (λ p. (ok tt, p)) e)
    last_run (err x, past) h = elim h [ ]
    last_run (panic, past) h = elim h [ ]

    -- Where no system call fails, the invocation file reads, and each interface that a start command waits
    -- for is up with an address from some round of the thousand on, isolatedMain ends without an error and
    -- the last thing it does is to run the program of the silo with its arguments and its environment.
    pub isolated_main-run_silo :
        kernel.invocation root ≡ some info
        → All (IsAwaited kernel) info.on_start_commands
        → (before : List Step) × (isolated_main kernel root []
            ≡ (ok tt, run_silo info.cmd info.args info.env ∷ before))
    isolated_main-run_silo e awaited =
        last_run (isolated_main kernel root []) ((isolated_main-Yields e awaited).ends [] tt)
