-- ===== src/InitProcess/Confinement.antt =====
-- What isolatedMain runs, and from which root.
use colex.Base.{ℕ, zero, suc, ◌≡◌, refl, ◌⊎◌, inl, inr, String, Option, none, some, List, [], ◌∷◌}
use colex.Base.Keeps.{Keeps, keeps_rules, Keeps-bind, Keeps-if, Keeps-attempt, Keeps-modify}
use colex.Base.Outcome.{Error, Exec, system, pure, modify}
use colex.Base.Yields.{Yields, Ends, Yields-bind, Yields-keep, Yields→Keeps}
use colex.Os.{FilePath, InvocationInfo, BindMntInfo, StartupCommand}
use colex.InitProcess.{
  Kernel, Step, Place, at, pivot_root, detach, stat, pause, run_command, run_silo, answer, step,
  ensure, if_missing, put_old_of, mount_proc_at, setup_bind_mounts, set_root_fs, is_ready, look_at,
  with_addresses, wait_until_up, run_start_commands, unpack, or_panic, run_isolated, isolated_main,
}

-- A step was taken and did not fail. The newest step stands first, and its answer was drawn from those before it.
unfoldable pub Succeeded : Kernel → Step → List Step → Type 0
Succeeded kernel s [] = ⊥
Succeeded kernel s (d ∷ past) = ((d ≡ s) × (kernel.fails past d ≡ none)) ⊎ Succeeded kernel s past

-- The process has left the root of the host: both calls were made, and the kernel did both.
pub record IsMoved (kernel : Kernel) (root : FilePath) (past : List Step) : Type 0 where
  pub pivoted : Succeeded kernel (pivot_root (at root) (at (put_old_of root))) past
  pub detached : Succeeded kernel (detach "/.temp_old") past

-- A program is only run by a process that has left the root of the host.
unfoldable pub IsAllowed : Kernel → FilePath → Step → List Step → Type 0
IsAllowed kernel root (run_command cmd args) past = IsMoved kernel root past
IsAllowed kernel root (run_silo cmd args env) past = IsMoved kernel root past
IsAllowed kernel root _ past = Unit

unfoldable pub IsConfined : Kernel → FilePath → List Step → Type 0
IsConfined kernel root [] = Unit
IsConfined kernel root (c ∷ past) = IsAllowed kernel root c past × IsConfined kernel root past

module _ (kernel : Kernel) (root : FilePath) where
  answer-Yields :
      (Done Failed : List Step → Type 0) (e : Option String) (past : List Step)
      → (e ≡ none → Done past)
      → Failed past
      → Ends (λ _. Done) Failed (answer kernel e past)
  answer-Yields Done Failed none past d f = d refl
  answer-Yields Done Failed (some e) past d f = f

  step-Yields :
      (Before Done Failed : List Step → Type 0) (s : Step)
      → ((past : List Step) → Before past → kernel.fails past s ≡ none → Done (s ∷ past))
      → ((past : List Step) → Before past → Failed (s ∷ past))
      → Yields Before (λ _. Done) Failed (step kernel s)
  unfolding step
  step-Yields Before Done Failed s d f = record {
    ends =
        λ past h. answer-Yields Done Failed (kernel.fails past s) (s ∷ past) (d past h) (f past h);
  }

  step-Keeps :
      (Inv : List Step → Type 0) (s : Step)
      → ((past : List Step) → Inv past → Inv (s ∷ past))
      → Keeps Inv (step kernel s)
  step-Keeps Inv s k = record {
    at = Yields→Keeps (step kernel s) (step-Yields Inv Inv Inv s (λ past h e. k past h) k);
  }

  abbrev pub Moved : List Step → Type 0
  Moved past = IsMoved kernel root past × IsConfined kernel root past

  moved-IsAllowed :
      (s : Step) (past : List Step) → IsMoved kernel root past → IsAllowed kernel root s past
  unfolding IsAllowed
  moved-IsAllowed (run_command cmd args) past m = m
  moved-IsAllowed (run_silo cmd args env) past m = m
  moved-IsAllowed _ past m = tt

  pub step-Moved : (s : Step) → Keeps Moved (step kernel s)
  unfolding IsConfined Succeeded
  step-Moved s = step-Keeps Moved s (λ past (m, c). (
    record { pivoted = inr m.pivoted; detached = inr m.detached },
    (moved-IsAllowed s past m, c),
  ))

  pause-Moved : Keeps Moved (modify (λ past. pause ∷ past))
  unfolding IsConfined IsAllowed Succeeded
  pause-Moved =
      Keeps-modify _
        (λ past (m, c). (record { pivoted = inr m.pivoted; detached = inr m.detached }, (tt, c)))

  -- A call that runs no program
  plain-Keeps :
      (s : Step)
      → ((past : List Step) → IsAllowed kernel root s past)
      → Keeps (IsConfined kernel root) (step kernel s)
  unfolding IsConfined
  plain-Keeps s plain = step-Keeps (IsConfined kernel root) s (λ past c. (plain past, c))

  if_missing-Keeps :
      (e : Option Error) (s : Step)
      → ((past : List Step) → IsAllowed kernel root s past)
      → Keeps (IsConfined kernel root) (if_missing kernel e s)
  unfolding if_missing
  if_missing-Keeps none s plain = search keeps_rules
  if_missing-Keeps (some (system e)) s plain =
      Keeps-if _ _ (pure tt) (plain-Keeps s plain) (search keeps_rules)
  if_missing-Keeps (some _) s plain = search keeps_rules

  ensure-Keeps :
      (p : Place) (s : Step)
      → ((past : List Step) → IsAllowed kernel root s past)
      → Keeps (IsConfined kernel root) (ensure kernel p s)
  unfolding ensure IsAllowed
  ensure-Keeps p s plain =
      Keeps-bind _ _ (Keeps-attempt _ (plain-Keeps (stat p) (λ past. tt)))
        (λ missing. if_missing-Keeps missing s plain)

  setup_bind_mounts-Keeps :
      (binds : List BindMntInfo)
      → Keeps (IsConfined kernel root) (setup_bind_mounts kernel root binds)
  unfolding setup_bind_mounts IsAllowed
  setup_bind_mounts-Keeps [] = search keeps_rules
  setup_bind_mounts-Keeps (b ∷ rest) =
      Keeps-bind _ _
        (Keeps-if _ _ _
          (Keeps-bind _ _ (ensure-Keeps _ _ (λ past. tt)) (λ u. ensure-Keeps _ _ (λ past. tt)))
          (ensure-Keeps _ _ (λ past. tt)))
        (λ u. Keeps-bind _ _ (plain-Keeps _ (λ past. tt)) (λ v. setup_bind_mounts-Keeps rest))

  pub mount_proc_at-Keeps :
      (target : FilePath) → Keeps (IsConfined kernel root) (mount_proc_at kernel target)
  unfolding mount_proc_at IsAllowed
  mount_proc_at-Keeps target =
      Keeps-bind _ _ (plain-Keeps _ (λ past. tt)) (λ u. plain-Keeps _ (λ past. tt))

  -- Each phase, from `Before` to `Done`; what fails on the way is confined all the same.
  abbrev pub Phase : (List Step → Type 0) → (List Step → Type 0) → Exec (List Step) Unit → Type 0
  Phase Before Done m = Yields Before (λ _. Done) (IsConfined kernel root) m

  abbrev Pivoted : List Step → Type 0
  Pivoted past =
      Succeeded kernel (pivot_root (at root) (at (put_old_of root))) past
      × IsConfined kernel root past

  Pivoted-step :
      (s : Step)
      → ((past : List Step) → IsAllowed kernel root s past)
      → Phase Pivoted Pivoted (step kernel s)
  unfolding IsConfined Succeeded
  Pivoted-step s plain =
      step-Yields Pivoted Pivoted (IsConfined kernel root) s
        (λ past (m, c) e. (inr m, (plain past, c))) (λ past (m, c). (plain past, c))

  pub set_root_fs-Phase : Phase (IsConfined kernel root) Moved (set_root_fs kernel root)
  unfolding set_root_fs IsAllowed IsConfined Succeeded
  set_root_fs-Phase =
      Yields-bind _ _
        (step-Yields (IsConfined kernel root) (IsConfined kernel root) (IsConfined kernel root) _
          (λ past c e. (tt, c)) (λ past c. (tt, c)))
        (λ u1.
          Yields-bind _ _
            (step-Yields (IsConfined kernel root) (IsConfined kernel root) (IsConfined kernel root)
              _ (λ past c e. (tt, c)) (λ past c. (tt, c)))
            (λ u2.
              Yields-bind _ _
                (step-Yields (IsConfined kernel root) Pivoted (IsConfined kernel root) _
                  (λ past c e. (inl (refl, e), (tt, c))) (λ past c. (tt, c)))
                (λ u3. Yields-bind _ _ (Pivoted-step _ (λ past. tt)) (λ u4.
                  Yields-bind _ _
                    (step-Yields Pivoted Moved (IsConfined kernel root) _
                      (λ past (m, c) e.
                        (record { pivoted = inr m; detached = inl (refl, e) }, (tt, c)))
                      (λ past (m, c). (tt, c)))
                    (λ u5. Yields-keep _ (step-Moved _) (λ a s h. h) (λ s (m, c). c))))))

  with_addresses-Moved :
      (name : String) (e : Option Error) → Keeps Moved (with_addresses kernel name e)
  unfolding with_addresses
  with_addresses-Moved name none = search keeps_rules
  with_addresses-Moved name (some e) = search keeps_rules

  look_at-Moved : (name : String) (e : Option Error) → Keeps Moved (look_at kernel name e)
  unfolding look_at
  look_at-Moved name none = search (keeps_rules, step-Moved, with_addresses-Moved) depth 20
  look_at-Moved name (some e) = search keeps_rules

  is_ready-Moved : (name : String) → Keeps Moved (is_ready kernel name)
  unfolding is_ready
  is_ready-Moved name = search (keeps_rules, step-Moved, look_at-Moved) depth 20

  wait_until_up-Moved :
      (rounds : ℕ) (name : String) → Keeps Moved (wait_until_up kernel rounds name)
  unfolding wait_until_up
  wait_until_up-Moved zero name = search keeps_rules
  wait_until_up-Moved (suc rounds) name = Keeps-bind _ _ (is_ready-Moved name) (λ ready.
      Keeps-if ready (pure tt) _ (search keeps_rules)
        (Keeps-bind _ _ pause-Moved (λ u. wait_until_up-Moved rounds name)))

  run_start_commands-Moved : (cs : List StartupCommand) → Keeps Moved (run_start_commands kernel cs)
  unfolding run_start_commands
  run_start_commands-Moved [] = search keeps_rules
  run_start_commands-Moved (c ∷ rest) =
      Keeps-bind _ _
        (Keeps-if _ (pure tt) _ (search keeps_rules)
          (wait_until_up-Moved 1000 c.wait_for_interface))
        (λ u. Keeps-bind _ _ (step-Moved _) (λ v. run_start_commands-Moved rest))

  pub Moved-keep : (m : Exec (List Step) Unit) → Keeps Moved m → Phase Moved Moved m
  Moved-keep m k = Yields-keep m k (λ a s h. h) (λ s (m, c). c)

  pub plain_keep :
      {A : Type 0} (m : Exec (List Step) A)
      → Keeps (IsConfined kernel root) m
      → Yields (IsConfined kernel root) (λ _. IsConfined kernel root) (IsConfined kernel root) m
  plain_keep m k = Yields-keep m k (λ a s h. h) (λ s h. h)

  or_panic-Keeps : (e : Option Error) → Keeps (IsConfined kernel root) (or_panic kernel e)
  unfolding or_panic
  or_panic-Keeps none = search keeps_rules
  or_panic-Keeps (some e) = search keeps_rules

  unpack-Keeps : (i : Option InvocationInfo) → Keeps (IsConfined kernel root) (unpack kernel i)
  unfolding unpack
  unpack-Keeps none = search keeps_rules
  unpack-Keeps (some i) = search keeps_rules

  isolated_main-Phase :
      Phase (IsConfined kernel root) (IsConfined kernel root) (isolated_main kernel root)
  unfolding isolated_main run_isolated IsAllowed
  isolated_main-Phase =
      Yields-bind _ _ (plain_keep _ (Keeps-attempt _ (plain-Keeps _ (λ past. tt)))) (λ read.
        Yields-bind _ _ (plain_keep _ (or_panic-Keeps read)) (λ u1.
          Yields-bind _ _ (plain_keep _ (unpack-Keeps _)) (λ info.
            Yields-bind _ _ (plain_keep _ (mount_proc_at-Keeps _)) (λ u2.
              Yields-bind _ _ (plain_keep _ (setup_bind_mounts-Keeps info.binds)) (λ u3.
                Yields-bind _ _ set_root_fs-Phase (λ u4.
                  Yields-bind _ _
                    (Moved-keep _ (Keeps-if _ (pure tt) _ (search keeps_rules) (step-Moved _)))
                    (λ u5.
                      Yields-bind _ _
                        (Moved-keep _ (run_start_commands-Moved info.on_start_commands))
                        (λ u6.
                          Yields-keep _ (step-Moved _) (λ a s (m, c). c) (λ s (m, c). c)))))))))

  -- However the setup goes, each program that the first process of a silo runs, a start command or the silo's own,
  -- is run after pivot_root with the silo's root and the detaching of the old root have both succeeded.
  pub isolated_main-IsConfined : IsConfined kernel root (isolated_main kernel root []).1
  unfolding IsConfined
  isolated_main-IsConfined = Yields→Keeps (isolated_main kernel root) isolated_main-Phase [] tt
