-- ===== src/InitProcess/Waiting.antt =====
-- isolatedMain's wait for an interface: it ends, with what, and after how many system calls.
use colex.Base.{
  ℕ, zero, suc, ◌+◌, ◌*◌, ◌≤◌, ◌<◌, String, Bool, true, false, Option, none, some, List, [], ◌∷◌,
  ◌≡◌, ◌∙◌, ap, sym, subst, ◌⊎◌, inl, inr, refl, arith, length, if◌then◌else◌, ltb,
}
use colex.Base.Outcome.{
  Error, Result, Exec, ok, err, system, wait_timed_out, pure, modify, attempt, inspected, continue,
  ◌>>=◌, ◌>>◌,
}
use colex.InitProcess.{
  Kernel, Step, pause, addresses_of, interface_by_name, answer, step, is_ready, look_at,
  with_addresses, wait_until_up,
}

unfoldable pub pauses : List Step → ℕ
pauses [] = 0
pauses (pause ∷ past) = suc (pauses past)
pauses (s ∷ past) = pauses past

-- What a look at an interface leaves: a verdict, no pause, and so many calls at most.
record Looked (most : ℕ) (past : List Step) (seen : Result Bool × List Step) : Type 0 where
  verdict : Bool
  given : seen.0 ≡ ok verdict
  paused : pauses seen.1 ≡ pauses past
  calls : length seen.1 ≤ length past + most

module _ (kernel : Kernel) where
  attempt_lem :
      (most : ℕ) (c : Step) (past : List Step) (e : Option String)
      (f : Option Error → Exec (List Step) Bool)
      → pauses (c ∷ past) ≡ pauses past
      → ((o : Option Error) → Looked most (c ∷ past) (f o (c ∷ past)))
      → Looked (suc most) past (continue (inspected (answer kernel e (c ∷ past))) f)
  attempt_lem most c past none f same l =
      let it = l none in
      record {
        verdict = it.verdict;
        given = it.given;
        paused = it.paused ∙ same;
        calls = let few = it.calls in omega arith;
      }
  attempt_lem most c past (some e) f same l =
      let it = l (some (system e)) in
      record {
        verdict = it.verdict;
        given = it.given;
        paused = it.paused ∙ same;
        calls = let few = it.calls in omega arith;
      }

  with_addresses_lem :
      (name : String) (past : List Step) (e : Option Error)
      → Looked 0 past (with_addresses kernel name e past)
  unfolding with_addresses ◌>>=◌
  with_addresses_lem name past none = record {
    verdict = ltb 0 (kernel.address_count past name);
    given = refl;
    paused = refl;
    calls = omega arith;
  }
  with_addresses_lem name past (some e) = record {
    verdict = false;
    given = refl;
    paused = refl;
    calls = omega arith;
  }

  if_up_lem :
      (up : Bool) (name : String) (past : List Step)
      → Looked 1 past (
          (if up
              then (do
                failed ← attempt (step kernel (addresses_of name))
                with_addresses kernel name failed)
              else pure false)
            past)
  unfolding step ◌>>=◌ pauses
  if_up_lem true name past =
      attempt_lem 0 (addresses_of name) past (kernel.fails past (addresses_of name))
        (with_addresses kernel name) refl (with_addresses_lem name (addresses_of name ∷ past))
  if_up_lem false name past = record {
    verdict = false;
    given = refl;
    paused = refl;
    calls = omega arith;
  }

  look_at_lem :
      (name : String) (past : List Step) (e : Option Error)
      → Looked 1 past (look_at kernel name e past)
  unfolding look_at ◌>>=◌
  look_at_lem name past none = if_up_lem (kernel.is_up past name) name past
  look_at_lem name past (some e) = record {
    verdict = false;
    given = refl;
    paused = refl;
    calls = omega arith;
  }

  is_ready_lem : (name : String) (past : List Step) → Looked 2 past (is_ready kernel name past)
  unfolding is_ready step ◌>>=◌ pauses
  is_ready_lem name past =
      attempt_lem 1 (interface_by_name name) past (kernel.fails past (interface_by_name name))
        (look_at kernel name) refl (look_at_lem name (interface_by_name name ∷ past))

  abbrev next_round : ℕ → String → Bool → Exec (List Step) Unit
  next_round rounds name ready =
      if ready
      then pure tt
      else (do modify (λ past. pause ∷ past); wait_until_up kernel rounds name)

  resumed :
      (r : Result Bool) (b : Bool) (t : List Step) (f : Bool → Exec (List Step) Unit)
      → r ≡ ok b
      → continue (r, t) f ≡ f b t
  resumed r b t f e = ap (λ x. continue (x, t) f) e

  -- The two ends of a wait
  abbrev pub EndsSoon : ℕ → Result {0} Unit × List Step → Type 0
  EndsSoon most ended =
      ((ended.0 ≡ ok tt) ⊎ (ended.0 ≡ err wait_timed_out)) × (length ended.1 ≤ most)

  EndsSoon-mono :
      (less most : ℕ) (ended : Result {0} Unit × List Step)
      → less ≤ most
      → EndsSoon less ended
      → EndsSoon most ended
  EndsSoon-mono less most ended few (how, soon) = (how, omega arith)

  next_round-EndsSoon :
      (rounds : ℕ) (name : String) (ready : Bool) (past : List Step)
      → EndsSoon (suc (length past) + 3 * rounds) (wait_until_up kernel rounds name (pause ∷ past))
      → EndsSoon (suc (length past) + 3 * rounds) (next_round rounds name ready past)
  unfolding ◌>>=◌
  next_round-EndsSoon rounds name true past h = (inl refl, omega arith)
  next_round-EndsSoon rounds name false past h = h

  -- A wait for an interface ends, with success or with the timeout, after three system calls at most for
  -- each of its rounds, whatever the kernel answers.
  pub wait_until_up-EndsSoon :
      (rounds : ℕ) (name : String) (past : List Step)
      → EndsSoon (length past + 3 * rounds) (wait_until_up kernel rounds name past)
  unfolding wait_until_up ◌>>=◌
  wait_until_up-EndsSoon zero name past = (inr refl, omega arith)
  wait_until_up-EndsSoon (suc rounds) name past =
      let it = is_ready_lem name past in
      let few = it.calls in
      let t = (is_ready kernel name past).1 in
      subst (EndsSoon (length past + 3 * suc rounds))
        (sym (resumed (is_ready kernel name past).0 it.verdict t (next_round rounds name) it.given))
        (EndsSoon-mono (suc (length t) + 3 * rounds) (length past + 3 * suc rounds)
          (next_round rounds name it.verdict t) (omega arith)
          (next_round-EndsSoon rounds name it.verdict t
            (wait_until_up-EndsSoon rounds name (pause ∷ t))))

-- From the pause `since` on, the interface is there, up, and has an address.
pub record IsSettled (kernel : Kernel) (since : ℕ) (name : String) : Type 0 where
  pub there :
      (past : List Step) → since ≤ pauses past → kernel.fails past (interface_by_name name) ≡ none
  pub up : (past : List Step) → since ≤ pauses past → kernel.is_up past name ≡ true
  pub listed :
      (past : List Step) → since ≤ pauses past → kernel.fails past (addresses_of name) ≡ none
  pub addressed : (past : List Step) → since ≤ pauses past → 0 < kernel.address_count past name

module _ (kernel : Kernel) (since : ℕ) (name : String) (settled : IsSettled kernel since name) where
  IsSettled-ready :
      (past : List Step) → since ≤ pauses past → (is_ready kernel name past).0 ≡ ok true
  unfolding is_ready look_at with_addresses step ◌>>=◌ pauses
  IsSettled-ready past h =
      let there = settled.there past h in
      let up = settled.up (interface_by_name name ∷ past) h in
      let listed = settled.listed (interface_by_name name ∷ past) h in
      let many = settled.addressed (addresses_of name ∷ interface_by_name name ∷ past) h in
      rw (there, up, listed) (ap ok (ground arith))

  later_round :
      (rounds : ℕ) (ready : Bool) (past : List Step)
      → ((since ≤ pauses past) → ready ≡ true)
      → (pauses past < since → (wait_until_up kernel rounds name (pause ∷ past)).0 ≡ ok tt)
      → (next_round kernel rounds name ready past).0 ≡ ok tt
  unfolding ◌>>=◌
  later_round rounds true past h k = refl
  later_round rounds false past h k = k (ground (arith, h))

  -- A wait that has a round left when the interface has settled ends with success.
  pub wait_until_up-ok :
      (rounds : ℕ) (past : List Step)
      → 0 < rounds
      → since < pauses past + rounds
      → (wait_until_up kernel rounds name past).0 ≡ ok tt
  unfolding wait_until_up ◌>>=◌ pauses
  wait_until_up-ok zero past some_round enough = ground arith
  wait_until_up-ok (suc rounds) past some_round enough =
      let it = is_ready_lem kernel name past in
      let t = (is_ready kernel name past).1 in
      let same = it.paused in
      subst (λ (ended : Result {0} Unit × List Step). ended.0 ≡ ok tt)
        (sym (
          resumed kernel (is_ready kernel name past).0 it.verdict t (next_round kernel rounds name)
            it.given))
        (later_round rounds it.verdict t
          (λ h.
            let now : (is_ready kernel name past).0 ≡ ok true =
              IsSettled-ready past (omega arith) in
            let was = it.given in cc)
          (λ h. wait_until_up-ok rounds (pause ∷ t) (omega arith) (omega arith)))
