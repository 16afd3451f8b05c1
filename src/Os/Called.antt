-- ===== src/Os/Called.antt =====
-- Which calls of the system were made, and which of them succeeded.
use mathlib.Core.List.{Mem, mem-cons_self, mem-cons_of_mem}
use colex.Base.{◌≡◌, refl, ◌⊎◌, inl, inr, Option, none, some, String, List, [], ◌∷◌, All}
use colex.Base.Keeps.{Keeps, Leads}
use colex.Base.Outcome.{Exec, attempt, inspected}
use colex.Base.Yields.{Yields, Ends, Yields-keep}
use colex.Os.{Os, Host, Call, answered, perform}

-- A call was made, whether or not it succeeded.
pub record IsCalled (c : Call) (h : Host) : Type 0 where
  pub called : Mem c h.calls

-- A call was made and did not fail. The newest call stands first, and its answer was drawn from those before it.
unfoldable pub Succeeded : Os → Call → List Call → Type 0
Succeeded os c [] = ⊥
Succeeded os c (d ∷ past) = ((d ≡ c) × (os.fails past d ≡ none)) ⊎ Succeeded os c past

pub record IsDone (os : Os) (c : Call) (h : Host) : Type 0 where
  pub done : Succeeded os c h.calls

-- All these calls were made, and none of them failed.
pub record AreDone (os : Os) (cs : List Call) (h : Host) : Type 0 where
  pub all : All (λ c. Succeeded os c h.calls) cs

weakened :
    (os : Os) (cs past : List Call) (d : Call)
    → All (λ c. Succeeded os c past) cs
    → All (λ c. Succeeded os c (d ∷ past)) cs
unfolding Succeeded
weakened os [] past d h = tt
weakened os (c ∷ cs) past d (m, h) = (inr m, weakened os cs past d h)

abbrev pub Anything : Host → Type 0
Anything h = Unit

module _ (os : Os) where
  answered_state : (P : Host → Type 0) (e : Option String) (h : Host) → P h → P (answered os e h).1
  answered_state P none h k = k
  answered_state P (some e) h k = k

  pub perform-Keeps-IsCalled : (c d : Call) → Keeps (IsCalled c) (perform os d)
  unfolding perform
  perform-Keeps-IsCalled c d = record {
    at = λ h k.
        answered_state (IsCalled c) (os.fails h.calls d) _
          (record { called = mem-cons_of_mem _ k.called });
  }

  pub perform-Keeps-IsDone : (c d : Call) → Keeps (IsDone os c) (perform os d)
  unfolding perform Succeeded
  perform-Keeps-IsDone c d = record {
    at = λ h k. answered_state (IsDone os c) (os.fails h.calls d) _ (record { done = inr k.done });
  }

  pub perform-Keeps-AreDone : (cs : List Call) (d : Call) → Keeps (AreDone os cs) (perform os d)
  unfolding perform
  perform-Keeps-AreDone cs d = record {
    at = λ h k.
        answered_state (AreDone os cs) (os.fails h.calls d) _
          (record { all = weakened os cs h.calls d k.all });
  }

  -- A call was made, also where it fails.
  pub perform-Leads-IsCalled : (c : Call) → Leads Anything (IsCalled c) (perform os c)
  unfolding perform
  perform-Leads-IsCalled c = record {
    at = λ h k.
        answered_state (IsCalled c) (os.fails h.calls c) _ (record { called = mem-cons_self });
  }

  answered_call :
      (P : Host → Type 0) (e : Option String) (h : Host)
      → (e ≡ none → P h)
      → Ends (λ u. P) Anything (answered os e h)
  answered_call P none h k = k refl
  answered_call P (some e) h k = tt

  -- A call that succeeds is done, and all that were done before it.
  pub perform-Yields :
      (cs : List Call) (d : Call)
      → Yields (AreDone os cs) (λ u. AreDone os (d ∷ cs)) Anything (perform os d)
  unfolding perform Succeeded
  perform-Yields cs d = record {
    ends = λ h k.
        answered_call (AreDone os (d ∷ cs)) (os.fails h.calls d) _
          (λ e. record { all = (inl (refl, e), weakened os cs h.calls d k.all) });
  }

  pub perform-Yields-IsDone :
      (d : Call) → Yields Anything (λ u. IsDone os d) Anything (perform os d)
  unfolding perform Succeeded
  perform-Yields-IsDone d = record {
    ends = λ h k.
        answered_call (IsDone os d) (os.fails h.calls d) _ (λ e. record { done = inl (refl, e) });
  }

module _ (os : Os) (Never : Host → Type 0) where
  inspected-Ends :
      (e : Option String) (h : Host) → Ends (λ a. Anything) Never (inspected (answered os e h))
  inspected-Ends none h = tt
  inspected-Ends (some e) h = tt

  -- A call whose error is looked at is no failure.
  pub attempt-perform : (c : Call) → Yields Anything (λ a. Anything) Never (attempt (perform os c))
  unfolding attempt perform
  attempt-perform c = record { ends = λ h k. inspected-Ends (os.fails h.calls c) _ }

pub AreDone-nil : (os : Os) (h : Host) → AreDone os [] h
AreDone-nil os h = record { all = tt }

module _ {A : Type 0} (os : Os) (cs : List Call) where
  pub kept_calls :
      (m : Exec Host A)
      → Keeps (AreDone os cs) m
      → Yields (AreDone os cs) (λ a. AreDone os cs) Anything m
  kept_calls m k = Yields-keep m k (λ a h j. j) (λ h j. tt)
