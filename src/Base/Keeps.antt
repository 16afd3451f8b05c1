-- ===== src/Base/Keeps.antt =====
-- What actions keep of the state, and where they lead it, built up as the actions are.
use mathlib.Core.Path.{◌≡◌, refl}
use mathlib.Core.Bool.{Bool, true, false}
use colex.Base.Tests.{if◌then◌else◌}
use colex.Base.Outcome.{
  Error, Result, Exec, ok, err, panic, pure, raise, crash, lift, gets, modify, on_error, deferring,
  attempt, within, continue, ◌>>=◌,
}

-- Where `Inv` holds before the action it holds after it, also after an error or a panic.
pub record Keeps {κ} {World Out : Type κ} (Inv : World → Type κ) (action : Exec World Out)
    : Type κ where
  pub at : (w : World) → Inv w → Inv (action w).1

module _ {κ} {World Out : Type κ} {Inv : World → Type κ} where
  -- An action that leaves the state alone.
  Keeps-idle : (action : Exec World Out) → ((w : World) → (action w).1 ≡ w) → Keeps Inv action
  Keeps-idle action idle = record { at = λ w holds. rw (idle w) holds }

  pub Keeps-crash : Keeps Inv (crash {A = Out})
  unfolding crash
  Keeps-crash = Keeps-idle crash (λ w. refl)

  pub Keeps-gets : (look : World → Out) → Keeps Inv (gets look)
  unfolding gets
  Keeps-gets look = Keeps-idle (gets look) (λ w. refl)

  pub Keeps-lift : (outcome : Result Out) → Keeps Inv (lift outcome)
  unfolding lift
  Keeps-lift outcome = Keeps-idle (lift outcome) (λ w. refl)

  pub Keeps-if :
      (test : Bool) (one other : Exec World Out)
      → Keeps Inv one
      → Keeps Inv other
      → Keeps Inv (if test then one else other)
  Keeps-if false one other ky ko = ko
  Keeps-if true one other ky ko = ky

  pub Keeps-pure : (out : Out) → Keeps Inv (pure out)
  unfolding pure
  Keeps-pure out = Keeps-idle (pure out) (λ w. refl)

  pub Keeps-raise : (why : Error) → Keeps Inv (raise {A = Out} why)
  unfolding raise
  Keeps-raise why = Keeps-idle (raise why) (λ w. refl)

module _ {ℓ} {S A : Type ℓ} {P : S → Type ℓ} where
  recovered :
      (cleanup : S → S) (r : Result A) (s : S)
      → ((t : S) → P t → P (cleanup t))
      → P s
      → P (on_error (λ _. (r, s)) cleanup s).1
  unfolding on_error
  recovered cleanup (ok a) s k h = h
  recovered cleanup (err e) s k h = k s h
  recovered cleanup panic s k h = h

  pub Keeps-on_error :
      (m : Exec S A) (cleanup : S → S)
      → Keeps P m
      → ((t : S) → P t → P (cleanup t))
      → Keeps P (on_error m cleanup)
  unfolding on_error
  Keeps-on_error m cleanup km kc = record {
    at = λ s h. let (r, t) = m s in recovered cleanup r t kc (km.at s h);
  }

  pub Keeps-deferring :
      (close : Exec S Unit) (m : Exec S A) → Keeps P close → Keeps P m → Keeps P (deferring close m)
  unfolding deferring
  Keeps-deferring close m kc km = record { at = λ s h. let (r, t) = m s in kc.at t (km.at s h) }

module _ {ℓ} {S : Type ℓ} {P : S → Type ℓ} where
  pub Keeps-modify : (f : S → S) → ((s : S) → P s → P (f s)) → Keeps P (modify f)
  unfolding modify
  Keeps-modify f k = record { at = k }

module _ {S A : Type 0} where
  inspected_state :
      (Q : S → Type 0) (r : Result A) (s : S) → Q s → Q (attempt (λ (t : S). (r, s)) s).1
  unfolding attempt
  inspected_state Q (ok a) s h = h
  inspected_state Q (err e) s h = h
  inspected_state Q panic s h = h

module _ {S A : Type 0} {P : S → Type 0} where
  pub Keeps-attempt : (m : Exec S A) → Keeps P m → Keeps P (attempt m)
  unfolding attempt
  Keeps-attempt m km = record { at = λ s h. let (r, t) = m s in inspected_state P r t (km.at s h) }

module _ {ℓ} {S A B : Type ℓ} {P : S → Type ℓ} where
  continue_keeps :
      (r : Result A) (s : S) (f : A → Exec S B)
      → P s
      → ((a : A) → Keeps P (f a))
      → P (continue (r, s) f).1
  continue_keeps (ok a) s f h k = (k a).at s h
  continue_keeps (err e) s f h k = h
  continue_keeps panic s f h k = h

  -- One after the other: an error of the first ends both.
  pub Keeps-bind :
      (first : Exec S A) (next : A → Exec S B)
      → Keeps P first
      → ((given : A) → Keeps P (next given))
      → Keeps P (first >>= next)
  unfolding ◌>>=◌
  Keeps-bind first next kept rest = record {
    at = λ s holds.
        let (outcome, t) = first s in continue_keeps outcome t next (kept.at s holds) rest;
  }

-- An action on a part of the state keeps what it keeps of the part, and all that is said of the rest.
module _ {ℓ} {S T A : Type ℓ} {P : T → Type ℓ} (part : T → S) (store : S → T → T) where
  pub Keeps-within :
      (m : Exec S A)
      → ((t : T) → P t → Keeps (λ s. P (store s t)) m)
      → ((t : T) → P t → P (store (part t) t))
      → Keeps P (within part store m)
  unfolding within
  Keeps-within m k same = record { at = λ t h. (k t h).at (part t) (same t h) }

-- From `P` the action leads to `Q`, however it ends.
pub record Leads {ℓ} {S A : Type ℓ} (P Q : S → Type ℓ) (m : Exec S A) : Type ℓ where
  pub at : (s : S) → P s → Q (m s).1

module _ {ℓ} {S A B : Type ℓ} {R Q : S → Type ℓ} where
  continue_leads :
      (r : Result A) (s : S) (f : A → Exec S B)
      → R s
      → ((a : A) → Leads R Q (f a))
      → ((t : S) → R t → Q t)
      → Q (continue (r, s) f).1
  continue_leads (ok a) s f h k out = (k a).at s h
  continue_leads (err e) s f h k out = out s h
  continue_leads panic s f h k out = out s h

module _ {ℓ} {S A B : Type ℓ} {P R Q : S → Type ℓ} where
  -- The second part runs from `R`; where it does not run, `R` must be enough.
  pub Leads-bind :
      (m : Exec S A) (f : A → Exec S B)
      → Leads P R m
      → ((a : A) → Leads R Q (f a))
      → ((t : S) → R t → Q t)
      → Leads P Q (m >>= f)
  unfolding ◌>>=◌
  Leads-bind m f km kf out = record {
    at = λ s h. let (r, t) = m s in continue_leads r t f (km.at s h) kf out;
  }

pub Leads-if {ℓ} :
    {S A : Type ℓ} {P Q : S → Type ℓ} (b : Bool) (m n : Exec S A)
    → Leads P Q m
    → Leads P Q n
    → Leads P Q (if b then m else n)
Leads-if true m n km kn = km
Leads-if false m n km kn = kn

pub Leads-keep {ℓ} : {S A : Type ℓ} {P : S → Type ℓ} {m : Exec S A} → Keeps P m → Leads P P m
Leads-keep k = record { at = k.at }

pub ruleset keeps_rules = (
  Keeps-attempt, Keeps-bind, Keeps-deferring, Keeps-crash, Keeps-gets, Keeps-if, Keeps-lift,
  Keeps-pure, Keeps-raise,
)

-- After a read the rest of the block knows what was read.
module _ {ℓ} {S A B : Type ℓ} {P Q : S → Type ℓ} where
  pub Leads-read :
      (g : S → A) (f : A → Exec S B)
      → ((s : S) → P s → Leads (λ t. P t × (g t ≡ g s)) Q (f (g s)))
      → Leads P Q (gets g >>= f)
  unfolding ◌>>=◌
  Leads-read g f k = record { at = λ s h. (k s h).at s (h, refl) }

pub Leads-modify {ℓ} :
    {S : Type ℓ} {P Q : S → Type ℓ} (f : S → S) → ((s : S) → P s → Q (f s)) → Leads P Q (modify f)
unfolding modify
Leads-modify f k = record { at = k }

pub Leads-attempt :
    {S A : Type 0} {P Q : S → Type 0} (m : Exec S A) → Leads P Q m → Leads P Q (attempt m)
unfolding attempt
Leads-attempt {Q = Q} m km = record {
  at = λ s h. let (r, t) = m s in inspected_state Q r t (km.at s h);
}

-- From less to more: what suffices before, and what is left of what is reached.
pub Leads-weaken {ℓ} :
    {S A : Type ℓ} {P Q R : S → Type ℓ} (m : Exec S A)
    → ((s : S) → P s → Q s)
    → Leads Q R m
    → Leads P R m
Leads-weaken m f k = record { at = λ s h. k.at s (f s h) }

-- A deferred call leads on from wherever the action ends.
pub Leads-deferring {ℓ} :
    {S A : Type ℓ} {P R Q : S → Type ℓ} (close : Exec S Unit) (m : Exec S A)
    → Leads P R m
    → Leads R Q close
    → Leads P Q (deferring close m)
unfolding deferring
Leads-deferring close m km kc = record { at = λ s h. let (r, t) = m s in kc.at t (km.at s h) }
