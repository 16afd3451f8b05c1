-- ===== src/Base/Yields.antt =====
-- What actions lead to, told apart by how they end: with a value, or with an error or a panic.
use mathlib.Core.Path.{◌≡◌, refl, sym, subst}
use mathlib.Core.Bool.{Bool, true, false}
use colex.Base.Tests.{if◌then◌else◌}
use colex.Base.Outcome.{
  Error, Result, Exec, ok, err, panic, pure, raise, lift, modify, continue, after_all, deferring,
  ◌>>=◌,
}
use colex.Base.Keeps.{Keeps, Leads}

-- `Done` holds of the value and the state behind it, `Failed` of the state behind a failure.
abbrev pub Ends : {S A : Type 0} → (A → S → Type 0) → (S → Type 0) → Result A × S → Type 0
Ends Done Failed (ok a, s) = Done a s
Ends Done Failed (err e, s) = Failed s
Ends Done Failed (panic, s) = Failed s

pub record Yields {S A : Type 0} (Before : S → Type 0) (Done : A → S → Type 0) (Failed : S → Type 0)
    (m : Exec S A) : Type 0 where
  pub ends : (s : S) → Before s → Ends Done Failed (m s)

continue-Ends :
    {S A B : Type 0} (Between : A → S → Type 0) (Done : B → S → Type 0) (Failed : S → Type 0)
    (r : Result A × S) (f : A → Exec S B)
    → Ends Between Failed r
    → ((a : A) → Yields (Between a) Done Failed (f a))
    → Ends Done Failed (continue r f)
continue-Ends Between Done Failed (ok a, s) f h k = (k a).ends s h
continue-Ends Between Done Failed (err e, s) f h k = h
continue-Ends Between Done Failed (panic, s) f h k = h

module _ {S A B : Type 0} {Before Failed : S → Type 0} {Between : A → S → Type 0}
    {Done : B → S → Type 0} where
  pub Yields-bind :
      (m : Exec S A) (f : A → Exec S B)
      → Yields Before Between Failed m
      → ((a : A) → Yields (Between a) Done Failed (f a))
      → Yields Before Done Failed (m >>= f)
  unfolding ◌>>=◌
  Yields-bind m f km kf = record {
    ends = λ s h. continue-Ends Between Done Failed (m s) f (km.ends s h) kf;
  }

kept-Ends :
    {S A : Type 0} (Before : S → Type 0) (Done : A → S → Type 0) (Failed : S → Type 0)
    (r : Result A) (s : S)
    → Before s
    → ((a : A) → Before s → Done a s)
    → (Before s → Failed s)
    → Ends Done Failed (r, s)
kept-Ends Before Done Failed (ok a) s h done failed = done a h
kept-Ends Before Done Failed (err e) s h done failed = failed h
kept-Ends Before Done Failed panic s h done failed = failed h

module _ {S A : Type 0} {Before : S → Type 0} {Done : A → S → Type 0} {Failed : S → Type 0} where
  pub Yields-pure : (a : A) → ((s : S) → Before s → Done a s) → Yields Before Done Failed (pure a)
  unfolding pure
  Yields-pure a h = record { ends = h }

  pub Yields-raise :
      (e : Error) → ((s : S) → Before s → Failed s) → Yields Before Done Failed (raise e)
  unfolding raise
  Yields-raise e h = record { ends = h }

  pub Yields-if :
      (b : Bool) (m n : Exec S A)
      → Yields Before Done Failed m
      → Yields Before Done Failed n
      → Yields Before Done Failed (if b then m else n)
  Yields-if true m n km kn = km
  Yields-if false m n km kn = kn

  -- An invariant, however the action ends, and what follows from it.
  pub Yields-keep :
      (m : Exec S A)
      → Keeps Before m
      → ((a : A) (s : S) → Before s → Done a s)
      → ((s : S) → Before s → Failed s)
      → Yields Before Done Failed m
  Yields-keep m k done failed = record {
    ends = λ s h.
        let (r, t) = m s in kept-Ends Before Done Failed r t (k.at s h) (λ a. done a t) (failed t);
  }

-- What holds behind an action in any case.
ends_anyway : {S A : Type 0} (Q : S → Type 0) (r : Result A × S) → Ends (λ _. Q) Q r → Q r.1
ends_anyway Q (ok a, s) h = h
ends_anyway Q (err e, s) h = h
ends_anyway Q (panic, s) h = h

pub Yields→Keeps :
    {S A : Type 0} {P Q : S → Type 0} (m : Exec S A)
    → Yields P (λ _. Q) Q m
    → (s : S) → P s
    → Q (m s).1
Yields→Keeps {Q = Q} m k s h = ends_anyway Q (m s) (k.ends s h)

lifted-Ends :
    {S A : Type 0} (Before : S → Type 0) (Fact : A → Type 0) (Failed : S → Type 0) (r : Result A)
    (s : S)
    → Before s
    → ((t : S) → Before t → Failed t)
    → ((a : A) → r ≡ ok a → Fact a)
    → Ends (λ a t. Fact a × Before t) Failed (r, s)
lifted-Ends Before Fact Failed (ok a) s h failed fact = (fact a refl, h)
lifted-Ends Before Fact Failed (err e) s h failed fact = failed s h
lifted-Ends Before Fact Failed panic s h failed fact = failed s h

-- A result that was computed before: what is known of its value goes on.
pub Yields-lift :
    {S A : Type 0} {Failed : S → Type 0} (r : Result A) (Before : S → Type 0) (Fact : A → Type 0)
    → ((s : S) → Before s → Failed s)
    → ((a : A) → r ≡ ok a → Fact a)
    → Yields Before (λ a s. Fact a × Before s) Failed (lift r)
unfolding lift
Yields-lift {Failed = Failed} r Before Fact failed fact = record {
  ends = λ s h. lifted-Ends Before Fact Failed r s h failed fact;
}

module _ {S A : Type 0} {Done : A → S → Type 0} {Failed : S → Type 0} where
  closed-Ends :
      (close : Exec S Unit) (r : Result A × S)
      → ((a : A) → Keeps (Done a) close)
      → Keeps Failed close
      → Ends Done Failed r
      → Ends Done Failed (after_all close r)
  closed-Ends close (ok a, s) done failed h = (done a).at s h
  closed-Ends close (err e, s) done failed h = failed.at s h
  closed-Ends close (panic, s) done failed h = failed.at s h

module _ {S A : Type 0} {Before : S → Type 0} {Done : A → S → Type 0} {Failed : S → Type 0} where
  -- What a deferred call keeps.
  pub Yields-deferring :
      (close : Exec S Unit) (m : Exec S A)
      → Yields Before Done Failed m
      → ((a : A) → Keeps (Done a) close)
      → Keeps Failed close
      → Yields Before Done Failed (deferring close m)
  unfolding deferring
  Yields-deferring close m k done failed = record {
    ends = λ s h. closed-Ends close (m s) done failed (k.ends s h);
  }

  -- A value that is known goes on as the value that it is.
  pub Yields-known :
      {X : Type 0} (known : X) (f : X → Exec S A) (given : X)
      → Yields Before Done Failed (f known)
      → Yields (λ s. (given ≡ known) × Before s) Done Failed (f given)
  Yields-known known f given k = record {
    ends = λ s (e, h). (subst (λ x. Yields Before Done Failed (f x)) (sym e) k).ends s h;
  }

module _ {S : Type 0} {Before Failed : S → Type 0} {Done : Unit → S → Type 0} where
  pub Yields-modify :
      (f : S → S) → ((s : S) → Before s → Done tt (f s)) → Yields Before Done Failed (modify f)
  unfolding modify
  Yields-modify f k = record { ends = k }

-- What an action with the result `tt` leads to where it does end with it.
done_at :
    {S : Type 0} (Done Failed : S → Type 0) (r : Result Unit × S)
    → Ends (λ u. Done) Failed r
    → r.0 ≡ ok tt
    → Done r.1
done_at Done Failed (ok tt, s) h e = h
done_at Done Failed (err x, s) h e = cc
done_at Done Failed (panic, s) h e = cc

pub Yields-done :
    {S : Type 0} {Before Done Failed : S → Type 0} (m : Exec S Unit)
    → Yields Before (λ u. Done) Failed m
    → (s : S) → Before s
    → (m s).0 ≡ ok tt
    → Done (m s).1
Yields-done {Done = Done} {Failed = Failed} m k s h e = done_at Done Failed (m s) (k.ends s h) e

pub Ends-weaken :
    {S A : Type 0} {Done Less : A → S → Type 0} {Failed Fewer : S → Type 0} (r : Result A × S)
    → ((a : A) (s : S) → Done a s → Less a s)
    → ((s : S) → Failed s → Fewer s)
    → Ends Done Failed r
    → Ends Less Fewer r
Ends-weaken (ok a, s) done failed h = done a s h
Ends-weaken (err e, s) done failed h = failed s h
Ends-weaken (panic, s) done failed h = failed s h

both_Ends : {S A : Type 0} (Q : S → Type 0) (r : Result A × S) → Q r.1 → Ends (λ a. Q) Q r
both_Ends Q (ok a, s) h = h
both_Ends Q (err e, s) h = h
both_Ends Q (panic, s) h = h

pub Leads→Yields :
    {S A : Type 0} {P Q : S → Type 0} (m : Exec S A) → Leads P Q m → Yields P (λ a. Q) Q m
Leads→Yields {Q = Q} m k = record { ends = λ s h. both_Ends Q (m s) (k.at s h) }
