-- ===== src/Controller/Interfaces/Unwinding.antt =====
-- controller/interfaces.go: what Teardown does after a Setup that failed.
use colex.Base.{ℕ, String, Bool, true, false, ◌≡◌, refl, ◌∙◌, arith, if◌then◌else◌}
use colex.Base.Keeps.{Keeps, Keeps-gets, Keeps-modify, Keeps-within}
use colex.Base.Outcome.{Error, Result, Exec, ok, err, panic, pure, modify}
use colex.Base.Yields.{Yields, Ends, Yields-bind, Yields-keep, Yields-modify}
use colex.IpPool.{IpPool, IpInterface, free_assignment}
use colex.Os.{Os, Host}
use colex.Controller.Interfaces.{Wired, on_host, setup_ip, give_back, teardown_ip}

abbrev NotSetup : Wired → Type 0
NotSetup w = w.interface.is_setup ≡ false

on_host-NotSetup : {A : Type 0} (m : Exec Host A) → Keeps NotSetup (on_host m)
on_host-NotSetup m = Keeps-within _ _ m (λ w s. record { at = λ h k. k }) (λ w s. s)

-- A step of Setup before the last one
step-Keeps :
    {A : Type 0} (m : Exec Wired A) → Keeps NotSetup m → Yields NotSetup (λ a. NotSetup) NotSetup m
step-Keeps m k = Yields-keep m k (λ a w h. h) (λ w h. h)

failed_at :
    (r : Result Unit × Wired) (e : Error)
    → Ends (λ u w. Unit) NotSetup r
    → r.0 ≡ err e
    → NotSetup r.1
failed_at (ok u, w) e h is = cc
failed_at (err x, w) e h is = h
failed_at (panic, w) e h is = h

-- The pool after the interface's slice was given back, if it has where to
abbrev pub returned_pool : IpInterface → IpPool → IpPool
returned_pool i p = if i.freeer then free_assignment i.slice p else p

give_back_lem :
    (i : IpInterface) (os : Os) (h : Host)
    → give_back os i h ≡ (ok tt, record h { pool = returned_pool i h.pool })
unfolding give_back modify pure
give_back_lem i os h = ground arith

otherwise :
    (b : Bool) (one other : Exec Host Unit) (h : Host)
    → b ≡ false
    → (if b then one else other) h ≡ other h
otherwise true one other h e = cc
otherwise false one other h e = refl

module _ (os : Os) (id_hex : String) (pid index : ℕ) where
  setup_ip-NotSetup : Yields NotSetup (λ u w. Unit) NotSetup (setup_ip os id_hex pid index)
  unfolding setup_ip
  setup_ip-NotSetup = Yields-bind _ _ (step-Keeps _ (Keeps-gets _)) (λ wants.
      Yields-bind _ _ (step-Keeps _ (on_host-NotSetup _)) (λ u1.
        Yields-bind _ _ (step-Keeps _ (Keeps-modify _ (λ w h. h))) (λ u2.
          Yields-bind _ _ (step-Keeps _ (Keeps-gets _)) (λ named.
            Yields-bind _ _ (step-Keeps _ (on_host-NotSetup _))
              (λ u3. Yields-modify _ (λ w h. tt))))))

  not_setup :
      (i : IpInterface) (h : Host)
      → i.is_setup ≡ false
      → teardown_ip os i h ≡ (ok tt, record h { pool = returned_pool i h.pool })
  unfolding teardown_ip
  not_setup i h e = otherwise i.is_setup _ _ h e ∙ give_back_lem i os h

  -- After a Setup that failed, wherever it did, Teardown gives the interface's addresses back, if it has where to,
  -- and does nothing else: it makes no call of the system.
  pub setup_ip_failed-teardown_ip :
      (w : Wired) (e : Error)
      → w.interface.is_setup ≡ false
      → (setup_ip os id_hex pid index w).0 ≡ err e
      → let left = (setup_ip os id_hex pid index w).1 in
        teardown_ip os left.interface left.host
        ≡ (ok tt, record left.host { pool = returned_pool left.interface left.host.pool })
  setup_ip_failed-teardown_ip w e new failed =
      let left = (setup_ip os id_hex pid index w).1 in
      not_setup left.interface left.host
        (failed_at (setup_ip os id_hex pid index w) e (setup_ip-NotSetup.ends w new) failed)
