-- ===== src/Server/Requests/Access.antt =====
-- serv.go: requests that must not change anything, and notices that come too late.
use colex.Base.{String, Option, some, ◌≡◌, ◌≢◌, refl, inl, inr, arith, same_text_iff}
use colex.Base.Int.{ℤ}
use colex.Base.Map.{lookup}
use colex.Base.Outcome.{Error, Result, ok, err, panic, not_authorized, pure, ◌>>=◌}
use colex.Config.{auth_mode_open}
use colex.Auth.{AuthorizedUser, check_authorized}
use colex.Auth.Access.{IsListed, check_authorized-IsListed}
use colex.Controller.Types.{Silo}
use colex.Server.{Server, Env}
use colex.Server.Requests.{Request, serve_http, admitted, collect_finished}

module _ (env : Env) where
  error_unchanged :
      (now : ℤ) (r : Request) (e : Error) (s : Server) → (admitted env now r (err e) s).1 ≡ s
  unfolding admitted pure
  error_unchanged now r not_authorized s = refl
  error_unchanged now r _ s = refl

  -- In every mode but the open one, a request for anything but /enroll changes nothing unless its client
  -- presents the certificate of a listed user.
  pub serve_http-unlisted :
      (now : ℤ) (r : Request) (s : Server)
      → s.config.mode ≢ auth_mode_open
      → r.path ≢ "/enroll"
      → ((u : Option AuthorizedUser) → ¬ IsListed env.codec s.certs r.peers u)
      → (serve_http env now r s).1 ≡ s
  unfolding serve_http ◌>>=◌ admitted
  serve_http-unlisted now r s closed other unlisted =
      unchanged (check_authorized env.codec s.config env.certs_file s.certs r.path r.peers) refl
    where
      unchanged :
          (c : Result (Option AuthorizedUser))
          → check_authorized env.codec s.config env.certs_file s.certs r.path r.peers ≡ c
          → (admitted env now r c s).1 ≡ s
      unchanged (ok u) e =
          elim (check_authorized-IsListed env.codec s.config env.certs_file s.certs r.path r.peers u
            e) [
              | inl open_mode ↦ absurd (closed open_mode)
              | inr (inl enrolling) ↦ absurd (other enrolling)
              | inr (inr listed) ↦ absurd (unlisted u listed)
            ]
      unchanged (err x) e = error_unchanged now r x s
      unchanged panic e = refl

  -- A notice that names a silo whose ID is not that of the silo now running under the name changes
  -- nothing: a silo that was replaced does not take its successor down.
  pub collect_finished_stale :
      (now : ℤ) (name id : String) (silo : Silo) (s : Server)
      → lookup name s.silos ≡ some silo
      → silo.id_hex ≢ id
      → collect_finished env now name id s ≡ (ok tt, s)
  unfolding collect_finished ◌>>=◌
  collect_finished_stale now name id silo s e h =
      rw e (ground (arith, same_text_iff silo.id_hex id))
