-- ===== src/Base/Outcome.antt =====
-- The result of a Go function, and functions that change an object and may fail.
-- What was written before a failure stays written, so the state comes back beside every result.
use Prim.Native.String.{String}
use mathlib.Core.Option.{Option, none, some}

-- The errors that the code makes itself, and those that the system hands it.
pub data Error : Type 0 where
  pool_exhausted already_running not_running not_pending : Error
  root_and_folder tarball_path_unset forwarding_disabled : Error
  cpu_below_minimum unknown_base unknown_image_type no_bind no_silo : Error
  device_exists short_forwarding_read no_mountpoint : Error
  not_authorized no_tls_certificate unknown_auth_mode line_split_failed line_too_long
        expected_certificate :
      Error
  bad_key_source bad_key_pair no_address_pool no_listener : Error
  bad_invocation wait_timed_out : Error
  randomness_not_filled insecure_key_bit_size no_certificate_data no_key_data : Error
  no_pinned_certificate pinned_mismatch rpc_refused decode_failed : Error
  no_serv_flag unknown_command too_few_arguments : Error
  system : String → Error

pub data Result {ℓ} (A : Type ℓ) : Type ℓ where
  ok : A → Result A
  err : Error → Result A
  -- a nil dereference, a write to a nil map, a slice out of bounds
  panic : Result A

abbrev pub Exec {ℓ} : Type ℓ → Type ℓ → Type ℓ
Exec S A = S → Result A × S

module _ {ℓ} {S A : Type ℓ} where
  unfoldable pub pure : A → Exec S A
  pure a s = (ok a, s)

  unfoldable pub raise : Error → Exec S A
  raise e s = (err e, s)

  unfoldable pub crash : Exec S A
  crash s = (panic, s)

  unfoldable pub lift : Result A → Exec S A
  lift r s = (r, s)

  unfoldable pub gets : (S → A) → Exec S A
  gets f s = (ok (f s), s)

unfoldable pub modify {ℓ} : {S : Type ℓ} → (S → S) → Exec S Unit
modify f s = (ok tt, f s)

module _ {ℓ} {S A : Type ℓ} where
  abbrev pub recover_with : (S → S) → Result A × S → Result A × S
  recover_with cleanup (ok a, s) = (ok a, s)
  recover_with cleanup (err e, s) = (err e, cleanup s)
  recover_with cleanup (panic, s) = (panic, s)

  -- `if err != nil { cleanup; return err }` around a call
  unfoldable pub on_error : Exec S A → (S → S) → Exec S A
  on_error m cleanup s = recover_with cleanup (m s)

  abbrev pub after_all : Exec S Unit → Result A × S → Result A × S
  after_all close (r, s) = (r, (close s).1)

  -- `defer close()` before a call; what close returns is dropped
  unfoldable pub deferring : Exec S Unit → Exec S A → Exec S A
  deferring close m s = after_all close (m s)

module _ {S A : Type 0} where
  abbrev pub inspected : Result A × S → Result (Option Error) × S
  inspected (ok a, s) = (ok none, s)
  inspected (err e, s) = (ok (some e), s)
  inspected (panic, s) = (panic, s)

  -- A call whose error the code inspects; a panic still goes on.
  unfoldable pub attempt : Exec S A → Exec S (Option Error)
  attempt m s = inspected (m s)

module _ {ℓ} {S T A : Type ℓ} where
  abbrev pub put_back : (S → T) → Result A × S → Result A × T
  put_back store (r, s) = (r, store s)

  -- The same steps on a part of a larger state.
  unfoldable pub within : (T → S) → (S → T → T) → Exec S A → Exec T A
  within part store m t = put_back (λ s. store s t) (m (part t))

module _ {ℓ} {S A B : Type ℓ} where
  abbrev pub continue : Result A × S → (A → Exec S B) → Result B × S
  continue (ok a, s) f = f a s
  continue (err e, s) f = (err e, s)
  continue (panic, s) f = (panic, s)

  infixl 10 ◌>>=◌ ◌>>◌
  -- Opening this opens all of the above.
  unfoldable pub ◌>>=◌ : Exec S A → (A → Exec S B) → Exec S B
  unfolding pure raise crash lift gets modify on_error deferring attempt within
  ◌>>=◌ m f s = continue (m s) f

  abbrev pub ◌>>◌ : Exec S A → Exec S B → Exec S B
  m >> n = m >>= λ _. n
