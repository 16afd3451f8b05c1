-- ===== src/Client/Certificate.antt =====
-- getClientCert: it calls itself once at most.
use colex.Base.{
  ℕ, String, Bool, true, false, Option, none, some, ◌≡◌, ◌≢◌, refl, ap, ◌∙◌, arith, if◌then◌else◌,
}
use colex.Base.Outcome.{Result, Exec, ok, err, panic, bad_key_pair, pure, lift, ◌>>◌}
use colex.Base.Text.{Bytes}
use colex.Base.Yields.{Yields, Ends, Yields-bind, Yields-pure, Yields-lift}
use colex.Client.{World, Outside, write, load_pair, mint_pair, get_client_cert}
use colex.Client.Pinning.{Anything, or_fail-Yields, gets-Yields, modify-Yields}

module _ {R : Type 0} (outside : Outside R) (serv : String) where
  -- Both files of the pair are there.
  record HasPair (w : World R) : Type 0 where
    cert : Bytes
    key : Bytes
    cert_there : w.cert_pem ≡ some cert
    key_there : w.key_pem ≡ some key

  -- A certificate was found.
  abbrev Found : Option Bytes → World R → Type 0
  Found o w = o ≢ none

  write-Yields :
      (name : String) (stored : World R → World R) (Before After : World R → Type 0)
      → ((w : World R) (n : ℕ) → Before w → Before (record w { writes = n }))
      → ((w : World R) → Before w → After (stored w))
      → Yields Before (λ u w. After w) (Anything outside serv) (write outside serv name stored)
  unfolding write
  write-Yields name stored Before After counts stores =
      Yields-bind _ _ (gets-Yields outside serv _ Before) (λ n.
        Yields-bind _ _ (modify-Yields outside serv _ _ Before (λ w (a, h). counts w _ h)) (λ u.
          Yields-bind _ _ (or_fail-Yields outside serv _ Before)
            (λ v. modify-Yields outside serv stored _ After (λ w (a, h). stores w h))))

  abbrev HasCert : Bytes → World R → Type 0
  HasCert c w = w.cert_pem ≡ some c

  mint_pair-Yields :
      Yields (λ w. Unit) (λ u w. HasPair w) (Anything outside serv) (mint_pair outside serv)
  unfolding mint_pair
  mint_pair-Yields =
      Yields-bind _ _ (Yields-lift outside.mint (λ w. Unit) (λ m. Unit) (λ w h. tt) (λ m e. tt))
        (λ minted.
          Yields-bind _ _ (write-Yields _ _ _ (HasCert minted.0) (λ w n h. h) (λ w h. refl)) (λ u.
            write-Yields _ _ (HasCert minted.0) HasPair (λ w n h. h)
              (λ w h. record {
                cert = minted.0;
                key = minted.1;
                cert_there = h;
                key_there = refl;
              })))

  given_pair :
      (cert key : Bytes) (fits : Bool) (loaded : Option Bytes)
      → (if fits then ok (some cert) else err bad_key_pair) ≡ ok loaded
      → loaded ≢ none
  given_pair cert key true loaded e = ground (arith, e)
  given_pair cert key false loaded e = cc

  load_pair-found :
      (c k : Option Bytes) (cert key : Bytes) (loaded : Option Bytes)
      → c ≡ some cert
      → k ≡ some key
      → load_pair outside serv c k ≡ ok loaded
      → loaded ≢ none
  load_pair-found (some c) (some k) cert key loaded ec ek e =
      given_pair c k (outside.pair_ok c k) loaded e
  load_pair-found (some c) none cert key loaded ec ek e = cc
  load_pair-found none k cert key loaded ec ek e = cc

  -- What is done with what was loaded
  abbrev use_loaded : ℕ → Option Bytes → Exec (World R) (Option Bytes)
  use_loaded fuel loaded = elim loaded [
    | some c ↦ pure (some c)
    | none ↦ (do mint_pair outside serv; get_client_cert outside serv fuel)
  ]

  lift-Found :
      (r : Result (Option Bytes)) (v : World R)
      → ((o : Option Bytes) → r ≡ ok o → o ≢ none)
      → Ends Found (Anything outside serv) (r, v)
  lift-Found (ok o) v h = h o refl
  lift-Found (err e) v h = tt
  lift-Found panic v h = tt

  -- With one call left, once the pair is there
  last_call : Yields HasPair Found (Anything outside serv) (get_client_cert outside serv 1)
  unfolding get_client_cert lift
  last_call = Yields-bind _ _ (or_fail-Yields outside serv _ HasPair) (λ u.
      Yields-bind _ _ (gets-Yields outside serv _ (λ w. (outside.home_error ≡ none) × HasPair w))
        (λ w. Yields-bind _ _ (loads w) (λ loaded. found loaded)))
    where
      loads :
          (w : World R)
          → Yields
              (λ v. (w ≡ v) × ((outside.home_error ≡ none) × HasPair v))
              (λ (o : Option Bytes) v. o ≢ none)
              (Anything outside serv)
              (lift (load_pair outside serv w.cert_pem w.key_pem))
      loads w = record {
        ends = λ v (same, (home, p)).
            lift-Found (load_pair outside serv w.cert_pem w.key_pem) v (λ o e.
              load_pair-found w.cert_pem w.key_pem p.cert p.key o
                (ap (λ (x : World R). x.cert_pem) same ∙ p.cert_there)
                (ap (λ (x : World R). x.key_pem) same ∙ p.key_there) e);
      }

      found :
          (loaded : Option Bytes)
          → Yields (λ v. loaded ≢ none) Found (Anything outside serv) (use_loaded 0 loaded)
      found (some c) = Yields-pure (some c) (λ w h. h)
      found none = record { ends = λ w h. elim (h refl) [ ] }

  both_calls : Yields (λ w. Unit) Found (Anything outside serv) (get_client_cert outside serv 2)
  unfolding get_client_cert lift
  both_calls = Yields-bind _ _ (or_fail-Yields outside serv _ (λ w. Unit)) (λ u.
      Yields-bind _ _ (gets-Yields outside serv _ (λ w. (outside.home_error ≡ none) × Unit))
        (λ w. Yields-bind _ _ (loads w) (λ loaded. found loaded)))
    where
      loads :
          (w : World R)
          → Yields
              (λ v. (w ≡ v) × ((outside.home_error ≡ none) × Unit))
              (λ (o : Option Bytes) v. Unit × Unit)
              (Anything outside serv)
              (lift (load_pair outside serv w.cert_pem w.key_pem))
      loads w = record {
        ends = λ v h.
            (Yields-lift (load_pair outside serv w.cert_pem w.key_pem) (λ (v : World R). Unit)
                (λ o. Unit) (λ v h. tt) (λ o e. tt)).ends
              v tt;
      }

      found :
          (loaded : Option Bytes)
          → Yields (λ v. Unit × Unit) Found (Anything outside serv) (use_loaded 1 loaded)
      found (some c) = Yields-pure (some c) (λ w h e. cc)
      found none =
          Yields-bind _ _ (record { ends = λ w h. mint_pair-Yields.ends w tt }) (λ u. last_call)

  never_none :
      (r : Result (Option Bytes) × World R) → Ends Found (Anything outside serv) r → r.0 ≢ ok none
  never_none (ok o, w) h e = h (ground (arith, e))
  never_none (err x, w) h e = cc
  never_none (panic, w) h e = cc

  -- getClientCert calls itself once at most: it never asks for a third round.
  pub get_client_cert-found : (w : World R) → (get_client_cert outside serv 2 w).0 ≢ ok none
  get_client_cert-found w = never_none (get_client_cert outside serv 2 w) (both_calls.ends w tt)
