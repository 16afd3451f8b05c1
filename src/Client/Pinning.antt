-- ===== src/Client/Pinning.antt =====
-- certpin.go and client(): what a handshake that is accepted says about the server's certificate.
use Prim.Native.Char.{code}
use colex.Base.{
  ℕ, String, Bool, true, false, ◌==◌, Option, none, some, List, [], ◌∷◌, ◌≡◌, refl, sym, subst,
  arith, if◌then◌else◌,
}
use colex.Base.Map.{lookup, lookup-insert_self}
use colex.Base.Outcome.{
  Error, Result, ok, err, panic, no_pinned_certificate, pinned_mismatch, pure, raise, crash, gets,
  modify, ◌>>=◌,
}
use colex.Base.Text.{Bytes, same_bytes}
use colex.Base.Yields.{Yields, Ends, Yields-bind, Yields-pure, Yields-raise}
use colex.Client.{
  World, Outside, sanitize_address, says_yes, any_equal, or_fail, write, prompt, get_pinned_cert,
  pin_certificate, pin_first, check_pinned, verify_peer_certificate,
}

unfoldable pub holds : ℕ → String → Bool
holds sep String.[] = false
holds sep (String.◌∷◌ c s) = let later = holds sep s in if code c == sep then true else later

-- The name of a pin's file has no colon, no slash and no quote, so it names a file in known_hosts itself.
pub sanitize_address-plain :
    (address : String)
    → (holds 58 (sanitize_address address) ≡ false)
      × ((holds 47 (sanitize_address address) ≡ false)
          × ((holds 39 (sanitize_address address) ≡ false)
              × (holds 34 (sanitize_address address) ≡ false)))
unfolding sanitize_address holds
sanitize_address-plain String.[] = (refl, (refl, (refl, refl)))
sanitize_address-plain (String.◌∷◌ c s) =
    let (colon, (slash, (quote, double))) = sanitize_address-plain s in
    (ground arith, (ground arith, (ground arith, ground arith)))

same_bytes_refl : (bs : Bytes) → same_bytes bs bs ≡ true
unfolding same_bytes
same_bytes_refl [] = refl
same_bytes_refl (b ∷ bs) = ground (arith, same_bytes_refl bs)

first_equal : (c : Bytes) (cs : List Bytes) → any_equal c (c ∷ cs) ≡ true
unfolding any_equal
first_equal c cs = ground (arith, same_bytes_refl c)

module _ {R : Type 0} (outside : Outside R) (serv : String) where
  -- The server is pinned, with one of the certificates that it presents.
  pub record IsPinned (w : World R) : Type 0 where
    pub home : outside.home_error ≡ none
    pub readable : outside.pin_error (sanitize_address serv) ≡ none
    pub pinned : Bytes
    pub found : lookup (sanitize_address serv) w.known_hosts ≡ some pinned
    pub presented : any_equal pinned outside.raw_certs ≡ true

  abbrev pub Anything : World R → Type 0
  Anything w = Unit

  pub or_fail-Yields :
      (o : Option Error) (Before : World R → Type 0)
      → Yields Before (λ u w. (o ≡ none) × Before w) Anything (or_fail outside serv o)
  or_fail-Yields none Before = Yields-pure tt (λ w h. (refl, h))
  or_fail-Yields (some e) Before = Yields-raise e (λ w h. tt)

  pub gets-Yields :
      {A : Type 0} (f : World R → A) (Before : World R → Type 0)
      → Yields Before (λ a w. (a ≡ f w) × Before w) Anything (gets f)
  unfolding gets
  gets-Yields f Before = record { ends = λ w h. (refl, h) }

  pub modify-Yields :
      (f : World R → World R) (Before After : World R → Type 0)
      → ((w : World R) → Before w → After (f w))
      → Yields Before (λ u w. After w) Anything (modify f)
  unfolding modify
  modify-Yields f Before After k = record { ends = k }

  abbrev Ready : World R → Type 0
  Ready w = (outside.pin_error (sanitize_address serv) ≡ none) × (outside.home_error ≡ none)

  pin_first-Yields :
      (certs : List Bytes)
      → certs ≡ outside.raw_certs
      → Yields Ready (λ u w. IsPinned w) Anything (pin_first outside serv certs)
  unfolding pin_first pin_certificate write crash
  pin_first-Yields [] same = record { ends = λ w h. tt }
  pin_first-Yields (c ∷ cs) same = Yields-bind _ _ (or_fail-Yields _ Ready) (λ u1.
      Yields-bind _ _ (gets-Yields _ (λ w. (outside.home_error ≡ none) × Ready w)) (λ n.
        Yields-bind _ _ (modify-Yields _ _ Ready (λ w (a, (b, r)). r)) (λ u2.
          Yields-bind _ _ (or_fail-Yields _ Ready) (λ u3.
            modify-Yields _ _ IsPinned (λ w (a, (readable, home)). record {
              home = home;
              readable = readable;
              pinned = c;
              found = lookup-insert_self (sanitize_address serv) c w.known_hosts;
              presented =
                  subst (λ (certs : List Bytes). any_equal c certs ≡ true) same (first_equal c cs);
            })))))

  -- What getPinnedCert found
  abbrev Looked : Option Bytes → World R → Type 0
  Looked found w = (found ≡ lookup (sanitize_address serv) w.known_hosts) × Ready w

  matched :
      (pinned : Bytes) (same : Bool)
      → any_equal pinned outside.raw_certs ≡ same
      → Yields
          (Looked (some pinned))
          (λ u w. IsPinned w)
          Anything
          (if same then pure tt else raise pinned_mismatch)
  matched pinned true e = Yields-pure tt (λ w (found, (readable, home)). record {
    home = home;
    readable = readable;
    pinned = pinned;
    found = sym found;
    presented = e;
  })
  matched pinned false e = Yields-raise pinned_mismatch (λ w h. tt)

  answered :
      (yes_said : Bool)
      → Yields Ready
          (λ u w. IsPinned w)
          Anything
          (if yes_said
            then pin_first outside serv outside.raw_certs
            else raise no_pinned_certificate)
  answered true = pin_first-Yields outside.raw_certs refl
  answered false = Yields-raise no_pinned_certificate (λ w h. tt)

  check_pinned-Yields :
      (found : Option Bytes)
      → Yields (Looked found) (λ u w. IsPinned w) Anything (check_pinned outside serv found)
  unfolding check_pinned prompt
  check_pinned-Yields (some pinned) = matched pinned (any_equal pinned outside.raw_certs) refl
  check_pinned-Yields none =
      Yields-bind _ _
        (Yields-bind _ _ (gets-Yields _ (Looked none)) (λ typed.
          Yields-bind _ _ (modify-Yields _ _ Ready (λ w (a, (b, r)). r))
            (λ u. Yields-pure _ (λ w r. r))))
        (λ answer. answered (says_yes answer))

  verify-Yields :
      Yields (λ w. Unit) (λ u w. IsPinned w) Anything (verify_peer_certificate outside serv)
  unfolding verify_peer_certificate get_pinned_cert gets
  verify-Yields =
      Yields-bind _ _
        (Yields-bind _ _ (or_fail-Yields _ (λ w. Unit)) (λ u1.
          Yields-bind _ _ (or_fail-Yields _ (λ w. (outside.home_error ≡ none) × Unit))
            (λ u2. gets_found)))
        check_pinned-Yields
    where
      gets_found :
          Yields
            (λ w.
              (outside.pin_error (sanitize_address serv) ≡ none)
              × ((outside.home_error ≡ none) × Unit))
            Looked
            Anything
            (gets (λ (w : World R). lookup (sanitize_address serv) w.known_hosts))
      gets_found = record { ends = λ w (readable, (home, u)). (refl, (readable, home)) }

  accepted_lem :
      (r : Result {0} Unit × World R) (t : World R)
      → Ends (λ u w. IsPinned w) Anything r
      → r ≡ (ok tt, t)
      → IsPinned t
  accepted_lem (ok u, w) t h e = let it : w ≡ t = ground arith in subst IsPinned it h
  accepted_lem (err x, w) t h e = cc
  accepted_lem (panic, w) t h e = cc

  pub verify_peer_certificate-IsPinned :
      (w t : World R) → verify_peer_certificate outside serv w ≡ (ok tt, t) → IsPinned t
  verify_peer_certificate-IsPinned w t e =
      accepted_lem (verify_peer_certificate outside serv w) t (verify-Yields.ends w tt) e

  again_lem : (t : World R) → IsPinned t → verify_peer_certificate outside serv t ≡ (ok tt, t)
  unfolding verify_peer_certificate get_pinned_cert check_pinned ◌>>=◌
  again_lem t p =
      let home = p.home in
      let readable = p.readable in
      let found = p.found in
      let presented = p.presented in rw (home, readable, found, presented) refl

  -- The next handshake with a server that was accepted, when it presents the same certificates, is
  -- accepted without a question and changes nothing.
  pub verify_peer_certificate-again :
      (w t : World R)
      → verify_peer_certificate outside serv w ≡ (ok tt, t)
      → verify_peer_certificate outside serv t ≡ (ok tt, t)
  verify_peer_certificate-again w t e = again_lem t (verify_peer_certificate-IsPinned w t e)
