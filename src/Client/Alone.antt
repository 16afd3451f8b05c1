-- ===== src/Client/Alone.antt =====
-- colex-cli: what the client does by itself.
use colex.Base.{ℕ, zero, suc, String, Option, none, some, List, [], ◌∷◌}
use colex.Base.Keeps.{Keeps, keeps_rules, Keeps-bind, Keeps-if, Keeps-modify}
use colex.Base.Map.{Map}
use colex.Base.Outcome.{Error, Result, pure, raise, ◌>>◌}
use colex.Base.Text.{Bytes}
use colex.Wire.{SiloConf, SourceFile}
use colex.Server.{Reply}
use colex.Client.{
  World, Outside, or_fail, write, prompt, get_pinned_cert, pin_certificate, pin_first, check_pinned,
  verify_peer_certificate, mint_pair, get_client_cert,
}
use colex.Client.Commands.{say, pack_with, pack_up_packet, up_one}

-- What the client does by itself leaves the other side alone.
module _ {R : Type 0} (outside : Outside R) (serv : String) (P : R → Type 0) where
  abbrev Far : World R → Type 0
  Far w = P w.remote

  or_fail-Far : (o : Option Error) → Keeps Far (or_fail outside serv o)
  or_fail-Far none = search keeps_rules
  or_fail-Far (some e) = search keeps_rules

  write-Far :
      (name : String) (stored : World R → World R)
      → ((w : World R) → Far w → Far (stored w))
      → Keeps Far (write outside serv name stored)
  unfolding write
  write-Far name stored k = Keeps-bind _ _ (search keeps_rules) (λ n.
      Keeps-bind _ _ (Keeps-modify _ (λ w h. h))
        (λ u. Keeps-bind _ _ (or_fail-Far _) (λ v. Keeps-modify stored k)))

  prompt-Far : Keeps Far (prompt outside serv)
  unfolding prompt
  prompt-Far =
      Keeps-bind _ _ (search keeps_rules)
        (λ typed. Keeps-bind _ _ (Keeps-modify _ (λ w h. h)) (λ u. search keeps_rules))

  pin_first-Far : (certs : List Bytes) → Keeps Far (pin_first outside serv certs)
  unfolding pin_first pin_certificate
  pin_first-Far [] = search keeps_rules
  pin_first-Far (c ∷ cs) = Keeps-bind _ _ (or_fail-Far _) (λ u. write-Far _ _ (λ w h. h))

  check_pinned-Far : (found : Option Bytes) → Keeps Far (check_pinned outside serv found)
  unfolding check_pinned
  check_pinned-Far (some pinned) = search keeps_rules
  check_pinned-Far none =
      Keeps-bind _ _ prompt-Far
        (λ answer. Keeps-if _ _ (raise _) (pin_first-Far _) (search keeps_rules))

  pub verify-Far : Keeps Far (verify_peer_certificate outside serv)
  unfolding verify_peer_certificate get_pinned_cert
  verify-Far =
      Keeps-bind _ _
        (Keeps-bind _ _ (or_fail-Far _)
          (λ u. Keeps-bind _ _ (or_fail-Far _) (λ v. search keeps_rules)))
        check_pinned-Far

  mint_pair-Far : Keeps Far (mint_pair outside serv)
  unfolding mint_pair
  mint_pair-Far =
      Keeps-bind _ _ (search keeps_rules)
        (λ m. Keeps-bind _ _ (write-Far _ _ (λ w h. h)) (λ u. write-Far _ _ (λ w h. h)))

  pub get_client_cert-Far : (fuel : ℕ) → Keeps Far (get_client_cert outside serv fuel)
  unfolding get_client_cert
  get_client_cert-Far zero = search keeps_rules
  get_client_cert-Far (suc fuel) = Keeps-bind _ _ (or_fail-Far _) (λ u.
      Keeps-bind _ _ (search keeps_rules) (λ w.
        Keeps-bind _ _ (search keeps_rules) (λ loaded. found loaded (get_client_cert-Far fuel))))
    where
      found :
          (loaded : Option Bytes)
          → Keeps Far (get_client_cert outside serv fuel)
          → Keeps Far (elim loaded [
            | some c ↦ pure (some c)
            | none ↦ (do mint_pair outside serv; get_client_cert outside serv fuel)
          ])
      found (some c) k = search keeps_rules
      found none k = Keeps-bind _ _ mint_pair-Far (λ u. k)

  pub pack_with-Far :
      (kind : String) (content : String → Result Bytes) (m : Map SourceFile)
      → Keeps Far (pack_with outside serv kind content m)
  unfolding pack_with
  pack_with-Far kind content [] = search keeps_rules
  pack_with-Far kind content ((name, f) ∷ rest) =
      Keeps-bind _ _ (search keeps_rules)
        (λ d. Keeps-bind _ _ (pack_with-Far kind content rest) (λ o. search keeps_rules))

  pub pack_up_packet-Far : (c : SiloConf) → Keeps Far (pack_up_packet outside serv c)
  unfolding pack_up_packet
  pack_up_packet-Far c =
      Keeps-bind _ _ (pack_with-Far _ _ _)
        (λ a. Keeps-bind _ _ (pack_with-Far _ _ _) (λ b. search keeps_rules))

  pub say-Far : (fields : List String) → Keeps Far (say outside serv fields)
  unfolding say
  say-Far fields = Keeps-modify _ (λ w h. h)

  pub up_one-Far : (c : SiloConf) (r : Reply) → Keeps Far (up_one outside serv c r)
  unfolding up_one
  up_one-Far c r = Keeps-if _ _ _ (Keeps-bind _ _ (search keeps_rules) (λ p. say-Far _)) (say-Far _)
