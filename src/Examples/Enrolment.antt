-- ===== src/Examples/Enrolment.antt =====
-- Enrolment, authorization and configuration at one certificates file.
use colex.Base.{
  ℕ, ◌+◌, ◌-◌, ◌<◌, length, String, none, some, [], ◌∷◌, map, ◌≡◌, ◌≢◌, refl, arith, ◌⊎◌,
}
use colex.Base.Int.{ℤ, pos, negsuc}
use colex.Base.Outcome.{Result, ok, err, not_authorized, line_split_failed}
use colex.Base.Text.{Bytes, codes, split, same_bytes}
use colex.Config.{Config, from_flags, auth_mode_open}
use colex.Auth.{
  Codec, CertsFile, AuthorizedUser, sanitized, check_certificate_authorized, enroll_certificate,
  check_authorized, enrolled_row,
}
use colex.Auth.Rows.{IsFree}
use colex.Auth.Scanning.{IsCodec, user_of}
use colex.Auth.Enrollment.{enroll_certificate-check, enroll_certificate-others}
use colex.Auth.Access.{IsListed, check_authorized-IsListed}

-- A codec that prints above the blanks.
abbrev shift : Bytes → Bytes
shift = map (λ b. b + 33)

abbrev print_ℤ : ℤ → Bytes
print_ℤ (pos n) = (n + 33) ∷ []
print_ℤ (negsuc n) = 33 ∷ (n + 33) ∷ []

abbrev read_ℤ : Bytes → Result ℤ
read_ℤ (x ∷ []) = ok (pos (x - 33))
read_ℤ (_ ∷ x ∷ []) = ok (negsuc (x - 33))
read_ℤ _ = err line_split_failed

abbrev pub codec : Codec
codec = record {
  atoi = read_ℤ;
  itoa = print_ℤ;
  base64 = shift;
  role_json = λ role. role;
  marshal_key = λ cert. ok cert;
}

shift-IsFree : (b : ℕ) (bs : Bytes) → b < 33 → IsFree b (shift bs)
shift-IsFree b [] h = tt
shift-IsFree b (x ∷ bs) h = ((λ e. omega arith), shift-IsFree b bs h)

print_ℤ-IsFree : (b : ℕ) (n : ℤ) → b < 33 → IsFree b (print_ℤ n)
print_ℤ-IsFree b (pos n) h = ((λ e. omega arith), tt)
print_ℤ-IsFree b (negsuc n) h = ((λ e. omega arith), ((λ e. omega arith), tt))

read-print : (n : ℤ) → read_ℤ (print_ℤ n) ≡ ok n
read-print (pos n) = let same : n + 33 - 33 ≡ n = omega arith in rw same refl
read-print (negsuc n) = let same : n + 33 - 33 ≡ n = omega arith in rw same refl

read_error : (bs : Bytes) → read_ℤ bs ≢ err not_authorized
read_error [] = λ e. ground arith
read_error (x ∷ []) = λ e. ground arith
read_error (_ ∷ x ∷ []) = λ e. ground arith
read_error (_ ∷ _ ∷ _ ∷ _) = λ e. ground arith

lawful : IsCodec codec
lawful = record {
  base64_spaces = λ bs. shift-IsFree 32 bs (omega arith);
  base64_newlines = λ bs. shift-IsFree 10 bs (omega arith);
  base64_returns = λ bs. shift-IsFree 13 bs (omega arith);
  itoa_spaces = λ n. print_ℤ-IsFree 32 n (omega arith);
  itoa_newlines = λ n. print_ℤ-IsFree 10 n (omega arith);
  atoi-itoa = read-print;
  atoi_error = read_error;
}

abbrev pub file : CertsFile
file = record { open_error = none; write_error = none; close_error = none }

-- a name with a blank in it
abbrev alice : Bytes
alice = codes "al ice"

abbrev pub root : Bytes
root = codes "root"

abbrev pub alice_key : Bytes
alice_key = 1 ∷ 2 ∷ 3 ∷ []

abbrev bob_key : Bytes
bob_key = 4 ∷ 5 ∷ []

short : length (enrolled_row codec (sanitized alice) (sanitized root) (pos 7) alice_key) < 65536
unfolding enrolled_row sanitized
short = omega arith

nobody : check_certificate_authorized codec file [] alice_key ≡ err not_authorized
unfolding check_certificate_authorized split
nobody = refl

other_key : shift alice_key ≢ shift bob_key
other_key = λ e. ground arith

enroll_certificate-check_example :
    (enroll_certificate codec file alice root (pos 7) (some (alice_key ∷ [])) []).0 ≡ ok tt
    × (check_certificate_authorized codec file
          (enroll_certificate codec file alice root (pos 7) (some (alice_key ∷ [])) []).1
          alice_key
        ≡ ok (user_of codec (sanitized alice) (sanitized root) (pos 7) alice_key))
enroll_certificate-check_example =
    enroll_certificate-check codec lawful file [] alice_key alice root alice_key [] (pos 7) refl
      refl refl refl short nobody

enroll_certificate-others_example :
    check_certificate_authorized codec file
      (enroll_certificate codec file alice root (pos 7) (some (alice_key ∷ [])) []).1
      bob_key
    ≡ check_certificate_authorized codec file [] bob_key
enroll_certificate-others_example =
    enroll_certificate-others codec lawful file [] alice_key bob_key alice root alice_key bob_key []
      (pos 7) refl refl other_key refl refl refl short

abbrev pub config : Config
config = record (from_flags "0.0.0.0:8080" "10.21.0.1/24") {
  mode = "certs-file";
  certs_file = "/etc/colex/certs";
}

abbrev pub alice_row : AuthorizedUser
alice_row = user_of codec (codes "alice") root (pos 7) alice_key

abbrev pub alice_file : Bytes
alice_file = enrolled_row codec (codes "alice") root (pos 7) alice_key

alice_passes :
    check_authorized codec config file alice_file "/up" (some (alice_key ∷ []))
    ≡ ok (some alice_row)
unfolding check_authorized enrolled_row split from_flags same_bytes
alice_passes = refl

check_authorized-IsListed_example :
    (config.mode ≡ auth_mode_open)
    ⊎ (◌≡◌ {A = String} "/up" "/enroll"
        ⊎ IsListed codec alice_file (some (alice_key ∷ [])) (some alice_row))
check_authorized-IsListed_example =
    check_authorized-IsListed codec config file alice_file "/up" (some (alice_key ∷ []))
      (some alice_row) alice_passes
