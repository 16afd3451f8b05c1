-- ===== src/Examples/Cert.antt =====
-- The theorems on certificates, with a cryptography that signs nothing.
use colex.Base.{
  ℕ, Bool, true, false, some, [], ◌∷◌, ◌≡◌, ◌==◌, ◌+◌, ◌∙◌, ◌≤◌, length, refl, subst, arith,
}
use colex.Base.Int.{pos}
use colex.Base.Outcome.{Result, ok, panic}
use colex.Base.Text.{Bytes}
use colex.Cert.{Answer, given, refused, Crypto, Sources, make_server_cert}
use colex.Cert.Pairs.{IsSound, IsAnswered, make_server_cert-IsAnswered}

record ToyCert : Type 0 where
  owner : ℕ
  is_ca : Bool
  id : Bytes

abbrev flag : Bool → ℕ
flag true = 1
flag false = 0

abbrev toy_der : ℕ → Bool → Bytes → Bytes
toy_der owner is_ca id = owner ∷ flag is_ca ∷ id

abbrev toy_parse : Bytes → Answer ToyCert
toy_parse (owner ∷ f ∷ id) = given (record { owner = owner; is_ca = f == 1; id = id })
toy_parse _ = refused "malformed"

abbrev toy_parse_key : Bytes → Answer ℕ
toy_parse_key (k ∷ []) = given k
toy_parse_key _ = refused "malformed"

abbrev toy_put_uvarint : Bytes → ℕ → Result Bytes
toy_put_uvarint [] x = panic
toy_put_uvarint (b ∷ buffer) x = ok (x ∷ buffer)

toy_fits :
    (buffer : Bytes) (x : ℕ)
    → 10 ≤ length buffer
    → (bs : Bytes) × (toy_put_uvarint buffer x ≡ ok bs) × (length bs ≡ length buffer)
toy_fits [] x h = ground arith
toy_fits (b ∷ buffer) x h = (x ∷ buffer, refl, refl)

abbrev toy : Crypto ℕ ℕ ℕ ToyCert
toy = record {
  int63 = λ seed n. 300;
  put_uvarint = toy_put_uvarint;
  now = λ n. n;
  unix = λ t. pos t;
  add_date = λ t years months days. t + months;
  generate_key = λ secret size. given 7;
  create_certificate =
      λ secret t parent owner signer. given (toy_der owner t.is_ca t.subject_key_id);
  public_key = λ k. k + 1;
  marshal_key = λ k. k ∷ [];
  parse_key = toy_parse_key;
  parse_certificate = toy_parse;
  pem_encode = λ kind bytes. bytes;
  pem_decode = λ bytes. some bytes;
}

flag_back : (b : Bool) → (flag b == 1) ≡ b
flag_back true = refl
flag_back false = refl

der_of : Answer Bytes → Bytes
der_of (given der) = der
der_of (refused e) = []

toy-IsSound : IsSound toy (λ c. c.owner) (λ c. c.is_ca) (λ c. c.id)
unfolding der_of
toy-IsSound = record {
  uvarint_fits = λ buffer x room small. toy_fits buffer x room;
  certificate_block_back = λ bytes. refl;
  key_block_back = λ bytes. refl;
  key_back = λ secret bits k made. refl;
  cert_back = λ earlier secret bits t key der made ca valid named e.
      let c : ToyCert = record {
        owner = key + 1;
        is_ca = flag t.is_ca == 1;
        id = t.subject_key_id;
      } in
      (c, subst (λ a. toy_parse (der_of a) ≡ given c) e refl, refl, flag_back t.is_ca ∙ ca, refl);
}

abbrev untouched : Sources
untouched = record { seed = pos 1; drawn = 0; readings = 0; secrets = 0 }

make_server_cert-IsAnswered_example :
    IsAnswered toy (λ c. c.owner) (λ c. c.is_ca) (λ c. c.id) (make_server_cert toy untouched).0
make_server_cert-IsAnswered_example =
    make_server_cert-IsAnswered toy (λ c. c.owner) (λ c. c.is_ca) (λ c. c.id) toy-IsSound
      (λ seed n. omega arith) untouched
