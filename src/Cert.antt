-- ===== src/Cert.antt =====
-- colexd/cert/gen.go: the certificate of a server, made and read back. The generator of
-- math/rand, the clock, encoding/binary, crypto/rsa, crypto/x509 and encoding/pem are fields of `Crypto`.
pub mod Pairs
use colex.Base.{
  ℕ, String, Bool, true, false, Option, none, some, List, [], ◌∷◌, ◌+◌, ◌/◌, ◌%◌, if◌then◌else◌,
  ltb, leb,
}
use colex.Base.Int.{ℤ, pos, negsuc}
use colex.Base.Outcome.{
  Error, Result, Exec, ok, err, panic, system, insecure_key_bit_size, no_certificate_data,
  no_key_data, pure, raise, lift, gets, modify, within, ◌>>=◌, ◌>>◌,
}
use colex.Base.Text.{Bytes}
use colex.Os.{Os, Host, FilePath, ask_bytes, read_file}

-- What a call of another package returns: a value, or an error.
pub data Answer (A : Type 0) : Type 0 where
  given : A → Answer A
  refused : String → Answer A

abbrev pub result_of : {A : Type 0} → Answer A → Result A
result_of (given a) = ok a
result_of (refused e) = err (system e)

pub data ExtKeyUsage : Type 0 where
  ext_key_usage_client_auth ext_key_usage_server_auth : ExtKeyUsage

abbrev key_usage_digital_signature : ℕ
key_usage_digital_signature = 1

abbrev key_usage_key_encipherment : ℕ
key_usage_key_encipherment = 4

-- pkix.Name, as far as it is set
pub record PkixName : Type 0 where
  pub country : List String
  pub organization : List String
  pub organizational_unit : List String

-- x509.Certificate, as far as it is set
pub record Template (Time : Type 0) : Type 0 where
  pub serial_number : ℕ
  pub subject : PkixName
  pub not_before : Time
  pub not_after : Time
  pub subject_key_id : Bytes
  pub is_ca : Bool
  pub basic_constraints_valid : Bool
  pub ext_key_usage : List ExtKeyUsage
  pub key_usage : ℕ

-- Where the values of the outside come from: the seed of math/rand and the numbers drawn from it, the
-- readings of the clock and the uses of crypto/rand.
pub record Sources : Type 0 where
  pub seed : ℤ
  pub drawn : ℕ
  pub readings : ℕ
  pub secrets : ℕ

pub record Crypto (Time Key PublicKey Certificate : Type 0) : Type 0 where
  pub int63 : ℤ → ℕ → ℕ
  -- binary.PutUvarint: what the buffer holds then, or a panic
  pub put_uvarint : Bytes → ℕ → Result Bytes
  pub now : ℕ → Time
  pub unix : Time → ℤ
  pub add_date : Time → ℕ → ℕ → ℕ → Time
  -- the first argument of both counts the uses of crypto/rand
  pub generate_key : ℕ → ℤ → Answer Key
  pub create_certificate : ℕ → Template Time → Template Time → PublicKey → Key → Answer Bytes
  pub public_key : Key → PublicKey
  pub marshal_key : Key → Bytes
  pub parse_key : Bytes → Answer Key
  pub parse_certificate : Bytes → Answer Certificate
  -- a block of a type, and the bytes of the first block
  pub pem_encode : String → Bytes → Bytes
  pub pem_decode : Bytes → Option Bytes

abbrev pub sixteen_zeros : Bytes
sixteen_zeros = 0 ∷ 0 ∷ 0 ∷ 0 ∷ 0 ∷ 0 ∷ 0 ∷ 0 ∷ 0 ∷ 0 ∷ 0 ∷ 0 ∷ 0 ∷ 0 ∷ 0 ∷ 0 ∷ []

-- buffer[:5]
abbrev pub first_five : Bytes → Result Bytes
first_five (a ∷ b ∷ c ∷ d ∷ e ∷ rest) = ok (a ∷ b ∷ c ∷ d ∷ e ∷ [])
first_five _ = panic

-- The next use of crypto/rand
unfoldable pub next_secret : Exec Sources ℕ
next_secret = do
  s ← gets (λ (s : Sources). s)
  modify (λ (s : Sources). record s { secrets = 1 + s.secrets })
  pure s.secrets

abbrev at_most_1024 : ℤ → Bool
at_most_1024 (pos n) = leb n 1024
at_most_1024 (negsuc n) = true

module _ {T K P C : Type 0} (crypto : Crypto T K P C) where
  -- unsecure_rand.Int63
  unfoldable pub draw : Exec Sources ℕ
  draw = do
    s ← gets (λ (s : Sources). s)
    modify (λ (s : Sources). record s { drawn = 1 + s.drawn })
    pure (crypto.int63 s.seed s.drawn)

  -- time.Now
  unfoldable pub read_clock : Exec Sources T
  read_clock = do
    s ← gets (λ (s : Sources). s)
    modify (λ (s : Sources). record s { readings = 1 + s.readings })
    pure (crypto.now s.readings)

  unfoldable pub generate_rsa : ℤ → Exec Sources K
  generate_rsa bit_size =
      if at_most_1024 bit_size
      then raise insecure_key_bit_size
      else (do secret ← next_secret; lift (result_of (crypto.generate_key secret bit_size)))

  unfoldable pub make_basic_cert : T → Exec Sources (Template T)
  make_basic_cert now = do
    subject_key_num ← draw
    subject_key_bytes ← lift (crypto.put_uvarint sixteen_zeros subject_key_num)
    serial ← draw
    subject_key_id ← lift (first_five subject_key_bytes)
    pure (record {
      serial_number = serial;
      subject = record {
        country = "U.S" ∷ [];
        organization = "Acme Co." ∷ [];
        organizational_unit = "Acme Co.U" ∷ [];
      };
      not_before = now;
      not_after = crypto.add_date now 0 6 0;
      subject_key_id = subject_key_id;
      is_ca = false;
      basic_constraints_valid = false;
      ext_key_usage = [];
      key_usage = 0;
    })

  -- What MakeServerCert makes of the basic certificate; the bits of the usages differ, so `|` adds them.
  abbrev pub server_template : Template T → Template T
  server_template cert = record cert {
    is_ca = false;
    basic_constraints_valid = true;
    ext_key_usage = ext_key_usage_client_auth ∷ ext_key_usage_server_auth ∷ [];
    key_usage = key_usage_key_encipherment + key_usage_digital_signature;
  }

  -- The key of a template, and both in PEM
  unfoldable pub sign_and_encode : Template T → Exec Sources (Bytes × Bytes)
  sign_and_encode cert = do
    key ← generate_rsa (pos 2048)
    secret ← next_secret
    cert_bytes ←
        lift (result_of (crypto.create_certificate secret cert cert (crypto.public_key key) key))
    pure (
      crypto.pem_encode "CERTIFICATE" cert_bytes,
      crypto.pem_encode "RSA PRIVATE KEY" (crypto.marshal_key key),
    )

  unfoldable pub make_server_cert : Exec Sources (Bytes × Bytes)
  make_server_cert = do
    seeding ← read_clock
    modify (λ (s : Sources). record s { seed = crypto.unix seeding; drawn = 0 })
    now ← read_clock
    cert ← make_basic_cert now
    sign_and_encode (server_template cert)

  -- A block's bytes, parsed
  abbrev pub parse_block : {A : Type 0} → Error → (Bytes → Answer A) → Option Bytes → Result A
  parse_block missing parse none = err missing
  parse_block missing parse (some der) = result_of (parse der)

  abbrev with_key : C → Result K → Result (C × K)
  with_key cert (ok key) = ok (cert, key)
  with_key cert (err e) = err e
  with_key cert panic = panic

  abbrev with_both : Result C → Result K → Result (C × K)
  with_both (ok cert) r = with_key cert r
  with_both (err e) r = err e
  with_both panic r = panic

  unfoldable pub load_private_cert_pem : Bytes → Bytes → Result (C × K)
  load_private_cert_pem bytes_cert key_bytes =
      with_both
        (parse_block no_certificate_data crypto.parse_certificate (crypto.pem_decode bytes_cert))
        (parse_block no_key_data crypto.parse_key (crypto.pem_decode key_bytes))

  unfoldable pub load_private_cert_from_file_pem : Os → FilePath → FilePath → Exec Host (C × K)
  load_private_cert_from_file_pem os cert_path key_path = do
    cert_bytes ← ask_bytes os (read_file cert_path)
    key_bytes ← ask_bytes os (read_file key_path)
    lift (load_private_cert_pem cert_bytes key_bytes)
