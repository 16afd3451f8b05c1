-- ===== src/Cert/Pairs.antt =====
-- colexd/cert/gen.go: what MakeServerCert returns, LoadPrivateCertPEM reads.
use colex.Base.{
  ℕ, String, Bool, true, false, some, [], ◌∷◌, ◌≡◌, ◌^◌, ◌<◌, ◌≤◌, refl, ap, ◌∙◌, arith, length,
}
use colex.Base.Int.{ℤ, pos}
use colex.Base.Outcome.{Result, ok, err, panic, system, pure, lift, continue, ◌>>=◌}
use colex.Base.Text.{Bytes}
use colex.Cert.{
  Answer, given, refused, Crypto, Template, Sources, sixteen_zeros, first_five, draw, read_clock,
  next_secret, generate_rsa, make_basic_cert, sign_and_encode, make_server_cert,
  load_private_cert_pem, result_of,
}

-- The key number's bytes, and the five of them that are used.
record HasId (written_as : Result Bytes) : Type 0 where
  bytes : Bytes
  id : Bytes
  written : written_as ≡ ok bytes
  cut : first_five bytes ≡ ok id
  five : length id ≡ 5

five_of : (bs : Bytes) → length bs ≡ 16 → (id : Bytes) × (first_five bs ≡ ok id) × (length id ≡ 5)
five_of (a ∷ b ∷ c ∷ d ∷ e ∷ rest) h = (a ∷ b ∷ c ∷ d ∷ e ∷ [], refl, refl)
five_of [] h = ground arith
five_of (a ∷ []) h = ground arith
five_of (a ∷ b ∷ []) h = ground arith
five_of (a ∷ b ∷ c ∷ []) h = ground arith
five_of (a ∷ b ∷ c ∷ d ∷ []) h = ground arith

id_of :
    (r : Result Bytes) → (bs : Bytes) × (r ≡ ok bs) × (length bs ≡ length sixteen_zeros) → HasId r
id_of r (bs, e, size) =
    let (id, cut, five) = five_of bs size in
    record { bytes = bs; id = id; written = e; cut = cut; five = five }

-- What MakeServerCert relies on. PutUvarint writes any 64-bit number into a buffer of ten bytes or more, whose
-- length stays. A block of one of the two types in use is read back as it was written, and so is a key that
-- was generated. A certificate that was created for such a key and signed with it, from a template of no
-- authority that says so and that has a key number, parses, and has the key's public half, the flag and the
-- key number of the template.
pub record IsSound {T K P C : Type 0} (crypto : Crypto T K P C) (public_key_of : C → P)
    (is_ca_of : C → Bool) (subject_key_id_of : C → Bytes) : Type 0 where
  pub uvarint_fits :
      (buffer : Bytes) (x : ℕ)
      → 10 ≤ length buffer
      → x < 2 ^ 64
      → (bs : Bytes) × (crypto.put_uvarint buffer x ≡ ok bs) × (length bs ≡ length buffer)
  pub certificate_block_back :
      (bytes : Bytes) → crypto.pem_decode (crypto.pem_encode "CERTIFICATE" bytes) ≡ some bytes
  pub key_block_back :
      (bytes : Bytes) → crypto.pem_decode (crypto.pem_encode "RSA PRIVATE KEY" bytes) ≡ some bytes
  pub key_back :
      (secret : ℕ) (bits : ℤ) (key : K)
      → crypto.generate_key secret bits ≡ given key
      → crypto.parse_key (crypto.marshal_key key) ≡ given key
  pub cert_back :
      (earlier secret : ℕ) (bits : ℤ) (template : Template T) (key : K) (der : Bytes)
      → crypto.generate_key earlier bits ≡ given key
      → template.is_ca ≡ false
      → template.basic_constraints_valid ≡ true
      → 0 < length template.subject_key_id
      → crypto.create_certificate secret template template (crypto.public_key key) key ≡ given der
      → (cert : C) × (crypto.parse_certificate der ≡ given cert)
        × (public_key_of cert ≡ crypto.public_key key)
        × (is_ca_of cert ≡ false)
        × (subject_key_id_of cert ≡ template.subject_key_id)

module _ {T K P C : Type 0} (crypto : Crypto T K P C) (public_key_of : C → P) (is_ca_of : C → Bool)
    (subject_key_id_of : C → Bytes) where
  -- Both parts are read, the certificate is the key's own and no authority's, and its key number has five bytes.
  pub record IsServerPair (pair : Bytes × Bytes) : Type 0 where
    pub cert : C
    pub key : K
    pub loads : load_private_cert_pem crypto pair.0 pair.1 ≡ ok (cert, key)
    pub own_key : public_key_of cert ≡ crypto.public_key key
    pub no_authority : is_ca_of cert ≡ false
    pub five : length (subject_key_id_of cert) ≡ 5

  -- A pair, or the error of a call of another package; never a panic.
  abbrev pub IsAnswered : Result (Bytes × Bytes) → Type 0
  IsAnswered (ok pair) = IsServerPair pair
  IsAnswered (err e) = (refusal : String) × (e ≡ system refusal)
  IsAnswered panic = ⊥

  module _ (sound : IsSound crypto public_key_of is_ca_of subject_key_id_of) where
    signed_lem :
        (earlier secret : ℕ) (bits : ℤ) (template : Template T) (key : K) (a : Answer Bytes)
        → crypto.generate_key earlier bits ≡ given key
        → template.is_ca ≡ false
        → template.basic_constraints_valid ≡ true
        → length template.subject_key_id ≡ 5
        → crypto.create_certificate secret template template (crypto.public_key key) key ≡ a
        → (s : Sources)
        → IsAnswered
            (continue
              (result_of a, s)
              (λ cert_bytes. pure (
                crypto.pem_encode "CERTIFICATE" cert_bytes,
                crypto.pem_encode "RSA PRIVATE KEY" (crypto.marshal_key key),
              ))).0
    unfolding pure load_private_cert_pem
    signed_lem earlier secret bits template key (given der) made ca valid five e s =
        let (cert, parsed, owner, flag, id) =
          sound.cert_back earlier secret bits template key der made ca valid (rw five (omega arith))
            e in
        record {
          cert = cert;
          key = key;
          loads =
              rw
                (
                  sound.certificate_block_back der,
                  sound.key_block_back (crypto.marshal_key key),
                  parsed,
                  sound.key_back earlier bits key made,
                )
                refl;
          own_key = owner;
          no_authority = flag;
          five = ap length id ∙ five;
        }
    signed_lem earlier secret bits template key (refused why) made ca valid five e s = (why, refl)

    -- Both calls of other packages, whatever they answer
    key_lem :
        (earlier : ℕ) (bits : ℤ) (template : Template T) (t : Sources) (a : Answer K)
        → crypto.generate_key earlier bits ≡ a
        → template.is_ca ≡ false
        → template.basic_constraints_valid ≡ true
        → length template.subject_key_id ≡ 5
        → IsAnswered
            (continue
              (result_of a, t)
              (λ key. do
                secret ← next_secret
                cert_bytes ← lift (
                    result_of (
                      crypto.create_certificate secret template template
                        (crypto.public_key key)
                        key))
                pure (
                  crypto.pem_encode "CERTIFICATE" cert_bytes,
                  crypto.pem_encode "RSA PRIVATE KEY" (crypto.marshal_key key),
                ))).0
    unfolding next_secret ◌>>=◌
    key_lem earlier bits template t (given key) made ca valid five =
        signed_lem earlier t.secrets bits template key
          (crypto.create_certificate t.secrets template template (crypto.public_key key) key) made
          ca valid five refl _
    key_lem earlier bits template t (refused why) made ca valid five = (why, refl)

    sign_and_encode_lem :
        (template : Template T) (s : Sources)
        → template.is_ca ≡ false
        → template.basic_constraints_valid ≡ true
        → length template.subject_key_id ≡ 5
        → IsAnswered (sign_and_encode crypto template s).0
    unfolding sign_and_encode generate_rsa next_secret ◌>>=◌
    sign_and_encode_lem template s ca valid five =
        key_lem s.secrets (pos 2048) template _ (crypto.generate_key s.secrets (pos 2048)) refl ca
          valid five

    -- Where Int63 stays below 2 ^ 63 and the other packages are sound as IsSound says (PutUvarint has room in ten
    -- bytes; the two types of PEM blocks, generated keys and the certificates made for them from a template of no
    -- authority with a key number are read back), MakeServerCert does not panic. It ends with an error of another
    -- package, or with a pair that LoadPrivateCertPEM reads as a certificate and the key whose public half it has;
    -- it is no authority's, and its key number has five bytes.
    pub make_server_cert-IsAnswered :
        (bounded : (seed : ℤ) (n : ℕ) → crypto.int63 seed n < 2 ^ 63) (s : Sources)
        → IsAnswered (make_server_cert crypto s).0
    unfolding make_server_cert make_basic_cert read_clock draw ◌>>=◌
    make_server_cert-IsAnswered bounded s =
        let seeded = crypto.unix (crypto.now s.readings) in
        let small = bounded seeded 0 in
        let i =
          id_of _ (
            sound.uvarint_fits sixteen_zeros (crypto.int63 seeded 0) (ground arith)
              (omega arith)) in
        rw (i.written, i.cut) (sign_and_encode_lem _ _ refl refl i.five)
