-- ===== src/Auth.antt =====
-- colexd/auth.go: who may use the server, and the file that lists them.
-- The file's content is the state. base64, JSON, strconv and x509 are an argument, `Codec`.
pub mod Rows
pub mod Scanning
pub mod Enrollment
pub mod Access
use colex.Base.{
  ℕ, String, Bool, true, false, ◌||◌, take, Option, none, some, List, [], ◌∷◌, ◌++◌, ◌==◌, leb,
  length, if◌then◌else◌, same_text,
}
use colex.Base.Int.{ℤ}
use colex.Base.Outcome.{
  Result, Exec, ok, err, system, not_authorized, no_tls_certificate, unknown_auth_mode,
  line_split_failed, line_too_long, expected_certificate, pure, raise, lift, gets, modify, ◌>>=◌,
  ◌>>◌,
}
use colex.Base.Text.{Bytes, split, same_bytes, drop_cr}
use colex.Config.{Config, auth_mode_open, auth_mode_certfile}

-- What the code calls of strconv, encoding/base64, encoding/json and crypto/x509. A certificate is
-- its DER bytes.
pub record Codec : Type 0 where
  pub atoi : Bytes → Result ℤ
  pub itoa : ℤ → Bytes
  pub base64 : Bytes → Bytes
  pub role_json : Bytes → Bytes
  pub marshal_key : Bytes → Result Bytes

-- How the operations on the file end: no error, or which. A write that fails has written some bytes.
pub record CertsFile : Type 0 where
  pub open_error : Option String
  pub write_error : Option (String × ℕ)
  pub close_error : Option String

pub record AuthorizedUser : Type 0 where
  pub name : Bytes
  pub created_at_epoch : ℤ
  pub role_encoded : Bytes
  pub pubkey_raw : Bytes

-- req.TLS and its PeerCertificates; `none` is nil
abbrev pub Connection : Type 0
Connection = Option (List Bytes)

abbrev pub space : ℕ
space = 32

abbrev pub newline : ℕ
newline = 10

abbrev failed_with {ℓ} : {A : Type ℓ} → Option String → Result A → Result A
failed_with none r = r
failed_with (some e) r = err (system e)

-- strings.NewReplacer("\n", "", " ", "").Replace
unfoldable pub sanitized : Bytes → Bytes
sanitized [] = []
sanitized (b ∷ bs) =
    let rest = sanitized bs in if b == newline || b == space then rest else b ∷ rest

module _ (codec : Codec) where
  abbrev row_of : Bytes → Bytes → Bytes → Result ℤ → Result AuthorizedUser
  row_of name role key (Result.ok epoch) =
      ok (record { name = name; created_at_epoch = epoch; role_encoded = role; pubkey_raw = key })
  row_of name role key (Result.err e) = err e
  row_of name role key Result.panic = Result.panic

  unfoldable pub parse_fields : List Bytes → Result AuthorizedUser
  parse_fields (name ∷ role ∷ epoch ∷ key ∷ []) = row_of name role key (codec.atoi epoch)
  parse_fields _ = err line_split_failed

  unfoldable pub parse_cert_authorized_line : Bytes → Result AuthorizedUser
  unfolding parse_fields
  parse_cert_authorized_line line = parse_fields (split space line)

  -- The body of the loop, and `further` for the lines that come after.
  abbrev pub row_or : Bytes → Result AuthorizedUser → Result AuthorizedUser → Result AuthorizedUser
  row_or key (Result.ok row) further = if same_bytes row.pubkey_raw key then ok row else further
  row_or key (Result.err e) further = err e
  row_or key Result.panic further = Result.panic

  abbrev is_empty : Bytes → Bool
  is_empty [] = true
  is_empty (b ∷ bs) = false

  -- The scanner's lines. It gives up at a line that does not fit its buffer of 64 KB, and what follows
  -- the last newline is a line only if there is something; an empty line is skipped anyway.
  unfoldable pub scan : Bytes → List Bytes → Result AuthorizedUser
  unfolding parse_cert_authorized_line
  scan key [] = err not_authorized
  scan key (l ∷ rest) =
      let further = scan key rest in
      if leb 65536 (length l)
      then err line_too_long
      else if is_empty (drop_cr l)
      then further
      else row_or key (parse_cert_authorized_line (drop_cr l)) further

  -- checkCertificateAuthorized, for a certificate whose public key is `key` in base64
  unfoldable pub find_row : CertsFile → Bytes → Bytes → Result AuthorizedUser
  unfolding scan
  find_row file content key = failed_with file.open_error (scan key (split newline content))

  abbrev on_key : Result Bytes → (Bytes → Result AuthorizedUser) → Result AuthorizedUser
  on_key (Result.ok k) f = f (codec.base64 k)
  on_key (Result.err e) f = err e
  on_key Result.panic f = Result.panic

  unfoldable pub check_certificate_authorized : CertsFile → Bytes → Bytes → Result AuthorizedUser
  unfolding find_row
  check_certificate_authorized file content cert =
      on_key (codec.marshal_key cert) (find_row file content)

  abbrev some_user : Result AuthorizedUser → Result (Option AuthorizedUser)
  some_user (Result.ok u) = ok (some u)
  some_user (Result.err e) = err e
  some_user Result.panic = Result.panic

  abbrev check_peers : Config → CertsFile → Bytes → Connection → Result (Option AuthorizedUser)
  check_peers c file content none = err no_tls_certificate
  check_peers c file content (some []) = err no_tls_certificate
  check_peers c file content (some (cert ∷ certs)) =
      if same_text c.mode auth_mode_certfile
      then some_user (check_certificate_authorized file content cert)
      else err unknown_auth_mode

  -- No user and no error where no authorization is needed.
  unfoldable pub check_authorized :
      Config → CertsFile → Bytes → String → Connection → Result (Option AuthorizedUser)
  unfolding check_certificate_authorized
  check_authorized c file content path peers =
      if same_text c.mode auth_mode_open
      then ok none
      else if same_text path "/enroll"
      then ok none
      else check_peers c file content peers

  -- fmt.Sprintf("\n%s %s %d %s", ...)
  unfoldable pub enrolled_row : Bytes → Bytes → ℤ → Bytes → Bytes
  enrolled_row name role now key =
      name
      ++ (space
          ∷ (codec.base64 (codec.role_json role)
              ++ (space ∷ (codec.itoa now ++ (space ∷ codec.base64 key)))))

  unfoldable pub append_text : CertsFile → Bytes → Exec Bytes Unit
  append_text file text content = elim file.write_error [
    | none ↦ (failed_with file.close_error (ok tt), content ++ text)
    | some (e, n) ↦ (err (system e), content ++ take n text)
  ]

  abbrev append_row : CertsFile → Bytes → Bytes → ℤ → Result Bytes → Exec Bytes Unit
  append_row file name role now (Result.ok key) content = elim file.open_error [
    | none ↦
        append_text file (newline ∷ enrolled_row (sanitized name) (sanitized role) now key) content
    | some e ↦ (err (system e), content)
  ]
  append_row file name role now (Result.err e) content = (err e, content)
  append_row file name role now Result.panic content = (Result.panic, content)

  unfoldable pub enroll_certificate : CertsFile → Bytes → Bytes → ℤ → Connection → Exec Bytes Unit
  unfolding append_text enrolled_row sanitized
  enroll_certificate file name role now none content = (err expected_certificate, content)
  enroll_certificate file name role now (some []) content = (err expected_certificate, content)
  enroll_certificate file name role now (some (cert ∷ certs)) content =
      append_row file name role now (codec.marshal_key cert) content
