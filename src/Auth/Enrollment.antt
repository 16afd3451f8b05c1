-- ===== src/Auth/Enrollment.antt =====
-- Enrolment and authorization meet in the certificates file.
use colex.Base.{
  ◌<◌, Bool, true, false, none, some, List, [], ◌∷◌, ◌++◌, ◌≡◌, ◌≢◌, refl, ap, ◌∙◌, arith, leb,
  length, if◌then◌else◌,
}
use colex.Base.Int.{ℤ}
use colex.Base.Outcome.{Error, Result, ok, err, panic, not_authorized}
use colex.Base.Text.{Bytes, split, same_bytes, drop_cr}
use colex.Auth.{
  Codec, CertsFile, AuthorizedUser, newline, sanitized, parse_cert_authorized_line, parse_fields,
  scan, find_row, check_certificate_authorized, enrolled_row, append_text, enroll_certificate,
  is_empty,
}
use colex.Auth.Rows.{
  IsFree, split-append, split-IsFree, split-joined, IsFree-joined, drop_cr-joined, sanitized-IsFree,
  same_bytes_refl, same_bytes→≡,
}
use colex.Auth.Scanning.{IsCodec, or_else, failure, user_of, joined_nonempty, scan-append}

module _ (codec : Codec) (lawful : IsCodec codec) where
  module _ (name role key : Bytes) (now : ℤ) where
    abbrev enrolled : Bytes
    enrolled = enrolled_row codec (sanitized name) (sanitized role) now key

    pub enrolled-IsFree : IsFree newline enrolled
    unfolding enrolled_row
    enrolled-IsFree =
        IsFree-joined _ _ _ _ newline (omega arith) (sanitized-IsFree name).1
          (lawful.base64_newlines _) (lawful.itoa_newlines now) (lawful.base64_newlines key)

    drop_cr-enrolled : drop_cr enrolled ≡ enrolled
    unfolding enrolled_row
    drop_cr-enrolled = drop_cr-joined _ _ _ _ (lawful.base64_returns key)

    parse_fields-row :
        parse_fields codec (
          sanitized name
          ∷ codec.base64 (codec.role_json (sanitized role))
          ∷ codec.itoa now
          ∷ codec.base64 key
          ∷ [])
        ≡ ok (user_of codec (sanitized name) (sanitized role) now key)
    unfolding parse_fields
    parse_fields-row = rw (lawful.atoi-itoa now) refl

    parse-enrolled :
        parse_cert_authorized_line codec enrolled
        ≡ ok (user_of codec (sanitized name) (sanitized role) now key)
    unfolding parse_cert_authorized_line enrolled_row
    parse-enrolled =
        ap (parse_fields codec) (
          split-joined _ _ _ _ (sanitized-IsFree name).0 (lawful.base64_spaces _)
            (lawful.itoa_spaces now) (lawful.base64_spaces key))
        ∙ parse_fields-row

    enrolled_nonempty : is_empty codec enrolled ≡ false
    unfolding enrolled_row
    enrolled_nonempty = joined_nonempty codec (sanitized name) _

    scan-enrolled :
        (k : Bytes)
        → length enrolled < 65536
        → scan codec k (enrolled ∷ []) ≡ (
            if same_bytes (codec.base64 key) k
            then ok (user_of codec (sanitized name) (sanitized role) now key)
            else err not_authorized)
    unfolding scan
    scan-enrolled k short =
        let fits : leb 65536 (length enrolled) ≡ false = ground arith in
        rw (fits, drop_cr-enrolled, enrolled_nonempty, parse-enrolled) refl

  abbrev IsShort : Bytes → Bytes → Bytes → ℤ → Type 0
  IsShort name role key now = length (enrolled name role key now) < 65536

  -- The file after an enrolment that could write its row.
  appended :
      (file : CertsFile) (content cert name role key : Bytes) (certs : List Bytes) (now : ℤ)
      → codec.marshal_key cert ≡ ok key
      → file.open_error ≡ none
      → file.write_error ≡ none
      → file.close_error ≡ none
      → enroll_certificate codec file name role now (some (cert ∷ certs)) content
        ≡ (ok tt, content ++ (newline ∷ enrolled name role key now))
  unfolding enroll_certificate append_text
  appended file content cert name role key certs now m o w c = rw (m, o, w, c) refl

  find_row-appended :
      (file : CertsFile) (content name role key k : Bytes) (now : ℤ)
      → file.open_error ≡ none
      → IsShort name role key now
      → find_row codec file (content ++ (newline ∷ enrolled name role key now)) k
        ≡ or_else (find_row codec file content k) (
            if same_bytes (codec.base64 key) k
            then ok (user_of codec (sanitized name) (sanitized role) now key)
            else err not_authorized)
  unfolding find_row
  find_row-appended file content name role key k now o short = rw o (
      ap (scan codec k) (
        split-append newline content (enrolled name role key now)
        ∙ ap (λ ls. split newline content ++ ls)
            (split-IsFree newline _ (enrolled-IsFree name role key now)))
      ∙ scan-append codec lawful k (split newline content) (enrolled name role key now ∷ [])
      ∙ ap (or_else (scan codec k (split newline content)))
          (scan-enrolled name role key now k short))

  -- Where the key can be marshalled and was not listed, the row is under 64 KB, and the file is opened, written and
  -- closed without an error, an enrolment succeeds, and the certificate is then authorized under the sanitized
  -- name and role.
  pub enroll_certificate-check :
      (file : CertsFile) (content cert name role key : Bytes) (certs : List Bytes) (now : ℤ)
      → codec.marshal_key cert ≡ ok key
      → file.open_error ≡ none
      → file.write_error ≡ none
      → file.close_error ≡ none
      → IsShort name role key now
      → check_certificate_authorized codec file content cert ≡ err not_authorized
      → (enroll_certificate codec file name role now (some (cert ∷ certs)) content).0 ≡ ok tt
        × (check_certificate_authorized codec file
              (enroll_certificate codec file name role now (some (cert ∷ certs)) content).1
              cert
            ≡ ok (user_of codec (sanitized name) (sanitized role) now key))
  unfolding check_certificate_authorized
  enroll_certificate-check file content cert name role key certs now m o w c short unlisted =
      let before : find_row codec file content (codec.base64 key) ≡ err not_authorized =
        rw m at unlisted in
      rw (appended file content cert name role key certs now m o w c, m)
        (
          refl,
          find_row-appended file content name role key (codec.base64 key) now o short
              ∙ rw (before, same_bytes_refl (codec.base64 key)) refl,
        )

  or_else-not_authorized : (r : Result AuthorizedUser) → or_else r (err not_authorized) ≡ r
  or_else-not_authorized (ok u) = refl
  or_else-not_authorized (err e) = same e
    where
      same : (e : Error) → or_else (failure e) (err not_authorized) ≡ failure e
      same not_authorized = refl
      same _ = refl
  or_else-not_authorized panic = refl

  -- Where the keys can be marshalled and differ, the row is under 64 KB, and the file is opened, written and closed
  -- without an error, an enrolment changes nothing for the holder of the other key: no text in a name or role can
  -- make up a row.
  pub enroll_certificate-others :
      (file : CertsFile) (content cert other name role key its_key : Bytes) (certs : List Bytes)
      (now : ℤ)
      → codec.marshal_key cert ≡ ok key
      → codec.marshal_key other ≡ ok its_key
      → codec.base64 key ≢ codec.base64 its_key
      → file.open_error ≡ none
      → file.write_error ≡ none
      → file.close_error ≡ none
      → IsShort name role key now
      → check_certificate_authorized codec file
          (enroll_certificate codec file name role now (some (cert ∷ certs)) content).1
          other
        ≡ check_certificate_authorized codec file content other
  unfolding check_certificate_authorized
  enroll_certificate-others file content cert other name role key its_key certs now m m2 ne o w c
        short =
      rw (appended file content cert name role key certs now m o w c, m2)
        (find_row-appended file content name role key (codec.base64 its_key) now o short
          ∙ differs (same_bytes (codec.base64 key) (codec.base64 its_key)) refl)
    where
      differs :
          (b : Bool)
          → same_bytes (codec.base64 key) (codec.base64 its_key) ≡ b
          → or_else (find_row codec file content (codec.base64 its_key)) (
              if b
              then ok (user_of codec (sanitized name) (sanitized role) now key)
              else err not_authorized)
            ≡ find_row codec file content (codec.base64 its_key)
      differs true e = absurd (ne (same_bytes→≡ _ _ e))
      differs false e = or_else-not_authorized _
