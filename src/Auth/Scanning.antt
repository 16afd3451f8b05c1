-- ===== src/Auth/Scanning.antt =====
-- checkCertificateAuthorized over the lines of a file that grows.
use colex.Base.{true, false, List, [], ◌∷◌, ◌++◌, ◌≡◌, ◌≢◌, refl, arith, leb, length, if◌then◌else◌}
use colex.Base.Int.{ℤ}
use colex.Base.Outcome.{Error, Result, ok, err, panic, not_authorized, line_too_long}
use colex.Base.Text.{Bytes, split, same_bytes, drop_cr}
use colex.Auth.{
  Codec, AuthorizedUser, space, newline, parse_cert_authorized_line, parse_fields, row_or, scan,
  is_empty, row_of,
}
use colex.Auth.Rows.{IsFree}

-- What the file's format relies on: numbers and base64 are printed without blanks and line ends, and
-- a number reads back. strconv has no error that is errNotAuthorized.
pub record IsCodec (codec : Codec) : Type 0 where
  pub base64_spaces : (bs : Bytes) → IsFree space (codec.base64 bs)
  pub base64_newlines : (bs : Bytes) → IsFree newline (codec.base64 bs)
  pub base64_returns : (bs : Bytes) → IsFree 13 (codec.base64 bs)
  pub itoa_spaces : (n : ℤ) → IsFree space (codec.itoa n)
  pub itoa_newlines : (n : ℤ) → IsFree newline (codec.itoa n)
  pub atoi-itoa : (n : ℤ) → codec.atoi (codec.itoa n) ≡ ok n
  pub atoi_error : (bs : Bytes) → codec.atoi bs ≢ err not_authorized

abbrev pub or_else : Result AuthorizedUser → Result AuthorizedUser → Result AuthorizedUser
or_else (err not_authorized) r = r
or_else (err e) r = err e
or_else (ok u) r = ok u
or_else panic r = panic

abbrev pub failure : Error → Result AuthorizedUser
failure e = err e

abbrev err_ℤ : Error → Result ℤ
err_ℤ e = err e

abbrev pub user_of : Codec → Bytes → Bytes → ℤ → Bytes → AuthorizedUser
user_of codec name role now key = record {
  name = name;
  created_at_epoch = now;
  role_encoded = codec.base64 (codec.role_json role);
  pubkey_raw = codec.base64 key;
}

module _ (codec : Codec) where
  pub joined_nonempty : (n rest : Bytes) → is_empty codec (n ++ space ∷ rest) ≡ false
  joined_nonempty [] rest = refl
  joined_nonempty (b ∷ bs) rest = refl

module _ (codec : Codec) (lawful : IsCodec codec) where
  failed_row : (e : Error) → err_ℤ e ≢ err not_authorized → failure e ≢ err not_authorized
  failed_row not_authorized h p = h refl
  failed_row _ h p = ground arith

  fields_error : (fields : List Bytes) → parse_fields codec fields ≢ err not_authorized
  unfolding parse_fields
  fields_error (n ∷ r ∷ e ∷ k ∷ []) =
      elim (codec.atoi e)
          as (λ a. a ≢ err not_authorized → row_of codec n r k a ≢ err not_authorized) [
            | ok z ↦ λ h p. cc
            | err z ↦ λ h p. failed_row z h p
            | panic ↦ λ h p. cc
          ]
        (lawful.atoi_error e)
  fields_error [] = λ p. cc
  fields_error (_ ∷ []) = λ p. cc
  fields_error (_ ∷ _ ∷ []) = λ p. cc
  fields_error (_ ∷ _ ∷ _ ∷ []) = λ p. cc
  fields_error (_ ∷ _ ∷ _ ∷ _ ∷ _ ∷ _) = λ p. cc

  row_or-or_else :
      (key : Bytes) (r further rest : Result AuthorizedUser)
      → r ≢ err not_authorized
      → row_or codec key r (or_else further rest) ≡ or_else (row_or codec key r further) rest
  row_or-or_else key (ok row) further rest h =
      elim (same_bytes row.pubkey_raw key)
        as (λ b.
          (if b then ok row else or_else further rest)
          ≡ or_else (if b then ok row else further) rest) [ true ↦ refl | false ↦ refl ]
  row_or-or_else key (err e) further rest h = other e h
    where
      other : (e : Error) → failure e ≢ err not_authorized → failure e ≡ or_else (failure e) rest
      other not_authorized n = absurd (n refl)
      other _ n = refl
  row_or-or_else key panic further rest h = refl

  pub scan-append :
      (key : Bytes) (xs ys : List Bytes)
      → scan codec key (xs ++ ys) ≡ or_else (scan codec key xs) (scan codec key ys)
  unfolding scan parse_cert_authorized_line
  scan-append key [] ys = refl
  scan-append key (l ∷ xs) ys =
      let hyp = scan-append key xs ys in
      let no = fields_error (split space (drop_cr l)) in
      elim (leb 65536 (length l))
        as (λ b.
          (if b
            then err line_too_long
            else if is_empty codec (drop_cr l)
            then scan codec key (xs ++ ys)
            else row_or codec key (parse_fields codec (split space (drop_cr l)))
                (scan codec key (xs ++ ys)))
          ≡ or_else
              (if b
                then err line_too_long
                else if is_empty codec (drop_cr l)
                then scan codec key xs
                else row_or codec key (parse_fields codec (split space (drop_cr l)))
                    (scan codec key xs))
              (scan codec key ys)) [
                | true ↦ refl
                | false ↦
                    elim (is_empty codec (drop_cr l))
                      as (λ b.
                        (if b
                          then scan codec key (xs ++ ys)
                          else row_or codec key (parse_fields codec (split space (drop_cr l)))
                              (scan codec key (xs ++ ys)))
                        ≡ or_else
                            (if b
                              then scan codec key xs
                              else row_or codec key (parse_fields codec (split space (drop_cr l)))
                                  (scan codec key xs))
                            (scan codec key ys)) [
                              | true ↦ hyp
                              | false ↦
                                  rw hyp (
                                    row_or-or_else key _ (scan codec key xs) (scan codec key ys) no)
                            ]
              ]
