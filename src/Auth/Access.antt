-- ===== src/Auth/Access.antt =====
-- checkAuthorized: whom it lets through.
use colex.Base.{
  String, Bool-cases, ◌⊎◌, inl, inr, Option, none, some, List, [], ◌∷◌, ◌≡◌, refl, arith, leb,
  length, same_text, same_text_iff,
}
use colex.Base.Outcome.{Result, ok, err, panic}
use colex.Base.Text.{Bytes, split, same_bytes, drop_cr}
use colex.Config.{Config, auth_mode_open, auth_mode_certfile}
use colex.Auth.{
  Codec, CertsFile, AuthorizedUser, Connection, newline, parse_cert_authorized_line, row_or, scan,
  find_row, is_empty, failed_with, check_certificate_authorized, check_authorized, check_peers,
  on_key, some_user,
}
use colex.Auth.Rows.{same_bytes→≡}

-- One of the lines is the row of `user`, whose public key in base64 is `key`.
pub data Lists (codec : Codec) (key : Bytes) (user : AuthorizedUser) : List Bytes → Type 0 where
  here :
      {l : Bytes} {ls : List Bytes}
      → parse_cert_authorized_line codec (drop_cr l) ≡ ok user
      → user.pubkey_raw ≡ key
      → Lists codec key user (l ∷ ls)
  later : {l : Bytes} {ls : List Bytes} → Lists codec key user ls → Lists codec key user (l ∷ ls)

-- The first certificate of the connection belongs to a row of the file.
pub record IsListed (codec : Codec) (content : Bytes) (peers : Connection)
    (user : Option AuthorizedUser) : Type 0 where
  pub cert : Bytes
  pub certs : List Bytes
  pub key : Bytes
  pub row : AuthorizedUser
  pub presented : peers ≡ some (cert ∷ certs)
  pub marshalled : codec.marshal_key cert ≡ ok key
  pub named : user ≡ some row
  pub lists : Lists codec (codec.base64 key) row (split newline content)

module _ (codec : Codec) where
  row_or-Lists :
      (key : Bytes) (user : AuthorizedUser) (l : Bytes) (ls : List Bytes)
      (r : Result AuthorizedUser)
      → parse_cert_authorized_line codec (drop_cr l) ≡ r
      → row_or codec key r (scan codec key ls) ≡ ok user
      → (scan codec key ls ≡ ok user → Lists codec key user ls)
      → Lists codec key user (l ∷ ls)
  row_or-Lists key user l ls (ok row) e h further =
      elim (Bool-cases (same_bytes row.pubkey_raw key)) [
        | inl same ↦
            let it : row ≡ user = ground arith in
            let its_key = same_bytes→≡ row.pubkey_raw key same in
            here (rw (← it) e) (rw (← it) its_key)
        | inr other ↦ later (further (ground arith))
      ]
  row_or-Lists key user l ls (err e2) e h further = cc
  row_or-Lists key user l ls panic e h further = cc

  scan-Lists :
      (key : Bytes) (user : AuthorizedUser) (ls : List Bytes)
      → scan codec key ls ≡ ok user
      → Lists codec key user ls
  unfolding scan
  scan-Lists key user [] h = cc
  scan-Lists key user (l ∷ ls) h = elim (Bool-cases (leb 65536 (length l))) [
    | inl long ↦ ground arith
    | inr fits ↦ elim (Bool-cases (is_empty codec (drop_cr l))) [
      | inl blank ↦ later (scan-Lists key user ls (ground arith))
      | inr text ↦ row_or-Lists key user l ls _ refl (ground arith) (scan-Lists key user ls)
    ]
  ]

  find_row-Lists :
      (file : CertsFile) (content key : Bytes) (user : AuthorizedUser)
      → find_row codec file content key ≡ ok user
      → Lists codec key user (split newline content)
  unfolding find_row
  find_row-Lists file content key user h =
      elim file.open_error
          as (λ o.
            failed_with o (scan codec key (split newline content)) ≡ ok user
            → Lists codec key user (split newline content)) [
              | none ↦ λ e. scan-Lists key user _ e
              | some e ↦ λ x. cc
            ]
        h

  key-IsListed :
      (file : CertsFile) (content cert : Bytes) (certs : List Bytes) (user : Option AuthorizedUser)
      (r : Result Bytes)
      → codec.marshal_key cert ≡ r
      → some_user codec (on_key codec r (find_row codec file content)) ≡ ok user
      → IsListed codec content (some (cert ∷ certs)) user
  key-IsListed file content cert certs user (ok k) m h =
      found (find_row codec file content (codec.base64 k)) refl h
    where
      found :
          (f : Result AuthorizedUser)
          → find_row codec file content (codec.base64 k) ≡ f
          → some_user codec f ≡ ok user
          → IsListed codec content (some (cert ∷ certs)) user
      found (ok row) e h = record {
        cert = cert;
        certs = certs;
        key = k;
        row = row;
        presented = refl;
        marshalled = m;
        named = ground arith;
        lists = find_row-Lists file content (codec.base64 k) row e;
      }
      found (err x) e h = cc
      found panic e h = cc
  key-IsListed file content cert certs user (err e) m h = cc
  key-IsListed file content cert certs user panic m h = cc

  peers-IsListed :
      (c : Config) (file : CertsFile) (content : Bytes) (peers : Connection)
      (user : Option AuthorizedUser)
      → check_peers codec c file content peers ≡ ok user
      → IsListed codec content peers user
  unfolding check_certificate_authorized
  peers-IsListed c file content none user h = cc
  peers-IsListed c file content (some []) user h = cc
  peers-IsListed c file content (some (cert ∷ certs)) user h =
      elim (Bool-cases (same_text c.mode auth_mode_certfile)) [
        | inl certs_mode ↦ key-IsListed file content cert certs user _ refl (rw certs_mode at h)
        | inr other ↦ ground arith
      ]

  -- A request passes only in open mode, on its way to enrol, or with a certificate whose public key
  -- stands in a row of the file; the user is then the one of that row.
  pub check_authorized-IsListed :
      (c : Config) (file : CertsFile) (content : Bytes) (path : String) (peers : Connection)
      (user : Option AuthorizedUser)
      → check_authorized codec c file content path peers ≡ ok user
      → (c.mode ≡ auth_mode_open) ⊎ ((path ≡ "/enroll") ⊎ IsListed codec content peers user)
  unfolding check_authorized
  check_authorized-IsListed c file content path peers user h =
      elim (Bool-cases (same_text c.mode auth_mode_open)) [
        | inl open_mode ↦ inl ((same_text_iff c.mode auth_mode_open).0 open_mode)
        | inr closed ↦ elim (Bool-cases (same_text path "/enroll")) [
          | inl enrolling ↦ inr (inl ((same_text_iff path "/enroll").0 enrolling))
          | inr other ↦ inr (inr (peers-IsListed c file content peers user (ground arith)))
        ]
      ]
