-- ===== src/Config/Defaults.antt =====
-- loadConfig's defaults, and what a configuration must be to be accepted.
use colex.Base.{
  String, Bool, true, Bool-cases, ◌⊎◌, inl, inr, Option, none, ◌≡◌, ◌≢◌, arith, same_text,
  same_text_iff,
}
use colex.Base.Outcome.{ok}
use colex.Config.{
  Config, sanitize, validate_config, auth_mode_open, auth_mode_certfile, key_source_ephemeral,
  key_source_embedded,
}

-- The part of the TLS configuration that can be checked without a server.
abbrev HasKeys : (String → String → Bool) → Config → Type 0
HasKeys key_pair_ok c =
    (c.key_source ≡ key_source_ephemeral)
    ⊎ ((c.key_source ≡ key_source_embedded) × (key_pair_ok c.cert_pem c.key_pem ≡ true))

abbrev HasMode : (String → Option String) → Config → Type 0
HasMode certs_file_error c =
    (c.mode ≡ auth_mode_open)
    ⊎ ((c.mode ≡ auth_mode_certfile) × (certs_file_error c.certs_file ≡ none))

pub record IsValid (key_pair_ok : String → String → Bool)
    (certs_file_error : String → Option String) (c : Config) : Type 0 where
  pub keys : HasKeys key_pair_ok c
  pub pool : c.address_pool ≢ ""
  pub listener : c.listener ≢ ""
  pub mode : HasMode certs_file_error c

module _ (key_pair_ok : String → String → Bool) (certs_file_error : String → Option String) where
  -- A configuration that passes has its keys, a pool, a listener, and a mode that the server knows, with
  -- a certificates file that is there where the mode needs one.
  pub validate_config-IsValid :
      (c : Config)
      → validate_config key_pair_ok certs_file_error c ≡ ok tt
      → IsValid key_pair_ok certs_file_error c
  unfolding validate_config
  validate_config-IsValid c h = record {
    keys = elim (Bool-cases (same_text c.key_source key_source_ephemeral)) [
      | inl e ↦ inl ((same_text_iff c.key_source key_source_ephemeral).0 e)
      | inr ne ↦ inr (ground (arith, same_text_iff c.key_source key_source_embedded))
    ];
    pool = ground (arith, same_text_iff c.address_pool "");
    listener = ground (arith, same_text_iff c.listener "");
    mode = elim (Bool-cases (same_text c.mode auth_mode_open)) [
      | inl e ↦ inl ((same_text_iff c.mode auth_mode_open).0 e)
      | inr ne ↦ inr (ground (arith, same_text_iff c.mode auth_mode_certfile))
    ];
  }

-- The defaults are filled in once: with the same flags again nothing changes.
pub sanitize-sanitize :
    (addr ip_pool : String) (c : Config)
    → sanitize addr ip_pool (sanitize addr ip_pool c) ≡ sanitize addr ip_pool c
unfolding sanitize
sanitize-sanitize addr ip_pool c = ground arith
