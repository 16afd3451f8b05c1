-- ===== src/Config.antt =====
-- colexd/config.go and what colexd/main.go does with it. Parsing the file is hcl's: a configuration
-- comes in decoded. `key_pair_ok` is tls.X509KeyPair's verdict on the embedded pair, and
-- `certs_file_error` is the error of os.Stat on the certificates file, if any.
pub mod Defaults
use colex.Base.{
  ℕ, String, Bool, true, false, not, Option, none, some, List, [], ◌∷◌, if◌then◌else◌, same_text,
}
use colex.Base.Int.{ℤ, pos, is_zero_ℤ}
use colex.Base.Map.{Map}
use colex.Base.Outcome.{
  Result, ok, err, system, bad_key_source, bad_key_pair, no_address_pool, no_listener,
  unknown_auth_mode,
}

pub record Image : Type 0 where
  pub type : String
  pub path : String
  pub name : String

pub record BindSpec : Type 0 where
  pub path : String
  pub id : String
  pub is_file : Bool

pub record Config : Type 0 where
  pub name : String
  pub listener : String
  pub address_pool : String
  pub images : List Image
  pub silo_dir : String
  pub binds : List BindSpec
  pub disable_user_namespaces : Bool
  pub key_source : String
  pub cert_pem : String
  pub key_pem : String
  pub mode : String
  pub blind_enrollment_window : ℤ
  pub certs_file : String
  -- `none` is the nil map, where the file has no such section
  pub hostnames : Option (Map String)

abbrev pub auth_mode_open : String
auth_mode_open = "open"

abbrev pub auth_mode_certfile : String
auth_mode_certfile = "certs-file"

abbrev pub key_source_ephemeral : String
key_source_ephemeral = "ephemeral"

abbrev pub key_source_embedded : String
key_source_embedded = "embedded"

abbrev or_default : String → String → String
or_default given otherwise = if same_text given "" then otherwise else given

-- The sanitization of loadConfig: the flags --addr and --ip-pool win, and what is missing is filled in.
unfoldable pub sanitize : String → String → Config → Config
sanitize addr ip_pool c = record c {
  listener = or_default addr c.listener;
  address_pool = or_default ip_pool c.address_pool;
  key_source = or_default c.key_source key_source_ephemeral;
  mode = or_default c.mode auth_mode_open;
  blind_enrollment_window =
      if is_zero_ℤ c.blind_enrollment_window then pos 35 else c.blind_enrollment_window;
}

-- The configuration of a daemon that is given no file.
unfoldable pub from_flags : String → String → Config
from_flags addr ip_pool = record {
  name = "";
  listener = addr;
  address_pool = ip_pool;
  images = [];
  silo_dir = "";
  binds = [];
  disable_user_namespaces = false;
  key_source = key_source_ephemeral;
  cert_pem = "";
  key_pem = "";
  mode = auth_mode_open;
  blind_enrollment_window = pos 0;
  certs_file = "";
  hostnames = none;
}

unfoldable pub validate_config :
    (String → String → Bool) → (String → Option String) → Config → Result {0} Unit
validate_config key_pair_ok certs_file_error c =
    let modes : Result {0} Unit =
      if same_text c.mode auth_mode_open
      then ok tt
      else if same_text c.mode auth_mode_certfile
      then elim (certs_file_error c.certs_file) [ none ↦ ok tt | some e ↦ err (system e) ]
      else err unknown_auth_mode in
    let basics : Result {0} Unit =
      if same_text c.address_pool ""
      then err no_address_pool
      else if same_text c.listener ""
      then err no_listener
      else modes in
    if same_text c.key_source key_source_ephemeral
    then basics
    else if same_text c.key_source key_source_embedded
    then (if key_pair_ok c.cert_pem c.key_pem then basics else err bad_key_pair)
    else err bad_key_source
