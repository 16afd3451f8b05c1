-- ===== src/Examples/Requests.antt =====
-- Requests to one server.
use colex.Base.{String, false, Option, none, [], ◌∷◌, ◌≡◌, ◌≢◌, refl}
use colex.Base.Int.{pos}
use colex.Wire.{list_request}
use colex.Config.{from_flags, auth_mode_open}
use colex.Auth.{AuthorizedUser}
use colex.Auth.Access.{IsListed}
use colex.Metadata.{new_metadata_service}
use colex.Server.{Server, Env}
use colex.Server.Requests.{Request, serve_http}
use colex.Server.Requests.Access.{serve_http-unlisted}
use colex.Examples.{quiet, host, setup_silo, text_ne}
use colex.Server.Stopping.{ServerAccounts}
use colex.Examples.Addresses.{first_slice-Owns}
use colex.Examples.Enrolment.{codec, file, config, alice_file}

abbrev pub env : Env
env = record {
  os = quiet;
  uid = 1000;
  gid = 1000;
  codec = codec;
  certs_file = file;
  url_text = λ bs. "";
}

abbrev pub server : Server
server = record {
  config = config;
  host = host;
  metadata = new_metadata_service;
  silos = ("web", setup_silo) ∷ [];
  closing = false;
  blind_enrollment_deadline = pos 0;
  blind_enrollment_key = "k";
  certs = alice_file;
}

abbrev request : Request
request = record { path = "/list"; peers = none; payload = list_request; key = ""; name = "" }

closed_mode : config.mode ≢ auth_mode_open
unfolding from_flags
closed_mode = text_ne "certs-file" "open" refl

other_path : ◌≢◌ {A = String} "/list" "/enroll"
other_path = text_ne "/list" "/enroll" refl

nobody-IsListed : (u : Option AuthorizedUser) → ¬ IsListed codec alice_file none u
nobody-IsListed u l = let p = l.presented in cc

serve_http-unlisted_example : (serve_http env (pos 9) request server).1 ≡ server
serve_http-unlisted_example =
    serve_http-unlisted env (pos 9) request server closed_mode other_path nobody-IsListed

pub web-ServerAccounts : ServerAccounts 100 server
web-ServerAccounts = ([], first_slice-Owns)
