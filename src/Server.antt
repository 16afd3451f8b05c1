-- ===== src/Server.antt =====
-- colexd/serv.go: the daemon. Its lock makes each request, and each notice of a silo that ended, one
-- step on this state.
pub mod Silos
pub mod Claims
pub mod Stopping
pub mod Reserving
pub mod Starting
pub mod Requests
pub mod Lifetime
pub mod Launch
pub mod Registry
use colex.Base.{ℕ, String, Bool, false, Option, none, some, List, []}
use colex.Base.Int.{ℤ}
use colex.Base.Map.{Map}
use colex.Base.Outcome.{Error, Result, Exec, ok, err, panic, within}
use colex.Base.Text.{Bytes}
use colex.Ip.{Ip, IpNet}
use colex.IpPool.{IpPool}
use colex.Os.{Os, Host}
use colex.Wire.{UpPacketResponse, ListPacket, EnableEnrollResponse}
use colex.Config.{Config}
use colex.Auth.{Codec, CertsFile}
use colex.Metadata.{Metadata, Service, Event, host_event}
use colex.Controller.Types.{Silo, Ctx}

pub record Server : Type 0 where
  pub config : Config
  pub host : Host
  pub metadata : Metadata
  pub silos : Map Silo
  pub closing : Bool
  pub blind_enrollment_deadline : ℤ
  pub blind_enrollment_key : String
  -- the content of the certificates file
  pub certs : Bytes

-- What the daemon runs on: the system, the user and group that it runs as, the libraries that it calls,
-- and how the certificates file behaves.
pub record Env : Type 0 where
  pub os : Os
  pub uid : ℕ
  pub gid : ℕ
  pub codec : Codec
  pub certs_file : CertsFile
  -- base64.URLEncoding
  pub url_text : Bytes → String

-- What goes back to the client: a status with a text or with the error's text, or a packet.
pub data Reply : Type 0 where
  empty : Reply
  http_error : ℕ → String → Reply
  http_failure : ℕ → Error → Reply
  up_response : UpPacketResponse → Reply
  list_response : ListPacket → Reply
  enroll_response : EnableEnrollResponse → Reply

abbrev pub on_host : {A : Type 0} → Exec Host A → Exec Server A
on_host = within (λ (s : Server). s.host) (λ h s. record s { host = h })

abbrev pub on_pool : {A : Type 0} → Exec IpPool A → Exec Server A
on_pool =
    within (λ (s : Server). s.host.pool) (λ p s. record s { host = record s.host { pool = p } })

abbrev pub on_metadata : Exec Service Unit → Exec Server Unit
on_metadata =
    within (λ (s : Server). record { metadata = s.metadata; host = s.host })
      (λ (v : Service) s. record s { metadata = v.metadata; host = v.host })

abbrev pub notify : Os → ℤ → Event → Exec Server Unit
notify os now e = on_metadata (host_event os now e)

-- A method of a silo that the server holds: how it ended, and the silo as it left it.
abbrev pub ended : Result {0} Unit × Ctx → Server → Result (Option Error × Silo) × Server
ended (ok u, c) s = (ok (none, c.silo), record s { host = c.host })
ended (err e, c) s = (ok (some e, c.silo), record s { host = c.host })
ended (panic, c) s = (panic, record s { host = c.host })

unfoldable pub run_method : Exec Ctx Unit → Silo → Exec Server (Option Error × Silo)
run_method m silo s = ended (m (record { silo = silo; host = s.host })) s
