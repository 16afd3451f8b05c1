-- ===== src/Server/Requests.antt =====
-- serv.go: the requests, and the collector of silos that ended.
pub mod Access
pub mod Ending
pub mod Keeping
pub mod Listing
use colex.Base.{
  ℕ, String, Bool, true, false, ◌&&◌, ◌||◌, not, Option, none, some, List, [], ◌∷◌, ◌/◌,
  if◌then◌else◌, same_text,
}
use colex.Base.Int.{ℤ, pos, negsuc, ◌+ℤ◌, ltb_ℤ, times_int64}
use colex.Base.Map.{Map, lookup, insert}
use colex.Base.Text.{codes, Bytes}
use colex.Base.Outcome.{
  Error, Result, Exec, ok, err, panic, not_authorized, pure, raise, crash, lift, gets, modify,
  attempt, within, ◌>>=◌, ◌>>◌,
}
use colex.Os.{rand_bytes, ask_bytes, random, ProcMem}
use colex.Wire.{
  Payload, undecodable, list_request, up_packet, down_packet, set_host, UpPacket, DownPacket,
  SetHostRequest, SiloRow, SiloConf, Interface, File,
}
use colex.Config.{Config}
use colex.Auth.{AuthorizedUser, Connection, check_authorized, enroll_certificate}
use colex.Metadata.{describe_interfaces}
use colex.Processes.{mem_stats}
use colex.Controller.Types.{Silo}
use colex.Server.{
  Server, Env, Reply, empty, http_error, http_failure, up_response, list_response, enroll_response,
  on_host,
}
use colex.Server.Silos.{start_silo_internal, stop_silo_internal}

-- http.Request, as far as the handlers read it
pub record Request : Type 0 where
  pub path : String
  pub peers : Connection
  pub payload : Payload
  -- the query's key and name; "" where there is none
  pub key : String
  pub name : String

-- `if err := ...; err != nil { httpErr(w, 500, ...); return }`
abbrev or_reply : ℕ → Option Error → Exec Server Reply → Exec Server Reply
or_reply status none further = further
or_reply status (some e) further = pure (http_failure status e)

-- Unix() of a time in nanoseconds
abbrev pub whole_seconds : ℤ → ℤ
whole_seconds (pos n) = pos (n / 1000000000)
whole_seconds (negsuc n) = negsuc (n / 1000000000)

unfoldable pub silo_name_of : String → Map Silo → String
silo_name_of id [] = ""
silo_name_of id ((name, s) ∷ rest) =
    let further = silo_name_of id rest in if same_text s.id_hex id then name else further

module _ (env : Env) where
  unfoldable pub stop_or_reply : ℤ → String → Exec Server Reply → Exec Server Reply
  stop_or_reply now name further = do
    failed ← attempt (stop_silo_internal env now name)
    or_reply 500 failed further

  unfoldable pub down_by_id : ℤ → String → Exec Server Reply
  down_by_id now name =
      if same_text name ""
      then pure (http_error 400 "Could not find silo.")
      else stop_or_reply now name (pure empty)

  unfoldable pub silo_down_handler : ℤ → Payload → Exec Server Reply
  silo_down_handler now (down_packet p) =
      if not (same_text p.silo_id "") && not (same_text p.silo_name "")
      then pure (http_error 400 "Illegal combination of selectors - both name and ID set.")
      else if not (same_text p.silo_id "")
      then (do name ← gets (λ (s : Server). silo_name_of p.silo_id s.silos); down_by_id now name)
      else if not (same_text p.silo_name "")
      then stop_or_reply now p.silo_name (pure empty)
      else pure empty
  silo_down_handler now _ = pure (http_error 400 "Decode error")

  -- the reply to an UP: a missing silo would be a nil dereference
  unfoldable pub up_reply : Option Silo → Exec Server Reply
  up_reply none = crash
  up_reply (some silo) = do
    interfaces ← on_host (describe_interfaces env.os silo false)
    pure (up_response (record { id_hex = silo.id_hex; interfaces = interfaces }))

  unfoldable pub start_and_reply : ℤ → SiloConf → List File → Exec Server Reply
  start_and_reply now conf files = do
    failed ← attempt (start_silo_internal env now conf files)
    silo ← gets (λ (s : Server). lookup conf.name s.silos)
    or_reply 500 failed (up_reply silo)

  abbrev is_known : Option Silo → Bool
  is_known none = false
  is_known (some s) = true

  -- A packet without a configuration is a nil dereference.
  unfoldable pub up_with : ℤ → Option SiloConf → List File → Exec Server Reply
  up_with now none files = crash
  up_with now (some conf) files = do
    running ← gets (λ (s : Server). is_known (lookup conf.name s.silos))
    if running
        then stop_or_reply now conf.name (start_and_reply now conf files)
        else start_and_reply now conf files

  unfoldable pub silo_up_handler : ℤ → Payload → Exec Server Reply
  silo_up_handler now (up_packet p) = up_with now p.silo_conf p.files
  silo_up_handler now _ = pure (http_error 400 "Decode error")

  unfoldable pub list_rows : Map Silo → Exec Server (List SiloRow)
  list_rows [] = pure []
  list_rows ((name, silo) ∷ rest) = do
    mem ← on_host (mem_stats env.os silo)
    interfaces ← on_host (describe_interfaces env.os silo true)
    rows ← list_rows rest
    pure (
        record {
          name = name;
          class = silo.class;
          id_hex = silo.id_hex;
          tags = silo.tags;
          interfaces = interfaces;
          mem = mem;
        }
        ∷ rows)

  abbrev pub list_reply : String → Result (List SiloRow) × Server → Result Reply × Server
  list_reply name (ok rows, s) = (ok (list_response (record { name = name; matches = rows })), s)
  list_reply name (err e, s) = (ok (http_error 400 "Statistics error"), s)
  list_reply name (panic, s) = (panic, s)

  unfoldable pub list_silos_handler : Payload → Exec Server Reply
  list_silos_handler list_request s = list_reply s.config.name (list_rows s.silos s)
  list_silos_handler _ s = (ok (http_error 400 "Decode error"), s)

  abbrev pub with_hostname : SetHostRequest → Option (Map String) → Exec Server Reply
  with_hostname p none = crash
  with_hostname p (some m) = do
    modify (λ (s : Server). record s {
      config = record s.config { hostnames = some (insert p.host p.ip m) };
    })
    pure empty

  -- A write to the map of the configuration, which is nil if it names no host.
  unfoldable pub set_host_handler : Payload → Exec Server Reply
  set_host_handler (set_host p) = do
    m ← gets (λ (s : Server). s.config.hostnames)
    with_hostname p m
  set_host_handler _ = pure (http_error 400 "Decode error")

  abbrev pub announced : Option AuthorizedUser → Exec Server Reply
  announced none = crash
  announced (some u) = do
    deadline ← gets (λ (s : Server). s.blind_enrollment_deadline)
    key ← gets (λ (s : Server). s.blind_enrollment_key)
    pure (enroll_response (record { disables_at = deadline; code = key }))

  abbrev pub set_key : Option AuthorizedUser → Result Bytes × Server → Result Reply × Server
  set_key u (ok b, s) = announced u (record s { blind_enrollment_key = env.url_text b })
  set_key u (err e, s) = (ok (http_failure 500 e), s)
  set_key u (panic, s) = (panic, s)

  -- Times are nanoseconds. The log line reads the user, which is nil in the open mode.
  unfoldable pub enable_enroll_handler : ℤ → Option AuthorizedUser → Exec Server Reply
  enable_enroll_handler now u s = set_key u (
      on_host (rand_bytes env.os 8) (record s {
        blind_enrollment_deadline = now +ℤ times_int64 s.config.blind_enrollment_window 1000000000;
      }))

  unfoldable pub blind_enroll_handler : ℤ → Request → Exec Server Reply
  blind_enroll_handler now r = do
    s ← gets (λ (s : Server). s)
    if ltb_ℤ s.blind_enrollment_deadline now || not (same_text r.key s.blind_enrollment_key)
        then pure (http_error 403 "Failed")
        else (do
          failed ← attempt (
              within (λ (s : Server). s.certs) (λ c s. record s { certs = c })
                (enroll_certificate env.codec env.certs_file (codes r.name) (codes "root")
                  (whole_seconds now) r.peers))
          or_reply 500 failed (pure empty))

  -- the switch of ServeHTTP, for a request that may go on
  unfoldable pub dispatch : ℤ → Option AuthorizedUser → Request → Exec Server Reply
  dispatch now u r =
      if same_text r.path "/enable-enroll"
      then enable_enroll_handler now u
      else if same_text r.path "/enroll"
      then blind_enroll_handler now r
      else if same_text r.path "/up"
      then silo_up_handler now r.payload
      else if same_text r.path "/down"
      then silo_down_handler now r.payload
      else if same_text r.path "/list"
      then list_silos_handler r.payload
      else if same_text r.path "/set-host"
      then set_host_handler r.payload
      else pure (http_error 404 "No such endpoint")

  unfoldable pub admitted : ℤ → Request → Result (Option AuthorizedUser) → Exec Server Reply
  admitted now r (ok u) = dispatch now u r
  admitted now r (err not_authorized) = pure (http_error 403 "Not authorized")
  admitted now r (err e) = pure (http_error 500 "Internal server error")
  admitted now r panic = crash

  unfoldable pub serve_http : ℤ → Request → Exec Server Reply
  serve_http now r = do
    s ← gets (λ (s : Server). s)
    admitted now r (check_authorized env.codec s.config env.certs_file s.certs r.path r.peers)

  abbrev is_current : String → Option Silo → Bool
  is_current id none = false
  is_current id (some s) = same_text s.id_hex id

  -- One notice to collectorRoutine: the silo `name` with this ID has ended.
  unfoldable pub collect_finished : ℤ → String → String → Exec Server Unit
  collect_finished now name id = do
    stored ← gets (λ (s : Server). lookup name s.silos)
    if is_current id stored
        then (do attempt (stop_silo_internal env now name); pure tt)
        else pure tt
