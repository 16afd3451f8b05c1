-- ===== src/Metadata/Requests.antt =====
-- colexd/metadata_service.go: the HTTP requests that silos make.
pub mod Grants
use Prim.Native.String.{◌++◌ as join_text}
use colex.Base.{
  ℕ, String, Bool, true, false, Option, none, some, List, [], ◌∷◌, if◌then◌else◌, same_text,
}
use colex.Base.Int.{ℤ}
use colex.Base.Map.{Map, lookup}
use colex.Base.Outcome.{Error, Result, Exec, ok, err, panic, pure, crash, ◌>>=◌, ◌>>◌}
use colex.Base.Text.{trim_prefix, cut_text}
use colex.Os.{Os, Host, ProcMem}
use colex.Wire.{Interface}
use colex.Processes.{mem_stats}
use colex.Metadata.{SiloInfo, Metadata, find_routeable_address, describe_interfaces}
use colex.Metadata.Dns.{id_for}

-- one value of /list
pub data Detail : Type 0 where
  -- since that time, until now
  run_seconds : ℤ → ℤ → Detail
  tags : List String → Detail
  text : String → Detail

pub data Reply : Type 0 where
  nothing : Reply
  http_error : ℕ → String → Reply
  self : SiloInfo → Reply
  stats : ProcMem → Reply
  listing : List (String × Detail) → Reply
  meta : SiloInfo → Reply
  netstats : List Interface → Reply

-- the switch of metadataListHandler
unfoldable pub detail_of : ℤ → String → SiloInfo → Detail
detail_of now wanted s =
    if same_text wanted "run-seconds"
    then run_seconds s.started now
    else if same_text wanted "tags"
    then tags s.tags
    else if same_text wanted "bridge-address"
    then text s.bridge_ip
    else if same_text wanted "routeable-address"
    then text (find_routeable_address s.interfaces)
    else text s.id

unfoldable pub details : ℤ → String → Map SiloInfo → List (String × Detail)
unfolding detail_of
details now wanted [] = []
details now wanted ((name, s) ∷ rest) = (name, detail_of now wanted s) ∷ details now wanted rest

-- s.silosByID[siloID].silo.Grant["query_silos"], where a missing key reads as false
abbrev pub grants : Option Bool → Bool
grants none = false
grants (some granted) = granted

module _ (os : Os) where
  abbrev stats_reply : Result ProcMem × Host → Result Reply × Host
  stats_reply (ok mem, h) = (ok (stats mem), h)
  stats_reply (err e, h) = (ok (http_error 500 "Internal server error"), h)
  stats_reply (panic, h) = (panic, h)

  abbrev about : String → Option SiloInfo → Exec Host Reply
  about detail none = pure (http_error 404 "No silo with that ID")
  about detail (some s) =
      if same_text detail "meta"
      then pure (meta s)
      else if same_text detail "netstats"
      then (do interfaces ← describe_interfaces os s.silo true; pure (netstats interfaces))
      else pure (http_error 400 (join_text "Unknown detail " detail))

  -- Without a second slash the slice's bounds are wrong.
  abbrev query_parts : Metadata → Option (String × String) → Exec Host Reply
  query_parts m none = crash
  query_parts m (some (id, detail)) = about detail (lookup id m.silos_by_id)

  -- metadataSiloQueryHandler, for what follows /silo/
  unfoldable pub query_handler : Metadata → String → Exec Host Reply
  query_handler m rest = query_parts m (cut_text 47 rest)

  abbrev silo_query : Metadata → SiloInfo → Option String → Exec Host Reply
  silo_query m s none = pure nothing
  silo_query m s (some rest) =
      if grants (lookup "query_silos" s.silo.grant)
      then query_handler m rest
      else pure (http_error 403 "'query_silos' grant required")

  -- The paths exclude one another, so the tests one after the other are a switch.
  unfoldable pub serve_silo : ℤ → Metadata → String → String → SiloInfo → Exec Host Reply
  serve_silo now m path wanted s =
      if same_text path "/self"
      then pure (self s)
      else if same_text path "/stats"
      then (λ h. stats_reply (mem_stats os s.silo h))
      else if same_text path "/list"
      then pure (listing (details now wanted m.silos_by_name))
      else silo_query m s (trim_prefix "/silo/" path)

  abbrev serve_found : ℤ → Metadata → String → String → Option SiloInfo → Exec Host Reply
  serve_found now m path wanted none = crash
  serve_found now m path wanted (some s) = serve_silo now m path wanted s

  -- ServeHTTP for a request of `remote`, with the query's `with`
  unfoldable pub serve_http :
      (String → String) → ℤ → Metadata → String → String → String → Exec Host Reply
  serve_http split_host now m remote path wanted =
      let id = id_for split_host remote m in
      if m.is_closing
      then pure (http_error 500 "Shutdown in progress")
      else if same_text id ""
      then pure (http_error 403 "Unauthorized")
      else serve_found now m path wanted (lookup id m.silos_by_id)
