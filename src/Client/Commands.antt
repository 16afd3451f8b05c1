-- ===== src/Client/Commands.antt =====
-- main.go of colex-cli: its commands, with packUpPacket and the sanitization of siloconf/read.go. A line
-- that is printed is modelled by its fields, without the text of a refusal; the layout of tables is
-- tablewriter's.
use Prim.Native.String.{◌++◌ as join_text}
use colex.Base.{
  ℕ, suc, ◌+◌, ◌%◌, ◌^◌, String, Bool, true, Option, none, some, List, [], ◌∷◌, ◌++◌, ◌==◌, map,
  if◌then◌else◌, same_text,
}
use colex.Base.Map.{Map}
use colex.Base.Outcome.{
  Result, Exec, ok, err, rpc_refused, decode_failed, pure, raise, crash, lift, modify, ◌>>=◌, ◌>>◌,
}
use colex.Base.Text.{Bytes, decimal}
use colex.Wire.{
  SiloConf, SourceFile, File, Interface, SiloRow, ListPacket, UpPacket, UpPacketResponse,
  EnableEnrollResponse, undecodable, list_request, up_packet, down_packet, set_host,
}
use colex.Server.{Reply, http_error, http_failure, up_response, list_response, enroll_response}
use colex.Client.{World, Outside, prompt, post}
use colex.Client.Statistics.{sum_interface_statistics, filter_sys_interfaces}

-- ParseSiloFile after the decoding
unfoldable pub sanitize_silos : List SiloConf → List SiloConf
sanitize_silos [] = []
sanitize_silos (c ∷ rest) =
    (if same_text c.base "" then record c { base = "img://busybox" } else c) ∷ sanitize_silos rest

unfoldable pub joined : String → List String → String
joined sep [] = ""
joined sep (s ∷ []) = s
joined sep (s ∷ t ∷ rest) = join_text s (join_text sep (joined sep (t ∷ rest)))

-- resp.StatusCode == 200
abbrev pub is_accepted : Reply → Bool
is_accepted (http_error status text) = status == 200
is_accepted (http_failure status e) = status == 200
is_accepted _ = true

abbrev pub up_of : Reply → Result UpPacketResponse
up_of (up_response p) = ok p
up_of _ = err decode_failed

abbrev pub list_of : Reply → Result ListPacket
list_of (list_response p) = ok p
list_of _ = err decode_failed

abbrev pub enroll_of : Reply → Result EnableEnrollResponse
enroll_of (enroll_response p) = ok p
enroll_of _ = err decode_failed

-- `intf.Name (intf.Address), …`
unfoldable pub interface_info : List Interface → String
interface_info ins = joined ", " (
    map
      (λ (i : Interface).
        if same_text i.address ""
        then i.name
        else join_text i.name (join_text " (" (join_text i.address ")")))
      ins)

module _ {R : Type 0} (outside : Outside R) (serv : String) where
  unfoldable pub say : List String → Exec (World R) Unit
  say fields = modify (λ (w : World R). record w { printed = w.printed ++ fields ∷ [] })

  unfoldable pub accepted : Reply → Exec (World R) Unit
  accepted r = if is_accepted r then pure tt else raise rpc_refused

  unfoldable pub load_silo_file : List String → Exec (World R) (List SiloConf)
  load_silo_file [] = crash
  load_silo_file (path ∷ rest) = do
    silos ← lift (outside.decode_silo_file path)
    pure (sanitize_silos silos)

  -- The loops of packUpPacket, over the files that are read and those that tar packs
  unfoldable pub pack_with :
      String → (String → Result Bytes) → Map SourceFile → Exec (World R) (List File)
  pack_with kind content [] = pure []
  pack_with kind content ((name, f) ∷ rest) = do
    d ← lift (content f.path)
    others ← pack_with kind content rest
    pure
        (record { type = kind; local_path = f.path; silo_path = f.silo_path; content = d } ∷ others)

  unfoldable pub pack_up_packet : SiloConf → Exec (World R) UpPacket
  pack_up_packet c = do
    files ← pack_with "" outside.read_file c.files
    balls ← pack_with "tarball" outside.tar c.file_balls
    pure (record { silo_conf = some c; files = files ++ balls })

  unfoldable pub up_one : SiloConf → Reply → Exec (World R) Unit
  up_one silo reply =
      if is_accepted reply
      then (do
        p ← lift (up_of reply)
        say (
            silo.name ∷ p.id_hex ∷ "UP" ∷ interface_info (filter_sys_interfaces p.interfaces) ∷ []))
      else say (silo.name ∷ "" ∷ "Error: " ∷ "" ∷ [])

  unfoldable pub up_all : List SiloConf → Exec (World R) Unit
  up_all [] = pure tt
  up_all (silo ∷ rest) = do
    packet ← pack_up_packet silo
    reply ← post outside serv "/up" (up_packet packet) "" ""
    up_one silo reply
    up_all rest

  unfoldable pub up_command : List String → Exec (World R) Unit
  up_command args = do silos ← load_silo_file args; up_all silos

  unfoldable pub down_all : List SiloConf → Exec (World R) Unit
  down_all [] = pure tt
  down_all (silo ∷ rest) = do
    reply ←
        post outside serv "/down" (down_packet (record { silo_name = silo.name; silo_id = "" })) ""
          ""
    say ((if is_accepted reply then "down successfully" else "down RPC failed") ∷ silo.name ∷ [])
    down_all rest

  unfoldable pub down_command : List String → Exec (World R) Unit
  down_command args = do silos ← load_silo_file args; down_all silos

  -- The table's cells of the silos from number `i` on
  unfoldable pub silo_row : ℕ → SiloRow → List String
  silo_row i s =
      let ss = sum_interface_statistics s.interfaces in
      s.name
      ∷ join_text s.id_hex (join_text " (" (join_text (decimal i) ")"))
      ∷ s.class
      ∷ joined "," s.tags
      ∷ joined ", " (map (λ (n : Interface). n.address) (filter_sys_interfaces s.interfaces))
      ∷ join_text "Net=" (
          join_text (outside.byte_size ((ss.tx_bytes + ss.rx_bytes) % 2 ^ 64))
            (join_text "b Mem=" (join_text (outside.byte_size s.mem.resident) "b")))
      ∷ []

  unfoldable pub silo_rows : ℕ → List SiloRow → List (List String)
  silo_rows i [] = []
  silo_rows i (s ∷ rest) = silo_row i s ∷ silo_rows (suc i) rest

  unfoldable pub list_command : List String → Exec (World R) Unit
  list_command args = do
    reply ← post outside serv "/list" list_request "" ""
    accepted reply
    p ← lift (list_of reply)
    say (p.name ∷ [])
    modify (λ (w : World R). record w { printed = w.printed ++ silo_rows 0 p.matches })

  unfoldable pub enable_enroll_command : List String → Exec (World R) Unit
  enable_enroll_command args = do
    reply ← post outside serv "/enable-enroll" undecodable "" ""
    accepted reply
    p ← lift (enroll_of reply)
    say ("Enrollment key:" ∷ p.code ∷ [])

  -- url.Parse's nil is dereferenced where the query does not parse
  unfoldable pub enroll_with : Option (String × String) → Exec (World R) Unit
  enroll_with none = crash
  enroll_with (some (key, name)) = do
    reply ← post outside serv "/enroll" undecodable key name
    accepted reply

  unfoldable pub enroll_command : List String → Exec (World R) Unit
  enroll_command args = do
    key ← prompt outside serv
    name ← prompt outside serv
    enroll_with (outside.read_query (join_text "key=" (join_text key (join_text "&name=" name))))

  unfoldable pub set_host_command : List String → Exec (World R) Unit
  set_host_command (host ∷ ip ∷ rest) = do
    reply ← post outside serv "/set-host" (set_host (record { host = host; ip = ip })) "" ""
    accepted reply
  set_host_command _ = crash
