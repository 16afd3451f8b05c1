-- ===== src/Examples/Client.antt =====
-- One client of the daemon of these examples: its files are there, and the server is not pinned yet.
use colex.Base.{
  ℕ, ◌++◌, ◌≤◌, ◌%◌, ◌^◌, String, Bool, true, false, Option, none, some, List, [], ◌∷◌, ◌≡◌, ◌≢◌,
  ◌⊎◌, inl, inr, refl, arith, length,
}
use colex.Base.Int.{pos}
use colex.Base.Outcome.{Result, ok, err, panic, bad_key_pair, crash, ◌>>=◌}
use colex.Wire.{SiloConf, Interface, set_host}
use colex.Os.{LinkStatistics, no_statistics}
use colex.Server.{Server, Reply, http_error}
use colex.Server.Requests.{Request, serve_http}
use colex.Client.{World, post, Outside, sanitize_address, verify_peer_certificate, get_client_cert}
use colex.Client.Statistics.{sum_interface_statistics, total, sum_interface_statistics-total}
use colex.Client.Pinning.{verify_peer_certificate-again}
use colex.Client.Certificate.{get_client_cert-found}
use colex.Client.Choice.{main, command_of, main-set_host}
use colex.Client.Commands.{accepted, sanitize_silos, up_command, down_command}
use colex.Client.Sending.{IsRecorded, IsUp, IsDown, Asked, Begun, up_command-AreAsked}
use colex.Base.Yields.{Ends}
use colex.Examples.Requests.{env, server}
use colex.Examples.Lifetime.{asked}

abbrev sent : Request → Server → Result Reply × Server
sent r s = serve_http env (pos 7) r s

abbrev outside : Outside Server
outside = record {
  home_error = none;
  pair_ok = λ c k. true;
  mint = err bad_key_pair;
  write_error = λ n name. none;
  pin_error = λ name. none;
  raw_certs = (7 ∷ 8 ∷ []) ∷ [];
  send = sent;
  decode_silo_file = λ path. ok (asked ∷ []);
  read_file = λ path. ok [];
  tar = λ path. ok [];
  read_query = λ q. none;
  byte_size = λ n. "";
}

abbrev client : World Server
client = record {
  remote = server;
  cert_pem = some (1 ∷ []);
  key_pem = some (2 ∷ []);
  known_hosts = [];
  typed = "y" ∷ [];
  printed = [];
  writes = 0;
}

abbrev pinned : World Server
pinned = record client { known_hosts = ("h-80", 7 ∷ 8 ∷ []) ∷ []; typed = []; writes = 1 }

agreed : verify_peer_certificate outside "h:80" client ≡ (ok tt, pinned)
unfolding verify_peer_certificate colex.Base.Outcome.◌>>=◌ colex.Client.get_pinned_cert
    colex.Client.check_pinned colex.Base.Map.lookup colex.Client.prompt colex.Client.says_yes
    colex.Client.pin_first colex.Client.pin_certificate colex.Client.write colex.Base.Map.insert
    sanitize_address
agreed = refl

verify_peer_certificate-again_example :
    verify_peer_certificate outside "h:80" pinned ≡ (ok tt, pinned)
verify_peer_certificate-again_example =
    verify_peer_certificate-again outside "h:80" client pinned agreed

get_client_cert-found_example :
    (get_client_cert outside "h:80" 2 (record client { key_pem = none })).0 ≢ ok none
get_client_cert-found_example =
    get_client_cert-found outside "h:80" (record client { key_pem = none })

main-set_host_example :
    (main outside "h:80" ("set-host" ∷ "db" ∷ "10.0.0.7" ∷ []) ≡ (do
      reply ←
          post outside "h:80" "/set-host" (set_host (record { host = "db"; ip = "10.0.0.7" })) "" ""
      accepted outside "h:80" reply))
    × (main outside "h:80" ("set-host" ∷ "db" ∷ []) ≡ crash)
    × (main outside "h:80" ("db" ∷ "set-host" ∷ []) ≡ (do
      reply ←
          post outside "h:80" "/set-host" (set_host (record { host = "db"; ip = "set-host" })) "" ""
      accepted outside "h:80" reply))
unfolding command_of
main-set_host_example = main-set_host outside "h:80" "db" "10.0.0.7" refl refl refl

abbrev busy : LinkStatistics
busy = record no_statistics { rx_bytes = 18446744073709551615; tx_bytes = 5 }

abbrev interfaces : List Interface
interfaces =
    record { name = "lo"; address = ""; kind = "loopback"; stats = busy }
    ∷ record { name = "v1"; address = ""; kind = "silo-veth"; stats = busy }
    ∷ record { name = "v2"; address = ""; kind = "silo-veth"; stats = busy }
    ∷ []

sum_interface_statistics-total_example : sum_interface_statistics interfaces ≡ record {
  rx_packets = total (λ s. s.rx_packets) interfaces % 2 ^ 64;
  tx_packets = total (λ s. s.tx_packets) interfaces % 2 ^ 64;
  rx_bytes = total (λ s. s.rx_bytes) interfaces % 2 ^ 64;
  tx_bytes = total (λ s. s.tx_bytes) interfaces % 2 ^ 64;
  rx_errors = total (λ s. s.rx_errors) interfaces % 2 ^ 64;
  tx_errors = total (λ s. s.tx_errors) interfaces % 2 ^ 64;
  rx_dropped = total (λ s. s.rx_dropped) interfaces % 2 ^ 64;
  tx_dropped = total (λ s. s.tx_dropped) interfaces % 2 ^ 64;
}
sum_interface_statistics-total_example = sum_interface_statistics-total interfaces

-- A side that keeps the requests and refuses each, and a file of two silos
abbrev keeper : Outside (List Request)
keeper = record {
  home_error = none;
  pair_ok = λ c k. true;
  mint = err bad_key_pair;
  write_error = λ n name. none;
  pin_error = λ name. none;
  raw_certs = (7 ∷ 8 ∷ []) ∷ [];
  send = λ r past. (ok (http_error 500 "busy"), past ++ r ∷ []);
  decode_silo_file = λ path. ok (asked ∷ record asked { name = "db" } ∷ []);
  read_file = λ path. ok [];
  tar = λ path. ok [];
  read_query = λ q. none;
  byte_size = λ n. "";
}

abbrev unasked : World (List Request)
unasked = record {
  remote = [];
  cert_pem = some (1 ∷ []);
  key_pem = some (2 ∷ []);
  known_hosts = ("h-80", 7 ∷ 8 ∷ []) ∷ [];
  typed = [];
  printed = [];
  writes = 0;
}

abbrev two_silos : List SiloConf
two_silos = sanitize_silos (asked ∷ record asked { name = "db" } ∷ [])

keeper-IsRecorded : IsRecorded keeper
keeper-IsRecorded = record { kept = λ r past. refl }

up_command-AreAsked_example :
    Ends
      (λ u. Asked keeper "h:80" keeper-IsRecorded IsUp [] two_silos)
      (Begun keeper "h:80" keeper-IsRecorded IsUp [] two_silos)
      (up_command keeper "h:80" ("web.hcl" ∷ []) unasked)
    × Ends
        (λ u. Asked keeper "h:80" keeper-IsRecorded IsDown [] two_silos)
        (Begun keeper "h:80" keeper-IsRecorded IsDown [] two_silos)
        (down_command keeper "h:80" ("web.hcl" ∷ []) unasked)
up_command-AreAsked_example =
    up_command-AreAsked keeper "h:80" keeper-IsRecorded "web.hcl" []
      (asked ∷ record asked { name = "db" } ∷ []) unasked refl
