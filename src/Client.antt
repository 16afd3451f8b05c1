-- ===== src/Client.antt =====
-- colexd/colex-cli: the client's files, its certificate and the pinned certificates of servers. `R` is the
-- state of whatever stands behind the connection.
pub mod Statistics
pub mod Pinning
pub mod Certificate
pub mod Commands
pub mod Choice
pub mod Alone
pub mod Sending
use Prim.Native.Char.{code}
use Prim.Native.String as String
use colex.Base.{
  ℕ, zero, suc, String, Bool, true, false, ◌||◌, Option, none, some, List, [], ◌∷◌, if◌then◌else◌,
  ◌==◌,
}
use colex.Base.Map.{Map, lookup, insert}
use colex.Base.Outcome.{
  Error, Result, Exec, ok, err, panic, bad_key_pair, no_pinned_certificate, pinned_mismatch, pure,
  raise, crash, lift, gets, modify, ◌>>=◌, ◌>>◌,
}
use colex.Base.Text.{Bytes, same_bytes}
use colex.Wire.{Payload, SiloConf}
use colex.Server.{Reply}
use colex.Server.Requests.{Request}

-- ~/.colex has cert.pem and key.pem, and in known_hosts a file for each server.
pub record World (R : Type 0) : Type 0 where
  pub remote : R
  pub cert_pem : Option Bytes
  pub key_pem : Option Bytes
  pub known_hosts : Map Bytes
  -- what fmt.Scanln will read of each line, "" where it fails
  pub typed : List String
  -- the lines and the table rows, by their fields; the newest comes last
  pub printed : List (List String)
  -- how often the disk was written to
  pub writes : ℕ

-- What the client calls of its system and of its libraries.
pub record Outside (R : Type 0) : Type 0 where
  pub home_error : Option Error
  -- the files of a key pair belong together
  pub pair_ok : Bytes → Bytes → Bool
  pub mint : Result (Bytes × Bytes)
  -- a failure of the n-th write, where it opens the file or makes the folder for it
  pub write_error : ℕ → String → Option Error
  -- an error of reading a pin but that there is none
  pub pin_error : String → Option Error
  -- the certificates that the server presents, and the connection
  pub raw_certs : List Bytes
  pub send : Request → R → Result Reply × R
  -- siloconf.LoadSiloFile up to its sanitization
  pub decode_silo_file : String → Result (List SiloConf)
  pub read_file : String → Result Bytes
  pub tar : String → Result Bytes
  -- what net/url reads of "key=…&name=…", where it parses
  pub read_query : String → Option (String × String)
  -- bytefmt.ByteSize
  pub byte_size : ℕ → String

-- strings.NewReplacer of sanitizeAddress
unfoldable pub sanitize_address : String → String
sanitize_address String.[] = ""
sanitize_address (String.◌∷◌ c s) =
    let rest = sanitize_address s in
    if code c == 58
    then String.◌∷◌ "-" rest
    else if code c == 47 || code c == 39 || code c == 34
    then rest
    else String.◌∷◌ c rest

-- strings.ContainsAny(answer, "yY")
unfoldable pub says_yes : String → Bool
says_yes String.[] = false
says_yes (String.◌∷◌ c s) = code c == 121 || code c == 89 || says_yes s

unfoldable pub any_equal : Bytes → List Bytes → Bool
any_equal pinned [] = false
any_equal pinned (c ∷ cs) = same_bytes c pinned || any_equal pinned cs

module _ {R : Type 0} (outside : Outside R) (serv : String) where
  abbrev pub or_fail : Option Error → Exec (World R) Unit
  or_fail none = pure tt
  or_fail (some e) = raise e

  unfoldable pub write : String → (World R → World R) → Exec (World R) Unit
  write name stored = do
    n ← gets (λ (w : World R). w.writes)
    modify (λ (w : World R). record w { writes = suc n })
    or_fail (outside.write_error n name)
    modify stored

  abbrev pub next_line : List String → String
  next_line [] = ""
  next_line (line ∷ lines) = line

  abbrev pub lines_after : List String → List String
  lines_after [] = []
  lines_after (line ∷ lines) = lines

  unfoldable pub prompt : Exec (World R) String
  prompt = do
    typed ← gets (λ (w : World R). w.typed)
    modify (λ (w : World R). record w { typed = lines_after typed })
    pure (next_line typed)

  -- getPinnedCert: none where its error is os.IsNotExist
  unfoldable pub get_pinned_cert : Exec (World R) (Option Bytes)
  get_pinned_cert = do
    or_fail outside.home_error
    or_fail (outside.pin_error (sanitize_address serv))
    gets (λ (w : World R). lookup (sanitize_address serv) w.known_hosts)

  unfoldable pub pin_certificate : Bytes → Exec (World R) Unit
  pin_certificate cert = do
    or_fail outside.home_error
    write (sanitize_address serv) (λ (w : World R). record w {
      known_hosts = insert (sanitize_address serv) cert w.known_hosts;
    })

  -- pinCertificate(*serv, rawCerts[0])
  unfoldable pub pin_first : List Bytes → Exec (World R) Unit
  pin_first [] = crash
  pin_first (c ∷ cs) = pin_certificate c

  unfoldable pub check_pinned : Option Bytes → Exec (World R) Unit
  check_pinned (some pinned) =
      if any_equal pinned outside.raw_certs then pure tt else raise pinned_mismatch
  check_pinned none = do
    answer ← prompt
    if says_yes answer then pin_first outside.raw_certs else raise no_pinned_certificate

  -- The VerifyPeerCertificate of client()
  unfoldable pub verify_peer_certificate : Exec (World R) Unit
  verify_peer_certificate = do pinned ← get_pinned_cert; check_pinned pinned

  -- tls.LoadX509KeyPair: none where a file is missing
  abbrev pub load_pair : Option Bytes → Option Bytes → Result (Option Bytes)
  load_pair (some c) (some k) = if outside.pair_ok c k then ok (some c) else err bad_key_pair
  load_pair _ _ = ok none

  unfoldable pub mint_pair : Exec (World R) Unit
  mint_pair = do
    minted ← lift outside.mint
    write "cert.pem" (λ (w : World R). record w { cert_pem = some minted.0 })
    write "key.pem" (λ (w : World R). record w { key_pem = some minted.1 })

  -- getClientCert calls itself; none where the fuel runs out
  unfoldable pub get_client_cert : ℕ → Exec (World R) (Option Bytes)
  get_client_cert zero = pure none
  get_client_cert (suc fuel) = do
    let again = get_client_cert fuel
    or_fail outside.home_error
    w ← gets (λ (w : World R). w)
    loaded ← lift (load_pair w.cert_pem w.key_pem)
    elim loaded [ some c ↦ pure (some c) | none ↦ (do mint_pair; again) ]

  abbrev pub peers_of : Option Bytes → Option (List Bytes)
  peers_of none = some []
  peers_of (some c) = some (c ∷ [])

  abbrev pub arrived : Result Reply × R → World R → Result Reply × World R
  arrived (r, far) w = (r, record w { remote = far })

  -- client.Post or client.Get of a new client: its certificate, the handshake, the request
  unfoldable pub post : String → Payload → String → String → Exec (World R) Reply
  post path payload key name = do
    cert ← get_client_cert 2
    verify_peer_certificate
    λ w.
        arrived
          (outside.send
            (record {
              path = path;
              peers = peers_of cert;
              payload = payload;
              key = key;
              name = name;
            })
            w.remote)
          w
