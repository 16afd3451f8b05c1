-- ===== src/Client/Sending.antt =====
-- colex-cli: the requests that the commands up and down send.
use mathlib.Core.List.{append_assoc, append-nil}
use colex.Base.{String, Option, some, List, [], ◌∷◌, ◌++◌, ◌≡◌, refl, sym, ap, ◌∙◌}
use colex.Base.Text.{Bytes}
use colex.Base.Outcome.{Result, Exec, ok, err, panic, ◌>>=◌}
use colex.Base.Yields.{Yields, Ends, Yields-bind, Yields-pure, Yields-keep, Ends-weaken}
use colex.Wire.{SiloConf, UpPacket, Payload, up_packet, down_packet}
use colex.Server.{Reply}
use colex.Server.Requests.{Request}
use colex.Client.{World, Outside, post, arrived, peers_of}
use colex.Client.Commands.{
  up_all, up_command, down_all, down_command, load_silo_file, sanitize_silos, pack_up_packet,
}
use colex.Client.Alone.{get_client_cert-Far, pack_with-Far, say-Far, up_one-Far, verify-Far}

-- A connection whose other side keeps the requests that reach it, the newest last, whatever it replies.
pub record IsRecorded (outside : Outside (List Request)) : Type 0 where
  pub kept : (r : Request) (past : List Request) → (outside.send r past).1 ≡ past ++ r ∷ []

-- The packet of a silo to /up, and its name to /down
abbrev pub IsUp : SiloConf → Request → Type 0
IsUp c r =
    (r.path ≡ "/up")
    × (packet : UpPacket) × (r.payload ≡ up_packet packet)
    × (packet.silo_conf ≡ some c)

abbrev pub IsDown : SiloConf → Request → Type 0
IsDown c r =
    (r.path ≡ "/down") × (r.payload ≡ down_packet (record { silo_name = c.name; silo_id = "" }))

-- One request for each silo, in their order
abbrev pub AreAsked : (SiloConf → Request → Type 0) → List SiloConf → List Request → Type 0
AreAsked Asks [] [] = Unit
AreAsked Asks (c ∷ cs) (r ∷ rs) = Asks c r × AreAsked Asks cs rs
AreAsked Asks _ _ = ⊥

-- One request for each of the first silos
abbrev pub AreBegun : (SiloConf → Request → Type 0) → List SiloConf → List Request → Type 0
AreBegun Asks cs [] = Unit
AreBegun Asks (c ∷ cs) (r ∷ rs) = Asks c r × AreBegun Asks cs rs
AreBegun Asks [] (r ∷ rs) = ⊥

module _ (outside : Outside (List Request)) (serv : String) (recorded : IsRecorded outside)
    (Asks : SiloConf → Request → Type 0) where
  abbrev Stands : List Request → World (List Request) → Type 0
  Stands past w = w.remote ≡ past

  -- One more request
  abbrev pub IsGrown : List Request → SiloConf → List Request → Type 0
  IsGrown past c now = (r : Request) × (now ≡ past ++ r ∷ []) × Asks c r

  abbrev Grown : List Request → SiloConf → World (List Request) → Type 0
  Grown past c w = IsGrown past c w.remote

  -- What was sent since
  abbrev pub Asked : List Request → List SiloConf → World (List Request) → Type 0
  Asked past cs w = (rs : List Request) × (w.remote ≡ past ++ rs) × AreAsked Asks cs rs

  abbrev pub Begun : List Request → List SiloConf → World (List Request) → Type 0
  Begun past cs w = (rs : List Request) × (w.remote ≡ past ++ rs) × AreBegun Asks cs rs

  unbegun :
      (past : List Request) (cs : List SiloConf) (w : World (List Request))
      → Stands past w
      → Begun past cs w
  unbegun past cs w h = ([], h ∙ sym (append-nil past), tt)

  begun :
      (past : List Request) (c : SiloConf) (rest : List SiloConf) (w : World (List Request))
      → Grown past c w
      → Begun past (c ∷ rest) w
  begun past c rest w (r, e, a) = (r ∷ [], e, (a, tt))

  arrived-Ends :
      (past : List Request) (c : SiloConf) (rest : List SiloConf) (r : Request)
      (x : Result Reply × List Request) (w : World (List Request))
      → Asks c r
      → x.1 ≡ past ++ r ∷ []
      → Ends (λ a. Grown past c) (Begun past (c ∷ rest)) (arrived outside serv x w)
  arrived-Ends past c rest r (ok reply, far) w a e = (r, e, a)
  arrived-Ends past c rest r (err x, far) w a e = (r ∷ [], e, (a, tt))
  arrived-Ends past c rest r (panic, far) w a e = (r ∷ [], e, (a, tt))

  post-Yields :
      (past : List Request) (c : SiloConf) (rest : List SiloConf) (path : String)
      (payload : Payload)
      → ((peers : Option (List Bytes))
          → Asks c (record { path = path; peers = peers; payload = payload; key = ""; name = "" }))
      → Yields
          (Stands past)
          (λ a. Grown past c)
          (Begun past (c ∷ rest))
          (post outside serv path payload "" "")
  unfolding post
  post-Yields past c rest path payload asks =
      Yields-bind _ _
        (Yields-keep _ (get_client_cert-Far outside serv (λ now. now ≡ past) 2) (λ a w h. h)
          (unbegun past (c ∷ rest)))
        (λ cert.
          Yields-bind _ _
            (Yields-keep _ (verify-Far outside serv (λ now. now ≡ past)) (λ a w h. h)
              (unbegun past (c ∷ rest)))
            (λ u. record {
              ends = λ w h.
                  let r : Request = record {
                    path = path;
                    peers = peers_of outside serv cert;
                    payload = payload;
                    key = "";
                    name = "";
                  } in
                  arrived-Ends past c rest r (outside.send r w.remote) w
                    (asks (peers_of outside serv cert))
                    (recorded.kept r w.remote ∙ ap (λ now. now ++ r ∷ []) h);
            }))

  next-Yields :
      (past : List Request) (c : SiloConf) (rest : List SiloConf)
      (m : Exec (World (List Request)) Unit)
      → ((now : List Request) → Yields (Stands now) (λ u. Asked now rest) (Begun now rest) m)
      → Yields (Grown past c) (λ u. Asked past (c ∷ rest)) (Begun past (c ∷ rest)) m
  next-Yields past c rest m after = record {
    ends = λ w (r, e, a).
        Ends-weaken (m w)
          (λ u t (rs, its, k). (r ∷ rs, its ∙ append_assoc past (r ∷ []) rs, (a, k)))
          (λ t (rs, its, k). (r ∷ rs, its ∙ append_assoc past (r ∷ []) rs, (a, k)))
          ((after (past ++ r ∷ [])).ends w e);
  }

module _ (outside : Outside (List Request)) (serv : String) (recorded : IsRecorded outside) where
  pack_up_packet-Yields :
      (past : List Request) (c : SiloConf) (rest : List SiloConf)
      → Yields
          (λ w. w.remote ≡ past)
          (λ (p : UpPacket) w. (p.silo_conf ≡ some c) × (w.remote ≡ past))
          (Begun outside serv recorded IsUp past (c ∷ rest))
          (pack_up_packet outside serv c)
  unfolding pack_up_packet
  pack_up_packet-Yields past c rest =
      Yields-bind _ _
        (Yields-keep _ (pack_with-Far outside serv (λ now. now ≡ past) _ _ _) (λ a w h. h)
          (unbegun outside serv recorded IsUp past (c ∷ rest)))
        (λ files.
          Yields-bind _ _
            (Yields-keep _ (pack_with-Far outside serv (λ now. now ≡ past) _ _ _) (λ a w h. h)
              (unbegun outside serv recorded IsUp past (c ∷ rest)))
            (λ balls. Yields-pure _ (λ w h. (refl, h))))

  up_all-Yields :
      (cs : List SiloConf) (past : List Request)
      → Yields
          (λ w. w.remote ≡ past)
          (λ u. Asked outside serv recorded IsUp past cs)
          (Begun outside serv recorded IsUp past cs)
          (up_all outside serv cs)
  unfolding up_all
  up_all-Yields [] past = Yields-pure tt (λ w h. ([], h ∙ sym (append-nil past), tt))
  up_all-Yields (c ∷ rest) past = Yields-bind _ _ (pack_up_packet-Yields past c rest) (λ packet.
      record {
        ends = λ w (is, h).
            (Yields-bind _ _
                (post-Yields outside serv recorded IsUp past c rest "/up" (up_packet packet)
                  (λ peers. (refl, packet, refl, is)))
                (λ reply.
                  Yields-bind _ _
                    (Yields-keep _
                      (up_one-Far outside serv (IsGrown outside serv recorded IsUp past c) c reply)
                      (λ u t g. g) (begun outside serv recorded IsUp past c rest))
                    (λ u.
                      next-Yields outside serv recorded IsUp past c rest _
                        (up_all-Yields rest)))).ends
              w h;
      })

  down_all-Yields :
      (cs : List SiloConf) (past : List Request)
      → Yields
          (λ w. w.remote ≡ past)
          (λ u. Asked outside serv recorded IsDown past cs)
          (Begun outside serv recorded IsDown past cs)
          (down_all outside serv cs)
  unfolding down_all
  down_all-Yields [] past = Yields-pure tt (λ w h. ([], h ∙ sym (append-nil past), tt))
  down_all-Yields (c ∷ rest) past =
      Yields-bind _ _
        (post-Yields outside serv recorded IsDown past c rest "/down" _ (λ peers. (refl, refl)))
        (λ reply.
          Yields-bind _ _
            (Yields-keep _ (say-Far outside serv (IsGrown outside serv recorded IsDown past c) _)
              (λ u t g. g) (begun outside serv recorded IsDown past c rest))
            (λ u. next-Yields outside serv recorded IsDown past c rest _ (down_all-Yields rest)))

  -- To the requests that the other side had, an up of a file adds, in the order of the file, one to /up for each silo
  -- with a packet of its configuration, and a down one to /down with its name; where the command fails, it has
  -- added those of the first silos only.
  pub up_command-AreAsked :
      (path : String) (rest : List String) (silos : List SiloConf) (w : World (List Request))
      → outside.decode_silo_file path ≡ ok silos
      → Ends
          (λ u. Asked outside serv recorded IsUp w.remote (sanitize_silos silos))
          (Begun outside serv recorded IsUp w.remote (sanitize_silos silos))
          (up_command outside serv (path ∷ rest) w)
        × Ends
            (λ u. Asked outside serv recorded IsDown w.remote (sanitize_silos silos))
            (Begun outside serv recorded IsDown w.remote (sanitize_silos silos))
            (down_command outside serv (path ∷ rest) w)
  unfolding up_command down_command load_silo_file ◌>>=◌
  up_command-AreAsked path rest silos w e = rw e (
    (up_all-Yields (sanitize_silos silos) w.remote).ends w refl,
    (down_all-Yields (sanitize_silos silos) w.remote).ends w refl,
  )
