-- ===== src/Metadata/Names.antt =====
-- The names that silos can ask for, as silos come and go.
use colex.Base.{
  String, Bool, true, false, Option, none, some, List, [], ◌∷◌, ◌≡◌, ◌≢◌, refl, ap, ◌∙◌, arith,
  same_text_iff, if◌then◌else◌,
}
use colex.Base.Int.{ℤ}
use colex.Base.Map.{Map, lookup, lookup-insert_self}
use colex.Base.Outcome.{Error, Exec, system, ok, pure, attempt, continue, ◌>>=◌}
use colex.Base.Text.{trim_suffix}
use colex.Ip.{Ip}
use colex.Os.{Os, Host, Call, perform, answered}
use colex.Wire.{Interface}
use colex.Controller.Types.{Silo}
use colex.Metadata.{
  SiloInfo, Metadata, silo_started, silo_stopped, Service, find_routeable_address,
  find_bridge_address, store, forget, entry, setup_listeners, stop_listeners, host_event,
  handle_event, listeners_of,
}
use colex.Metadata.Dns.{answer_question, silo_address}

-- An action that always ends well.
record EndsWell {A : Type 0} (m : Exec Host A) : Type 0 where
  at : (h : Host) → (a : A) × (g : Host) × (m h ≡ (ok a, g))

pure-EndsWell : {A : Type 0} (a : A) → EndsWell (pure a)
unfolding pure
pure-EndsWell a = record { at = λ h. (a, h, refl) }

if-EndsWell :
    {A : Type 0} (b : Bool) (m n : Exec Host A)
    → EndsWell m
    → EndsWell n
    → EndsWell (if b then m else n)
if-EndsWell true m n x y = x
if-EndsWell false m n x y = y

bind-EndsWell :
    {A B : Type 0} (m : Exec Host A) (f : A → Exec Host B)
    → EndsWell m
    → ((a : A) → EndsWell (f a))
    → EndsWell (m >>= f)
unfolding ◌>>=◌
bind-EndsWell m f x k = record {
  at = λ h.
      let (a, g, e) = x.at h in
      let (b, i, e2) = (k a).at g in (b, i, ap (λ r. continue r f) e ∙ e2);
}

module _ (os : Os) where
  answered-EndsWell :
      (o : Option String) (h : Host)
      → (a : Option Error) × (g : Host) × (attempt (λ _. answered os o h) h ≡ (ok a, g))
  unfolding attempt
  answered-EndsWell none h = (none, h, refl)
  answered-EndsWell (some e) h = (some (system e), h, refl)

  attempt-EndsWell : (c : Call) → EndsWell (attempt (perform os c))
  unfolding attempt perform
  attempt-EndsWell c = record {
    at = λ h. answered-EndsWell (os.fails h.calls c) (record h { calls = c ∷ h.calls });
  }

  setup_listeners-EndsWell : (bridge_ip : String) → EndsWell (setup_listeners os bridge_ip)
  unfolding setup_listeners
  setup_listeners-EndsWell bridge_ip =
      search (if-EndsWell, bind-EndsWell, attempt-EndsWell, pure-EndsWell) depth 12

  stop_listeners-EndsWell : (ls : List String) → EndsWell (stop_listeners os ls)
  unfolding stop_listeners
  stop_listeners-EndsWell [] = pure-EndsWell _
  stop_listeners-EndsWell (l ∷ rest) =
      bind-EndsWell _ _ (attempt-EndsWell _) (λ _. stop_listeners-EndsWell rest)

  -- A start event, whether or not the listeners come up, enters the silo with its interfaces.
  pub started :
      (now : ℤ) (name id : String) (tags : List String) (interfaces : List Interface) (silo : Silo)
      (s : Service)
      → s.metadata.is_closing ≡ false
      → (i : SiloInfo) × (i.interfaces ≡ interfaces)
        × ((host_event os now (silo_started name id tags interfaces silo) s).1.metadata
            ≡ store os name id i s.metadata)
  unfolding host_event handle_event ◌>>=◌ forget store
  started now name id tags interfaces silo s e =
      let (ls, g, done) = (setup_listeners-EndsWell (find_bridge_address interfaces)).at s.host in
      (entry os now name id tags interfaces silo ls, refl, rw (e, done) refl)

  pub stopped :
      (now : ℤ) (name id : String) (s : Service)
      → s.metadata.is_closing ≡ false
      → (host_event os now (silo_stopped name id) s).1.metadata ≡ forget os name id s.metadata
  unfolding host_event handle_event ◌>>=◌ forget store
  stopped now name id s e =
      let (_, g, done) =
        (stop_listeners-EndsWell (listeners_of os (lookup id s.metadata.silos_by_id))).at s.host in
      rw (e, done) refl

module _ (os : Os) (split_host : String → String) (parse_ip : String → Ip) where
  silo_address-store :
      (name id : String) (i : SiloInfo) (m : Metadata)
      → find_routeable_address i.interfaces ≢ ""
      → silo_address split_host parse_ip (some name) (store os name id i m)
        ≡ some (find_routeable_address i.interfaces)
  unfolding store
  silo_address-store name id i m h =
      rw (lookup-insert_self name i m.silos_by_name)
        (ground (arith, same_text_iff (find_routeable_address i.interfaces) ""))

  -- Right after its start event, in a service that is not closing, the name of a silo with a routeable address, with
  -- `.silo.` behind it, resolves to that address, for whoever asks and whatever was known of that name before.
  pub host_event-answer_question :
      (now : ℤ) (name id : String) (tags : List String) (interfaces : List Interface) (silo : Silo)
      (s : Service) (hostnames : Option (Map String)) (remote q : String)
      → s.metadata.is_closing ≡ false
      → trim_suffix ".silo." q ≡ some name
      → find_routeable_address interfaces ≢ ""
      → answer_question split_host parse_ip hostnames
          (host_event os now (silo_started name id tags interfaces silo) s).1.metadata
          remote
          q
        ≡ record { name = q; address = parse_ip (find_routeable_address interfaces) } ∷ []
  unfolding answer_question
  host_event-answer_question now name id tags interfaces silo s hostnames remote q e suffix has =
      let (i, its, after) = started os now name id tags interfaces silo s e in
      let has_its : find_routeable_address i.interfaces ≢ "" = rw its has in
      rw (after, suffix, silo_address-store name id i s.metadata has_its, its) refl
