-- ===== src/Examples/Names.antt =====
-- The metadata service's names for one silo.
use mathlib.Core.HLevel.{⊥_prop}
use colex.Base.Map.{insert}
use mathlib.Core.List.{
  Mem, mem-cons_self, mem-cons_of_mem, eq-or-mem_of_mem-cons, not-mem-nil, Perm,
}
use mathlib.Core.Logic.Or
use mathlib.Core.List.Perm
use colex.Metadata.Events.{IsNew, AreFresh, run_events, new_service, run_events-find_silo_id}
use colex.Metadata.{SiloInfo, Metadata, find_silo_id, has_veth}
use colex.Base.{
  true, String, false, none, some, List, [], ◌∷◌, ◌≡◌, ◌≢◌, refl, sym, subst, ◌∙◌, arith, same_text,
  same_text_iff,
}
use colex.Base.Int.{ℤ, pos}
use colex.Base.Outcome.{◌>>=◌}
use colex.Base.Text.{codes, trim_suffix}
use colex.Ip.{Ip}
use colex.Os.{no_statistics, perform}
use colex.Wire.{Interface}
use colex.Metadata.{
  Service, silo_started, host_event, new_metadata_service, first_address, handle_event,
  setup_listeners, store, entry, Event,
}
use colex.Metadata.Dns.{answer_question}
use colex.Metadata.Names.{host_event-answer_question}
use colex.Examples.{quiet, host, setup_silo, text_ne}

abbrev web_interfaces : List Interface
web_interfaces =
    record {
      name = "s0-3938a44e";
      address = "10.21.0.2";
      kind = "silo-veth";
      stats = no_statistics;
    }
    ∷ []

abbrev service : Service
service = record { metadata = new_metadata_service; host = host }

abbrev split_host : String → String
split_host addr = addr

abbrev parse_ip : String → Ip
parse_ip text = codes text

web_address : first_address "silo-veth" web_interfaces ≢ ""
unfolding first_address
web_address = text_ne "10.21.0.2" "" refl

web_suffix : trim_suffix ".silo." "web.silo." ≡ some "web"
unfolding trim_suffix
web_suffix = refl

host_event-answer_question_example :
    answer_question split_host parse_ip none
      (host_event quiet
        (pos 0)
        (silo_started "web" "3938a44e" [] web_interfaces setup_silo)
        service).1.metadata
      "10.21.0.2:5353"
      "web.silo."
    ≡ record { name = "web.silo."; address = parse_ip (first_address "silo-veth" web_interfaces) }
      ∷ []
host_event-answer_question_example =
    host_event-answer_question quiet split_host parse_ip (pos 0) "web" "3938a44e" [] web_interfaces
      setup_silo service none "10.21.0.2:5353" "web.silo." refl web_suffix web_address

abbrev running : Service
running =
    (host_event quiet (pos 0) (silo_started "web" "3938a44e" [] web_interfaces setup_silo)
      service).1

-- a silo that may ask about others
abbrev asker : SiloInfo
asker = record {
  name = "web";
  id = "3938a44e";
  tags = [];
  started = pos 0;
  interfaces = web_interfaces;
  bridge_ip = "10.21.0.1";
  silo = record setup_silo { grant = ("query_silos", true) ∷ [] };
  listeners = [];
}

abbrev asked : Metadata
asked = record { is_closing = false; silos_by_name = []; silos_by_id = ("3938a44e", asker) ∷ [] }

-- Two silos that start, and the map of them in the other order
abbrev db_interfaces : List Interface
db_interfaces =
    record {
      name = "s0-5cf0c3d2";
      address = "10.21.0.6";
      kind = "silo-veth";
      stats = no_statistics;
    }
    ∷ []

abbrev history : List (ℤ × Event)
history =
    (pos 0, silo_started "web" "3938a44e" [] web_interfaces setup_silo)
    ∷ (pos 1, silo_started "db" "5cf0c3d2" [] db_interfaces setup_silo)
    ∷ []

abbrev web_entry : String × SiloInfo
web_entry = ("3938a44e", entry quiet (pos 0) "web" "3938a44e" [] web_interfaces setup_silo [])

abbrev db_entry : String × SiloInfo
db_entry = ("5cf0c3d2", entry quiet (pos 1) "db" "5cf0c3d2" [] db_interfaces setup_silo [])

veth_address :
    (i : Interface) (addr : String)
    → has_veth addr (i ∷ []) ≡ true
    → same_text i.address addr ≡ true
unfolding has_veth
veth_address i addr h = ground arith

distinct :
    (addr : String) → has_veth addr web_interfaces ≡ true → has_veth addr db_interfaces ≡ true → ⊥
distinct addr one two =
    let web : "10.21.0.2" ≡ addr = (same_text_iff _ _).0 (veth_address _ addr one) in
    let db : "10.21.0.6" ≡ addr = (same_text_iff _ _).0 (veth_address _ addr two) in
    text_ne "10.21.0.2" "10.21.0.6" refl (web ∙ sym db)

web-IsNew : IsNew "3938a44e" web_interfaces []
web-IsNew = record { no_other = λ addr e m p q. absurd (not-mem-nil m) }

db-IsNew : IsNew "5cf0c3d2" db_interfaces (web_entry ∷ [])
db-IsNew = record {
  no_other = λ addr e m p q. absurd (
      Or.elim ⊥_prop (eq-or-mem_of_mem-cons m)
        (λ is.
          distinct addr
            (subst (λ (x : String × SiloInfo). has_veth addr (x.1).interfaces ≡ true) is p) q)
        (λ never. not-mem-nil never));
}

history-AreFresh : AreFresh quiet history (new_service host)
unfolding AreFresh host_event handle_event setup_listeners store insert ◌>>=◌ perform first_address
history-AreFresh = (web-IsNew, (db-IsNew, tt))

history_table :
    (run_events quiet history (new_service host)).metadata.silos_by_id ≡ web_entry ∷ db_entry ∷ []
unfolding run_events host_event handle_event setup_listeners store insert ◌>>=◌ perform
    first_address
history_table = refl

run_events-find_silo_id_example : find_silo_id "10.21.0.6" (db_entry ∷ web_entry ∷ []) ≡ "5cf0c3d2"
unfolding has_veth
run_events-find_silo_id_example =
    run_events-find_silo_id quiet history host "10.21.0.6" "5cf0c3d2" db_entry.1
      (db_entry ∷ web_entry ∷ []) history-AreFresh
      (subst (λ t. Mem db_entry t) (sym history_table) (mem-cons_of_mem _ mem-cons_self)) refl
      (subst (λ t. Perm t (db_entry ∷ web_entry ∷ [])) (sym history_table)
        (Perm.swap db_entry web_entry []))
