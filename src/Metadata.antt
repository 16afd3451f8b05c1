-- ===== src/Metadata.antt =====
-- colexd/metadata_service.go: what silos can learn of the host. The data lock makes each event and
-- each request one step. A listener is its address; that its goroutine ends is Go's.
pub mod Dns
pub mod Names
pub mod Callers
pub mod Events
pub mod Requests
use Prim.Native.String.{◌++◌ as join_text}
use colex.Base.{
  ℕ, String, Bool, true, false, ◌&&◌, not, Option, none, some, List, [], ◌∷◌, ◌++◌, map,
  if◌then◌else◌, same_text,
}
use colex.Base.Int.{ℤ}
use colex.Base.Map.{Map, lookup, insert, remove}
use colex.Base.Outcome.{
  Error, Result, Exec, ok, err, panic, pure, crash, gets, modify, attempt, within, ◌>>=◌, ◌>>◌,
}
use colex.Base.Text.{trim_suffix, trim_prefix, cut_text}
use colex.Ip.{Ip}
use colex.Os.{
  Os, Host, Call, LinkStatistics, no_statistics, ProcMem, perform, listen_tcp, listen_udp,
  stop_listening, link_by_name,
}
use colex.Wire.{Interface}
use colex.Controller.Types.{Silo, Interf, InterfaceInfo}
use colex.Controller.Interfaces.{info}
use colex.Processes.{mem_stats}

-- metadataSiloInfo
pub record SiloInfo : Type 0 where
  pub name : String
  pub id : String
  pub tags : List String
  pub started : ℤ
  pub interfaces : List Interface
  pub bridge_ip : String
  pub silo : Silo
  pub listeners : List String

-- metadataService; its dnsMap is the map of host names of the configuration, which is handed in
pub record Metadata : Type 0 where
  pub is_closing : Bool
  pub silos_by_name : Map SiloInfo
  pub silos_by_id : Map SiloInfo

-- metadataEvent
pub data Event : Type 0 where
  silo_started : String → String → List String → List Interface → Silo → Event
  silo_stopped : String → String → Event

pub record Service : Type 0 where
  pub metadata : Metadata
  pub host : Host

abbrev pub new_metadata_service : Metadata
new_metadata_service = record { is_closing = false; silos_by_name = []; silos_by_id = [] }

abbrev pub on_host : {A : Type 0} → Exec Host A → Exec Service A
on_host = within (λ (s : Service). s.host) (λ h s. record s { host = h })

-- findBridgeAddress and findRouteableAddress: the first address of a kind
unfoldable pub first_address : String → List Interface → String
first_address kind [] = ""
first_address kind (i ∷ rest) = if same_text i.kind kind then i.address else first_address kind rest

abbrev pub find_bridge_address : List Interface → String
find_bridge_address = first_address "bridge"

abbrev pub find_routeable_address : List Interface → String
find_routeable_address = first_address "silo-veth"

unfoldable pub has_veth : String → List Interface → Bool
has_veth addr [] = false
has_veth addr (i ∷ rest) =
    if same_text i.address addr && same_text i.kind "silo-veth" then true else has_veth addr rest

-- findSiloIDForIP, after the port is cut off
unfoldable pub find_silo_id : String → Map SiloInfo → String
unfolding has_veth
find_silo_id addr [] = ""
find_silo_id addr ((id, s) ∷ rest) =
    if has_veth addr s.interfaces then id else find_silo_id addr rest

module _ (os : Os) where
  abbrev statistics_of : Option Error → LinkStatistics → LinkStatistics
  statistics_of none stats = stats
  statistics_of (some e) stats = no_statistics

  -- describeInterfaces of serv.go, for one device
  unfoldable pub describe : Bool → InterfaceInfo → Exec Host Interface
  describe include_stats d =
      if include_stats
      then (do
        before ← gets (λ (h : Host). h.calls)
        failed ← attempt (perform os (link_by_name d.name))
        pure (record {
          name = d.name;
          address = d.address;
          kind = d.kind;
          stats = statistics_of failed (os.statistics before d.name);
        }))
      else pure
          (record { name = d.name; address = d.address; kind = d.kind; stats = no_statistics })

  unfoldable pub describe_all : Bool → List InterfaceInfo → Exec Host (List Interface)
  describe_all include_stats [] = pure []
  describe_all include_stats (d ∷ rest) = do
    i ← describe include_stats d
    is ← describe_all include_stats rest
    pure (i ∷ is)

  abbrev infos : List Interf → List InterfaceInfo
  infos [] = []
  infos (i ∷ rest) = info os i ++ infos rest

  unfoldable pub describe_interfaces : Silo → Bool → Exec Host (List Interface)
  describe_interfaces s include_stats = describe_all include_stats (infos s.interfaces)

  abbrev listening : Option Error → String → List String
  listening none address = address ∷ []
  listening (some e) address = []

  -- setupListener and setupUDPDNS; their errors are only logged
  unfoldable pub setup_listeners : String → Exec Host (List String)
  setup_listeners bridge_ip = if same_text bridge_ip "" then pure [] else (do
    tcp ← attempt (perform os (listen_tcp (join_text bridge_ip ":17832")))
    udp ← attempt (perform os (listen_udp (join_text bridge_ip ":53")))
    pure
        (listening tcp (join_text bridge_ip ":17832") ++ listening udp (join_text bridge_ip ":53")))

  -- what waitForCloseSignal does for each; the sender waits for it
  unfoldable pub stop_listeners : List String → Exec Host Unit
  stop_listeners [] = pure tt
  stop_listeners (l ∷ rest) = do attempt (perform os (stop_listening l)); stop_listeners rest

  abbrev pub listeners_of : Option SiloInfo → List String
  listeners_of none = []
  listeners_of (some s) = s.listeners

  unfoldable pub store : String → String → SiloInfo → Metadata → Metadata
  store name id s m = record m {
    silos_by_name = insert name s m.silos_by_name;
    silos_by_id = insert id s m.silos_by_id;
  }

  unfoldable pub forget : String → String → Metadata → Metadata
  forget name id m = record m {
    silos_by_name = remove name m.silos_by_name;
    silos_by_id = remove id m.silos_by_id;
  }

  abbrev pub entry :
      ℤ → String → String → List String → List Interface → Silo → List String → SiloInfo
  entry now name id tags interfaces silo listeners = record {
    name = name;
    id = id;
    tags = tags;
    started = now;
    interfaces = interfaces;
    bridge_ip = find_bridge_address interfaces;
    silo = silo;
    listeners = listeners;
  }

  unfoldable pub handle_event : ℤ → Event → Exec Service Unit
  handle_event now (silo_started name id tags interfaces silo) = do
    listeners ← on_host (setup_listeners (find_bridge_address interfaces))
    modify (λ (s : Service). record s {
      metadata = store name id (entry now name id tags interfaces silo listeners) s.metadata;
    })
  handle_event now (silo_stopped name id) = do
    found ← gets (λ (s : Service). lookup id s.metadata.silos_by_id)
    on_host (stop_listeners (listeners_of found))
    modify (λ (s : Service). record s { metadata = forget name id s.metadata })

  -- HostEvent
  unfoldable pub host_event : ℤ → Event → Exec Service Unit
  host_event now e = do
    closing ← gets (λ (s : Service). s.metadata.is_closing)
    if closing then pure tt else handle_event now e

  -- Every listener of every silo ends; the waiting for it is left out.
  unfoldable pub stop_all_listeners : Map SiloInfo → Exec Host Unit
  stop_all_listeners [] = pure tt
  stop_all_listeners ((id, s) ∷ rest) = do stop_listeners s.listeners; stop_all_listeners rest

  -- Close. A second one closes a closed channel, which panics.
  unfoldable pub close_metadata : Exec Service Unit
  close_metadata = do
    closed ← gets (λ (s : Service). s.metadata.is_closing)
    if closed then crash else (do
      modify (λ (s : Service). record s { metadata = record s.metadata { is_closing = true } })
      known ← gets (λ (s : Service). s.metadata.silos_by_id)
      on_host (stop_all_listeners known))
