-- ===== src/Wire.antt =====
-- colexd/wire and siloconf/silo.go: what client and server send one another.
-- A gob stream is the packet that it decodes to, or none.
use colex.Base.{ℕ, String, Bool, Option, List}
use colex.Base.Int.{ℤ}
use colex.Base.Map.{Map}
use colex.Base.Text.{Bytes}
use colex.Os.{LinkStatistics, ProcMem}

-- siloconf.File, Network, Binary, Bind, Resources
pub record SourceFile : Type 0 where
  pub path : String
  pub silo_path : String

pub record Network : Type 0 where
  pub internet_access : Bool
  pub nameservers : List String
  pub hosts : Option (Map String)

pub record Binary : Type 0 where
  pub path : String
  pub env : List String
  pub args : List String

pub record Bind : Type 0 where
  pub id : String
  pub path : String

-- The code asks of both only whether they are above 0, so a negative value is written as 0.
pub record Resources : Type 0 where
  pub cpu_percent : ℕ
  pub max_memory_bytes : ℕ

-- siloconf.Silo
pub record SiloConf : Type 0 where
  pub name : String
  pub class : String
  pub tags : List String
  pub base : String
  pub network : Network
  pub binary : Binary
  pub resources : Resources
  pub grant : Map Bool
  pub files : Map SourceFile
  pub file_balls : Map SourceFile
  pub binds : Map Bind

-- wire.File
pub record File : Type 0 where
  pub type : String
  pub local_path : String
  pub silo_path : String
  pub content : Bytes

-- `silo_conf` is a pointer: `none` is nil.
pub record UpPacket : Type 0 where
  pub silo_conf : Option SiloConf
  pub files : List File

pub record DownPacket : Type 0 where
  pub silo_name : String
  pub silo_id : String

pub record SetHostRequest : Type 0 where
  pub host : String
  pub ip : String

pub record Interface : Type 0 where
  pub name : String
  pub address : String
  pub kind : String
  pub stats : LinkStatistics

pub record UpPacketResponse : Type 0 where
  pub id_hex : String
  pub interfaces : List Interface

-- wire.Silo, with its SiloStat
pub record SiloRow : Type 0 where
  pub name : String
  pub class : String
  pub id_hex : String
  pub tags : List String
  pub interfaces : List Interface
  pub mem : ProcMem

pub record ListPacket : Type 0 where
  pub name : String
  pub matches : List SiloRow

pub record EnableEnrollResponse : Type 0 where
  pub disables_at : ℤ
  pub code : String

-- The body of a request.
pub data Payload : Type 0 where
  undecodable : Payload
  list_request : Payload
  up_packet : UpPacket → Payload
  down_packet : DownPacket → Payload
  set_host : SetHostRequest → Payload
