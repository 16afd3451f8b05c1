-- ===== src/Controller/Types.antt =====
-- The data of controller/controller.go, options.go, bases.go, interfaces.go and of user.go.
use colex.Base.{ℕ, String, Bool, Option, List}
use colex.Base.Map.{Map}
use colex.Base.Text.{Bytes}
use colex.IpPool.{IpInterface}
use colex.Os.{FilePath, BindMntInfo, Host}
use colex.CGroups.{CgroupConfig, CgroupSet}

-- `State`
pub data SiloState : Type 0 where
  setup internal_error pending running finished : SiloState

-- The implementations of the interface `base`, each with its fields.
pub data Base : Type 0 where
  -- an empty path: not found yet
  busybox : FilePath → Base
  tarball : String → Base
  dev_nodes : Base
  file_loader file_loader_tarball : String → Bytes → Base
  bind : String → String → Bool → Base

-- The implementations of the interface `interf`.
pub data Interf : Type 0 where
  loopback : Interf
  ip : IpInterface → Interf

pub record InterfaceInfo : Type 0 where
  pub address : String
  pub name : String
  pub kind : String

-- syscall.SysProcIDMap
pub record IdMap : Type 0 where
  pub container_id : ℕ
  pub host_id : ℕ
  pub size : ℕ

-- LiteralAccountMapping, the one implementation of `accountMappers`
pub record AccountMapping : Type 0 where
  pub uid_mappings : List IdMap
  pub gid_mappings : List IdMap

pub record Options : Type 0 where
  pub class : String
  pub tags : List String
  pub grant : Map Bool
  pub bases : List Base
  pub root : String
  pub make_from_folder : String
  pub account_mappers : List AccountMapping
  pub disable_acct_namespace : Bool
  pub hostname : String
  pub interfaces : List Interf
  pub nameservers : List String
  -- `none` is the nil map
  pub host_map : Option (Map String)
  pub cpu_share_percent : ℕ
  pub max_memory_bytes : ℕ
  pub cmd : String
  pub args : List String
  pub env : List String

-- exec.Cmd, as far as the controller sets and reads it. `process` is the pid once it is started.
pub record Child : Type 0 where
  pub user_namespace : Bool
  pub uid_mappings : List IdMap
  pub gid_mappings : List IdMap
  pub process : Option ℕ

pub record Silo : Type 0 where
  pub id : List ℕ
  pub id_hex : String
  pub state : SiloState
  pub root : FilePath
  pub child : Option Child
  pub class : String
  pub tags : List String
  pub name : String
  pub grant : Map Bool
  pub cmd : String
  pub args : List String
  pub env : List String
  pub hostname : String
  pub interfaces : List Interf
  pub nameservers : List String
  pub host_map : Map String
  pub cgroup_config : Option CgroupConfig
  pub cgroup_set : Option CgroupSet
  pub bases : List Base
  pub user_mappings : List AccountMapping
  pub binds : List BindMntInfo
  pub should_delete_root : Bool

-- A silo's method works on the silo and on the host that it shares with the others.
pub record Ctx : Type 0 where
  pub silo : Silo
  pub host : Host
