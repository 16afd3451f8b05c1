-- ===== src/Examples.antt =====
-- One small host: a pool on 10.21.0.0/24, a system on which nothing fails, and one silo on it.
mod Addresses
mod Silos
mod Enrolment
mod Names
mod Requests
mod Lifetime
mod InitProcess
mod Client
mod Groups
mod Cert
mod Programs
use colex.Base.{
  ℕ, zero, suc, String, true, false, Option, none, some, List, [], ◌∷◌, ◌≡◌, ◌≢◌, arith, same_text,
  same_text_iff,
}
use colex.Base.Int.{pos}
use colex.Base.Outcome.{ok}
use colex.Base.Text.{Bytes}
use colex.Ip.{Ip, IpNet}
use colex.IpPool.{IpPool, IpInterface, interface_of}
use colex.Os.{Os, Host, Call, random, no_statistics}
use colex.Processes.{no_memory}
use colex.Controller.Types.{Silo, Options, setup, running, ip, loopback, dev_nodes, Child, Ctx}

-- 10.21.0.n in the 16 bytes that net.ParseCIDR gives
abbrev pub address : ℕ → Ip
address n = 0 ∷ 0 ∷ 0 ∷ 0 ∷ 0 ∷ 0 ∷ 0 ∷ 0 ∷ 0 ∷ 0 ∷ 255 ∷ 255 ∷ 10 ∷ 21 ∷ 0 ∷ n ∷ []

abbrev pub subnet : IpNet
subnet = record { address = 10 ∷ 21 ∷ 0 ∷ 0 ∷ []; mask = 255 ∷ 255 ∷ 255 ∷ 0 ∷ [] }

abbrev pub pool_at : ℕ → List Ip → IpPool
pool_at n free = record { subnet = subnet; last_from_pool = address n; free = free }

abbrev pub first_slice : List Ip
first_slice = address 1 ∷ address 2 ∷ address 3 ∷ address 4 ∷ []

-- Randomness has the length that is asked for; a file holds 1 and a line feed.
abbrev sevens : ℕ → Bytes
sevens zero = []
sevens (suc n) = 7 ∷ sevens n

abbrev reply : Call → Bytes
reply (random count) = sevens count
reply _ = 49 ∷ 10 ∷ []

abbrev pub quiet : Os
quiet = record {
  fails = λ calls c. none;
  exists_already = λ e. false;
  not_exist = λ e. false;
  not_permitted = λ e. false;
  text = λ calls c. "";
  bytes = λ calls c. reply c;
  number = λ calls c. 4242;
  names = λ calls c. [];
  atoi = λ s. 0;
  statistics = λ calls name. no_statistics;
  memory = λ calls pid. no_memory;
  arch = "amd64";
  long_ip_text = λ a. "";
}

abbrev pub first_interface : IpInterface
first_interface = interface_of (address 1) (address 2) (address 3) (address 4)

abbrev pub setup_silo : Silo
setup_silo = record {
  id = 57 ∷ 56 ∷ 164 ∷ 78 ∷ [];
  id_hex = "3938a44e";
  state = setup;
  root = "/srv/web" ∷ [];
  child = none;
  class = "web";
  tags = [];
  name = "web";
  grant = [];
  cmd = "/bin/sh";
  args = [];
  env = [];
  hostname = "3938a44e";
  interfaces = ip first_interface ∷ loopback ∷ [];
  nameservers = "8.8.8.8" ∷ [];
  host_map = [];
  cgroup_config = none;
  cgroup_set = none;
  bases = dev_nodes ∷ [];
  user_mappings = [];
  binds = [];
  should_delete_root = false;
}

abbrev pub host : Host
host = record { pool = pool_at 5 []; calls = [] }

abbrev pub fresh : Ctx
fresh = record { silo = setup_silo; host = host }

abbrev pub no_options : Options
no_options = record {
  class = "web";
  tags = [];
  grant = [];
  bases = [];
  root = "/srv/web";
  make_from_folder = "";
  account_mappers = [];
  disable_acct_namespace = false;
  hostname = "";
  interfaces = [];
  nameservers = [];
  host_map = some (("db", "10.0.0.7") ∷ []);
  cpu_share_percent = 0;
  max_memory_bytes = 0;
  cmd = "/bin/sh";
  args = [];
  env = [];
}

pub text_ne : (s t : String) → same_text s t ≡ false → s ≢ t
text_ne s t h = ground (arith, same_text_iff s t)
