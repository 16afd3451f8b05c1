-- ===== src/Server/Silos.antt =====
-- serv.go: starting and stopping one silo.
use Prim.Native.String.{◌++◌ as join_text}
use colex.Base.{
  String, false, ◌&&◌, Option, none, some, List, [], ◌∷◌, ◌++◌, if◌then◌else◌, ltb, same_text,
}
use colex.Base.Int.{ℤ}
use colex.Base.Map.{Map, lookup, insert, remove}
use colex.Base.Outcome.{
  Error, Result, Exec, ok, err, panic, cpu_below_minimum, unknown_base, unknown_image_type, no_bind,
  no_silo, pure, raise, lift, gets, modify, ◌>>=◌, ◌>>◌,
}
use colex.Ip.{Ip}
use colex.IpPool.{IpInterface, ip_interface, free_assignment}
use colex.Wire.{File, SiloConf, Bind}
use colex.Config.{Config, Image, BindSpec}
use colex.Metadata.{silo_started, silo_stopped, describe_interfaces}
use colex.Controller.Types.{
  Silo, Options, Base, Ctx, busybox, tarball, file_loader, file_loader_tarball, bind, loopback, ip,
}
use colex.Controller.Options.{finalize, add_fs, is_empty}
use colex.Controller.Interfaces.{ip_text}
use colex.Controller.Silo.{new_silo, init}
use colex.Controller.Silo.Starting.{start_silo}
use colex.Controller.Silo.Ending.{close}
use colex.Server.{Server, Env, on_host, on_pool, notify, run_method}

unfoldable pub base_of_image : String → List Image → Result Base
base_of_image base [] = err unknown_base
base_of_image base (img ∷ rest) =
    let further = base_of_image base rest in
    if same_text (join_text "img://" img.name) base
    then (if same_text img.type "tarball" then ok (tarball img.path) else err unknown_image_type)
    else further

-- resolveBase: the base that it adds
unfoldable pub resolve_base : Config → String → Result Base
unfolding base_of_image
resolve_base c base =
    if same_text base "img://busybox" then ok (busybox []) else base_of_image base c.images

-- resolveFiles, which has no error
unfoldable pub resolve_files : List File → Options → Options
resolve_files [] o = o
resolve_files (f ∷ rest) o = resolve_files rest (
    add_fs
      (if same_text f.type "tarball"
        then file_loader_tarball f.silo_path f.content
        else file_loader f.silo_path f.content)
      o)

unfoldable pub find_bind : String → List BindSpec → Option BindSpec
find_bind id [] = none
find_bind id (b ∷ rest) =
    let further = find_bind id rest in if same_text b.id id then some b else further

abbrev pub bound : Option BindSpec → Bind → Options → Result Options
bound none m o = err no_bind
bound (some spec) m o = ok (add_fs (bind spec.path m.path spec.is_file) o)

abbrev pub then_options : Result Options → (Options → Result Options) → Result Options
then_options (ok o) f = f o
then_options (err e) f = err e
then_options panic f = panic

-- resolveBinds
unfoldable pub resolve_binds : Config → Map Bind → Options → Result Options
unfolding find_bind
resolve_binds c [] o = ok o
resolve_binds c ((_, m) ∷ rest) o =
    then_options (bound (find_bind m.id c.binds) m o) (resolve_binds c rest)

unfoldable pub options_of : Config → SiloConf → Options
options_of c conf = record {
  class = conf.class;
  tags = conf.tags;
  grant = conf.grant;
  bases = [];
  root = "";
  make_from_folder = c.silo_dir;
  account_mappers = [];
  disable_acct_namespace = c.disable_user_namespaces;
  hostname = "";
  interfaces = [];
  nameservers = [];
  host_map = none;
  cpu_share_percent = conf.resources.cpu_percent;
  max_memory_bytes = conf.resources.max_memory_bytes;
  cmd = conf.binary.path;
  args = conf.binary.args;
  env = conf.binary.env;
}

module _ (env : Env) where
  -- the network part of the options
  unfoldable pub with_network : SiloConf → IpInterface → Options → Options
  with_network conf network o = record o {
    interfaces = o.interfaces ++ ip network ∷ loopback ∷ [];
    nameservers =
        if is_empty conf.network.nameservers
        then ip_text env.os network.bridge_ip ∷ "8.8.8.8" ∷ []
        else conf.network.nameservers;
    host_map = conf.network.hosts;
    env =
        o.env
        ++ join_text "METADATA_ENDPOINT=" (join_text (ip_text env.os network.bridge_ip) ":17832")
          ∷ [];
  }

  abbrev pub give_slice : List Ip → Exec Server Unit
  give_slice slice = on_pool (modify (free_assignment slice))

  -- `if err != nil` after NewSilo
  abbrev pub made_silo : List Ip → Result Silo × Server → Result Silo × Server
  made_silo slice (err e, s) = ((give_slice slice >> raise e) s)
  made_silo slice (r, s) = (r, s)

  unfoldable pub create_silo : String → List Ip → Options → Exec Server Silo
  create_silo name slice o s = made_silo slice (on_host (new_silo env.os name o) s)

  -- An Init that fails: Close, whose error is only logged, and the slice goes back.
  unfoldable pub after_init : List Ip → Option Error × Silo → Exec Server Silo
  after_init slice (none, silo) = pure silo
  after_init slice (some e, silo) = do run_method (close env.os) silo; give_slice slice; raise e

  -- A Start that fails: Close frees what the interfaces hold, if it gets that far.
  unfoldable pub after_start : Option Error × Silo → Exec Server Silo
  after_start (none, silo) = pure silo
  after_start (some e, silo) = do run_method (close env.os) silo; raise e

  -- buildSiloStartedMetadataEvent
  unfoldable pub announce : ℤ → String → Silo → Exec Server Unit
  announce now name silo = do
    modify (λ (s : Server). record s { silos = insert name silo s.silos })
    interfaces ← on_host (describe_interfaces env.os silo false)
    notify env.os now (silo_started silo.name silo.id_hex silo.tags interfaces silo)

  -- startSiloInternal, from the point where it takes addresses from the pool
  unfoldable pub bring_up : ℤ → SiloConf → Options → Exec Server Unit
  bring_up now conf o = do
    made ← on_pool ip_interface
    let network : IpInterface = record made { internet_access = conf.network.internet_access }
    fresh ←
        create_silo conf.name network.slice (finalize env.uid env.gid (with_network conf network o))
    inited ← run_method (init env.os) fresh
    ready ← after_init network.slice inited
    started ← run_method (start_silo env.os) ready
    up ← after_start started
    announce now conf.name up

  unfoldable pub start_silo_internal : ℤ → SiloConf → List File → Exec Server Unit
  start_silo_internal now conf files =
      if ltb 0 conf.resources.cpu_percent && ltb conf.resources.cpu_percent 4
      then raise cpu_below_minimum
      else (do
        c ← gets (λ (s : Server). s.config)
        base ← lift (resolve_base c conf.base)
        o ←
            lift
              (resolve_binds c conf.binds (resolve_files files (add_fs base (options_of c conf))))
        bring_up now conf o)

  -- Close on a silo of the map: the map holds the object itself, so what Close did to it is seen there,
  -- however Close ends.
  abbrev pub stored_back : String → Result {0} Unit × Ctx → Server → Result {0} Unit × Server
  stored_back name (r, c) s =
      (r, record s { host = c.host; silos = insert name c.silo (remove name s.silos) })

  unfoldable pub close_stored : String → Silo → Exec Server Unit
  close_stored name silo s =
      stored_back name (close env.os (record { silo = silo; host = s.host })) s

  unfoldable pub stop_found : ℤ → String → Option Silo → Exec Server Unit
  stop_found now name none = raise no_silo
  stop_found now name (some silo) = do
    notify env.os now (silo_stopped name silo.id_hex)
    close_stored name silo
    modify (λ (s : Server). record s { silos = remove name s.silos })

  unfoldable pub stop_silo_internal : ℤ → String → Exec Server Unit
  stop_silo_internal now name = do
    silo ← gets (λ (s : Server). lookup name s.silos)
    stop_found now name silo
