-- ===== src/Lib.antt =====
-- colex: silos (containers) on one host, and the daemon colexd that runs them for its clients.
--
-- The parts, and where they are modelled:
-- - Ip, IpPool: the address pool of controller/ipPool.go and what it uses of Go's package net. IPPool.Assignment,
--   getNextFromPool, FreeAssignment and IPInterface are functions on the pool. Ip/Bump reads the increment loop as
--   arithmetic, IpPool/Ownership says who holds which address, IpPool/Slices follows IPInterface, and
--   IpPool/Sequence the runs of four consecutive addresses.
-- - Os: util/random.go, and the system calls, netlink, iptables and tar, as a list of calls that an oracle answers: an
--   answer may depend on all calls before it, and any call may fail. Nothing is assumed of the answers. Os/Called says
--   which were made and which succeeded.
-- - Net, CGroups, Processes: net.go, net_namespace.go, cgroups.go and util/findpid.go.
-- - Controller: controller/controller.go, options.go, bases.go, interfaces.go and user.go. Controller/Silo has the
--   methods NewSilo and Init of a silo, Controller/Silo/Starting Start and Ending Close and Wait, all on the host's pool;
--   Controller/Silo/Ownership, Fresh, Launching, Closing and Lifecycle follow the addresses through them, and
--   Controller/Silo/DeviceNames the names of the devices. Controller/Interfaces/Wiring has the calls of Setup and Teardown.
-- - InitProcess: isolatedMain and setupBindMounts of controller/reexec.go, SetRootFS of fs.go and MountProc of
--   process.go: the first process of a silo, which reads what Controller/Silo wrote for it. InitProcess/Waiting has
--   its wait for interfaces, InitProcess/Confinement and Starting its programs.
-- - Wire: colexd/wire and siloconf/silo.go. Config: colexd/config.go and main.go. Auth: colexd/auth.go, with the
--   content of the certificates file as its state.
-- - Metadata: colexd/metadata_service.go: events and listeners, in Metadata/Dns the DNS answers and in
--   Metadata/Requests the HTTP requests of silos. Metadata/Callers and Events are about the silo that a request is
--   taken to be from.
-- - Server: colexd/serv.go: Server/Silos starts and stops silos, Server/Requests has the requests and the collector,
--   Server/Launch main up to the running server, Server/Lifetime NewServer, Close and the histories between them.
--   Server/Claims, Stopping, Reserving, Starting and Requests/Keeping follow the addresses of all silos, Server/Registry
--   the names under which they are known.
-- - Cert: colexd/cert/gen.go: the certificate of a server, made and loaded; Cert/Pairs has what MakeServerCert
--   returns.
-- - Programs: the programs colex-test (Programs/TestProgram) and colex-main (Programs/MainProgram).
-- - Client: colexd/colex-cli and siloconf/read.go: the client's files, its commands (Client/Commands) and its command
--   line (Client/Choice). A request of the client is sent by a function; Client/Sending has the requests
--   of up and down, and Client/Alone what the client does by itself.
-- - Base has what the parts share: Base/Outcome the results of Go functions (a value, an error, a panic) and actions
--   on a state, Base/Keeps and Base/Yields rules for actions, Base/Map Go's maps, Base/Text printing and splitting.
--   Examples holds one small host, on which the theorems are applied.
--
-- A request to the daemon, an event of the metadata service and a method of the pool are one step each, since the
-- source holds a lock for each. The increment loop runs once for each byte of the address, so the fuel of `bump` is
-- the length of the address; the printing of a number n has n + 1 rounds, and each divides by ten. An address counter
-- that wraps at its full width would hand out addresses twice: the theorems on ownership name the number of
-- increments that are left before that, `budget`. The client's certificate takes two rounds of getClientCert, and the
-- wait for an interface has the thousand rounds of the source.
--
-- Not modelled: parsing (hcl, gob, JSON, flags), TLS but for the check of the pinned certificate, listening and the
-- waiting of goroutines for one another, the layout of printed tables, and what nothing calls: siloconf.Build,
-- unicastMask and ipSlice. Packages of others are arguments: `Codec` for base64, strconv and
-- x509, `Os` and `Kernel` for the system, `Startup` and `Outside` for what the daemon and the client call of net,
-- crypto/tls, net/url and bytefmt, `Reader` for what the readers of control groups call of strconv and fmt, `Crypto` for
-- what the certificates call of encoding/binary, crypto/rsa, crypto/x509, encoding/pem and math/rand, and `Standard`
-- for what the two programs call of net, path/filepath and strings.
pub mod Base
pub mod InitProcess
pub mod Ip
pub mod IpPool
pub mod Os
pub mod Net
pub mod CGroups
pub mod Controller
pub mod Processes
pub mod Wire
pub mod Config
pub mod Cert
pub mod Auth
pub mod Metadata
pub mod Server
pub mod Client
pub mod Programs
pub mod Examples
