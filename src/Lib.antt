-- ===== src/Lib.antt =====
-- A model of the csi-sharedhostpath driver, which provides volumes on a path that all nodes of a
-- Kubernetes cluster share, and what holds of it.
--
-- The program. A controller (internal/sharedhostpath/controllerserver.go) creates, deletes,
-- publishes, expands and lists volumes; a node server (internal/sharedhostpath/nodeserver.go)
-- mounts, unmounts and grows them on one node. Both call the volume helper
-- (internal/sharedhostpath/utils.go), which keeps the volumes, the nodes and the publications in
-- tables of a database and the volumes' directories and files below a data root. The command line
-- (cmd/sharedhostpath/main.go) runs one of two jobs, which rebuild the links to the volumes and
-- remove what the database does not know, or makes a driver (internal/sharedhostpath/plugin.go),
-- which hands the servers of its role and an identity server
-- (internal/sharedhostpath/identityserver.go) to a gRPC server (internal/sharedhostpath/server.go).
--
-- The modules.
--   Base        booleans, lists, int64 with its wrap-around, text as lists of code points, Go's
--               `strings` and `strconv` as far as they are used, and Base.Run, the body of a Go
--               function as state passing with early return.
--   FilePath    `filepath.Clean` and `filepath.Join`.
--   Host        what the program is given: Host.Rows has the rows of the tables, Host.Db the calls
--               of gorm, Host.Os the calls of the operating system, Host.World the state of both.
--               Host.Db.Laws states what is relied on of the database: each query by its meaning on
--               the committed tables, where every query may fail. Host.Working and Node.Working are
--               about a host and a node on which nothing fails.
--   Capacity    `fixCapacity` of utils.go and the size constants.
--   Endpoint    `parseEndpoint` and the address in `serve`, server.go.
--   Volumes     `VolumeHelper` of utils.go: Volumes.Paths the layout below the data root,
--               Volumes.Files the making of directories, files and links, Volumes.Store CreateVolume,
--               GetVolume, UpdateVolumeCapacity and DeleteVolume, Volumes.Infos the nodes and the
--               publications, Volumes.Details the queries for listings, Volumes.Cleanup
--               ReBuildSymLinks and CleanUpDanglingVolumes.
--   Controller  controllerserver.go: Controller.Requests the messages, Controller.Provisioning
--               CreateVolume, DeleteVolume and ValidateVolumeCapabilities, Controller.Publishing
--               ControllerPublishVolume and ControllerUnpublishVolume, Controller.Expansion
--               ControllerExpandVolume, Controller.Listing ListVolumes and ControllerGetVolume.
--   Node        nodeserver.go: Node.Publishing NodePublishVolume and NodeUnpublishVolume,
--               Node.Expansion NodeExpandVolume, Node.LoopDevice ReReadFileSize of
--               internal/volumehelpers/volume_path_handler_linux.go, Node.Statistics
--               NodeGetVolumeStats and utils_linux.go.
--   System      the controller, the node servers and the jobs on one database: an event is a
--               request, a tick of a node's clock, a job or a change of the disk from elsewhere.
--               System.Steps is an abstract account of what an event may do to the tables, and
--               System.Refinement leads from the handlers to it; System.View has the tables as
--               maps, which forget the order of the rows, and their moves. System.Valid says when
--               the tables are in order, and System.Invariant, System.Lasting and System.Promise
--               are about sequences of events; System.Lifecycle, System.Orphans and System.Types
--               are about handlers one after the other.
--   Identity    identityserver.go.
--   Server      `nonBlockingGRPCServer` of server.go: `serve` up to the call that serves, and the moves
--               of starting and stopping on the wait group and the pointer to the gRPC server.
--   Driver      plugin.go: the constructor of the driver and stopping, and in Driver.Roles the servers
--               of each role with their constructors. The package's variables are explicit state, in
--               a Program. NewVolumeHelper is Volumes.Opening.
--   CommandLine main.go.
--   Tests       a database and a disk in memory that satisfy the laws, and runs on them.
--
-- The state is a World: the state of the database and that of the operating system. Every operation
-- of the source is a function from a World to its result and the next World, and its calls of gorm,
-- `os`, `mount`, `exec`, the clock and the generator of identifiers are operations of a Host, a
-- parameter. A handler of the controller runs under a mutex and is one step. An error of gRPC is its
-- status code.
--
-- Bounds and fuel. An int64 is an integer whose sums, products and shifts wrap around at 2^64. The
-- digits of a number are written with fuel above the number. `list_all` in Controller.Listing.Client,
-- a client of ListVolumes that follows the tokens, runs on fuel, one for each request; one more than
-- there are rows is used. GetVolumesWithDetail asks for no order of the rows, so which rows a page has
-- is left open there, and only their number is known. Volumes.Cleanup.Links states what is relied on
-- of the calls that make the links: each may fail, and a link is not made over what is there.
--
-- Not modelled: log lines, the texts of gRPC errors, the rollback after a panic (the slices of an
-- identifier are the only part that can panic, and identifiers are UUIDs), the columns that gorm
-- keeps for itself, the limit of connections, the parsing of the flags, and the interceptor that logs.
-- The ticks of a node's clock come as events. internal/volumehelpers is a copy of a part of
-- Kubernetes, but for ReReadFileSize; what the node server calls of the copy is the parameter
-- Node.Devices. Builds for other systems than Linux are not modelled. gorm, the operating
-- system and the gRPC library are parameters as well: Host, Volumes.Opening.Opener and `listen`.
pub mod Base
pub mod Capacity
pub mod Endpoint
pub mod FilePath
pub mod Host
pub mod Volumes
pub mod Controller
pub mod Node
pub mod System
pub mod Identity
pub mod Server
pub mod Driver
pub mod CommandLine
mod Tests
