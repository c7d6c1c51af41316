-- ===== src/Tests/Driver.antt =====
-- Runs of the command line and of the server.
use csi_sharedhostpath.Base.{
  true, false, none, some, [], ◌∷◌, ◌++◌, ◌≡◌, ◌≢◌, refl, Text, Text-discrete,
}
use csi_sharedhostpath.Base.Int.{pos}
use csi_sharedhostpath.Base.Strings.{codes}
use csi_sharedhostpath.CommandLine.{Flags, waits, handle}
use csi_sharedhostpath.CommandLine.Handling.{Serves, handle-Serves}
use csi_sharedhostpath.Driver.{Settings, Program, initial_globals}
use csi_sharedhostpath.Driver.Roles.{Servers, controller_servers}
use csi_sharedhostpath.Endpoint.Accepts.{IsScheme}
use csi_sharedhostpath.Server.{
  GrpcServer, new_grpc_server, Services, start, set_server, stop, move_all, wait_returns, serving,
  serve,
}
use csi_sharedhostpath.Server.Serving.{Listens, serve_serving}
use csi_sharedhostpath.Server.Waiting.{move_all-wait_returns}
use csi_sharedhostpath.Volumes.Opening.{Opener}
use csi_sharedhostpath.Tests.Memory.{Memory, Disk, host, disk}
use csi_sharedhostpath.Tests.Scene.{helper, one_world, files}

abbrev opener : Opener Memory Disk
opener = record {
  abs = λ path s. (path, s);
  open_db = λ dsn d. (none, d);
  auto_migrate = λ d. (none, d);
  close = λ d. (none, d);
}

abbrev socket : Text
socket = codes "unix:///tmp/csi.sock"

abbrev settings : Settings
settings = record {
  driver_name = codes "csi";
  node_id = codes "node1";
  endpoint = socket;
  data_root = codes "/csi";
  dsn = codes "host=db";
  max_volumes_per_node = pos 0;
  version = [];
}

abbrev controller_flags : Flags
controller_flags = record {
  show_version = false;
  controller = true;
  node = false;
  rebuildsymlinks = false;
  cleanupdangling = false;
  settings = settings;
}

abbrev program : Program Memory Disk
program = record { globals = initial_globals; world = one_world }

abbrev servers : Servers
servers =
    (controller_servers host
      (record {
        name = codes "csi";
        node_id = codes "node1";
        version = codes "dev";
        endpoint = socket;
        max_volumes_per_node = pos 0;
        vh = helper;
      })
      one_world).0

handle_waits : (handle host opener controller_flags program).0 ≡ waits socket servers
unfolding handle controller_servers Text-discrete
handle_waits = refl

known : initial_globals.vendor_version ≢ []
known = λ e. cc

handle-Serves_example : Serves host opener controller_flags program socket servers
handle-Serves_example =
    handle-Serves host opener controller_flags program socket servers known handle_waits

abbrev started : GrpcServer
started = record { waiting = 1; starting = 0; server = true }

moves : move_all (start ∷ set_server ∷ stop ∷ []) new_grpc_server ≡ some started
unfolding move_all
moves = refl

move_all-wait_returns_example : wait_returns started ≡ false
move_all-wait_returns_example = move_all-wait_returns (set_server ∷ stop ∷ []) started moves

abbrev services : Services
services = record { identity = true; controller = true; node = false }

serves :
    (serve disk (λ proto addr s. (none, s)) socket services files).0
    ≡ serving (codes "unix") (codes "//tmp/csi.sock") services
unfolding serve Text-discrete
serves = refl

serve_serving_example :
    (services ≡ services)
    × (q : Text) × (a : Text) × IsScheme q
    × (a ≢ [])
    × (socket ≡ q ++ (codes "://" ++ a))
    × Listens disk (λ proto addr s. (none, s)) q a (codes "unix") (codes "//tmp/csi.sock") files
serve_serving_example =
    serve_serving disk (λ proto addr s. (none, s)) socket services services files (codes "unix")
      (codes "//tmp/csi.sock") serves
