-- ===== src/Driver.antt =====
-- The driver, internal/sharedhostpath/plugin.go. The variables of the package are explicit state.
pub mod Roles
pub mod Accepts
pub mod Capabilities
use csi_sharedhostpath.Base.{not, Option, none, some, ◌++◌, Text, if◌then◌else◌}
use csi_sharedhostpath.Base.Int.{ℤ}
use csi_sharedhostpath.Base.Run.{
  Result, ok, err, Run, ◌>>=◌, ◌>>◌, return, return_if, when, act, ignore, try, check, give, call,
}
use csi_sharedhostpath.Base.Strings.{codes, is_empty}
use csi_sharedhostpath.Host.Db.{Err}
use csi_sharedhostpath.Host.World.{World, Host, on_os}
use csi_sharedhostpath.Server.{GrpcServer, Move, move, stop, force_stop}
use csi_sharedhostpath.Volumes.Opening.{Opener, new_volume_helper}
use csi_sharedhostpath.Volumes.Paths.{VolumeHelper}

-- The package's variables.
pub record Globals : Type 0 where
  pub vendor_version : Text
  pub fstype_parameter : Text
  pub type_parameter : Text

abbrev pub initial_globals : Globals
initial_globals = record {
  vendor_version = codes "dev";
  fstype_parameter = codes "/fsType";
  type_parameter = codes "/type";
}

pub record Driver : Type 0 where
  pub name : Text
  pub node_id : Text
  pub version : Text
  pub endpoint : Text
  pub max_volumes_per_node : ℤ
  pub vh : VolumeHelper

pub data DriverError : Type 0 where
  no_driver_name no_node_id no_endpoint no_data_root no_dsn : DriverError
  no_data_root_made : Err → DriverError
  no_connection : Err → DriverError

-- The arguments of `NewSharedHostPathDriver`.
pub record Settings : Type 0 where
  pub driver_name : Text
  pub node_id : Text
  pub endpoint : Text
  pub data_root : Text
  pub dsn : Text
  pub max_volumes_per_node : ℤ
  pub version : Text

-- The variables of the package, and the state of the database and the operating system.
pub record Program (D F : Type 0) : Type 0 where
  pub globals : Globals
  pub world : World D F

module _ {D F A : Type 0} where
  abbrev pub on_world : (World D F → A × World D F) → Program D F → A × Program D F
  on_world f p = let (a, w) = f p.world in (a, record p { world = w })

module _ {D F : Type 0} (host : Host D F) (opener : Opener D F) where
  abbrev P : Type 0
  P = Program D F

  -- An assignment to the package's variables.
  abbrev assign : (Globals → Globals) → P → Unit {0} × P
  assign f p = (tt, record p { globals = f p.globals })

  abbrev prefixed : Text → Globals → Globals
  prefixed name g = record g {
    fstype_parameter = name ++ g.fstype_parameter;
    type_parameter = name ++ g.type_parameter;
  }

  abbrev current : P → Globals × P
  current p = (p.globals, p)

  -- `NewSharedHostPathDriver`
  unfoldable pub new_shared_host_path_driver : Settings → P → Result DriverError Driver × P
  unfolding new_volume_helper
  new_shared_host_path_driver settings = call (do
    return_if (is_empty settings.driver_name) (err no_driver_name)
    ignore (assign (prefixed settings.driver_name))
    return_if (is_empty settings.node_id) (err no_node_id)
    return_if (is_empty settings.endpoint) (err no_endpoint)
    return_if (is_empty settings.data_root) (err no_data_root)
    return_if (is_empty settings.dsn) (err no_dsn)
    when (not (is_empty settings.version))
        (ignore (assign (λ g. record g { vendor_version = settings.version })))
    check (on_world (on_os (host.os.mkdir_all settings.data_root)))
        (give (λ e. err (no_data_root_made e)))
    vh ←
        try (on_world (new_volume_helper host opener settings.data_root settings.dsn))
          (give (λ e. err (no_connection e)))
    globals ← act current
    return (
        ok (record {
          name = settings.driver_name;
          version = globals.vendor_version;
          node_id = settings.node_id;
          endpoint = settings.endpoint;
          max_volumes_per_node = settings.max_volumes_per_node;
          vh = vh;
        })))

module _ {D F : Type 0} (opener : Opener D F) where
  -- `Stop`, and `ForceStop` with the other move: none where the process panics. The error of the
  -- closing is dropped.
  stop_by : Move → GrpcServer → D → Option (GrpcServer × D)
  unfolding move
  stop_by m server d = elim (move m server) [
    | none ↦ none
    | some stopped ↦ some (stopped, (opener.close d).1)
  ]

  unfoldable pub stop_driver : GrpcServer → D → Option (GrpcServer × D)
  unfolding stop_by
  stop_driver = stop_by stop

  unfoldable pub force_stop_driver : GrpcServer → D → Option (GrpcServer × D)
  unfolding stop_by
  force_stop_driver = stop_by force_stop
