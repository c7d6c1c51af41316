-- ===== src/Driver/Roles.antt =====
-- The servers of each role of the driver, plugin.go, with their constructors in controllerserver.go
-- and nodeserver.go.
use csi_sharedhostpath.Base.{Bool, true, false, Option, none, some, List, [], ◌∷◌, Text}
use csi_sharedhostpath.Base.Int.{ℤ}
use csi_sharedhostpath.Host.World.{World, Host, on_os}
use csi_sharedhostpath.Identity.{IdentityServer, new_identity_server}
use csi_sharedhostpath.Server.{Services}
use csi_sharedhostpath.Volumes.Infos.{update_node_info_last_seen}
use csi_sharedhostpath.Volumes.Paths.{VolumeHelper}
use csi_sharedhostpath.Driver.{Driver}

pub data ControllerCapability : Type 0 where
  rpc_create_delete_volume rpc_publish_unpublish_volume rpc_publish_readonly : ControllerCapability
  rpc_expand_volume rpc_list_volumes rpc_list_volumes_published_nodes : ControllerCapability
  rpc_get_volume rpc_volume_condition : ControllerCapability

pub record ControllerServer : Type 0 where
  pub caps : List ControllerCapability
  pub node_id : Text
  pub vh : VolumeHelper

-- `NewControllerServer`
abbrev pub new_controller_server : Text → VolumeHelper → ControllerServer
new_controller_server node_id vh = record {
  caps =
      rpc_create_delete_volume ∷ rpc_publish_unpublish_volume ∷ rpc_publish_readonly
      ∷ rpc_expand_volume ∷ rpc_list_volumes ∷ rpc_list_volumes_published_nodes ∷ rpc_get_volume
      ∷ rpc_volume_condition ∷ [];
  node_id = node_id;
  vh = vh;
}

-- `ControllerGetCapabilities`
abbrev pub controller_get_capabilities : ControllerServer → List ControllerCapability
controller_get_capabilities cs = cs.caps

pub data NodeCapability : Type 0 where
  rpc_node_expand_volume rpc_node_get_volume_stats rpc_node_volume_condition : NodeCapability

pub record NodeServer : Type 0 where
  pub node_id : Text
  pub max_volumes_per_node : ℤ
  pub caps : List NodeCapability
  pub vh : VolumeHelper

-- `NodeGetInfo`; the topology has no segments.
abbrev pub node_get_info : NodeServer → Text × ℤ
node_get_info ns = (ns.node_id, ns.max_volumes_per_node)

-- `NodeGetCapabilities`
abbrev pub node_get_capabilities : NodeServer → List NodeCapability
node_get_capabilities ns = ns.caps

-- What `Start` gets: the servers that are not nil.
pub record Servers : Type 0 where
  pub ids : IdentityServer
  pub cs : Option ControllerServer
  pub ns : Option NodeServer

abbrev is_some : {A : Type 0} → Option A → Bool
is_some none = false
is_some (some a) = true

abbrev pub services_of : Servers → Services
services_of servers = record {
  identity = true;
  controller = is_some servers.cs;
  node = is_some servers.ns;
}

module _ {D F : Type 0} (host : Host D F) where
  abbrev W : Type 0
  W = World D F

  -- `NewNodeServer`, which writes the time of the node and drops the error. The ticks of its clock
  -- come later.
  unfoldable pub new_node_server : Text → ℤ → VolumeHelper → W → NodeServer × W
  unfolding update_node_info_last_seen
  new_node_server node max_volumes_per_node vh w =
      let (now, w') = on_os host.os.now w in
      let (e, w'') = update_node_info_last_seen host node now w' in
      (
        record {
          node_id = node;
          max_volumes_per_node = max_volumes_per_node;
          caps =
              rpc_node_expand_volume ∷ rpc_node_get_volume_stats ∷ rpc_node_volume_condition ∷ [];
          vh = vh;
        },
        w'',
      )

  -- The servers that `RunController` starts.
  unfoldable pub controller_servers : Driver → W → Servers × W
  controller_servers shp w = (
    record {
      ids = new_identity_server shp.name true shp.version;
      cs = some (new_controller_server shp.node_id shp.vh);
      ns = none;
    },
    w,
  )

  -- The servers that `RunNode` starts.
  unfoldable pub node_servers : Driver → W → Servers × W
  unfolding new_node_server
  node_servers shp w =
      let (ns, w') = new_node_server shp.node_id shp.max_volumes_per_node shp.vh w in
      (record { ids = new_identity_server shp.name false shp.version; cs = none; ns = some ns }, w')

  -- The servers that `RunBoth` starts.
  unfoldable pub both_servers : Driver → W → Servers × W
  unfolding new_node_server
  both_servers shp w =
      let (ns, w') = new_node_server shp.node_id shp.max_volumes_per_node shp.vh w in
      (
        record {
          ids = new_identity_server shp.name true shp.version;
          cs = some (new_controller_server shp.node_id shp.vh);
          ns = some ns;
        },
        w',
      )
