-- ===== src/System.antt =====
-- The controller, the node servers and the jobs of the command line on one database, in any order.
pub mod Apart
pub mod Valid
pub mod Effects
pub mod Creating
pub mod Reads
pub mod Orphans
pub mod Types
pub mod Steps
pub mod Refinement
pub mod Invariant
pub mod Lasting
pub mod Lifecycle
pub mod Promise
pub mod View
use csi_sharedhostpath.Base.{ℕ, List, [], ◌∷◌, Text}
use csi_sharedhostpath.Base.Int.{ℤ}
use csi_sharedhostpath.Controller.Requests.{
  CreateVolumeRequest, PublishRequest, UnpublishRequest, ExpandRequest, ListRequest,
  ValidateRequest,
}
use csi_sharedhostpath.Controller.Provisioning.{
  create_volume, delete_volume, validate_volume_capabilities,
}
use csi_sharedhostpath.Controller.Publishing.{
  controller_publish_volume, controller_unpublish_volume,
}
use csi_sharedhostpath.Controller.Expansion.{controller_expand_volume}
use csi_sharedhostpath.Controller.Listing.{list_volumes, controller_get_volume}
use csi_sharedhostpath.Host.World.{World, Host}
use csi_sharedhostpath.Node.{Devices, NodePublishRequest, NodeUnpublishRequest, NodeExpandRequest}
use csi_sharedhostpath.Node.Publishing.{node_publish_volume, node_unpublish_volume}
use csi_sharedhostpath.Node.Expansion.{node_expand_volume}
use csi_sharedhostpath.Node.Statistics.{StatsRequest, node_get_volume_stats}
use csi_sharedhostpath.Volumes.Cleanup.{clean_up_dangling_volumes, rebuild_sym_links}
use csi_sharedhostpath.Volumes.Infos.{update_node_info_last_seen}
use csi_sharedhostpath.Volumes.Paths.{VolumeHelper}

-- A request to the controller; a request to the node server of a node; a tick of a node's clock,
-- with the time; a job; or a change of the operating system from elsewhere.
pub data Event (F : Type 0) : Type 0 where
  create : CreateVolumeRequest → Event F
  delete : Text → Event F
  validate : ValidateRequest → Event F
  publish : PublishRequest → Event F
  unpublish : UnpublishRequest → Event F
  expand : ExpandRequest → Event F
  list : ListRequest → Event F
  get : Text → Event F
  node_publish : Text → NodePublishRequest → Event F
  node_unpublish : Text → NodeUnpublishRequest → Event F
  node_expand : NodeExpandRequest → Event F
  node_stats : Text → StatsRequest → Event F
  seen : Text → ℤ → Event F
  clean_up : Event F
  rebuild : Event F
  elsewhere : (F → F) → Event F

module _ {D F : Type 0} (host : Host D F) (devices : Devices F) (vh : VolumeHelper)
    (type_parameter fstype_parameter : Text) where
  -- The state after one event. The mutex of the controller makes each of its requests one step.
  unfoldable pub serve : Event F → World D F → World D F
  serve (create req) w = (create_volume host vh type_parameter req w).1
  serve (delete volid) w = (delete_volume host vh volid w).1
  serve (validate req) w = (validate_volume_capabilities host vh req w).1
  serve (publish req) w = (controller_publish_volume host req w).1
  serve (unpublish req) w = (controller_unpublish_volume host req w).1
  serve (expand req) w = (controller_expand_volume host req w).1
  serve (list req) w = (list_volumes host type_parameter req w).1
  serve (get volid) w = (controller_get_volume host type_parameter volid w).1
  serve (node_publish node req) w =
      (node_publish_volume host devices type_parameter fstype_parameter node req w).1
  serve (node_unpublish node req) w = (node_unpublish_volume host devices node req w).1
  serve (node_expand req) w = (node_expand_volume host devices req w).1
  serve (node_stats node req) w = (node_get_volume_stats host node req w).1
  serve (seen node time) w = (update_node_info_last_seen host node time w).1
  serve clean_up w = (clean_up_dangling_volumes host vh w).1
  serve rebuild w = (rebuild_sym_links host vh w).1
  serve (elsewhere change) w = record w { os = change w.os }

  unfoldable pub serve_all : List (Event F) → World D F → World D F
  unfolding serve
  serve_all [] w = w
  serve_all (event ∷ events) w = serve_all events (serve event w)
