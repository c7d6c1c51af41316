-- ===== src/Node.antt =====
-- The node server, internal/sharedhostpath/nodeserver.go: what it reads of requests, and the
-- handling of devices that it calls.
pub mod Working
pub mod LoopDevice
pub mod Publishing
pub mod Expansion
pub mod Growth
pub mod Statistics
use csi_sharedhostpath.Base.{Bool, Option, Text}
use csi_sharedhostpath.Base.Dict.{Dict}
use csi_sharedhostpath.Base.Run.{Result}
use csi_sharedhostpath.Controller.Requests.{VolumeCapability}
use csi_sharedhostpath.Host.Db.{Err}

-- `VolumePathHandler` and `ResizeFs` of internal/volumehelpers, a copy of a part of Kubernetes: the
-- loop device of a file, attached or found, its detachment, and the growth of a file system to its
-- device.
pub record Devices (F : Type 0) : Type 0 where
  pub attach_file_device : Text → F → Result Err Text × F
  pub get_loop_device : Text → F → Result Err Text × F
  pub detach_file_device : Text → F → Option Err × F
  pub resize : Text → Text → F → Result Err Bool × F

pub record NodePublishRequest : Type 0 where
  pub volume_id : Text
  pub target_path : Text
  pub volume_capability : Option VolumeCapability
  pub readonly : Bool
  pub volume_context : Dict

pub record NodeUnpublishRequest : Type 0 where
  pub volume_id : Text
  pub target_path : Text

pub record NodeExpandRequest : Type 0 where
  pub volume_id : Text
  pub volume_path : Text
  pub volume_capability : Option VolumeCapability
