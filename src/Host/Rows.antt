-- ===== src/Host/Rows.antt =====
-- The rows of the four tables (internal/sharedhostpath/utils.go), less the columns that gorm keeps
-- for itself: the serial number, the two times, and the time of deletion. A row that is deleted
-- softly has left these tables.
use csi_sharedhostpath.Base.{Bool, Text}
use csi_sharedhostpath.Base.Int.{ℤ}

pub record Volume : Type 0 where
  pub vol_id : Text
  pub vol_name : Text
  pub pv_name : Text
  pub pvc_name : Text
  pub ns_name : Text
  pub capacity : ℤ
  pub is_block : Bool
  pub vol_path : Text

-- `last_seen` counts nanoseconds.
pub record NodeInfo : Type 0 where
  pub id : Text
  pub last_seen : ℤ

pub record ControllerPublishVolumeInfo : Type 0 where
  pub vol_id : Text
  pub node_id : Text
  pub read_only : Bool

pub record NodePublishVolumeInfo : Type 0 where
  pub vol_id : Text
  pub node_id : Text
  pub mount_path : Text
  pub raw_mount : Bool
  pub read_only : Bool
