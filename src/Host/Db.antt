-- ===== src/Host/Db.antt =====
-- The calls of gorm. A call may fail; a query on the handle `vh.db` runs at once, in a transaction
-- of its own, and a query on a transaction's handle takes effect with its commit.
pub mod Laws
pub mod Matching
use csi_sharedhostpath.Base.{ℕ, Bool, true, false, Option, none, some, List, ◌++◌, Text}
use csi_sharedhostpath.Base.Int.{ℤ}
use csi_sharedhostpath.Base.Run.{Result}
use csi_sharedhostpath.Base.Strings.{codes}
use csi_sharedhostpath.Host.Rows.{
  Volume, NodeInfo, ControllerPublishVolumeInfo, NodePublishVolumeInfo,
}

-- The errors that the code tells apart: `gorm.ErrRecordNotFound`, what `os.IsNotExist` accepts,
-- and all others, by their text.
pub data Err : Type 0 where
  record_not_found : Err
  not_exist : Text → Err
  failed : Text → Err

-- `errors.Is(err, gorm.ErrRecordNotFound)`
abbrev pub is_record_not_found : Err → Bool
is_record_not_found record_not_found = true
is_record_not_found (not_exist text) = false
is_record_not_found (failed text) = false

-- `os.IsNotExist(err)`
abbrev pub is_not_exist : Err → Bool
is_not_exist record_not_found = false
is_not_exist (not_exist text) = true
is_not_exist (failed text) = false

-- `err.Error()`
abbrev pub message : Err → Text
message record_not_found = codes "record not found"
message (not_exist text) = text
message (failed text) = text

-- What `Find` leaves in its destination, and its error.
abbrev pub Rows : Type 0 → Type 0
Rows A = List A × Option Err

pub record Db (D : Type 0) : Type 0 where
  -- `vh.db.Error`
  pub handle_error : D → Option Err
  -- `Begin`, which returns a handle in any case, and what is called on that handle.
  pub begin : D → ℕ × D
  pub tx_create_volume : ℕ → Volume → D → Option Err × D
  pub commit : ℕ → D → Option Err × D
  pub rollback : ℕ → D → D
  -- Volumes: `First` by a condition, `Find`, `Update` and `Delete`.
  pub first_volume_by_id : Text → D → Result Err Volume × D
  pub first_volume_by_name : Text → D → Result Err Volume × D
  pub find_volumes : D → Rows Volume × D
  pub find_volumes_page : ℤ → ℤ → D → Rows Volume × D
  pub find_volume_ids : D → Rows Text × D
  pub find_deleted_volumes : D → Rows Volume × D
  pub find_volumes_by_path : Text → D → Rows Volume × D
  pub update_volume_capacity : Text → ℤ → D → Option Err × D
  pub delete_volumes : Text → D → Option Err × D
  -- Nodes.
  pub upsert_node : NodeInfo → D → Option Err × D
  pub first_node_since : Text → ℤ → D → Result Err NodeInfo × D
  -- Controller publish infos, by volume and node.
  pub create_controller_info : ControllerPublishVolumeInfo → D → Option Err × D
  pub first_controller_info : Text → Text → D → Result Err ControllerPublishVolumeInfo × D
  pub find_controller_infos : Text → D → Rows ControllerPublishVolumeInfo × D
  pub delete_controller_infos : Text → Text → D → Option Err × D
  -- Node publish infos, by volume, node and mount path.
  pub create_node_info : NodePublishVolumeInfo → D → Option Err × D
  pub first_node_info : Text → Text → Text → D → Result Err NodePublishVolumeInfo × D
  pub delete_node_infos : Text → Text → Text → D → Option Err × D
