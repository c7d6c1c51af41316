-- ===== src/Volumes/Infos.antt =====
-- The tables of nodes and of published volumes.
use csi_sharedhostpath.Base.{Bool, Option, none, some, Text, if◌then◌else◌, ◌≡◌, refl}
use csi_sharedhostpath.Base.Int.{ℤ, pos, negsuc, ◌+ℤ◌, ◌-ℤ◌, ◌*ℤ◌, mul64, wrap64}
use csi_sharedhostpath.Base.Run.{Result, ok, err, ◌>>=◌, return, act, call}
use csi_sharedhostpath.Host.Rows.{NodeInfo, ControllerPublishVolumeInfo, NodePublishVolumeInfo}
use csi_sharedhostpath.Host.Db.{Err, is_record_not_found}
use csi_sharedhostpath.Host.World.{World, Host, on_db, on_os}

-- A node, nil where there is none, or an error.
node_or_none : Result Err NodeInfo → Result Err (Option NodeInfo)
node_or_none (ok ni) = ok (some ni)
node_or_none (err e) = if is_record_not_found e then ok none else err e

-- `time.Now().Add(time.Millisecond * time.Duration(age) * -1)`
unfoldable pub min_last_seen : ℤ → ℤ → ℤ
unfolding mul64 ◌+ℤ◌
min_last_seen now age = now +ℤ mul64 (mul64 (pos 1_000_000) age) (negsuc 0)

-- An age in milliseconds becomes nanoseconds before now.
pub min_last_seen_lem : (now : ℤ) → min_last_seen now (pos 30_000) ≡ now -ℤ pos 30_000_000_000
unfolding min_last_seen mul64 wrap64 ◌*ℤ◌ ◌+ℤ◌ ◌-ℤ◌
min_last_seen_lem now = refl

module _ {D F : Type 0} (host : Host D F) where
  abbrev W : Type 0
  W = World D F

  -- `UpdateNodeInfoLastSeen`
  unfoldable pub update_node_info_last_seen : Text → ℤ → W → Option Err × W
  update_node_info_last_seen node last_seen =
      on_db (host.db.upsert_node (record { id = node; last_seen = last_seen }))

  -- `GetNodeInfo`
  unfoldable pub get_node_info : Text → ℤ → W → Result Err (Option NodeInfo) × W
  unfolding node_or_none min_last_seen
  get_node_info node age = call (do
    now ← act (on_os host.os.now)
    r ← act (on_db (host.db.first_node_since node (min_last_seen now age)))
    return (node_or_none r))

  -- `CreateControllerPublishVolumeInfo`
  unfoldable pub create_controller_publish_volume_info : Text → Text → Bool → W → Option Err × W
  create_controller_publish_volume_info volid node readonly = on_db (
      host.db.create_controller_info
        (record { vol_id = volid; node_id = node; read_only = readonly }))

  -- `GetControllerPublishVolumeInfo`
  unfoldable pub get_controller_publish_volume_info :
      Text → Text → W → Result Err ControllerPublishVolumeInfo × W
  get_controller_publish_volume_info volid node = on_db (host.db.first_controller_info volid node)

  -- `DeleteControllerPublishVolumeInfo`
  unfoldable pub delete_controller_publish_volume_info : Text → Text → W → Option Err × W
  delete_controller_publish_volume_info volid node =
      on_db (host.db.delete_controller_infos volid node)

  -- `CreateNodePublishVolumeInfo`
  unfoldable pub create_node_publish_volume_info :
      Text → Text → Text → Bool → Bool → W → Option Err × W
  create_node_publish_volume_info volid node path raw readonly = on_db (
      host.db.create_node_info (record {
        vol_id = volid;
        node_id = node;
        mount_path = path;
        raw_mount = raw;
        read_only = readonly;
      }))

  -- `DeleteNodePublishVolumeInfo`
  unfoldable pub delete_node_publish_volume_info : Text → Text → Text → W → Option Err × W
  delete_node_publish_volume_info volid node path =
      on_db (host.db.delete_node_infos volid node path)

  -- `GetNodePublishVolumeInfo`
  unfoldable pub get_node_publish_volume_info :
      Text → Text → Text → W → Result Err NodePublishVolumeInfo × W
  get_node_publish_volume_info volid node path = on_db (host.db.first_node_info volid node path)
