-- ===== src/Volumes/Details.antt =====
-- What the controller reports of volumes: `GetVolumeWithDetail`, `GetVolumesWithDetail` and
-- `GetVolumeCount`. The errors that the source reads off `vh.db.Error` are those of the handle,
-- which a query does not set.
pub mod Tables
use csi_sharedhostpath.Base.{
  ℕ, Bool, true, false, not, ◌&&◌, Option, none, some, List, [], ◌∷◌, Text, ◌==◌, map, length,
  if◌then◌else◌,
}
use csi_sharedhostpath.Base.Dict.{Dict, insert}
use csi_sharedhostpath.Base.Int.{ℤ, int_eq}
use csi_sharedhostpath.Base.Run.{Result, ok, err, ◌>>=◌, return, act, try, give, call}
use csi_sharedhostpath.Base.Strings.{codes}
use csi_sharedhostpath.Host.Rows.{Volume, ControllerPublishVolumeInfo}
use csi_sharedhostpath.Host.Db.{Err, is_record_not_found, message}
use csi_sharedhostpath.Host.Os.{FileInfo}
use csi_sharedhostpath.Host.World.{World, Host, on_db, on_os, find, find_by_handle}

abbrev pub pv_name_key : Text
pv_name_key = codes "csi.storage.k8s.io/pv/name"

abbrev pub pvc_name_key : Text
pvc_name_key = codes "csi.storage.k8s.io/pvc/name"

abbrev pub pvc_namespace_key : Text
pvc_namespace_key = codes "csi.storage.k8s.io/pvc/namespace"

-- The entries of the map that describes a volume.
pub record VolumeDetail : Type 0 where
  pub published_node_ids : List Text
  pub parameters : Dict
  pub capacity : ℤ
  pub condition_abnormal : Bool
  pub condition_msg : Text
  pub volume_id : Text

unfoldable pub parameters_of : Text → Volume → Dict
unfolding insert
parameters_of type_parameter vol =
    let names : Dict =
      insert pvc_namespace_key vol.ns_name
        (insert pvc_name_key vol.pvc_name (insert pv_name_key vol.pv_name [])) in
    let folder = insert type_parameter (codes "folder") names in
    if vol.is_block then insert type_parameter (codes "disk") folder else folder

-- Whether the volume is in an abnormal condition, and the message.
unfoldable pub condition : Volume → Result Err FileInfo → Bool × Text
condition vol (err e) = (true, message e)
condition vol (ok fi) =
    if vol.is_block && not (fi.size == vol.capacity)
    then (true, codes "file size dismatch")
    else (false, codes "ok")

unfoldable pub detail_of :
    Text → Volume → List ControllerPublishVolumeInfo → Result Err FileInfo → VolumeDetail
unfolding parameters_of condition
detail_of type_parameter vol cpvis fi = record {
  published_node_ids = map (λ i. i.node_id) cpvis;
  parameters = parameters_of type_parameter vol;
  capacity = vol.capacity;
  condition_abnormal = (condition vol fi).0;
  condition_msg = (condition vol fi).1;
  volume_id = vol.vol_id;
}

module _ {D F : Type 0} (host : Host D F) (type_parameter : Text) where
  abbrev W : Type 0
  W = World D F

  -- `GetVolumeWithDetail`; no detail where there is no such volume.
  unfoldable pub get_volume_with_detail : Text → W → Result Err (Option VolumeDetail) × W
  unfolding find
  get_volume_with_detail volid = call (do
    vol ←
        try (on_db (host.db.first_volume_by_id volid))
          (give (λ e. if is_record_not_found e then ok none else err e))
    cpvis ← try (find (on_db (host.db.find_controller_infos vol.vol_id))) (give err)
    fi ← act (on_os (host.os.stat vol.vol_path))
    return (ok (some (detail_of type_parameter vol cpvis fi))))

  -- `GetVolumeCount`
  unfoldable pub get_volume_count : W → Result Err ℕ × W
  unfolding find_by_handle
  get_volume_count = call (do
    vols ← try (find_by_handle host (on_db host.db.find_volume_ids)) (give err)
    return (ok (length vols)))

  -- The body of the loop over the volumes.
  unfoldable pub volume_detail : Volume → W → Result Err VolumeDetail × W
  unfolding find_by_handle
  volume_detail vol = call (do
    cpvis ← try (find_by_handle host (on_db (host.db.find_controller_infos vol.vol_id))) (give err)
    fi ← act (on_os (host.os.stat vol.vol_path))
    return (ok (detail_of type_parameter vol cpvis fi)))

  unfoldable pub volume_details : List Volume → W → Result Err (List VolumeDetail) × W
  unfolding volume_detail
  volume_details [] = call (return (ok []))
  volume_details (vol ∷ vols) = call (do
    detail ← try (volume_detail vol) (give err)
    rest ← try (volume_details vols) (give err)
    return (ok (detail ∷ rest)))

  -- `GetVolumesWithDetail`
  unfoldable pub get_volumes_with_detail : ℤ → ℤ → W → Result Err (List VolumeDetail) × W
  unfolding find_by_handle volume_details
  get_volumes_with_detail offset limit = call (do
    vols ← try (find_by_handle host (on_db (host.db.find_volumes_page offset limit))) (give err)
    try (volume_details vols) (give err) >>= λ details. return (ok details))
