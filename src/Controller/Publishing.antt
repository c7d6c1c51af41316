-- ===== src/Controller/Publishing.antt =====
-- `ControllerPublishVolume` and `ControllerUnpublishVolume`.
pub mod Table
pub mod Unpublish
pub mod Accepting
use csi_sharedhostpath.Base.{
  ℕ, Bool, true, false, not, Option, none, some, List, [], ◌∷◌, Text, ◌==◌, text_eq, bool_eq,
  if◌then◌else◌,
}
use csi_sharedhostpath.Base.Int.{ℤ, pos}
use csi_sharedhostpath.Base.Run.{
  Result, ok, err, Run, ◌>>=◌, ◌>>◌, return, return_if, act, try, check, give, need, call,
}
use csi_sharedhostpath.Base.Strings.{is_empty}
use csi_sharedhostpath.Controller.Requests.{
  Code, invalid_argument, not_found, already_exists, internal, PublishRequest, UnpublishRequest,
}
use csi_sharedhostpath.Host.Db.{Err, is_record_not_found}
use csi_sharedhostpath.Host.Rows.{ControllerPublishVolumeInfo}
use csi_sharedhostpath.Host.World.{World, Host}
use csi_sharedhostpath.Volumes.Infos.{
  get_node_info, get_controller_publish_volume_info, create_controller_publish_volume_info,
  delete_controller_publish_volume_info,
}
use csi_sharedhostpath.Volumes.Store.{get_volume}

abbrev pub Answer : Type 0 → Type 0
Answer A = Result Code A

module _ {D F : Type 0} (host : Host D F) where
  abbrev W : Type 0
  W = World D F

  -- The publish context is an empty map in any case.
  add_info : PublishRequest → W → Answer (Unit {0}) × W
  add_info req = call (do
    check (create_controller_publish_volume_info host req.volume_id req.node_id req.readonly)
        (give (λ e. err internal))
    return (ok tt))

  -- The pointer to an info is nil exactly if the record was not found.
  unfoldable pub publish_found :
      PublishRequest → Result Err ControllerPublishVolumeInfo → W → Answer (Unit {0}) × W
  unfolding add_info
  publish_found req (ok cpvi) w =
      (if not (cpvi.read_only == req.readonly) then err already_exists else ok tt, w)
  publish_found req (err e) w =
      if not (is_record_not_found e) then (err internal, w) else add_info req w

  -- `ControllerPublishVolume`. A node counts if it was seen in the last 30 seconds.
  unfoldable pub controller_publish_volume : PublishRequest → W → Answer (Unit {0}) × W
  controller_publish_volume req = call (do
    return_if (is_empty req.volume_id) (err invalid_argument)
    return_if (is_empty req.node_id) (err invalid_argument)
    return_if (not req.has_capability) (err invalid_argument)
    vol ← try (get_volume host req.volume_id) (give (λ e. err not_found))
    ni ← try (get_node_info host req.node_id (pos 30_000)) (give (λ e. err internal))
    node ← need ni (err not_found)
    found ← act (get_controller_publish_volume_info host req.volume_id req.node_id)
    act (publish_found req found))

  remove_info : UnpublishRequest → W → Answer (Unit {0}) × W
  remove_info req = call (do
    check (delete_controller_publish_volume_info host req.volume_id req.node_id)
        (give (λ e. err internal))
    return (ok tt))

  unfoldable pub unpublish_found :
      UnpublishRequest → Result Err ControllerPublishVolumeInfo → W → Answer (Unit {0}) × W
  unfolding remove_info
  unpublish_found req (ok cpvi) w = remove_info req w
  unpublish_found req (err e) w = (if not (is_record_not_found e) then err internal else ok tt, w)

  -- `ControllerUnpublishVolume`
  unfoldable pub controller_unpublish_volume : UnpublishRequest → W → Answer (Unit {0}) × W
  controller_unpublish_volume req = call (do
    return_if (is_empty req.volume_id) (err invalid_argument)
    vol ← try (get_volume host req.volume_id) (give (λ e. err not_found))
    found ← act (get_controller_publish_volume_info host req.volume_id req.node_id)
    act (unpublish_found req found))
