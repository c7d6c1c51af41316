-- ===== src/System/Orphans.antt =====
-- A publication whose volume was deleted: `DeleteVolume` does not look at the publications, and
-- `ControllerUnpublishVolume` looks for the volume first.
use csi_sharedhostpath.Base.{
  Bool, none, [], ◌∷◌, ◌++◌, ◌≡◌, ◌≢◌, refl, sym, ap, ◌∙◌, inl, inr, arith, Text, text_eq,
}
use csi_sharedhostpath.Base.Run.{ok, err}
use csi_sharedhostpath.Controller.Provisioning.{delete_volume}
use csi_sharedhostpath.Controller.Publishing.{
  Answer, controller_publish_volume, controller_unpublish_volume,
}
use csi_sharedhostpath.Controller.Publishing.Table.{
  Infos, info_of, Publishes, controller_publish_volume-Publishes,
}
use csi_sharedhostpath.Controller.Publishing.Unpublish.{
  Unpublishes, out_of, controller_unpublish_volume-Unpublishes,
}
use csi_sharedhostpath.Controller.Requests.{PublishRequest, UnpublishRequest}
use csi_sharedhostpath.Host.Db.Laws.{DbLaws, Tables, first, has_id, is_controller_info}
use csi_sharedhostpath.Host.World.{World, Host}
use csi_sharedhostpath.System.Effects.{Deletes, delete_volume-Deletes}
use csi_sharedhostpath.Volumes.Paths.{VolumeHelper}
use csi_sharedhostpath.Volumes.Store.{get_volume}

first-add :
    (volid node : Text) (readonly : Bool) (l : Infos)
    → first
        (is_controller_info volid node)
        (l ++ (record { vol_id = volid; node_id = node; read_only = readonly } ∷ []))
      ≢ none
first-add volid node readonly [] absent = ground arith
first-add volid node readonly (i ∷ l) absent = ground (arith, first-add volid node readonly l)

Publishes-there :
    (req : PublishRequest) (t t' : Tables)
    → Publishes req t (ok tt) t'
    → info_of req.volume_id req.node_id t' ≢ none
Publishes-there req t t' (inl (i, there, mode, same)) absent = ground arith
Publishes-there req t t' (inr (none_there, grown)) absent =
    first-add req.volume_id req.node_id req.readonly t.controller_infos
      (ap (info_of req.volume_id req.node_id) (sym grown) ∙ absent)

module _ {D F : Type 0} (host : Host D F) (laws : DbLaws host.db) where
  open laws use {tables}

  unpublish_accepts :
      (req : UnpublishRequest) (w : World D F)
      → (controller_unpublish_volume host req w).0 ≡ ok tt
      → first (has_id req.volume_id) (tables w.db).volumes ≢ none
  unfolding controller_unpublish_volume get_volume
  unpublish_accepts req w accepted absent = ground (arith, laws.first_by_id req.volume_id w.db)

  refused-tables :
      (req : UnpublishRequest) (t : Tables) (answer : Answer (Unit {0})) (t' : Tables)
      → answer ≢ ok tt
      → Unpublishes req t answer t'
      → t' ≡ t
  refused-tables req t (ok u) t' refused h = absurd (refused refl)
  refused-tables req t (err code) t' refused h = h

  Deletes-infos :
      (volid : Text) (t t' : Tables)
      → Deletes host laws volid t t'
      → t'.controller_infos ≡ t.controller_infos
  Deletes-infos volid t t' (inl same) = ap (λ (x : Tables). x.controller_infos) same
  Deletes-infos volid t t' (inr less) = ap (λ (x : Tables). x.controller_infos) less

  -- If a volume was published and its row is gone after a request to delete it, the request to
  -- unpublish it is not accepted, and its publication stays in the table.
  pub unpublish_after_delete :
      (vh : VolumeHelper) (req : PublishRequest) (w : World D F)
      → let (published, w1) = controller_publish_volume host req w in
        let (deleted, w2) = delete_volume host vh req.volume_id w1 in
        let (answer, w3) = controller_unpublish_volume host (out_of req) w2 in
        published ≡ ok tt
        → first (has_id req.volume_id) (tables w2.db).volumes ≡ none
        → (answer ≢ ok tt) × (info_of req.volume_id req.node_id (tables w3.db) ≢ none)
  unpublish_after_delete vh req w published gone =
      let w1 = (controller_publish_volume host req w).1 in
      let w2 = (delete_volume host vh req.volume_id w1).1 in
      let back = out_of req in
      let there : info_of req.volume_id req.node_id (tables w1.db) ≢ none =
        Publishes-there req (tables w.db) (tables w1.db)
          (rw published at (controller_publish_volume-Publishes host laws req w)) in
      let kept : (tables w2.db).controller_infos ≡ (tables w1.db).controller_infos =
        Deletes-infos req.volume_id (tables w1.db) (tables w2.db)
          (delete_volume-Deletes host laws vh req.volume_id w1) in
      let refused : (controller_unpublish_volume host back w2).0 ≢ ok tt =
        λ accepted. unpublish_accepts back w2 accepted gone in
      let same =
        refused-tables back _ _ _ refused
          (controller_unpublish_volume-Unpublishes host laws back w2) in
      (
        refused,
        λ absent. there (
            ap (first (is_controller_info req.volume_id req.node_id)) (sym kept)
            ∙ ap (info_of req.volume_id req.node_id) (sym same)
            ∙ absent),
      )
