-- ===== src/Node/Publishing/Unpublish.antt =====
-- What a request to unpublish a volume on a node leaves in the table.
use csi_sharedhostpath.Base.{
  Bool, not, ◌||◌, Option-cases, Bool-cases, ◌≡◌, ◌≢◌, refl, inl, inr, arith, Text, text_eq, none,
  ◌∙◌, ap,
}
use csi_sharedhostpath.Base.Run.{
  Result, ok, err, Result-cases, ◌>>=◌, ◌>>◌, return, check, try, give, call,
}
use csi_sharedhostpath.Base.Strings.{is_empty}
use csi_sharedhostpath.Controller.Requests.{internal, wants_block}
use csi_sharedhostpath.Host.Db.{Err}
use csi_sharedhostpath.Host.Db.Laws.{DbLaws, Tables, first, keep, is_node_info}
use csi_sharedhostpath.Host.Db.Matching.{keep-snoc}
use csi_sharedhostpath.Host.Rows.{Volume}
use csi_sharedhostpath.Host.World.{World, Host, on_os, on_db}
use csi_sharedhostpath.Node.{Devices, NodePublishRequest, NodeUnpublishRequest}
use csi_sharedhostpath.Node.Publishing.{Answer, unmount_if_mounted, node_unpublish_volume}
use csi_sharedhostpath.Node.Publishing.Table.{PublishesOnNode, asked_node_info}
use csi_sharedhostpath.Volumes.Infos.{delete_node_publish_volume_info}
use csi_sharedhostpath.Volumes.Store.{get_volume}

-- The tables without the rows of a volume on a node at a path.
abbrev pub without_node_info : Text → NodeUnpublishRequest → Tables → Tables
without_node_info node req t = record t {
  node_infos = keep (λ i. not (is_node_info req.volume_id node req.target_path i)) t.node_infos;
}

-- An accepted request has removed the rows of the volume on the node at the path; a refused one
-- has changed no table.
abbrev pub UnpublishesOnNode :
    Text → NodeUnpublishRequest → Tables → Answer (Unit {0}) → Tables → Type 0
UnpublishesOnNode node req t (ok _) t' = t' ≡ without_node_info node req t
UnpublishesOnNode node req t (err code) t' = t' ≡ t

-- The request that takes a publication on a node back.
abbrev pub back_of : NodePublishRequest → NodeUnpublishRequest
back_of req = record { volume_id = req.volume_id; target_path = req.target_path }

pub UnpublishesOnNode-PublishesOnNode :
    (node : Text) (req : NodePublishRequest) (t u v : Tables)
    → first (is_node_info req.volume_id node req.target_path) t.node_infos ≡ none
    → PublishesOnNode node req t (ok tt) u
    → UnpublishesOnNode node (back_of req) u (ok tt) v
    → v ≡ t
UnpublishesOnNode-PublishesOnNode node req t u v absent (vol, capability, there, given, kind, grown)
      less =
    less
    ∙ ap (without_node_info node (back_of req)) grown
    ∙ rw
        (keep-snoc (is_node_info req.volume_id node req.target_path) t.node_infos
          (asked_node_info node req (wants_block capability)) (ground arith) absent)
        refl

module _ {D F : Type 0} (host : Host D F) (devices : Devices F) (laws : DbLaws host.db) where
  open laws use {tables}

  UnpublishesOnNode-refused :
      (node : Text) (req : NodeUnpublishRequest) (t : Tables) (answer : Answer (Unit {0}))
      (t' : Tables)
      → answer ≢ ok tt
      → t' ≡ t
      → UnpublishesOnNode node req t answer t'
  UnpublishesOnNode-refused node req t (ok u) t' refused same = absurd (refused refl)
  UnpublishesOnNode-refused node req t (err code) t' refused same = same

  unmount_if_mounted-db :
      (req : NodeUnpublishRequest) (vol : Volume) (r : Result Err Bool) (w : World D F)
      → (unmount_if_mounted host devices req vol r w).1.db ≡ w.db
  unfolding unmount_if_mounted
  unmount_if_mounted-db req vol (ok not_mount) w = ground arith
  unmount_if_mounted-db req vol (err e) w = ground arith

  -- What follows the query and the test of the mount point, with some step in place of the unmount.
  abbrev last_steps :
      Text
      → NodeUnpublishRequest
      → (World D F → Answer (Unit {0}) × World D F)
      → World D F
      → Answer (Unit {0}) × World D F
  last_steps node req unmounting = call (do
    done ← try unmounting (give err)
    check (on_os (host.os.remove_all req.target_path)) (give (λ e. err internal))
    check (on_db (host.db.delete_node_infos req.volume_id node req.target_path))
        (give (λ e. err internal))
    return (ok tt))

  last_steps-UnpublishesOnNode :
      (node : Text) (req : NodeUnpublishRequest)
      (unmounting : World D F → Answer (Unit {0}) × World D F)
      → ((w : World D F) → (unmounting w).1.db ≡ w.db)
      → (w : World D F)
      → let (answer, w') = last_steps node req unmounting w in
        UnpublishesOnNode node req (tables w.db) answer (tables w'.db)
  last_steps-UnpublishesOnNode node req unmounting keeps w =
      let refuse =
        UnpublishesOnNode-refused node req (tables w.db) (last_steps node req unmounting w).0
          (tables (last_steps node req unmounting w).1.db) in
      let v = (unmounting w).1 in
      let kept = keeps w in
      let deleted = laws.delete_node_infos_lem req.volume_id node req.target_path v.db in
      elim (Result-cases (unmounting w).0) [
        | inr (code, refused) ↦ refuse (ground arith) (ground arith)
        | inl (u, done) ↦ elim (Option-cases (host.os.remove_all req.target_path v.os).0) [
          | inr (e, stuck) ↦ refuse (ground arith) (ground arith)
          | inl clear ↦
              elim (Option-cases
                (host.db.delete_node_infos req.volume_id node req.target_path v.db).0) [
                  | inr (e, broken) ↦ refuse (ground arith) (ground arith)
                  | inl gone ↦ ground arith
                ]
        ]
      ]

  -- A request to unpublish a volume on a node: if it is accepted, the rows of the volume on the
  -- node at the path are gone and the tables are otherwise as before; if it is refused, no table
  -- has changed.
  pub node_unpublish_volume-UnpublishesOnNode :
      (node : Text) (req : NodeUnpublishRequest) (w : World D F)
      → let (answer, w') = node_unpublish_volume host devices node req w in
        UnpublishesOnNode node req (tables w.db) answer (tables w'.db)
  unfolding node_unpublish_volume get_volume delete_node_publish_volume_info
  node_unpublish_volume-UnpublishesOnNode node req w =
      let refuse =
        UnpublishesOnNode-refused node req (tables w.db)
          (node_unpublish_volume host devices node req w).0
          (tables (node_unpublish_volume host devices node req w).1.db) in
      let same = (laws.first_by_id req.volume_id w.db).1 in
      let read = (host.db.first_volume_by_id req.volume_id w.db).1 in
      let (point, looked) = host.os.is_not_mount_point req.target_path w.os in
      elim (Bool-cases (is_empty req.volume_id || is_empty req.target_path)) [
        | inl unnamed ↦ refuse (ground arith) (ground arith)
        | inr named ↦ elim (Result-cases (host.db.first_volume_by_id req.volume_id w.db).0) [
          | inr (e, missing) ↦ refuse (ground arith) (ground arith)
          | inl (vol, found) ↦
              let asked : World D F = record { db = read; os = looked } in
              let reached : node_unpublish_volume host devices node req w
                  ≡ last_steps node req (unmount_if_mounted host devices req vol point) asked =
                ground arith in
              rw (reached, ← same)
                (last_steps-UnpublishesOnNode node req
                  (unmount_if_mounted host devices req vol point)
                  (unmount_if_mounted-db req vol point) asked)
        ]
      ]
