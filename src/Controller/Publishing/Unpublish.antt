-- ===== src/Controller/Publishing/Unpublish.antt =====
-- Unpublishing, and publishing and unpublishing together.
use csi_sharedhostpath.Base.{
  not, none, ◌≡◌, ◌≢◌, refl, ◌∙◌, ap, ◌⊎◌, inl, inr, arith, Text, text_eq,
}
use csi_sharedhostpath.Base.Run.{Result, ok, err}
use csi_sharedhostpath.Controller.Requests.{PublishRequest, UnpublishRequest}
use csi_sharedhostpath.Controller.Publishing.{
  Answer, controller_publish_volume, controller_unpublish_volume, unpublish_found,
}
use csi_sharedhostpath.Controller.Publishing.Table.{
  Infos, info_of, asked_info, Publishes, controller_publish_volume-Publishes, Publishes,
}
use csi_sharedhostpath.Host.Db.{Err, record_not_found, not_exist, failed}
use csi_sharedhostpath.Host.Db.Laws.{DbLaws, Answers, Tables, keep, is_controller_info}
use csi_sharedhostpath.Host.Db.Matching.{keep-first-none, keep-snoc}
use csi_sharedhostpath.Host.Rows.{ControllerPublishVolumeInfo}
use csi_sharedhostpath.Host.World.{World, Host}
use csi_sharedhostpath.Volumes.Infos.{
  get_controller_publish_volume_info, delete_controller_publish_volume_info,
}
use csi_sharedhostpath.Volumes.Store.{get_volume}

-- The infos of other volumes and nodes.
abbrev pub others : Text → Text → Infos → Infos
others volid node = keep (λ i. not (is_controller_info volid node i))

-- The tables without the info of a volume on a node.
abbrev pub without_info : UnpublishRequest → Tables → Tables
without_info req t = record t {
  controller_infos = others req.volume_id req.node_id t.controller_infos;
}

-- An accepted request has removed the info; a refused one has changed nothing.
abbrev pub Unpublishes : UnpublishRequest → Tables → Answer (Unit {0}) → Tables → Type 0
Unpublishes req t (ok _) t' = t' ≡ without_info req t
Unpublishes req t (err code) t' = t' ≡ t

Unpublishes-refused :
    (req : UnpublishRequest) (t : Tables) (answer : Answer (Unit {0})) (t' : Tables)
    → answer ≢ ok tt
    → t' ≡ t
    → Unpublishes req t answer t'
Unpublishes-refused req t (ok _) t' refused kept = absurd (refused refl)
Unpublishes-refused req t (err code) t' refused kept = kept

-- The request that takes a publication back.
abbrev pub out_of : PublishRequest → UnpublishRequest
out_of req = record { volume_id = req.volume_id; node_id = req.node_id }

pub Unpublishes-Publishes :
    (req : PublishRequest) (t u v : Tables)
    → info_of req.volume_id req.node_id t ≡ none
    → Publishes req t (ok tt) u
    → Unpublishes (out_of req) u (ok tt) v
    → v ≡ t
Unpublishes-Publishes req t u v absent (inl (i, present, mode, same)) less = cc
Unpublishes-Publishes req t u v absent (inr (none_there, grown)) less =
    less
    ∙ ap (without_info (out_of req)) grown
    ∙ rw
        (keep-snoc (is_controller_info req.volume_id req.node_id) t.controller_infos
          (asked_info req) (ground arith) absent)
        refl

module _ {D F : Type 0} (host : Host D F) (laws : DbLaws host.db) where
  open laws use {tables}

  unpublish_found-Unpublishes :
      (req : UnpublishRequest) (r : Result Err ControllerPublishVolumeInfo) (w : World D F)
      → Answers r (info_of req.volume_id req.node_id (tables w.db))
      → let (answer, w') = unpublish_found host req r w in
        Unpublishes req (tables w.db) answer (tables w'.db)
  unfolding unpublish_found delete_controller_publish_volume_info
  unpublish_found-Unpublishes req (ok i) w a =
      ground (arith, laws.delete_controller_infos_lem req.volume_id req.node_id w.db)
  unpublish_found-Unpublishes req (err record_not_found) w a =
      rw
        (keep-first-none (is_controller_info req.volume_id req.node_id)
          (tables w.db).controller_infos a)
        refl
  unpublish_found-Unpublishes req (err (not_exist text)) w a = refl
  unpublish_found-Unpublishes req (err (failed text)) w a = refl

  -- The state in front of the query for the info.
  after_read : UnpublishRequest → World D F → World D F
  after_read req w = record w { db = (host.db.first_volume_by_id req.volume_id w.db).1 }

  unpublish_reaches :
      (req : UnpublishRequest) (w : World D F)
      → let result = controller_unpublish_volume host req w in
        let query =
          get_controller_publish_volume_info host req.volume_id req.node_id (after_read req w) in
        ((result.0 ≢ ok tt) × (tables result.1.db ≡ tables w.db))
        ⊎ (result ≡ unpublish_found host req query.0 query.1)
  unfolding controller_unpublish_volume get_volume after_read
  unpublish_reaches req w = ground (arith, laws.first_by_id req.volume_id w.db)

  query_found :
      (req : UnpublishRequest) (w : World D F)
      → let query =
          get_controller_publish_volume_info host req.volume_id req.node_id (after_read req w) in
        Answers query.0 (info_of req.volume_id req.node_id (tables query.1.db))
        × (tables query.1.db ≡ tables w.db)
  unfolding get_controller_publish_volume_info after_read
  query_found req w =
      let d = (after_read req w).db in
      let asked = laws.first_controller_info_lem req.volume_id req.node_id d in
      (rw asked.1 asked.0, asked.1 ∙ (laws.first_by_id req.volume_id w.db).1)

  -- A request to unpublish a volume from a node: if it is accepted, the infos of the volume on
  -- the node are gone and the tables are otherwise as before; if it is refused, no table has
  -- changed.
  pub controller_unpublish_volume-Unpublishes :
      (req : UnpublishRequest) (w : World D F)
      → let (answer, w') = controller_unpublish_volume host req w in
        Unpublishes req (tables w.db) answer (tables w'.db)
  controller_unpublish_volume-Unpublishes req w =
      let query =
        get_controller_publish_volume_info host req.volume_id req.node_id (after_read req w) in
      let (answers, same) = query_found req w in
      elim (unpublish_reaches req w) [
        | inl (refused, kept) ↦ Unpublishes-refused req _ _ _ refused kept
        | inr reached ↦
            rw (reached, ← same) (unpublish_found-Unpublishes req query.0 query.1 answers)
      ]

  -- A volume that is published where it was not, and then unpublished, leaves the tables as they
  -- were, if both requests are accepted.
  unpublish-publish :
      (req : PublishRequest) (w : World D F)
      → info_of req.volume_id req.node_id (tables w.db) ≡ none
      → (controller_publish_volume host req w).0 ≡ ok tt
      → (controller_unpublish_volume host (out_of req) (controller_publish_volume host req w).1).0
        ≡ ok tt
      → tables
          (controller_unpublish_volume host
            (out_of req)
            (controller_publish_volume host req w).1).1.db
        ≡ tables w.db
  unpublish-publish req w absent p u =
      let published = (controller_publish_volume host req w).1 in
      Unpublishes-Publishes req (tables w.db) (tables published.db) _ absent
        (rw p at (controller_publish_volume-Publishes host laws req w))
        (rw u at (controller_unpublish_volume-Unpublishes (out_of req) published))
