-- ===== src/Controller/Publishing/Table.antt =====
-- What publishing and unpublishing leave in the table of the controller's infos.
use mathlib.Core.Bool.{Bool-discrete}
use csi_sharedhostpath.Base.{
  Bool-cases, Option-cases, decided_iff, Option, none, some, List, [], ◌∷◌, ◌++◌, ◌≡◌, ◌≢◌, refl,
  ◌∙◌, ◌⊎◌, inl, inr, arith, Text, ◌==◌, text_eq, bool_eq,
}
use csi_sharedhostpath.Base.Int.{pos}
use csi_sharedhostpath.Base.Run.{Result, ok, err}
use csi_sharedhostpath.Controller.Requests.{Code, internal, PublishRequest}
use csi_sharedhostpath.Controller.Publishing.{
  Answer, controller_publish_volume, add_info, publish_found,
}
use csi_sharedhostpath.Host.Db.{Err, record_not_found, not_exist, failed}
use csi_sharedhostpath.Host.Db.Laws.{
  DbLaws, Answers, Tables, first, has_id, seen_since, is_controller_info,
}
use csi_sharedhostpath.Host.Rows.{ControllerPublishVolumeInfo}
use csi_sharedhostpath.Host.World.{World, Host}
use csi_sharedhostpath.Volumes.Infos.{
  get_node_info, min_last_seen, get_controller_publish_volume_info,
  create_controller_publish_volume_info,
}
use csi_sharedhostpath.Volumes.Store.{get_volume}

abbrev pub Infos : Type 0
Infos = List ControllerPublishVolumeInfo

-- The info of a volume on a node.
abbrev pub info_of : Text → Text → Tables → Option ControllerPublishVolumeInfo
info_of volid node t = first (is_controller_info volid node) t.controller_infos

-- The info that a request asks for.
abbrev pub asked_info : PublishRequest → ControllerPublishVolumeInfo
asked_info req = record { vol_id = req.volume_id; node_id = req.node_id; read_only = req.readonly }

-- The tables with one more info.
abbrev pub add_controller_info : PublishRequest → Tables → Tables
add_controller_info req t = record t {
  controller_infos = t.controller_infos ++ (asked_info req ∷ []);
}

-- A request that was accepted left the tables alone where the info was there with the same mode,
-- and has added the info where there was none; a request that was refused changed nothing.
abbrev pub Publishes : PublishRequest → Tables → Answer (Unit {0}) → Tables → Type 0
Publishes req t (ok _) t' =
    ((i : ControllerPublishVolumeInfo) × (info_of req.volume_id req.node_id t ≡ some i)
      × (i.read_only ≡ req.readonly)
      × (t' ≡ t))
    ⊎ ((info_of req.volume_id req.node_id t ≡ none) × (t' ≡ add_controller_info req t))
Publishes req t (err code) t' = t' ≡ t

-- The two ends of an attempt to add an info.
abbrev Adds : PublishRequest → Tables → Answer (Unit {0}) → Tables → Type 0
Adds req t answer t' =
    ((answer ≡ ok tt) × (t' ≡ add_controller_info req t))
    ⊎ ((code : Code) × (answer ≡ err code) × (t' ≡ t))

Publishes-of :
    (req : PublishRequest) (t : Tables)
    → info_of req.volume_id req.node_id t ≡ none
    → (answer : Answer (Unit {0})) (t' : Tables) → Adds req t answer t'
    → Publishes req t answer t'
Publishes-of req t absent (ok _) t' (inl (e, added)) = inr (absent, added)
Publishes-of req t absent (ok _) t' (inr (code, e, same)) = cc
Publishes-of req t absent (err code) t' (inl (e, added)) = cc
Publishes-of req t absent (err code) t' (inr (c, e, same)) = same

Publishes-refused :
    (req : PublishRequest) (t : Tables) (answer : Answer (Unit {0})) (t' : Tables)
    → answer ≢ ok tt
    → t' ≡ t
    → Publishes req t answer t'
Publishes-refused req t (ok _) t' refused kept = absurd (refused refl)
Publishes-refused req t (err code) t' refused kept = kept

module _ {D F : Type 0} (host : Host D F) (laws : DbLaws host.db) where
  open laws use {tables}

  add_info-Adds :
      (req : PublishRequest) (w : World D F)
      → Adds req (tables w.db) (add_info host req w).0 (tables (add_info host req w).1.db)
  unfolding add_info create_controller_publish_volume_info
  add_info-Adds req w =
      let i : ControllerPublishVolumeInfo = record {
        vol_id = req.volume_id;
        node_id = req.node_id;
        read_only = req.readonly;
      } in
      let created = laws.create_controller_info_lem i w.db in
      elim (Option-cases (host.db.create_controller_info i w.db).0) [
        | inl done ↦ inl (ground arith, ground arith)
        | inr (e, broken) ↦ inr (internal, ground arith, ground arith)
      ]

  publish_found-Publishes :
      (req : PublishRequest) (r : Result Err ControllerPublishVolumeInfo) (w : World D F)
      → Answers r (info_of req.volume_id req.node_id (tables w.db))
      → let (answer, w') = publish_found host req r w in
        Publishes req (tables w.db) answer (tables w'.db)
  unfolding publish_found
  publish_found-Publishes req (ok i) w a = elim (Bool-cases (i.read_only == req.readonly)) [
    | inl same ↦ rw same (inl (i, a, (decided_iff Bool-discrete _ _).0 same, refl))
    | inr other ↦ rw other refl
  ]
  publish_found-Publishes req (err record_not_found) w a =
      Publishes-of req (tables w.db) a _ _ (add_info-Adds req w)
  publish_found-Publishes req (err (not_exist text)) w a = refl
  publish_found-Publishes req (err (failed text)) w a = refl

  -- The state in front of the query for the info.
  before_query : PublishRequest → World D F → World D F
  unfolding get_volume get_node_info
  before_query req w =
      (get_node_info host req.node_id (pos 30_000) (get_volume host req.volume_id w).1).1

  before_query-tables :
      (req : PublishRequest) (w : World D F) → tables (before_query req w).db ≡ tables w.db
  unfolding before_query
  before_query-tables req w =
      let read = (host.db.first_volume_by_id req.volume_id w.db).1 in
      let now = (host.os.now w.os).0 in
      ground (
        arith,
        laws.first_by_id req.volume_id w.db,
        laws.first_node_lem req.node_id (min_last_seen now (pos 30_000)) read,
      )

  publish_reaches :
      (req : PublishRequest) (w : World D F)
      → let result = controller_publish_volume host req w in
        let query =
          get_controller_publish_volume_info host req.volume_id req.node_id (before_query req w) in
        ((result.0 ≢ ok tt) × (tables result.1.db ≡ tables w.db))
        ⊎ (result ≡ publish_found host req query.0 query.1)
  unfolding controller_publish_volume before_query
  publish_reaches req w =
      let read = (host.db.first_volume_by_id req.volume_id w.db).1 in
      let now = (host.os.now w.os).0 in
      ground (
        arith,
        laws.first_by_id req.volume_id w.db,
        laws.first_node_lem req.node_id (min_last_seen now (pos 30_000)) read,
      )

  query_found :
      (req : PublishRequest) (w : World D F)
      → let query =
          get_controller_publish_volume_info host req.volume_id req.node_id (before_query req w) in
        Answers query.0 (info_of req.volume_id req.node_id (tables query.1.db))
        × (tables query.1.db ≡ tables w.db)
  unfolding get_controller_publish_volume_info
  query_found req w =
      let d = (before_query req w).db in
      let asked = laws.first_controller_info_lem req.volume_id req.node_id d in
      (rw asked.1 asked.0, asked.1 ∙ before_query-tables req w)

  -- A request to publish a volume to a node: if it is accepted, the info was there with the same
  -- mode and no table has changed, or there was none and it was added; if it is refused, no table
  -- has changed.
  pub controller_publish_volume-Publishes :
      (req : PublishRequest) (w : World D F)
      → let (answer, w') = controller_publish_volume host req w in
        Publishes req (tables w.db) answer (tables w'.db)
  controller_publish_volume-Publishes req w =
      let query =
        get_controller_publish_volume_info host req.volume_id req.node_id (before_query req w) in
      let (answers, same) = query_found req w in
      elim (publish_reaches req w) [
        | inl (refused, kept) ↦ Publishes-refused req _ _ _ refused kept
        | inr reached ↦ rw (reached, ← same) (publish_found-Publishes req query.0 query.1 answers)
      ]

  -- A request to publish a volume is accepted only for a volume that is in a row, and a node that
  -- was seen in the last 30 seconds by the clock of the controller.
  controller_publish_volume_accepts :
      (req : PublishRequest) (w : World D F)
      → (controller_publish_volume host req w).0 ≡ ok tt
      → let since = min_last_seen (host.os.now w.os).0 (pos 30_000) in
        (first (has_id req.volume_id) (tables w.db).volumes ≢ none)
        × (first (seen_since req.node_id since) (tables w.db).nodes ≢ none)
  unfolding controller_publish_volume get_volume get_node_info
  controller_publish_volume_accepts req w accepted =
      let read = (host.db.first_volume_by_id req.volume_id w.db).1 in
      let now = (host.os.now w.os).0 in
      ground (
        arith,
        laws.first_by_id req.volume_id w.db,
        laws.first_node_lem req.node_id (min_last_seen now (pos 30_000)) read,
      )
