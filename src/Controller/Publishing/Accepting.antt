-- ===== src/Controller/Publishing/Accepting.antt =====
-- When a request to publish a volume is accepted on a host where nothing fails.
use csi_sharedhostpath.Base.{
  true, false, none, some, [], ◌≡◌, ◌≢◌, ◌↔◌, ◌⊎◌, ◌∙◌, inl, inr, arith, bool_eq,
}
use csi_sharedhostpath.Base.Int.{ℤ, pos, ◌-ℤ◌}
use csi_sharedhostpath.Base.Run.{Result, ok, err, Result-cases}
use csi_sharedhostpath.Base.Strings.{is_empty, is_empty-false}
use csi_sharedhostpath.Controller.Publishing.{
  controller_publish_volume, publish_found, controller_unpublish_volume, unpublish_found,
}
use csi_sharedhostpath.Controller.Publishing.Table.{info_of, asked_info}
use csi_sharedhostpath.Controller.Requests.{PublishRequest, UnpublishRequest}
use csi_sharedhostpath.Host.Db.{Err, record_not_found, not_exist, failed}
use csi_sharedhostpath.Host.Db.Laws.{DbLaws, Answers, first, has_id, seen_since}
use csi_sharedhostpath.Host.Db.Matching.{answered_row, answered_none}
use csi_sharedhostpath.Host.Rows.{Volume, NodeInfo, ControllerPublishVolumeInfo}
use csi_sharedhostpath.Host.Working.{Works}
use csi_sharedhostpath.Host.World.{World, Host}
use csi_sharedhostpath.Volumes.Infos.{
  min_last_seen, min_last_seen_lem, get_node_info, get_controller_publish_volume_info,
  create_controller_publish_volume_info, delete_controller_publish_volume_info,
}
use csi_sharedhostpath.Volumes.Store.{get_volume}

module _ {D F : Type 0} (host : Host D F) (laws : DbLaws host.db) (works : Works host laws)
    (req : PublishRequest) (w : World D F) where
  open laws use {tables}

  -- 30 seconds, in nanoseconds, before the time of the clock.
  abbrev since : ℤ
  since = (host.os.now w.os).0 -ℤ pos 30_000_000_000

  -- The states of the database after the queries for the volume and for the node.
  abbrev d1 : D
  d1 = (host.db.first_volume_by_id req.volume_id w.db).1

  abbrev d2 : D
  d2 = (host.db.first_node_since req.node_id since d1).1

  -- The request is complete, and there are the volume and, seen in time, the node; the info is not
  -- there, or has the mode.
  pub record IsPublishable : Type 0 where
    pub volume : Volume
    pub node : NodeInfo
    pub volume_named : req.volume_id ≢ []
    pub node_named : req.node_id ≢ []
    pub capable : req.has_capability ≡ true
    pub there : first (has_id req.volume_id) (tables w.db).volumes ≡ some volume
    pub seen : first (seen_since req.node_id since) (tables w.db).nodes ≡ some node
    pub free :
        (info_of req.volume_id req.node_id (tables w.db) ≡ none)
        ⊎ ((i : ControllerPublishVolumeInfo) × (info_of req.volume_id req.node_id (tables w.db)
              ≡ some i)
            × (i.read_only ≡ req.readonly))

  abbrev node_query : Result Err NodeInfo × D
  node_query = host.db.first_node_since req.node_id since d1

  abbrev info_query : Result Err ControllerPublishVolumeInfo × D
  info_query = host.db.first_controller_info req.volume_id req.node_id d2

  same1 : tables d1 ≡ tables w.db
  same1 = (laws.first_by_id req.volume_id w.db).1

  same2 : tables d2 ≡ tables w.db
  same2 = (laws.first_node_lem req.node_id since d1).1 ∙ same1

  info_query-Answers : Answers info_query.0 (info_of req.volume_id req.node_id (tables w.db))
  info_query-Answers = rw same2 at (laws.first_controller_info_lem req.volume_id req.node_id d2).0

  bound : min_last_seen (host.os.now w.os).0 (pos 30_000) ≡ since
  bound = min_last_seen_lem (host.os.now w.os).0

  IsPublishable-accepted : IsPublishable → (controller_publish_volume host req w).0 ≡ ok tt
  unfolding controller_publish_volume get_volume get_node_info publish_found
      get_controller_publish_volume_info create_controller_publish_volume_info
  IsPublishable-accepted p =
      let there : (host.db.first_volume_by_id req.volume_id w.db).0 ≡ ok p.volume =
        answered_row _ p.volume (rw p.there at (laws.first_by_id req.volume_id w.db).0)
          (works.answers_id req.volume_id w.db) in
      let seen : node_query.0 ≡ ok p.node =
        answered_row _ p.node (rw (same1, p.seen) at (laws.first_node_lem req.node_id since d1).0)
          (works.answers_node req.node_id since d1) in
      let added = works.adds_info (asked_info req) info_query.1 in
      let volume_named : is_empty req.volume_id ≡ false =
        is_empty-false req.volume_id p.volume_named in
      let node_named : is_empty req.node_id ≡ false = is_empty-false req.node_id p.node_named in
      let capable = p.capable in
      elim p.free [
        | inl absent ↦
            let missing : info_query.0 ≡ err record_not_found =
              answered_none _ (rw absent at info_query-Answers)
                (works.answers_info req.volume_id req.node_id d2) in
            ground (arith, bound)
        | inr (i, present, mode) ↦
            let found : info_query.0 ≡ ok i =
              answered_row _ i (rw present at info_query-Answers)
                (works.answers_info req.volume_id req.node_id d2) in
            ground (arith, bound)
      ]

  module _ (accepted : (controller_publish_volume host req w).0 ≡ ok tt) where
    -- The guards, the rows that were found, and what was done with the info.
    accepted_guards :
        (is_empty req.volume_id ≡ false)
        × (is_empty req.node_id ≡ false)
        × (req.has_capability ≡ true)
    unfolding controller_publish_volume
    accepted_guards = (ground arith, ground arith, ground arith)

    accepted_free :
        (vol : Volume) (node : NodeInfo)
        → (host.db.first_volume_by_id req.volume_id w.db).0 ≡ ok vol
        → node_query.0 ≡ ok node
        → (info_of req.volume_id req.node_id (tables w.db) ≡ none)
          ⊎ ((i : ControllerPublishVolumeInfo) × (info_of req.volume_id req.node_id (tables w.db)
                ≡ some i)
              × (i.read_only ≡ req.readonly))
    unfolding controller_publish_volume get_volume get_node_info publish_found
        get_controller_publish_volume_info
    accepted_free vol node there seen = elim (Result-cases info_query.0) [
      | inl (i, found) ↦ inr (i, rw found at info_query-Answers, ground (arith, bound))
      | inr (record_not_found, missing) ↦ inl (rw missing at info_query-Answers)
      | inr (not_exist text, broken) ↦ absurd (ground (arith, bound))
      | inr (failed text, broken) ↦ absurd (ground (arith, bound))
    ]

    accepted-IsPublishable : IsPublishable
    unfolding controller_publish_volume get_volume get_node_info
    accepted-IsPublishable =
        let (volume_named, node_named, capable) = accepted_guards in
        elim (Result-cases (host.db.first_volume_by_id req.volume_id w.db).0) [
          | inr (e, missing) ↦ absurd (ground arith)
          | inl (vol, there) ↦ elim (Result-cases node_query.0) [
            | inr (e, unseen) ↦ absurd (ground (arith, bound))
            | inl (node, seen) ↦ record {
              volume = vol;
              node = node;
              volume_named = ground arith;
              node_named = ground arith;
              capable = capable;
              there = rw there at (laws.first_by_id req.volume_id w.db).0;
              seen = rw (seen, same1) at (laws.first_node_lem req.node_id since d1).0;
              free = accepted_free vol node there seen;
            }
          ]
        ]

  -- On a host where nothing fails, a request to publish a volume to a node is accepted exactly if
  -- it names both and has a capability, the volume is in a row, the node was seen no earlier than
  -- 30 * 10^9 nanoseconds before the time of the clock of the controller, and the info is not
  -- there or has the mode of the request.
  pub controller_publish_volume_iff :
      ((controller_publish_volume host req w).0 ≡ ok tt) ↔ IsPublishable
  controller_publish_volume_iff = (accepted-IsPublishable, IsPublishable-accepted)

module _ {D F : Type 0} (host : Host D F) (laws : DbLaws host.db) (works : Works host laws) where
  open laws use {tables}

  -- A request to unpublish a volume that is in a row is accepted.
  pub controller_unpublish_volume_works :
      (req : UnpublishRequest) (vol : Volume) (w : World D F)
      → req.volume_id ≢ []
      → first (has_id req.volume_id) (tables w.db).volumes ≡ some vol
      → (controller_unpublish_volume host req w).0 ≡ ok tt
  unfolding controller_unpublish_volume get_volume unpublish_found
      get_controller_publish_volume_info delete_controller_publish_volume_info
  controller_unpublish_volume_works req vol w named there =
      let found : (host.db.first_volume_by_id req.volume_id w.db).0 ≡ ok vol =
        answered_row _ vol (rw there at (laws.first_by_id req.volume_id w.db).0)
          (works.answers_id req.volume_id w.db) in
      let d = (host.db.first_volume_by_id req.volume_id w.db).1 in
      let asked = host.db.first_controller_info req.volume_id req.node_id d in
      let answered = works.answers_info req.volume_id req.node_id d in
      let deleted = works.deletes_infos req.volume_id req.node_id asked.1 in
      let id_there = is_empty-false req.volume_id named in
      elim (Result-cases asked.0) [
        | inl (i, present) ↦ ground arith
        | inr (record_not_found, missing) ↦ ground arith
        | inr (not_exist text, broken) ↦ absurd (rw broken at answered)
        | inr (failed text, broken) ↦ absurd (rw broken at answered)
      ]
