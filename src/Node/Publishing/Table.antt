-- ===== src/Node/Publishing/Table.antt =====
-- What a request to publish a volume on a node leaves in the table.
use csi_sharedhostpath.Base.{
  Bool, true, false, not, ◌&&◌, ◌||◌, some, Option-cases, Bool-cases, [], ◌∷◌, ◌++◌, ◌≡◌, ◌≢◌, refl,
  ap, ◌∙◌, ◌⊎◌, inl, inr, arith, Text, text_eq,
}
use csi_sharedhostpath.Base.Run.{ok, err, Result-cases, ◌>>=◌, act, try, give, call}
use csi_sharedhostpath.Base.Strings.{is_empty}
use csi_sharedhostpath.Controller.Requests.{Code, internal, VolumeCapability, wants_block}
use csi_sharedhostpath.Host.Db.Laws.{DbLaws, Tables, first, has_id}
use csi_sharedhostpath.Host.Rows.{Volume, NodePublishVolumeInfo}
use csi_sharedhostpath.Host.World.{World, Host}
use csi_sharedhostpath.Node.{Devices, NodePublishRequest}
use csi_sharedhostpath.Node.Publishing.{
  Answer, mount_volume, undo_mount, record_mount, node_publish_volume,
}
use csi_sharedhostpath.Volumes.Infos.{create_node_publish_volume_info}
use csi_sharedhostpath.Volumes.Store.{get_volume}
use csi_sharedhostpath.Node.Publishing.Mounting.{
  in_turn_ok, in_turn_err, mount_volume-db, mount_volume_ok,
}

-- The row that a request asks for.
abbrev pub asked_node_info : Text → NodePublishRequest → Bool → NodePublishVolumeInfo
asked_node_info node req raw = record {
  vol_id = req.volume_id;
  node_id = node;
  mount_path = req.target_path;
  raw_mount = raw;
  read_only = req.readonly;
}

abbrev pub add_node_info : Text → NodePublishRequest → Bool → Tables → Tables
add_node_info node req raw t = record t {
  node_infos = t.node_infos ++ (asked_node_info node req raw ∷ []);
}

-- An accepted request was for a volume that is in a row and is a block volume if a block device was
-- asked for, and has added a row, raw exactly if a block device was asked for; a refused one has
-- changed no table.
abbrev pub PublishesOnNode :
    Text → NodePublishRequest → Tables → Answer (Unit {0}) → Tables → Type 0
PublishesOnNode node req t (ok _) t' =
    (vol : Volume) × (cap : VolumeCapability) × (first (has_id req.volume_id) t.volumes ≡ some vol)
    × (req.volume_capability ≡ some cap)
    × ((wants_block cap && not vol.is_block) ≡ false)
    × (t' ≡ add_node_info node req (wants_block cap) t)
PublishesOnNode node req t (err code) t' = t' ≡ t

module _ {D F : Type 0} (host : Host D F) (devices : Devices F) where
  module _ (laws : DbLaws host.db) where
    open laws use {tables}

    -- The two ends of the last part.
    record_mount_ends :
        (node : Text) (req : NodePublishRequest) (raw : Bool) (w : World D F)
        → let (answer, w') = record_mount host devices node req raw w in
          ((answer ≡ ok tt) × (tables w'.db ≡ add_node_info node req raw (tables w.db)))
          ⊎ ((answer ≡ err internal) × (tables w'.db ≡ tables w.db))
    unfolding record_mount create_node_publish_volume_info undo_mount
    record_mount_ends node req raw w =
        let i : NodePublishVolumeInfo = record {
          vol_id = req.volume_id;
          node_id = node;
          mount_path = req.target_path;
          raw_mount = raw;
          read_only = req.readonly;
        } in
        let created = laws.create_node_info_lem i w.db in
        elim (Option-cases (host.os.chmod req.target_path w.os).0) [
          | inr (e, broken) ↦ inr (ground arith, ground arith)
          | inl changed ↦ elim (Option-cases (host.db.create_node_info i w.db).0) [
            | inl done ↦ inl (ground arith, ground arith)
            | inr (e, broken) ↦ inr (ground arith, ground arith)
          ]
        ]

    -- With the volume and the capability there, the rest of the request.
    published :
        (tp fp node : Text) (req : NodePublishRequest) (cap : VolumeCapability) (vol : Volume)
        (w : World D F)
        → let (mounted, w1) = mount_volume host devices tp fp req cap vol w in
          ((code : Code) × (mounted ≡ err code) × (tables w1.db ≡ tables w.db))
          ⊎ ((mounted ≡ ok (wants_block cap))
              × (wants_block cap ≡ true → vol.is_block ≡ true)
              × (tables w1.db ≡ tables w.db))
    published tp fp node req cap vol w =
        let kept = ap tables (mount_volume-db host devices tp fp req cap vol w) in
        elim (Result-cases (mount_volume host devices tp fp req cap vol w).0) [
          | inr (code, refused) ↦ inl (code, refused, kept)
          | inl (raw, done) ↦
              let (is_raw, block) = mount_volume_ok host devices tp fp req cap vol w raw done in
              inr (done ∙ ap ok is_raw, block, kept)
        ]

    -- The part of the request behind the query.
    abbrev mount_and_record :
        Text
        → Text
        → Text
        → NodePublishRequest
        → VolumeCapability
        → Volume
        → World D F
        → Answer (Unit {0}) × World D F
    mount_and_record tp fp node req cap vol = call (do
      raw ← try (mount_volume host devices tp fp req cap vol) (give err)
      act (record_mount host devices node req raw))

    mount_and_record_ends :
        (tp fp node : Text) (req : NodePublishRequest) (cap : VolumeCapability) (vol : Volume)
        (w : World D F)
        → let (answer, w') = mount_and_record tp fp node req cap vol w in
          ((answer ≡ ok tt)
            × (wants_block cap ≡ true → vol.is_block ≡ true)
            × (tables w'.db ≡ add_node_info node req (wants_block cap) (tables w.db)))
          ⊎ ((code : Code) × (answer ≡ err code) × (tables w'.db ≡ tables w.db))
    mount_and_record_ends tp fp node req cap vol w =
        let mounted = mount_volume host devices tp fp req cap vol w in
        elim (published tp fp node req cap vol w) [
          | inl (code, refused, kept) ↦
              let stops =
                in_turn_err (mount_volume host devices tp fp req cap vol)
                  (record_mount host devices node req) w code refused in
              inr (code, ap (λ p. p.0) stops, ap (λ p. tables p.1.db) stops ∙ kept)
          | inr (done, block, kept) ↦
              let goes_on =
                in_turn_ok (mount_volume host devices tp fp req cap vol)
                  (record_mount host devices node req) w (wants_block cap) done in
              let end : (mount_and_record tp fp node req cap vol w)
                  ≡ record_mount host devices node req (wants_block cap) mounted.1 =
                goes_on in
              elim (record_mount_ends node req (wants_block cap) mounted.1) [
                | inl (accepted, added) ↦ inl (
                  ap (λ p. p.0) end ∙ accepted,
                  block,
                  ap (λ p. tables p.1.db) end
                      ∙ added
                      ∙ ap (add_node_info node req (wants_block cap)) kept,
                )
                | inr (refused, same) ↦ inr (
                  internal,
                  ap (λ p. p.0) end ∙ refused,
                  ap (λ p. tables p.1.db) end ∙ same ∙ kept,
                )
              ]
        ]

    PublishesOnNode-refused :
        (node : Text) (req : NodePublishRequest) (t : Tables) (answer : Answer (Unit {0}))
        (t' : Tables)
        → answer ≢ ok tt
        → t' ≡ t
        → PublishesOnNode node req t answer t'
    PublishesOnNode-refused node req t (ok u) t' refused same = absurd (refused refl)
    PublishesOnNode-refused node req t (err code) t' refused same = same

    -- A request to publish a volume on a node: if it is accepted, the volume is in a row, and is
    -- a block volume if a block device was asked for, and one row of publication was added, raw
    -- exactly if a block device was asked for; if it is refused, no table has changed.
    pub node_publish_volume-PublishesOnNode :
        (tp fp node : Text) (req : NodePublishRequest) (w : World D F)
        → let (answer, w') = node_publish_volume host devices tp fp node req w in
          PublishesOnNode node req (tables w.db) answer (tables w'.db)
    unfolding node_publish_volume get_volume
    node_publish_volume-PublishesOnNode tp fp node req w =
        let refuse =
          PublishesOnNode-refused node req (tables w.db)
            (node_publish_volume host devices tp fp node req w).0
            (tables (node_publish_volume host devices tp fp node req w).1.db) in
        let (says, same) = laws.first_by_id req.volume_id w.db in
        let read : World D F = record w {
          db = (host.db.first_volume_by_id req.volume_id w.db).1;
        } in
        elim (Option-cases req.volume_capability) [
          | inl absent ↦ refuse (ground arith) (ground arith)
          | inr (cap, given) ↦
              elim (Bool-cases (is_empty req.volume_id || is_empty req.target_path)) [
                | inl unnamed ↦ refuse (ground arith) (ground arith)
                | inr named ↦
                    elim (Result-cases (host.db.first_volume_by_id req.volume_id w.db).0) [
                      | inr (e, missing) ↦ refuse (ground arith) (ground arith)
                      | inl (vol, found) ↦
                          let there : first (has_id req.volume_id) (tables w.db).volumes
                              ≡ some vol =
                            rw found at says in
                          let reached : node_publish_volume host devices tp fp node req w
                              ≡ mount_and_record tp fp node req cap vol read =
                            ground arith in
                          elim (mount_and_record_ends tp fp node req cap vol read) [
                            | inl (accepted, block, added) ↦
                                rw (reached, accepted)
                                  (
                                    vol,
                                    cap,
                                    there,
                                    given,
                                    ground arith,
                                    added ∙ ap (add_node_info node req (wants_block cap)) same,
                                  )
                            | inr (code, refused, kept) ↦ rw (reached, refused) (kept ∙ same)
                          ]
                    ]
              ]
        ]
