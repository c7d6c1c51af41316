-- ===== src/System/Lifecycle.antt =====
-- The life of a volume: it is created, published to a node, published on the node, and all is taken
-- back.
pub mod Working
use csi_sharedhostpath.Base.{
  true, refl, none, text_eq, ◌≡◌, sym, ap, ◌∙◌, subst, inl, inr, arith, Text,
}
use csi_sharedhostpath.Base.Run.{ok}
use csi_sharedhostpath.Controller.Provisioning.{create_volume, delete_volume}
use csi_sharedhostpath.Controller.Publishing.{
  controller_publish_volume, controller_unpublish_volume,
}
use csi_sharedhostpath.Controller.Publishing.Table.{
  info_of, Publishes, controller_publish_volume-Publishes,
}
use csi_sharedhostpath.Controller.Publishing.Unpublish.{
  Unpublishes, out_of, Unpublishes-Publishes, controller_unpublish_volume-Unpublishes,
}
use csi_sharedhostpath.Controller.Requests.{
  CreateVolumeRequest, CreateVolumeResponse, PublishRequest,
}
use csi_sharedhostpath.Host.Db.Laws.{DbLaws, Tables, first, has_id}
use csi_sharedhostpath.Host.Db.Matching.{first-snoc, keep-snoc}
use csi_sharedhostpath.Host.Rows.{Volume}
use csi_sharedhostpath.Host.World.{World, Host}
use csi_sharedhostpath.Node.{Devices, NodePublishRequest}
use csi_sharedhostpath.Node.Publishing.{node_publish_volume, node_unpublish_volume}
use csi_sharedhostpath.Node.Publishing.Table.{PublishesOnNode, node_publish_volume-PublishesOnNode}
use csi_sharedhostpath.Node.Publishing.Unpublish.{
  UnpublishesOnNode, back_of, UnpublishesOnNode-PublishesOnNode,
  node_unpublish_volume-UnpublishesOnNode,
}
use csi_sharedhostpath.System.Creating.{create_volume_anew}
use csi_sharedhostpath.System.Effects.{Deletes, delete_volume-Deletes}
use csi_sharedhostpath.System.Lasting.Publications.{mount_of}
use csi_sharedhostpath.Volumes.Paths.{VolumeHelper}
use csi_sharedhostpath.Volumes.Store.Create.{add_volume}
use csi_sharedhostpath.Volumes.Store.Delete.{without_volume}

-- The tables have one more volume, under an identifier that no row had.
abbrev AddsAt : Text → Tables → Tables → Type 0
AddsAt volid t u =
    (v : Volume) × (v.vol_id ≡ volid)
    × (first (has_id volid) t.volumes ≡ none)
    × (u ≡ add_volume v t)

without-add_volume :
    (volid : Text) (v : Volume) (t : Tables)
    → has_id volid v ≡ true
    → first (has_id volid) t.volumes ≡ none
    → without_volume volid (add_volume v t) ≡ t
without-add_volume volid v t here fresh = rw (keep-snoc (has_id volid) t.volumes v here fresh) refl

Publishes-mount_of :
    (req : PublishRequest) (volid node path : Text) (t u : Tables)
    → Publishes req t (ok tt) u
    → mount_of volid node path u ≡ mount_of volid node path t
Publishes-mount_of req volid node path t u (inl (i, there, mode, same)) =
    ap (mount_of volid node path) same
Publishes-mount_of req volid node path t u (inr (absent, grown)) =
    ap (mount_of volid node path) grown

-- The publications and their ends, between the tables.
publications_undone :
    (there : PublishRequest) (on_node : NodePublishRequest) (t1 t2 t3 t4 t5 : Tables)
    → info_of there.volume_id there.node_id t1 ≡ none
    → mount_of on_node.volume_id there.node_id on_node.target_path t1 ≡ none
    → Publishes there t1 (ok tt) t2
    → PublishesOnNode there.node_id on_node t2 (ok tt) t3
    → UnpublishesOnNode there.node_id (back_of on_node) t3 (ok tt) t4
    → Unpublishes (out_of there) t4 (ok tt) t5
    → t5 ≡ t1
publications_undone there on_node t1 t2 t3 t4 t5 no_info no_mount p np nu u =
    let none_yet =
      Publishes-mount_of there on_node.volume_id there.node_id on_node.target_path t1 t2 p
      ∙ no_mount in
    let back : t4 ≡ t2 =
      UnpublishesOnNode-PublishesOnNode there.node_id on_node t2 t3 t4 none_yet np nu in
    Unpublishes-Publishes there t1 t2 t5 no_info p
      (subst (λ t. Unpublishes (out_of there) t (ok tt) t5) back u)

module _ {D F : Type 0} (host : Host D F) (laws : DbLaws host.db) where
  open laws use {tables}

  -- A deletion that has an effect undoes the addition.
  Deletes-AddsAt :
      (volid : Text) (t t1 t6 : Tables)
      → AddsAt volid t t1
      → Deletes host laws volid t1 t6
      → first (has_id volid) t6.volumes ≡ none
      → t6 ≡ t
  Deletes-AddsAt volid t t1 t6 (v, named, fresh, grown) deleted gone =
      let here : has_id volid v ≡ true = ground arith in
      elim deleted [
        | inl same ↦
            let there = first-snoc (has_id volid) t.volumes v here fresh in
            let absent : first (has_id volid) (add_volume v t).volumes ≡ none =
              ap (λ (x : Tables). first (has_id volid) x.volumes) (sym grown ∙ sym same) ∙ gone in
            cc
        | inr less ↦
            less ∙ ap (without_volume volid) grown ∙ without-add_volume volid v t here fresh
      ]

  create_volume-AddsAt :
      (vh : VolumeHelper) (tp : Text) (req : CreateVolumeRequest) (answer : CreateVolumeResponse)
      (w : World D F)
      → (create_volume host vh tp req w).0 ≡ ok answer
      → first (has_id answer.volume_id) (tables w.db).volumes ≡ none
      → AddsAt answer.volume_id (tables w.db) (tables (create_volume host vh tp req w).1.db)
  create_volume-AddsAt vh tp req answer w accepted fresh =
      let (c, checked, v, asked, named, grown) =
        create_volume_anew host laws vh tp req answer w accepted fresh in
      (v, named, fresh, grown)

  -- Where a volume is created, published to a node, published on the node, unpublished there,
  -- unpublished from the node and deleted, the tables are at the end as they were at the start.
  -- All requests but the deletion are accepted, the row is gone after it, and at the start no row
  -- had the identifier of the answer and there was no publication of the kinds that the requests
  -- make.
  pub whole_life-tables :
      (devices : Devices F) (vh : VolumeHelper) (tp fp : Text) (req : CreateVolumeRequest)
      (answer : CreateVolumeResponse) (there : PublishRequest) (on_node : NodePublishRequest)
      (w : World D F)
      → let (created, w1) = create_volume host vh tp req w in
        let (published, w2) = controller_publish_volume host there w1 in
        let (mounted, w3) = node_publish_volume host devices tp fp there.node_id on_node w2 in
        let (unmounted, w4) =
          node_unpublish_volume host devices there.node_id (back_of on_node) w3 in
        let (unpublished, w5) = controller_unpublish_volume host (out_of there) w4 in
        let w6 = (delete_volume host vh answer.volume_id w5).1 in
        first (has_id answer.volume_id) (tables w.db).volumes ≡ none
        → info_of there.volume_id there.node_id (tables w.db) ≡ none
        → mount_of on_node.volume_id there.node_id on_node.target_path (tables w.db) ≡ none
        → created ≡ ok answer
        → published ≡ ok tt
        → mounted ≡ ok tt
        → unmounted ≡ ok tt
        → unpublished ≡ ok tt
        → first (has_id answer.volume_id) (tables w6.db).volumes ≡ none
        → tables w6.db ≡ tables w.db
  whole_life-tables devices vh tp fp req answer there on_node w fresh no_info no_mount created
        published mounted unmounted unpublished gone =
      let w1 = (create_volume host vh tp req w).1 in
      let w2 = (controller_publish_volume host there w1).1 in
      let w3 = (node_publish_volume host devices tp fp there.node_id on_node w2).1 in
      let w4 = (node_unpublish_volume host devices there.node_id (back_of on_node) w3).1 in
      let w5 = (controller_unpublish_volume host (out_of there) w4).1 in
      let w6 = (delete_volume host vh answer.volume_id w5).1 in
      let (v, named, new_id, grown) = create_volume-AddsAt vh tp req answer w created fresh in
      let back : tables w5.db ≡ tables w1.db =
        publications_undone there on_node (tables w1.db) (tables w2.db) (tables w3.db)
          (tables w4.db) (tables w5.db) (ap (info_of there.volume_id there.node_id) grown ∙ no_info)
          (ap (mount_of on_node.volume_id there.node_id on_node.target_path) grown ∙ no_mount)
          (rw published at (controller_publish_volume-Publishes host laws there w1))
          (rw mounted at
            (node_publish_volume-PublishesOnNode host devices laws tp fp there.node_id on_node w2))
          (rw unmounted at (
            node_unpublish_volume-UnpublishesOnNode host devices laws there.node_id
              (back_of on_node) w3))
          (rw unpublished at
            (controller_unpublish_volume-Unpublishes host laws (out_of there) w4)) in
      Deletes-AddsAt answer.volume_id (tables w.db) (tables w1.db) (tables w6.db)
        (v, named, new_id, grown)
        (subst (λ t. Deletes host laws answer.volume_id t (tables w6.db)) back
          (delete_volume-Deletes host laws vh answer.volume_id w5))
        gone
