-- ===== src/System/Lifecycle/Working.antt =====
-- The life of a volume where nothing fails.
use csi_sharedhostpath.Base.{
  true, none, some, [], ◌≡◌, ◌≢◌, sym, ap, ◌∙◌, subst, inl, inr, Text, text_eq, ==_refl,
}
use csi_sharedhostpath.Base.Int.{pos, ◌-ℤ◌}
use csi_sharedhostpath.Base.Run.{Result, ok, ok-injective}
use csi_sharedhostpath.Controller.Provisioning.{
  Checked, check_request, create_volume, delete_volume,
}
use csi_sharedhostpath.Controller.Provisioning.Accepting.{
  HasNames, create_volume_works, delete_volume_works,
}
use csi_sharedhostpath.Controller.Publishing.{
  controller_publish_volume, controller_unpublish_volume,
}
use csi_sharedhostpath.Controller.Publishing.Accepting.{
  controller_publish_volume_iff, controller_unpublish_volume_works,
}
use csi_sharedhostpath.Controller.Publishing.Table.{
  info_of, Publishes, controller_publish_volume-Publishes,
}
use csi_sharedhostpath.Controller.Publishing.Unpublish.{out_of}
use csi_sharedhostpath.Controller.Requests.{
  Code, VolumeCapability, CreateVolumeRequest, CreateVolumeResponse, PublishRequest,
}
use csi_sharedhostpath.Host.Db.Laws.{DbLaws, Tables, first, has_id, has_name, seen_since}
use csi_sharedhostpath.Host.Db.Matching.{first-snoc, answered_row}
use csi_sharedhostpath.Host.Rows.{Volume, NodeInfo}
use csi_sharedhostpath.Host.Working.{Works}
use csi_sharedhostpath.Host.World.{World, Host}
use csi_sharedhostpath.Node.Working.{NodeWorks}
use csi_sharedhostpath.Node.{Devices, NodePublishRequest}
use csi_sharedhostpath.Node.Publishing.{node_publish_volume, node_unpublish_volume}
use csi_sharedhostpath.Node.Publishing.Accepting.{
  IsMountable, node_publish_volume_works, node_unpublish_volume_works,
}
use csi_sharedhostpath.Node.Publishing.Table.{node_publish_volume-PublishesOnNode}
use csi_sharedhostpath.Node.Publishing.Unpublish.{back_of, node_unpublish_volume-UnpublishesOnNode}
use csi_sharedhostpath.System.Creating.{create_volume_anew}
use csi_sharedhostpath.System.Lasting.Publications.{mount_of}
use csi_sharedhostpath.System.Lifecycle.{whole_life-tables}
use csi_sharedhostpath.Volumes.Paths.{VolumeHelper}

Publishes-volumes :
    (req : PublishRequest) (t u : Tables) → Publishes req t (ok tt) u → u.volumes ≡ t.volumes
Publishes-volumes req t u (inl (i, there, mode, same)) = ap (λ (x : Tables). x.volumes) same
Publishes-volumes req t u (inr (absent, grown)) = ap (λ (x : Tables). x.volumes) grown

-- The request for the volume, with its identifier.
abbrev pub of_volume : Text → PublishRequest → PublishRequest
of_volume volid req = record req { volume_id = volid }

abbrev pub of_volume_on_node : Text → NodePublishRequest → NodePublishRequest
of_volume_on_node volid req = record req { volume_id = volid }

module _ {D F : Type 0} (host : Host D F) (laws : DbLaws host.db) (devices : Devices F)
    (works : Works host laws) (node_works : NodeWorks host devices) (vh : VolumeHelper)
    (tp fp : Text) (req : CreateVolumeRequest) (c : Checked) (volid : Text)
    (publish : PublishRequest) (on_node : NodePublishRequest) (cap : VolumeCapability)
    (seen_node : NodeInfo) (w : World D F) where
  open laws use {tables}

  -- The answer and the state of each request in turn.
  abbrev pub created : Result Code CreateVolumeResponse × World D F
  created = create_volume host vh tp req w

  abbrev there : PublishRequest
  there = of_volume volid publish

  abbrev mount : NodePublishRequest
  mount = of_volume_on_node volid on_node

  abbrev pub published : Result Code (Unit {0}) × World D F
  published = controller_publish_volume host there created.1

  abbrev pub mounted : Result Code (Unit {0}) × World D F
  mounted = node_publish_volume host devices tp fp publish.node_id mount published.1

  abbrev pub unmounted : Result Code (Unit {0}) × World D F
  unmounted = node_unpublish_volume host devices publish.node_id (back_of mount) mounted.1

  abbrev pub unpublished : Result Code (Unit {0}) × World D F
  unpublished = controller_unpublish_volume host (out_of there) unmounted.1

  abbrev pub deleted : Result Code (Unit {0}) × World D F
  deleted = delete_volume host vh volid unpublished.1

  -- The requests are complete and fit each other, the name and the identifier are new, the node was
  -- seen in time, and there is no publication yet.
  pub record IsReady : Type 0 where
    pub checked : check_request tp req ≡ ok c
    pub names : HasNames req
    pub free : first (has_name req.name) (tables w.db).volumes ≡ none
    pub random : (host.os.new_random w.os).0 ≡ ok volid
    pub fresh : first (has_id volid) (tables w.db).volumes ≡ none
    pub named : volid ≢ []
    pub node_named : publish.node_id ≢ []
    pub capable : publish.has_capability ≡ true
    pub seen :
        first
          (seen_since publish.node_id ((host.os.now created.1.os).0 -ℤ pos 30_000_000_000))
          (tables w.db).nodes
        ≡ some seen_node
    pub targeted : on_node.target_path ≢ []
    pub given : on_node.volume_capability ≡ some cap
    pub mountable : IsMountable tp fp mount cap c.is_block
    pub no_info : info_of volid publish.node_id (tables w.db) ≡ none
    pub no_mount : mount_of volid publish.node_id on_node.target_path (tables w.db) ≡ none

  -- What holds after the creation: the volume is in its row, and the other tables are as before.
  creates_row :
      IsReady
      → (answer : CreateVolumeResponse) × (created.0 ≡ ok answer)
        × (answer.volume_id ≡ volid)
        × (v : Volume) × (v.is_block ≡ c.is_block)
        × (first (has_id volid) (tables created.1.db).volumes ≡ some v)
        × ((tables created.1.db).nodes ≡ (tables w.db).nodes)
        × ((tables created.1.db).controller_infos ≡ (tables w.db).controller_infos)
  creates_row r =
      let (answer, done, named) =
        create_volume_works host laws works vh tp req c volid w r.checked r.names r.free r.random
          r.fresh in
      let (c', checked', v, (is_name, sized, kind, here), is_v, grown) =
        create_volume_anew host laws vh tp req answer w done (rw named r.fresh) in
      (
        answer,
        done,
        named,
        v,
        kind ∙ ap (λ (k : Checked). k.is_block) (ok-injective (sym checked' ∙ r.checked)),
        rw grown (
            first-snoc (has_id volid) (tables w.db).volumes v (rw (is_v, named) (==_refl volid))
              r.fresh),
        ap (λ (x : Tables). x.nodes) grown,
        ap (λ (x : Tables). x.controller_infos) grown,
      )

  module _ (r : IsReady) where
    -- The row of the volume, and that it is there in every state up to the deletion.
    abbrev row : Volume
    row = (creates_row r).3

    there1 : first (has_id volid) (tables created.1.db).volumes ≡ some row
    there1 = (creates_row r).5

    found_in :
        (x : World D F)
        → first (has_id volid) (tables x.db).volumes ≡ some row
        → (host.db.first_volume_by_id volid x.db).0 ≡ ok row
    found_in x here =
        answered_row _ row (rw here at (laws.first_by_id volid x.db).0)
          (works.answers_id volid x.db)

    publishes : published.0 ≡ ok tt
    publishes = (controller_publish_volume_iff host laws works there created.1).1 (record {
      volume = row;
      node = seen_node;
      volume_named = r.named;
      node_named = r.node_named;
      capable = r.capable;
      there = there1;
      seen = rw (creates_row r).6 r.seen;
      free = inl (rw (creates_row r).7 r.no_info);
    })

    there2 : first (has_id volid) (tables published.1.db).volumes ≡ some row
    there2 =
        ap (first (has_id volid)) (
          Publishes-volumes there (tables created.1.db) (tables published.1.db)
            (rw publishes at (controller_publish_volume-Publishes host laws there created.1)))
        ∙ there1

    mounts : mounted.0 ≡ ok tt
    mounts =
        node_publish_volume_works host devices node_works row published.1 tp fp publish.node_id
          mount cap (found_in published.1 there2) r.given r.named r.targeted
          (subst (IsMountable tp fp mount cap) (sym (creates_row r).4) r.mountable)

    there3 : first (has_id volid) (tables mounted.1.db).volumes ≡ some row
    there3 =
        let added = rw mounts at (
          node_publish_volume-PublishesOnNode host devices laws tp fp publish.node_id mount
            published.1) in
        ap (λ (t : Tables). first (has_id volid) t.volumes) added.5 ∙ there2

    unmounts : unmounted.0 ≡ ok tt
    unmounts =
        node_unpublish_volume_works host devices node_works row mounted.1 publish.node_id
          (back_of mount) (found_in mounted.1 there3) r.named r.targeted

    there4 : first (has_id volid) (tables unmounted.1.db).volumes ≡ some row
    there4 =
        ap (λ (t : Tables). first (has_id volid) t.volumes)
          (rw unmounts at (
            node_unpublish_volume-UnpublishesOnNode host devices laws publish.node_id
              (back_of mount) mounted.1))
        ∙ there3

    unpublishes : unpublished.0 ≡ ok tt
    unpublishes =
        controller_unpublish_volume_works host laws works (out_of there) row unmounted.1 r.named
          there4

    -- On a host and a node where nothing fails, the life of a volume runs through: the requests
    -- to create it, to publish it to a node and on the node, to unpublish it there and from the
    -- node, and to delete it are all accepted, the answer has the identifier that was made at
    -- random, and the tables are at the end as they were at the start. The request passes the
    -- checks and gives the three names; its name and the identifier are new; the identifier, the
    -- node and the target are not empty; the node was seen in time; the capabilities are given
    -- and fit the kind of the volume; and there was no publication yet.
    pub whole_life_works :
        (answer : CreateVolumeResponse) × (created.0 ≡ ok answer)
        × (answer.volume_id ≡ volid)
        × (published.0 ≡ ok tt)
        × (mounted.0 ≡ ok tt)
        × (unmounted.0 ≡ ok tt)
        × (unpublished.0 ≡ ok tt)
        × (deleted.0 ≡ ok tt)
        × (tables deleted.1.db ≡ tables w.db)
    whole_life_works =
        let answer = (creates_row r).0 in
        let done = (creates_row r).1 in
        let named = (creates_row r).2 in
        let (gone, empty) = delete_volume_works host laws works vh volid unpublished.1 r.named in
        (
          answer,
          done,
          named,
          publishes,
          mounts,
          unmounts,
          unpublishes,
          gone,
          subst
              (λ n.
                first (has_id n) (tables (delete_volume host vh n unpublished.1).1.db).volumes
                  ≡ none
                → tables (delete_volume host vh n unpublished.1).1.db ≡ tables w.db)
              named
              (whole_life-tables host laws devices vh tp fp req answer there mount w
                (rw named r.fresh) r.no_info r.no_mount done publishes mounts unmounts unpublishes)
              empty,
        )
