-- ===== src/System/Refinement.antt =====
-- Each event of the system is a step of the abstract account.
use csi_sharedhostpath.Base.{Option, none, some, List, [], ◌∷◌, ◌≡◌, refl, inl, inr, Text}
use csi_sharedhostpath.Base.Run.{ok, err}
use csi_sharedhostpath.Controller.Requests.{
  CreateVolumeRequest, PublishRequest, UnpublishRequest, ExpandRequest,
}
use csi_sharedhostpath.Controller.Publishing.{Answer}
use csi_sharedhostpath.Controller.Publishing.Table.{Publishes, controller_publish_volume-Publishes}
use csi_sharedhostpath.Controller.Publishing.Unpublish.{
  Unpublishes, controller_unpublish_volume-Unpublishes,
}
use csi_sharedhostpath.Host.Db.{Err}
use csi_sharedhostpath.Host.Db.Laws.{DbLaws, Tables, IsAnswered, after, put_node}
use csi_sharedhostpath.Host.Rows.{NodeInfo}
use csi_sharedhostpath.Host.World.{World, Host}
use csi_sharedhostpath.Node.{Devices, NodePublishRequest, NodeUnpublishRequest}
use csi_sharedhostpath.Node.Publishing.Table.{PublishesOnNode, node_publish_volume-PublishesOnNode}
use csi_sharedhostpath.Node.Publishing.Unpublish.{
  UnpublishesOnNode, node_unpublish_volume-UnpublishesOnNode,
}
use csi_sharedhostpath.Node.Statistics.Usage.{node_get_volume_stats-tables}
use csi_sharedhostpath.Volumes.Cleanup.Tables.{
  clean_up_dangling_volumes-tables, rebuild_sym_links-tables,
}
use csi_sharedhostpath.Volumes.Infos.{update_node_info_last_seen}
use csi_sharedhostpath.Volumes.Paths.{VolumeHelper}
use csi_sharedhostpath.System.{
  Event, create, delete, validate, publish, unpublish, expand, list, get, node_publish,
  node_unpublish, node_expand, node_stats, seen, clean_up, rebuild, elsewhere, serve, serve_all,
}
use csi_sharedhostpath.System.Creating.{Adds, create_volume-Adds}
use csi_sharedhostpath.System.Effects.{
  Deletes, Resizes, delete_volume-Deletes, controller_expand_volume-Resizes,
}
use csi_sharedhostpath.System.Reads.{
  validate-tables, list_volumes-tables, controller_get_volume-tables, node_expand_volume-tables,
}
use csi_sharedhostpath.System.Steps.{
  IsSmall, AllSmall, Step, stays, creates, deletes, expands, publishes, unpublishes, node_publishes,
  node_unpublishes, sees, Steps, done, next,
}

module _ {F : Type 0} (vh : VolumeHelper) (t u : Tables) where
  Adds-Step : (req : CreateVolumeRequest) → Adds vh req.name t u → Step {F = F} vh (create req) t u
  Adds-Step req (inl same) = stays same
  Adds-Step req (inr (v, new_id, named, new_name, here, size, grown)) =
      creates req v refl new_id named new_name here size grown

  Publishes-Step :
      (req : PublishRequest) (answer : Answer (Unit {0}))
      → Publishes req t answer u
      → Step {F = F} vh (publish req) t u
  Publishes-Step req (err code) same = stays same
  Publishes-Step req (ok v) (inl (i, there, mode, same)) = stays same
  Publishes-Step req (ok v) (inr (absent, grown)) = publishes req refl absent grown

  Unpublishes-Step :
      (req : UnpublishRequest) (answer : Answer (Unit {0}))
      → Unpublishes req t answer u
      → Step {F = F} vh (unpublish req) t u
  Unpublishes-Step req (err code) same = stays same
  Unpublishes-Step req (ok v) less = unpublishes req refl less

  PublishesOnNode-Step :
      (node : Text) (req : NodePublishRequest) (answer : Answer (Unit {0}))
      → PublishesOnNode node req t answer u
      → Step {F = F} vh (node_publish node req) t u
  PublishesOnNode-Step node req (err code) same = stays same
  PublishesOnNode-Step node req (ok v) (vol, capability, there, given, kind, grown) =
      node_publishes node req _ refl (λ absent. cc) grown

  UnpublishesOnNode-Step :
      (node : Text) (req : NodeUnpublishRequest) (answer : Answer (Unit {0}))
      → UnpublishesOnNode node req t answer u
      → Step {F = F} vh (node_unpublish node req) t u
  UnpublishesOnNode-Step node req (err code) same = stays same
  UnpublishesOnNode-Step node req (ok v) less = node_unpublishes node req refl less

  after_node-Step :
      (i : NodeInfo) (e : Option Err)
      → u ≡ after e (record t { nodes = put_node i t.nodes }) t
      → Step {F = F} vh (seen i.id i.last_seen) t u
  after_node-Step i none put = sees i refl put
  after_node-Step i (some e) same = stays same

module _ {D F : Type 0} (host : Host D F) (laws : DbLaws host.db) (devices : Devices F)
    (vh : VolumeHelper) where
  open laws use {tables}

  Deletes-Step :
      (volid : Text) (t u : Tables)
      → Deletes host laws volid t u
      → Step {F = F} vh (delete volid) t u
  Deletes-Step volid t u (inl same) = stays same
  Deletes-Step volid t u (inr less) = deletes volid refl less

  Resizes-Step :
      (req : ExpandRequest) (t u : Tables)
      → Resizes host laws req.volume_id t u
      → Step {F = F} vh (expand req) t u
  Resizes-Step req t u (inl same) = stays same
  Resizes-Step req t u (inr (v, there, c, size, larger, grown)) =
      expands req v c refl there size larger grown

  -- Every query for a name is answered.
  abbrev pub AnswersNames : Type 0
  AnswersNames = (name : Text) (d : D) → IsAnswered (host.db.first_volume_by_name name d).0

  module _ (answering : AnswersNames) (tp fp : Text) where
    serve-Step :
        (event : Event F) (w : World D F)
        → IsSmall event
        → Step vh event (tables w.db) (tables (serve host devices vh tp fp event w).db)
    unfolding serve update_node_info_last_seen
    serve-Step (create req) w small =
        Adds-Step vh _ _ req
          (create_volume-Adds host laws vh tp req w small (answering req.name w.db))
    serve-Step (delete volid) w small =
        Deletes-Step volid _ _ (delete_volume-Deletes host laws vh volid w)
    serve-Step (validate req) w small = stays (validate-tables host laws vh req w)
    serve-Step (publish req) w small =
        Publishes-Step vh _ _ req _ (controller_publish_volume-Publishes host laws req w)
    serve-Step (unpublish req) w small =
        Unpublishes-Step vh _ _ req _ (controller_unpublish_volume-Unpublishes host laws req w)
    serve-Step (expand req) w small =
        Resizes-Step req _ _ (controller_expand_volume-Resizes host laws req w small)
    serve-Step (list req) w small = stays (list_volumes-tables host laws tp req w)
    serve-Step (get volid) w small = stays (controller_get_volume-tables host laws tp volid w)
    serve-Step (node_publish node req) w small =
        PublishesOnNode-Step vh _ _ node req _
          (node_publish_volume-PublishesOnNode host devices laws tp fp node req w)
    serve-Step (node_unpublish node req) w small =
        UnpublishesOnNode-Step vh _ _ node req _
          (node_unpublish_volume-UnpublishesOnNode host devices laws node req w)
    serve-Step (node_expand req) w small = stays (node_expand_volume-tables host laws devices req w)
    serve-Step (node_stats node req) w small =
        stays (node_get_volume_stats-tables host laws node req w)
    serve-Step (seen node time) w small =
        after_node-Step vh _ _ (record { id = node; last_seen = time }) _
          (laws.upsert_node_lem (record { id = node; last_seen = time }) w.db)
    serve-Step clean_up w small = stays (clean_up_dangling_volumes-tables host laws vh w)
    serve-Step rebuild w small = stays (rebuild_sym_links-tables host laws vh w)
    serve-Step (elsewhere change) w small = stays refl

    -- Over every sequence of events, the tables take a step of the abstract account for each
    -- event: they stay as they are; or a request to create a volume adds one of its name, which
    -- is new, under a new identifier, at its place and of a proper size; or a request to delete
    -- removes the volume; or a request to expand sets a capacity that is proper and not smaller
    -- than the old one; or a request to publish to a node adds a publication by the controller
    -- that was not there, or a request to unpublish removes the ones of its volume and node; or a
    -- request to publish on a node adds a row of publication there for a volume that is in a row,
    -- whether or not such a row is there already, or a request to unpublish on a node removes the
    -- rows of its volume, node and path; or a tick of its clock sets when a node was seen. The
    -- queries for a name are answered, and requests for a size ask for at most 2^63 - 2^20 bytes.
    pub serve_all-Steps :
        (events : List (Event F)) (w : World D F)
        → AllSmall events
        → Steps vh events (tables w.db) (tables (serve_all host devices vh tp fp events w).db)
    unfolding serve_all
    serve_all-Steps [] w small = done
    serve_all-Steps (event ∷ events) w small =
        next (serve-Step event w small.0)
          (serve_all-Steps events (serve host devices vh tp fp event w) small.1)
