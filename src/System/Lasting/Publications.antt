-- ===== src/System/Lasting/Publications.antt =====
-- Publications over a sequence of events, and the requests that can take one away.
use csi_sharedhostpath.Base.{
  false, not, Option, some, List, ◌≡◌, ap, ◌∙◌, subst, arith, Text, ◌==◌, ◌&&◌, text_eq,
}
use csi_sharedhostpath.Controller.Publishing.Table.{info_of}
use csi_sharedhostpath.Host.Db.Laws.{DbLaws, Tables, first, is_controller_info, is_node_info}
use csi_sharedhostpath.Host.Rows.{ControllerPublishVolumeInfo, NodePublishVolumeInfo}
use csi_sharedhostpath.Host.World.{World, Host}
use csi_sharedhostpath.Node.{Devices}
use csi_sharedhostpath.Volumes.Paths.{VolumeHelper}
use csi_sharedhostpath.System.{Event, unpublish, node_unpublish, serve_all}
use csi_sharedhostpath.System.Apart.{Every}
use csi_sharedhostpath.System.Steps.{
  AllSmall, Step, stays, creates, deletes, expands, publishes, unpublishes, node_publishes,
  node_unpublishes, sees, Steps-induction,
}
use csi_sharedhostpath.System.Refinement.{AnswersNames, serve_all-Steps}
use csi_sharedhostpath.System.Lasting.{first-kept, first-appended, Steps}

-- The row of a volume on a node at a path.
abbrev pub mount_of : Text → Text → Text → Tables → Option NodePublishVolumeInfo
mount_of volid node path t = first (is_node_info volid node path) t.node_infos

module _ {F : Type 0} where
  -- The event is no request to unpublish the volume from the node.
  abbrev pub SparesInfo : Text → Text → Event F → Type 0
  SparesInfo volid node (unpublish req) =
      ((req.volume_id == volid) && (req.node_id == node)) ≡ false
  SparesInfo volid node _ = Unit

  -- The event is no request to the node's server to unpublish the volume from the path.
  abbrev pub SparesMount : Text → Text → Text → Event F → Type 0
  SparesMount volid node path (node_unpublish other req) =
      ((req.volume_id == volid) && (other == node) && (req.target_path == path)) ≡ false
  SparesMount volid node path _ = Unit

module _ {F : Type 0} (vh : VolumeHelper) where
  Step-info_of :
      (volid node : Text) (i : ControllerPublishVolumeInfo) (event : Event F) (t u : Tables)
      → Step vh event t u
      → SparesInfo volid node event
      → info_of volid node t ≡ some i
      → info_of volid node u ≡ some i
  Step-info_of volid node i event t u (stays same) spared there =
      ap (info_of volid node) same ∙ there
  Step-info_of volid node i event t u (creates req n is new_id named new_name here size grown)
        spared there =
      ap (info_of volid node) grown ∙ there
  Step-info_of volid node i event t u (deletes other is less) spared there =
      ap (info_of volid node) less ∙ there
  Step-info_of volid node i event t u (expands req found c is at_id size more grown) spared there =
      ap (info_of volid node) grown ∙ there
  Step-info_of volid node i event t u (publishes req is absent grown) spared there =
      ap (info_of volid node) grown
      ∙ first-appended (is_controller_info volid node) t.controller_infos _ i there
  Step-info_of volid node i event t u (unpublishes req is less) spared there =
      let apart = subst (SparesInfo volid node) is spared in
      ap (info_of volid node) less
      ∙ first-kept (is_controller_info volid node)
          (λ x. not (is_controller_info req.volume_id req.node_id x)) t.controller_infos
          (λ x here. ground arith)
      ∙ there
  Step-info_of volid node i event t u (node_publishes other req raw is here grown) spared there =
      ap (info_of volid node) grown ∙ there
  Step-info_of volid node i event t u (node_unpublishes other req is less) spared there =
      ap (info_of volid node) less ∙ there
  Step-info_of volid node i event t u (sees n is put) spared there =
      ap (info_of volid node) put ∙ there

  Step-mount_of :
      (volid node path : Text) (i : NodePublishVolumeInfo) (event : Event F) (t u : Tables)
      → Step vh event t u
      → SparesMount volid node path event
      → mount_of volid node path t ≡ some i
      → mount_of volid node path u ≡ some i
  Step-mount_of volid node path i event t u (stays same) spared there =
      ap (mount_of volid node path) same ∙ there
  Step-mount_of volid node path i event t u (creates req n is new_id named new_name here size grown)
        spared there =
      ap (mount_of volid node path) grown ∙ there
  Step-mount_of volid node path i event t u (deletes other is less) spared there =
      ap (mount_of volid node path) less ∙ there
  Step-mount_of volid node path i event t u (expands req found c is at_id size more grown) spared
        there =
      ap (mount_of volid node path) grown ∙ there
  Step-mount_of volid node path i event t u (publishes req is absent grown) spared there =
      ap (mount_of volid node path) grown ∙ there
  Step-mount_of volid node path i event t u (unpublishes req is less) spared there =
      ap (mount_of volid node path) less ∙ there
  Step-mount_of volid node path i event t u (node_publishes other req raw is here grown) spared
        there =
      ap (mount_of volid node path) grown
      ∙ first-appended (is_node_info volid node path) t.node_infos _ i there
  Step-mount_of volid node path i event t u (node_unpublishes other req is less) spared there =
      let apart = subst (SparesMount volid node path) is spared in
      ap (mount_of volid node path) less
      ∙ first-kept (is_node_info volid node path)
          (λ x. not (is_node_info req.volume_id other req.target_path x)) t.node_infos
          (λ x here. ground arith)
      ∙ there
  Step-mount_of volid node path i event t u (sees n is put) spared there =
      ap (mount_of volid node path) put ∙ there

module _ {D F : Type 0} (host : Host D F) (laws : DbLaws host.db) (devices : Devices F)
    (vh : VolumeHelper) (answering : AnswersNames host laws devices vh) (tp fp : Text)
    (events : List (Event F)) (w : World D F) (small : AllSmall events) where
  open laws use {tables}

  -- The tables after the events.
  abbrev end : Tables
  end = tables (serve_all host devices vh tp fp events w).db

  -- The tables after the events come from those before them by the steps.
  took : Steps vh events (tables w.db) (tables (serve_all host devices vh tp fp events w).db)
  took = serve_all-Steps host laws devices vh answering tp fp events w small

  -- The publication of a volume to a node stays in its table, with its mode, over every sequence
  -- of events without a request to the controller to unpublish that volume from that node. The
  -- queries for a name are answered, and requests for a size ask for at most 2^63 - 2^20 bytes.
  pub serve_all-info_of :
      (volid node : Text) (i : ControllerPublishVolumeInfo)
      → info_of volid node (tables w.db) ≡ some i
      → Every (SparesInfo volid node) events
      → info_of volid node end ≡ some i
  serve_all-info_of volid node i there spared =
      Steps-induction vh (λ t. info_of volid node t ≡ some i) (SparesInfo volid node)
        (Step-info_of vh volid node i) events (tables w.db) _ took spared there

  -- The row of a volume on a node at a path stays as it is over every sequence of events without
  -- a request to the server of that node to unpublish that volume from that path. The queries for
  -- a name are answered, and requests for a size ask for at most 2^63 - 2^20 bytes.
  serve_all-mount_of :
      (volid node path : Text) (i : NodePublishVolumeInfo)
      → mount_of volid node path (tables w.db) ≡ some i
      → Every (SparesMount volid node path) events
      → mount_of volid node path end ≡ some i
  serve_all-mount_of volid node path i there spared =
      Steps-induction vh (λ t. mount_of volid node path t ≡ some i) (SparesMount volid node path)
        (Step-mount_of vh volid node path i) events (tables w.db) _ took spared there
