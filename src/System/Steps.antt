-- ===== src/System/Steps.antt =====
-- What an event may do to the tables: an abstract account of the controller, the node servers and
-- the jobs, which leaves open whether a step succeeds.
use csi_sharedhostpath.Base.{none, some, true, List, [], ◌∷◌, ◌≡◌, ◌≢◌, Bool, Text}
use csi_sharedhostpath.Base.Int.{ℤ, pos, leb_ℤ, ◌≤ℤ◌}
use csi_sharedhostpath.Capacity.Rounding.{roundable}
use csi_sharedhostpath.Controller.Publishing.Table.{info_of, add_controller_info}
use csi_sharedhostpath.Controller.Publishing.Unpublish.{without_info}
use csi_sharedhostpath.Controller.Requests.{
  CreateVolumeRequest, PublishRequest, UnpublishRequest, ExpandRequest,
}
use csi_sharedhostpath.Host.Db.Laws.{Tables, first, has_id, has_name, put_node}
use csi_sharedhostpath.Host.Rows.{Volume, NodeInfo}
use csi_sharedhostpath.Node.{NodePublishRequest, NodeUnpublishRequest}
use csi_sharedhostpath.Node.Publishing.Table.{add_node_info}
use csi_sharedhostpath.Node.Publishing.Unpublish.{without_node_info}
use csi_sharedhostpath.Volumes.Paths.{VolumeHelper}
use csi_sharedhostpath.Volumes.Store.Create.{add_volume}
use csi_sharedhostpath.Volumes.Store.Delete.{without_volume}
use csi_sharedhostpath.Volumes.Store.Expand.{with_capacity}
use csi_sharedhostpath.System.{
  Event, create, delete, publish, unpublish, expand, node_publish, node_unpublish, seen,
}
use csi_sharedhostpath.System.Apart.{Every}
use csi_sharedhostpath.System.Effects.{asked_bytes}
use csi_sharedhostpath.System.Valid.{IsSize, IsSized, IsPlaced}

module _ {F : Type 0} where
  -- A request for a size asks for at most 2^63 - 2^20 bytes.
  abbrev pub IsSmall : Event F → Type 0
  IsSmall (create req) = req.required_bytes ≤ℤ pos roundable
  IsSmall (expand req) = asked_bytes req ≤ℤ pos roundable
  IsSmall _ = Unit

  abbrev pub AllSmall : List (Event F) → Type 0
  AllSmall [] = Unit
  AllSmall (event ∷ events) = IsSmall event × AllSmall events

  -- Each change is made by one kind of event only; every other event leaves the tables alone.
  pub data Step (vh : VolumeHelper) (event : Event F) (t u : Tables) : Type 0 where
    stays : u ≡ t → Step vh event t u
    creates :
        (req : CreateVolumeRequest) (v : Volume)
        → event ≡ create req
        → first (has_id v.vol_id) t.volumes ≡ none
        → v.vol_name ≡ req.name
        → first (has_name req.name) t.volumes ≡ none
        → IsPlaced vh v
        → IsSized v
        → u ≡ add_volume v t
        → Step vh event t u
    deletes : (volid : Text) → event ≡ delete volid → u ≡ without_volume volid t → Step vh event t u
    expands :
        (req : ExpandRequest) (v : Volume) (c : ℤ)
        → event ≡ expand req
        → first (has_id req.volume_id) t.volumes ≡ some v
        → IsSize c
        → leb_ℤ v.capacity c ≡ true
        → u ≡ with_capacity v c t
        → Step vh event t u
    publishes :
        (req : PublishRequest)
        → event ≡ publish req
        → info_of req.volume_id req.node_id t ≡ none
        → u ≡ add_controller_info req t
        → Step vh event t u
    unpublishes :
        (req : UnpublishRequest)
        → event ≡ unpublish req
        → u ≡ without_info req t
        → Step vh event t u
    node_publishes :
        (node : Text) (req : NodePublishRequest) (raw : Bool)
        → event ≡ node_publish node req
        → first (has_id req.volume_id) t.volumes ≢ none
        → u ≡ add_node_info node req raw t
        → Step vh event t u
    node_unpublishes :
        (node : Text) (req : NodeUnpublishRequest)
        → event ≡ node_unpublish node req
        → u ≡ without_node_info node req t
        → Step vh event t u
    sees :
        (i : NodeInfo)
        → event ≡ seen i.id i.last_seen
        → u ≡ record t { nodes = put_node i t.nodes }
        → Step vh event t u

  -- A step for each event in turn.
  pub data Steps (vh : VolumeHelper) : List (Event F) → Tables → Tables → Type 0 where
    done : {t : Tables} → Steps vh [] t t
    next :
        {event : Event F} {events : List (Event F)} {t u v : Tables}
        → Step vh event t u
        → Steps vh events u v
        → Steps vh (event ∷ events) t v

  -- What every step of some events preserves, a sequence of those events preserves.
  pub Steps-induction :
      (vh : VolumeHelper) (P : Tables → Type 0) (Spares : Event F → Type 0)
      → ((event : Event F) (t u : Tables) → Step vh event t u → Spares event → P t → P u)
      → (events : List (Event F)) (t u : Tables) → Steps vh events t u
      → Every Spares events
      → P t
      → P u
  Steps-induction vh P Spares keeps [] t u done spared p = p
  Steps-induction vh P Spares keeps (event ∷ events) t u (next {u = v} step steps) spared p =
      Steps-induction vh P Spares keeps events v u steps spared.1 (keeps event t v step spared.0 p)
