-- ===== src/System/View.antt =====
-- The tables as maps, which forget the order of the rows: a volume by its identifier, a publication
-- by volume and node, a mount by volume, node and path, and a node by its name.
pub mod Refinement
use csi_sharedhostpath.Base.{
  Bool, true, false, not, ◌&&◌, Option, none, some, List, [], ◌∷◌, ◌++◌, ◌≡◌, ◌≢◌, refl, sym, ap,
  ◌∙◌, inl, inr, Bool-cases, arith, Text, Text-discrete, ◌==◌, text_eq, if◌then◌else◌,
}
use csi_sharedhostpath.Base.Int.{ℤ, leb_ℤ}
use csi_sharedhostpath.Controller.Expansion.Growth.{first-set_capacity}
use csi_sharedhostpath.Controller.Publishing.Table.{info_of, asked_info}
use csi_sharedhostpath.Controller.Requests.{
  CreateVolumeRequest, PublishRequest, UnpublishRequest, ExpandRequest,
}
use csi_sharedhostpath.Host.Db.Laws.{
  Tables, first, keep, has_id, is_controller_info, is_node_info, set_capacity, put_node,
}
use csi_sharedhostpath.Host.Rows.{
  Volume, NodeInfo, ControllerPublishVolumeInfo, NodePublishVolumeInfo,
}
use csi_sharedhostpath.Node.{NodePublishRequest, NodeUnpublishRequest}
use csi_sharedhostpath.Node.Publishing.Table.{asked_node_info}
use csi_sharedhostpath.System.{
  Event, create, delete, publish, unpublish, expand, node_publish, node_unpublish, seen,
}
use csi_sharedhostpath.System.Lasting.Publications.{mount_of}

pub record View : Type 0 where
  pub volume : Text → Option Volume
  pub info : Text → Text → Option ControllerPublishVolumeInfo
  pub mount : Text → Text → Text → Option NodePublishVolumeInfo
  pub node : Text → Option NodeInfo

abbrev pub view : Tables → View
view t = record {
  volume = λ volid. first (has_id volid) t.volumes;
  info = λ volid node. info_of volid node t;
  mount = λ volid node path. mount_of volid node path t;
  node = λ node. first (λ (i : NodeInfo). i.id == node) t.nodes;
}

-- The map with one place changed.
module _ {A : Type 0} where
  abbrev pub at : Text → Option A → (Text → Option A) → Text → Option A
  at k a f x = if k == x then a else f x

  abbrev pub at_node : Text → Text → Option A → (Text → Text → Option A) → Text → Text → Option A
  at_node k n a f x y = if k == x && n == y then a else f x y

  abbrev pub at_path :
      Text
      → Text
      → Text
      → Option A
      → (Text → Text → Text → Option A)
      → Text
      → Text
      → Text
      → Option A
  at_path k n p a f x y z = if k == x && n == y && p == z then a else f x y z

  -- The first of the two that is there.
  abbrev pub or_else : Option A → Option A → Option A
  or_else none b = b
  or_else (some a) b = some a

-- What an event may do to the maps.
pub data Move {F : Type 0} (event : Event F) (a b : View) : Type 0 where
  rests : b ≡ a → Move event a b
  makes :
      (req : CreateVolumeRequest) (v : Volume)
      → event ≡ create req
      → a.volume v.vol_id ≡ none
      → v.vol_name ≡ req.name
      → b ≡ record a { volume = at v.vol_id (some v) a.volume }
      → Move event a b
  drops :
      (volid : Text)
      → event ≡ delete volid
      → b ≡ record a { volume = at volid none a.volume }
      → Move event a b
  grows :
      (req : ExpandRequest) (v : Volume) (c : ℤ)
      → event ≡ expand req
      → a.volume req.volume_id ≡ some v
      → leb_ℤ v.capacity c ≡ true
      → b ≡ record a { volume = at req.volume_id (some (record v { capacity = c })) a.volume }
      → Move event a b
  opens :
      (req : PublishRequest)
      → event ≡ publish req
      → a.info req.volume_id req.node_id ≡ none
      → b ≡ record a { info = at_node req.volume_id req.node_id (some (asked_info req)) a.info }
      → Move event a b
  closes :
      (req : UnpublishRequest)
      → event ≡ unpublish req
      → b ≡ record a { info = at_node req.volume_id req.node_id none a.info }
      → Move event a b
  mounts :
      (node : Text) (req : NodePublishRequest) (raw : Bool)
      → event ≡ node_publish node req
      → b ≡ record a {
        mount =
            at_path req.volume_id node req.target_path
              (or_else
                (a.mount req.volume_id node req.target_path)
                (some (asked_node_info node req raw)))
              a.mount;
      }
      → Move event a b
  unmounts :
      (node : Text) (req : NodeUnpublishRequest)
      → event ≡ node_unpublish node req
      → b ≡ record a { mount = at_path req.volume_id node req.target_path none a.mount }
      → Move event a b
  ticks :
      (i : NodeInfo)
      → event ≡ seen i.id i.last_seen
      → b ≡ record a { node = at i.id (some i) a.node }
      → Move event a b

-- A move for each event in turn.
pub data Moves {F : Type 0} : List (Event F) → View → View → Type 0 where
  ended : {a : View} → Moves [] a a
  moved :
      {event : Event F} {events : List (Event F)} {a b c : View}
      → Move event a b
      → Moves events b c
      → Moves (event ∷ events) a c
