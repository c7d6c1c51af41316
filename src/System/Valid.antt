-- ===== src/System/Valid.antt =====
-- What the tables of the database look like at all times, and the changes of a table that keep it.
use csi_sharedhostpath.Base.{
  ℕ, ◌*◌, ◌^◌, ◌≤◌, ◌<◌, Bool, true, false, none, List, [], ◌∷◌, ◌≡◌, refl, ◌∙◌, inl, inr, arith,
  Bool-cases, Text, ◌==◌, ==_swap, text_eq,
}
use csi_sharedhostpath.Base.Int.{ℤ, pos}
use csi_sharedhostpath.Capacity.{mib, gib}
use csi_sharedhostpath.Controller.Requests.{PublishRequest, UnpublishRequest}
use csi_sharedhostpath.Controller.Publishing.Table.{add_controller_info, info_of}
use csi_sharedhostpath.Controller.Publishing.Unpublish.{without_info}
use csi_sharedhostpath.Host.Rows.{Volume, NodeInfo, ControllerPublishVolumeInfo}
use csi_sharedhostpath.Host.Db.Laws.{
  Tables, first, has_id, has_name, is_controller_info, set_capacity, put_node,
}
use csi_sharedhostpath.Volumes.Paths.{VolumeHelper, volume_path}
use csi_sharedhostpath.Volumes.Store.Create.{add_volume}
use csi_sharedhostpath.Volumes.Store.Delete.{without_volume}
use csi_sharedhostpath.Volumes.Store.Expand.{with_capacity}
use csi_sharedhostpath.System.Apart.{Apart, Apart-snoc, Apart-keep, Every, Every-snoc, Every-keep}

abbrev pub same_id : Volume → Volume → Bool
same_id v = has_id v.vol_id

abbrev pub same_name : Volume → Volume → Bool
same_name v = has_name v.vol_name

abbrev pub same_place : ControllerPublishVolumeInfo → ControllerPublishVolumeInfo → Bool
same_place i = is_controller_info i.vol_id i.node_id

abbrev pub same_node : NodeInfo → NodeInfo → Bool
same_node i j = j.id == i.id

-- A whole number of mebibytes, at least a gibibyte and below a tebibyte.
abbrev pub IsSize : ℤ → Type 0
IsSize c = (k : ℕ) × (c ≡ pos (k * mib)) × (gib ≤ k * mib) × (k * mib < 2 ^ 40)

abbrev pub IsSized : Volume → Type 0
IsSized v = IsSize v.capacity

abbrev pub IsPlaced : VolumeHelper → Volume → Type 0
IsPlaced vh v = v.vol_path ≡ volume_path vh.vols_path v.vol_id

-- No two volumes have one identifier or one name; every volume lies where the layout puts its
-- identifier and has a proper size; no volume is published twice to one node; and every node has
-- one row.
pub record IsValid (vh : VolumeHelper) (t : Tables) : Type 0 where
  pub ids : Apart same_id t.volumes
  pub names : Apart same_name t.volumes
  pub placed : Every (IsPlaced vh) t.volumes
  pub sized : Every IsSized t.volumes
  pub published : Apart same_place t.controller_infos
  pub nodes : Apart same_node t.nodes

same_id_swap : (x y : Volume) → same_id x y ≡ same_id y x
same_id_swap x y = ==_swap y.vol_id x.vol_id

same_name_swap : (x y : Volume) → same_name x y ≡ same_name y x
same_name_swap x y = ==_swap y.vol_name x.vol_name

same_place_swap : (x y : ControllerPublishVolumeInfo) → same_place x y ≡ same_place y x
same_place_swap x y = ground (arith, ==_swap y.vol_id x.vol_id, ==_swap y.node_id x.node_id)

first-set_capacity-none :
    (like : Volume → Bool) (volid : Text) (capacity : ℤ) (l : List Volume)
    → ((v : Volume) → like (record v { capacity = capacity }) ≡ like v)
    → first like l ≡ none
    → first like (set_capacity volid capacity l) ≡ none
first-set_capacity-none like volid capacity [] blind e = refl
first-set_capacity-none like volid capacity (x ∷ l) blind e =
    elim (Bool-cases (x.vol_id == volid)) [
      | inl here ↦ ground (arith, blind x, first-set_capacity-none like volid capacity l blind)
      | inr there ↦ ground (arith, first-set_capacity-none like volid capacity l blind)
    ]

-- A test that does not look at the capacity.
Apart-set_capacity :
    (like : Volume → Volume → Bool) (volid : Text) (capacity : ℤ) (l : List Volume)
    → ((v : Volume) → like (record v { capacity = capacity }) ≡ like v)
    → ((u v : Volume) → like u (record v { capacity = capacity }) ≡ like u v)
    → Apart like l
    → Apart like (set_capacity volid capacity l)
Apart-set_capacity like volid capacity [] blind blind' h = tt
Apart-set_capacity like volid capacity (x ∷ l) blind blind' h =
    let fresh = first-set_capacity-none (like x) volid capacity l (blind' x) h.0 in
    let rest = Apart-set_capacity like volid capacity l blind blind' h.1 in
    elim (Bool-cases (x.vol_id == volid)) [
      | inl here ↦ rw (here, blind x) (fresh, rest)
      | inr there ↦ rw there (fresh, rest)
    ]

Every-set_capacity :
    (P : Volume → Type 0) (volid : Text) (capacity : ℤ) (l : List Volume)
    → ((v : Volume) → P v → P (record v { capacity = capacity }))
    → Every P l
    → Every P (set_capacity volid capacity l)
Every-set_capacity P volid capacity [] keeps h = tt
Every-set_capacity P volid capacity (x ∷ l) keeps h = elim (Bool-cases (x.vol_id == volid)) [
  | inl here ↦ rw here (keeps x h.0, Every-set_capacity P volid capacity l keeps h.1)
  | inr there ↦ rw there (h.0, Every-set_capacity P volid capacity l keeps h.1)
]

first-put_node :
    (x i : NodeInfo) (l : List NodeInfo)
    → first (same_node x) l ≡ none
    → same_node x i ≡ false
    → first (same_node x) (put_node i l) ≡ none
first-put_node x i [] e n = ground arith
first-put_node x i (j ∷ l) e n = ground (arith, first-put_node x i l)

-- The rows of other nodes do not have the node of a replaced row.
first-replaced :
    (i j : NodeInfo) (l : List NodeInfo)
    → same_node i j ≡ true
    → first (same_node j) l ≡ none
    → first (same_node i) l ≡ none
first-replaced i j [] same e = refl
first-replaced i j (k ∷ l) same e = ground (arith, first-replaced i j l same)

Apart-put_node :
    (i : NodeInfo) (l : List NodeInfo) → Apart same_node l → Apart same_node (put_node i l)
Apart-put_node i [] h = (refl, tt)
Apart-put_node i (j ∷ l) h = elim (Bool-cases (j.id == i.id)) [
  | inl same ↦ rw same (first-replaced i j l same h.0, h.1)
  | inr other ↦
      rw other (first-put_node j i l h.0 (==_swap i.id j.id ∙ other), Apart-put_node i l h.1)
]

module _ (vh : VolumeHelper) (t : Tables) (valid : IsValid vh t) where
  pub add_volume-IsValid :
      (v : Volume)
      → first (has_id v.vol_id) t.volumes ≡ none
      → first (has_name v.vol_name) t.volumes ≡ none
      → IsPlaced vh v
      → IsSized v
      → IsValid vh (add_volume v t)
  add_volume-IsValid v new_id new_name here size = record {
    ids = Apart-snoc same_id same_id_swap t.volumes v valid.ids new_id;
    names = Apart-snoc same_name same_name_swap t.volumes v valid.names new_name;
    placed = Every-snoc (IsPlaced vh) t.volumes v valid.placed here;
    sized = Every-snoc IsSized t.volumes v valid.sized size;
    published = valid.published;
    nodes = valid.nodes;
  }

  pub without_volume-IsValid : (volid : Text) → IsValid vh (without_volume volid t)
  without_volume-IsValid volid = record {
    ids = Apart-keep same_id _ t.volumes valid.ids;
    names = Apart-keep same_name _ t.volumes valid.names;
    placed = Every-keep (IsPlaced vh) _ t.volumes valid.placed;
    sized = Every-keep IsSized _ t.volumes valid.sized;
    published = valid.published;
    nodes = valid.nodes;
  }

  pub with_capacity-IsValid :
      (v : Volume) (capacity : ℤ) → IsSize capacity → IsValid vh (with_capacity v capacity t)
  with_capacity-IsValid v capacity size = record {
    ids =
        Apart-set_capacity same_id v.vol_id capacity t.volumes (λ u. refl) (λ u x. refl) valid.ids;
    names =
        Apart-set_capacity same_name v.vol_id capacity t.volumes (λ u. refl) (λ u x. refl)
          valid.names;
    placed = Every-set_capacity (IsPlaced vh) v.vol_id capacity t.volumes (λ u p. p) valid.placed;
    sized = Every-set_capacity IsSized v.vol_id capacity t.volumes (λ u p. size) valid.sized;
    published = valid.published;
    nodes = valid.nodes;
  }

  pub add_controller_info-IsValid :
      (req : PublishRequest)
      → info_of req.volume_id req.node_id t ≡ none
      → IsValid vh (add_controller_info req t)
  add_controller_info-IsValid req absent = record {
    ids = valid.ids;
    names = valid.names;
    placed = valid.placed;
    sized = valid.sized;
    published = Apart-snoc same_place same_place_swap t.controller_infos _ valid.published absent;
    nodes = valid.nodes;
  }

  pub without_info-IsValid : (req : UnpublishRequest) → IsValid vh (without_info req t)
  without_info-IsValid req = record {
    ids = valid.ids;
    names = valid.names;
    placed = valid.placed;
    sized = valid.sized;
    published = Apart-keep same_place _ t.controller_infos valid.published;
    nodes = valid.nodes;
  }

  pub put_node-IsValid : (i : NodeInfo) → IsValid vh (record t { nodes = put_node i t.nodes })
  put_node-IsValid i = record {
    ids = valid.ids;
    names = valid.names;
    placed = valid.placed;
    sized = valid.sized;
    published = valid.published;
    nodes = Apart-put_node i t.nodes valid.nodes;
  }
