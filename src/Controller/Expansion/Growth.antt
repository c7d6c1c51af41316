-- ===== src/Controller/Expansion/Growth.antt =====
-- What an accepted `ControllerExpandVolume` answers and leaves.
use csi_sharedhostpath.Base.{
  inl, inr, ◌⊎◌, [], ◌∷◌, List, true, false, none, some, Bool-cases, ◌≡◌, arith, Text, ◌==◌,
  text_eq,
}
use csi_sharedhostpath.Base.Int.{ℤ, leb_ℤ}
use csi_sharedhostpath.Base.Run.{Result-cases, ok}
use csi_sharedhostpath.Capacity.{fix_capacity}
use csi_sharedhostpath.Controller.Requests.{ExpandRequest, ExpandResponse}
use csi_sharedhostpath.Controller.Expansion.{controller_expand_volume}
use csi_sharedhostpath.Host.Rows.{Volume}
use csi_sharedhostpath.Host.Db.Laws.{DbLaws, Tables, first, has_id, set_capacity}
use csi_sharedhostpath.Host.World.{World, Host}
use csi_sharedhostpath.Volumes.Store.{get_volume, update_volume_capacity}
use csi_sharedhostpath.Volumes.Store.Delete.{first-has_id}
use csi_sharedhostpath.Volumes.Store.Expand.{with_capacity, update_volume_capacity_success}

pub first-set_capacity :
    (volid other : Text) (capacity : ℤ) (l : List Volume) (v : Volume)
    → other ≡ volid
    → first (has_id volid) l ≡ some v
    → first (has_id volid) (set_capacity other capacity l) ≡ some (record v { capacity = capacity })
first-set_capacity volid other capacity [] v same e = cc
first-set_capacity volid other capacity (x ∷ l) v same e = elim (Bool-cases (x.vol_id == volid)) [
  | inl here ↦ ground arith
  | inr there ↦ ground (arith, first-set_capacity volid other capacity l v same)
]

-- The answer to a request for a volume is at least the rounded size and at least the old capacity,
-- it is the capacity that the volume's row has afterwards, and the node has to act exactly if a
-- block volume has grown.
abbrev pub Expands : Text → ℤ → Tables → ExpandResponse → Tables → Type 0
Expands volid required t answer t' =
    (vol : Volume) × (first (has_id volid) t.volumes ≡ some vol)
    × (first (has_id volid) t'.volumes ≡ some (record vol { capacity = answer.capacity_bytes }))
    × (leb_ℤ (fix_capacity required) answer.capacity_bytes ≡ true)
    × (leb_ℤ vol.capacity answer.capacity_bytes ≡ true)
    × ((answer.node_expansion_required ≡ false) × (answer.capacity_bytes ≡ vol.capacity) × (t' ≡ t)
        ⊎ (answer.node_expansion_required ≡ vol.is_block)
          × (answer.capacity_bytes ≡ fix_capacity required)
          × (t' ≡ with_capacity vol answer.capacity_bytes t))

leb_ℤ_refl : (i : ℤ) → leb_ℤ i i ≡ true
leb_ℤ_refl i = ground arith

pub leb_ℤ_total : (i j : ℤ) → leb_ℤ i j ≡ false → leb_ℤ j i ≡ true
leb_ℤ_total i j e = ground arith

module _ {D F : Type 0} (host : Host D F) (laws : DbLaws host.db) where
  open laws use {tables}

  module _ (req : ExpandRequest) (required : ℤ) (w : World D F) (answer : ExpandResponse)
      (asked : req.capacity_range ≡ some required)
      (accepted : (controller_expand_volume host req w).0 ≡ ok answer) where
    -- The state after the query.
    abbrev read : World D F
    read = record w { db = (host.db.first_volume_by_id req.volume_id w.db).1 }

    enough-Expands :
        (vol : Volume)
        → (host.db.first_volume_by_id req.volume_id w.db).0 ≡ ok vol
        → leb_ℤ (fix_capacity required) vol.capacity ≡ true
        → Expands req.volume_id required
            (tables w.db)
            answer
            (tables (controller_expand_volume host req w).1.db)
    unfolding controller_expand_volume get_volume
    enough-Expands vol found enough =
        let same : tables (controller_expand_volume host req w).1.db ≡ tables w.db =
          ground (arith, (laws.first_by_id req.volume_id w.db).1) in
        let size : answer.capacity_bytes ≡ vol.capacity = ground arith in
        let there : first (has_id req.volume_id) (tables w.db).volumes ≡ some vol =
          rw found at (laws.first_by_id req.volume_id w.db).0 in
        (
          vol,
          there,
          rw (same, size) there,
          rw size enough,
          rw size (leb_ℤ_refl vol.capacity),
          inl (ground arith, size, same),
        )

    short-Expands :
        (vol : Volume)
        → (host.db.first_volume_by_id req.volume_id w.db).0 ≡ ok vol
        → leb_ℤ (fix_capacity required) vol.capacity ≡ false
        → Expands req.volume_id required
            (tables w.db)
            answer
            (tables (controller_expand_volume host req w).1.db)
    unfolding controller_expand_volume get_volume
    short-Expands vol found short =
        let done : (update_volume_capacity host vol (fix_capacity required) read).0 ≡ none =
          ground arith in
        let size : answer.capacity_bytes ≡ fix_capacity required = ground arith in
        let there : first (has_id req.volume_id) (tables w.db).volumes ≡ some vol =
          rw found at (laws.first_by_id req.volume_id w.db).0 in
        let grown : tables (controller_expand_volume host req w).1.db
            ≡ with_capacity vol answer.capacity_bytes (tables w.db) =
          ground (
            arith,
            (update_volume_capacity_success host laws vol (fix_capacity required) read done).0,
            (laws.first_by_id req.volume_id w.db).1,
          ) in
        (
          vol,
          there,
          rw grown (
              first-set_capacity req.volume_id vol.vol_id answer.capacity_bytes
                (tables w.db).volumes vol
                (first-has_id req.volume_id (tables w.db).volumes vol there) there),
          rw size (leb_ℤ_refl (fix_capacity required)),
          rw size (leb_ℤ_total (fix_capacity required) vol.capacity short),
          inr (ground arith, size, grown),
        )

    -- An accepted request to expand a volume by a range was for a volume of the table; its answer
    -- is at least the rounded size and at least the old capacity, and is the capacity that the
    -- row has afterwards. Either the volume was large enough, no table has changed and the node
    -- need not act; or the row got the rounded size, and the node has to act exactly for a block
    -- volume.
    pub controller_expand_volume-Expands :
        Expands req.volume_id required
          (tables w.db)
          answer
          (tables (controller_expand_volume host req w).1.db)
    unfolding controller_expand_volume get_volume
    controller_expand_volume-Expands =
        elim (Result-cases (host.db.first_volume_by_id req.volume_id w.db).0) [
          | inr (e, missing) ↦ absurd (ground arith)
          | inl (vol, found) ↦ elim (Bool-cases (leb_ℤ (fix_capacity required) vol.capacity)) [
            | inl enough ↦ enough-Expands vol found enough
            | inr short ↦ short-Expands vol found short
          ]
        ]
