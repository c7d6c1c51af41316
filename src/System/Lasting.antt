-- ===== src/System/Lasting.antt =====
-- Volumes over a sequence of events, and the requests that can take one away.
pub mod Publications
use csi_sharedhostpath.Base.{
  Bool, true, false, not, Option, none, some, List, [], ◌∷◌, ◌++◌, ◌≡◌, ◌≢◌, refl, ap, ◌∙◌, subst,
  inl, inr, Bool-cases, arith, Text, ◌==◌, ◌&&◌, text_eq, Text-discrete,
}
use csi_sharedhostpath.Base.Int.{ℤ, leb_ℤ}
use csi_sharedhostpath.Controller.Expansion.Growth.{first-set_capacity}
use csi_sharedhostpath.Controller.Publishing.Table.{info_of}
use csi_sharedhostpath.Controller.Requests.{UnpublishRequest}
use csi_sharedhostpath.Host.Db.Laws.{
  DbLaws, Tables, first, keep, has_id, is_controller_info, is_node_info, set_capacity,
}
use csi_sharedhostpath.Host.Db.Matching.{first-kept, first-appended}
use csi_sharedhostpath.Host.Rows.{Volume, ControllerPublishVolumeInfo, NodePublishVolumeInfo}
use csi_sharedhostpath.Host.World.{World, Host}
use csi_sharedhostpath.Node.{Devices, NodeUnpublishRequest}
use csi_sharedhostpath.Volumes.Store.Delete.{first-has_id}
use csi_sharedhostpath.Volumes.Paths.{VolumeHelper}
use csi_sharedhostpath.System.{Event, delete, unpublish, node_unpublish, serve_all}
use csi_sharedhostpath.System.Apart.{Every}
use csi_sharedhostpath.System.Steps.{
  AllSmall, Step, stays, creates, deletes, expands, publishes, unpublishes, node_publishes,
  node_unpublishes, sees, Steps-induction, Steps,
}
use csi_sharedhostpath.System.Refinement.{AnswersNames, serve_all-Steps}

leb_ℤ_refl : (i : ℤ) → leb_ℤ i i ≡ true
leb_ℤ_refl i = ground arith

leb_ℤ_trans : (i j k : ℤ) → leb_ℤ i j ≡ true → leb_ℤ j k ≡ true → leb_ℤ i k ≡ true
leb_ℤ_trans i j k e f = ground arith

pub first-set_capacity-other :
    (volid other : Text) (c : ℤ) (l : List Volume)
    → other ≢ volid
    → first (has_id volid) (set_capacity other c l) ≡ first (has_id volid) l
first-set_capacity-other volid other c [] apart = refl
first-set_capacity-other volid other c (x ∷ l) apart =
    ground (arith, first-set_capacity-other volid other c l apart)

-- The volume is in its row, as it was but for a capacity that has not become smaller.
abbrev pub IsKept : Text → Volume → Tables → Type 0
IsKept volid v t =
    (c : ℤ) × (leb_ℤ v.capacity c ≡ true)
    × (first (has_id volid) t.volumes ≡ some (record v { capacity = c }))

module _ {F : Type 0} where
  -- The event is no request to delete the volume.
  abbrev pub SparesVolume : Text → Event F → Type 0
  SparesVolume volid (delete other) = other ≢ volid
  SparesVolume volid _ = Unit

module _ (volid : Text) (v : Volume) (t u : Tables) where
  -- The same volumes.
  same_volumes-IsKept : u.volumes ≡ t.volumes → IsKept volid v t → IsKept volid v u
  same_volumes-IsKept same (c, larger, there) = (c, larger, ap (first (has_id volid)) same ∙ there)

  expanded-IsKept :
      (other : Text) (found : Volume) (c : ℤ)
      → leb_ℤ found.capacity c ≡ true
      → first (has_id other) t.volumes ≡ some found
      → u.volumes ≡ set_capacity other c t.volumes
      → IsKept volid v t
      → IsKept volid v u
  expanded-IsKept other found c more at_id grown (old, larger, there) =
      elim (Text-discrete other volid) [
        | yes same ↦
            let one : some found ≡ some (record v { capacity = old }) = cc in
            let size : found.capacity ≡ old = cc in
            (
              c,
              leb_ℤ_trans v.capacity old c larger (subst (λ k. leb_ℤ k c ≡ true) size more),
              ap (first (has_id volid)) grown
                  ∙ first-set_capacity volid other c t.volumes _ same there,
            )
        | no apart ↦ (
          old,
          larger,
          ap (first (has_id volid)) grown
              ∙ first-set_capacity-other volid other c t.volumes apart
              ∙ there,
        )
      ]

module _ {F : Type 0} (vh : VolumeHelper) where
  Step-IsKept :
      (volid : Text) (v : Volume) (event : Event F) (t u : Tables)
      → Step vh event t u
      → SparesVolume volid event
      → IsKept volid v t
      → IsKept volid v u
  Step-IsKept volid v event t u (stays same) spared kept =
      same_volumes-IsKept volid v t u (ap (λ (w : Tables). w.volumes) same) kept
  Step-IsKept volid v event t u (creates req n is new_id named new_name here size grown) spared
        (c, larger, there) =
      (c, larger, rw grown (first-appended (has_id volid) t.volumes (n ∷ []) _ there))
  Step-IsKept volid v event t u (deletes other is less) spared (c, larger, there) =
      let apart = subst (SparesVolume volid) is spared in
      (
        c,
        larger,
        rw less (
            first-kept (has_id volid) (λ x. not (has_id other x)) t.volumes (λ x here. ground arith)
            ∙ there),
      )
  Step-IsKept volid v event t u (expands req found c is at_id size more grown) spared kept =
      let named = first-has_id req.volume_id t.volumes found at_id in
      expanded-IsKept volid v t u req.volume_id found c more at_id
        (ap (λ (w : Tables). w.volumes) grown ∙ ap (λ x. set_capacity x c t.volumes) named) kept
  Step-IsKept volid v event t u (publishes req is absent grown) spared kept =
      same_volumes-IsKept volid v t u (ap (λ (w : Tables). w.volumes) grown) kept
  Step-IsKept volid v event t u (unpublishes req is less) spared kept =
      same_volumes-IsKept volid v t u (ap (λ (w : Tables). w.volumes) less) kept
  Step-IsKept volid v event t u (node_publishes node req raw is there grown) spared kept =
      same_volumes-IsKept volid v t u (ap (λ (w : Tables). w.volumes) grown) kept
  Step-IsKept volid v event t u (node_unpublishes node req is less) spared kept =
      same_volumes-IsKept volid v t u (ap (λ (w : Tables). w.volumes) less) kept
  Step-IsKept volid v event t u (sees i is put) spared kept =
      same_volumes-IsKept volid v t u (ap (λ (w : Tables). w.volumes) put) kept

module _ {D F : Type 0} (host : Host D F) (laws : DbLaws host.db) (devices : Devices F)
    (vh : VolumeHelper) (answering : AnswersNames host laws devices vh) (tp fp : Text)
    (events : List (Event F)) (w : World D F) (small : AllSmall events) where
  open laws use {tables}

  -- The tables after the events.
  abbrev end : Tables
  end = tables (serve_all host devices vh tp fp events w).db

  -- The tables after the events come from those before them by the steps.
  took : Steps vh events (tables w.db) (tables (serve_all host devices vh tp fp events w).db)
  took = serve_all-Steps host laws devices vh answering tp fp events w small

  -- A volume stays in its row over every sequence of events without a request to delete it:
  -- nothing of the row changes but the capacity, which does not become smaller. The queries for a
  -- name are answered, and requests for a size ask for at most 2^63 - 2^20 bytes.
  pub serve_all-IsKept :
      (v : Volume)
      → first (has_id v.vol_id) (tables w.db).volumes ≡ some v
      → Every (SparesVolume v.vol_id) events
      → IsKept v.vol_id v end
  serve_all-IsKept v there spared =
      Steps-induction vh (IsKept v.vol_id v) (SparesVolume v.vol_id) (Step-IsKept vh v.vol_id v)
        events (tables w.db) _ took spared (v.capacity, leb_ℤ_refl v.capacity, there)
