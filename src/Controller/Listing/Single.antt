-- ===== src/Controller/Listing/Single.antt =====
-- What the controller reports of one volume.
use csi_sharedhostpath.Base.{
  true, false, none, some, ◌≡◌, ◌↔◌, refl, ap, sym, subst, inl, inr, Option-cases, arith, map, Text,
  ◌==◌, text_eq, List, Option, Bool, Bool-cases, if◌then◌else◌,
}
use mathlib.Core.List.{Perm}
use mathlib.Core.List.Perm
use csi_sharedhostpath.Base.Dict.{lookup, lookup-insert}
use csi_sharedhostpath.Base.Strings.{codes}
use csi_sharedhostpath.Host.Db.{Err}
use csi_sharedhostpath.Host.Db.Matching.{Finds-perm}
use csi_sharedhostpath.Host.Os.{FileInfo}
use csi_sharedhostpath.Base.Int.{int_eq}
use csi_sharedhostpath.Base.Run.{Result, ok, err, Result-cases, Result}
use csi_sharedhostpath.Controller.Listing.{entry_of, controller_get_volume}
use csi_sharedhostpath.Controller.Requests.{Entry}
use csi_sharedhostpath.Host.Db.Laws.{DbLaws, first, keep, has_id}
use csi_sharedhostpath.Host.Rows.{Volume, ControllerPublishVolumeInfo}
use csi_sharedhostpath.Host.World.{World, Host, find}
use csi_sharedhostpath.Volumes.Details.{detail_of, condition, parameters_of, get_volume_with_detail}
use csi_sharedhostpath.Volumes.Store.Delete.{first-has_id}

module _ {A : Type 0} where
  if_twice : (b : Bool) (x y z : A) → (if b then x else if b then y else z) ≡ (if b then x else z)
  if_twice true x y z = refl
  if_twice false x y z = refl

module _ {D F : Type 0} (host : Host D F) (laws : DbLaws host.db) (tp volid : Text) (w : World D F)
    (entry : Entry) (accepted : (controller_get_volume host tp volid w).0 ≡ ok entry) where
  open laws use {tables}

  -- The state after the query for the volume.
  abbrev read : D
  read = (host.db.first_volume_by_id volid w.db).1

  -- The detail that was found.
  got_detail :
      (vol : Volume) × (cpvis : List ControllerPublishVolumeInfo) × ((host.db.first_volume_by_id
          volid w.db).0
        ≡ ok vol)
      × ((host.db.find_controller_infos vol.vol_id read).0 ≡ (cpvis, none))
      × (entry ≡ entry_of (detail_of tp vol cpvis (host.os.stat vol.vol_path w.os).0))
  unfolding controller_get_volume get_volume_with_detail find
  got_detail = elim (Result-cases (host.db.first_volume_by_id volid w.db).0) [
    | inr (e, missing) ↦ absurd (ground arith)
    | inl (vol, found) ↦
        let rows = (host.db.find_controller_infos vol.vol_id read).0 in
        elim (Option-cases rows.1) [
          | inr (e, broken) ↦ absurd (ground arith)
          | inl clear ↦ (vol, rows.0, found, ground arith, ground arith)
        ]
  ]

  -- The file of the volume is there, and for a block volume it has the capacity of the row.
  abbrev pub IsSound : Volume → Type 0
  IsSound vol =
      (fi : FileInfo) × ((host.os.stat vol.vol_path w.os).0 ≡ ok fi)
      × (vol.is_block ≡ true → fi.size ≡ vol.capacity)

  condition-IsSound :
      (vol : Volume) (r : Result Err FileInfo)
      → (host.os.stat vol.vol_path w.os).0 ≡ r
      → ((condition vol r).0 ≡ false) ↔ IsSound vol
  unfolding condition
  condition-IsSound vol (ok fi) looked =
      (λ h. (fi, looked, λ b. ground arith), λ (fj, there, sized). ground arith)
  condition-IsSound vol (err e) looked = (λ h. cc, λ (fj, there, sized). cc)

  -- The value of each key: the type parameter says whether the volume is a disk or a folder, and
  -- three keys of Kubernetes have the names of the claim and of the persistent volume.
  abbrev pub parameter : Volume → Text → Option Text
  parameter vol k =
      if tp == k
      then some (if vol.is_block then codes "disk" else codes "folder")
      else if codes "csi.storage.k8s.io/pvc/namespace" == k
      then some vol.ns_name
      else if codes "csi.storage.k8s.io/pvc/name" == k
      then some vol.pvc_name
      else if codes "csi.storage.k8s.io/pv/name" == k
      then some vol.pv_name
      else none

  parameters_of_lem : (vol : Volume) (k : Text) → lookup k (parameters_of tp vol) ≡ parameter vol k
  unfolding parameters_of lookup
  parameters_of_lem vol k = elim (Bool-cases vol.is_block) [
    | inl disk ↦ simp (lookup-insert, disk, if_twice) refl
    | inr folder ↦ simp (lookup-insert, folder) refl
  ]

  -- The entry is that of the row: the identifier, the capacity, the parameters, the nodes of its
  -- infos in some order, and an abnormal condition exactly if its file is not sound.
  abbrev pub Describes : Volume → Entry → Type 0
  Describes vol e =
      (e.volume_id ≡ volid)
      × (e.capacity_bytes ≡ vol.capacity)
      × ((k : Text) → lookup k e.volume_context ≡ parameter vol k)
      × Perm e.published_node_ids (
          map (λ (i : ControllerPublishVolumeInfo). i.node_id)
            (keep (λ i. i.vol_id == volid) (tables w.db).controller_infos))
      × ((e.abnormal ≡ false) ↔ IsSound vol)

  -- An accepted request for one volume was for a volume in a row, and its answer has the
  -- identifier and the capacity of the row, parameters that say disk for a block volume and
  -- folder for another under the type parameter and beside it have the namespace, the claim and
  -- the persistent volume of the row under the keys of Kubernetes and nothing else, the nodes of
  -- the publications of the volume, in some order, and an abnormal condition exactly if the file
  -- of the volume cannot be examined, or the volume is a block volume and its file has another
  -- size than the row says.
  pub controller_get_volume_accepted :
      (vol : Volume) × (first (has_id volid) (tables w.db).volumes ≡ some vol) × Describes vol entry
  unfolding detail_of
  controller_get_volume_accepted =
      let (vol, cpvis, found, got, is_entry) = got_detail in
      let (answers, same) = laws.first_by_id volid w.db in
      let row : first (has_id volid) (tables w.db).volumes ≡ some vol = rw found at answers in
      let named = first-has_id volid (tables w.db).volumes vol row in
      let (rows, kept) = laws.find_controller_infos_lem vol.vol_id read in
      let perm : Perm cpvis (keep (λ i. i.vol_id == volid) (tables w.db).controller_infos) =
        rw (ap (λ r. r.0) got, same, named) at (Finds-perm _ _ rows (ap (λ r. r.1) got)) in
      (
        vol,
        row,
        subst (Describes vol) (sym is_entry) (
          named,
          refl,
          parameters_of_lem vol,
          Perm.map (λ (i : ControllerPublishVolumeInfo). i.node_id) perm,
          condition-IsSound vol _ refl,
        ),
      )
