-- ===== src/Volumes/Details/Tables.antt =====
-- The queries for the listings leave the tables as they are.
use csi_sharedhostpath.Base.{List, [], ◌∷◌, ◌≡◌, refl, inl, inr, arith, Text}
use csi_sharedhostpath.Base.Int.{ℤ}
use csi_sharedhostpath.Base.Run.{Result-cases}
use csi_sharedhostpath.Host.Db.Laws.{DbLaws}
use csi_sharedhostpath.Host.Rows.{Volume}
use csi_sharedhostpath.Host.World.{World, Host, find, find_by_handle}
use csi_sharedhostpath.Volumes.Details.{
  get_volume_with_detail, get_volumes_with_detail, get_volume_count, volume_detail, volume_details,
}

module _ {D F : Type 0} (host : Host D F) (laws : DbLaws host.db) where
  open laws use {tables}

  volume_detail-tables :
      (tp : Text) (vol : Volume) (w : World D F)
      → tables (volume_detail host tp vol w).1.db ≡ tables w.db
  unfolding volume_detail find_by_handle
  volume_detail-tables tp vol w = ground (arith, laws.find_controller_infos_lem vol.vol_id w.db)

  volume_details-tables :
      (tp : Text) (vols : List Volume) (w : World D F)
      → tables (volume_details host tp vols w).1.db ≡ tables w.db
  unfolding volume_details
  volume_details-tables tp [] w = refl
  volume_details-tables tp (vol ∷ vols) w =
      let one = volume_detail host tp vol w in
      ground (arith, volume_detail-tables tp vol w, volume_details-tables tp vols one.1)

  pub get_volumes_with_detail-tables :
      (tp : Text) (offset limit : ℤ) (w : World D F)
      → tables (get_volumes_with_detail host tp offset limit w).1.db ≡ tables w.db
  unfolding get_volumes_with_detail find_by_handle
  get_volumes_with_detail-tables tp offset limit w =
      let ((rows, e), read) = host.db.find_volumes_page offset limit w.db in
      ground (
        arith,
        laws.find_page_tables offset limit w.db,
        volume_details-tables tp rows (record w { db = read }),
      )

  pub get_volume_count-tables :
      (tp : Text) (w : World D F) → tables (get_volume_count host tp w).1.db ≡ tables w.db
  unfolding get_volume_count find_by_handle
  get_volume_count-tables tp w = ground (arith, laws.find_ids w.db)

  pub get_volume_with_detail-tables :
      (tp volid : Text) (w : World D F)
      → tables (get_volume_with_detail host tp volid w).1.db ≡ tables w.db
  unfolding get_volume_with_detail find
  get_volume_with_detail-tables tp volid w =
      let (r, read) = host.db.first_volume_by_id volid w.db in
      let same = (laws.first_by_id volid w.db).1 in
      elim (Result-cases r) [
        | inr (e, missing) ↦ ground (arith, same)
        | inl (vol, found) ↦
            let infos = (laws.find_controller_infos_lem vol.vol_id read).1 in
            ground (arith, same, infos)
      ]
