-- ===== src/Volumes/Cleanup/Tables.antt =====
-- The jobs leave the tables as they are.
use csi_sharedhostpath.Base.{Option-cases, List, [], ◌∷◌, ◌≡◌, refl, ◌∙◌, inl, inr, arith, Text}
use csi_sharedhostpath.Host.Db.Laws.{DbLaws}
use csi_sharedhostpath.Host.World.{World, Host, find, find_by_handle}
use csi_sharedhostpath.Volumes.Cleanup.{
  clean_up_dangling_volumes, rebuild_sym_links, remove_all_dangling, remove_dangling,
  volumes_pattern, remove_all_deleted,
}
use csi_sharedhostpath.Volumes.Paths.{VolumeHelper}

module _ {D F : Type 0} (host : Host D F) (laws : DbLaws host.db) where
  open laws use {tables}

  pub rebuild_sym_links-tables :
      (vh : VolumeHelper) (w : World D F) → tables (rebuild_sym_links host vh w).1.db ≡ tables w.db
  unfolding rebuild_sym_links find
  rebuild_sym_links-tables vh w = ground (arith, laws.find_all w.db)

  remove_dangling-tables :
      (vh : VolumeHelper) (path : Text) (w : World D F)
      → tables (remove_dangling host vh path w).db ≡ tables w.db
  unfolding remove_dangling
  remove_dangling-tables vh path w = ground (arith, laws.find_by_path path w.db)

  remove_all_dangling-tables :
      (vh : VolumeHelper) (paths : List Text) (w : World D F)
      → tables (remove_all_dangling host vh paths w).db ≡ tables w.db
  unfolding remove_all_dangling
  remove_all_dangling-tables vh [] w = refl
  remove_all_dangling-tables vh (path ∷ paths) w =
      remove_all_dangling-tables vh paths (remove_dangling host vh path w)
      ∙ remove_dangling-tables vh path w

  pub clean_up_dangling_volumes-tables :
      (vh : VolumeHelper) (w : World D F)
      → tables (clean_up_dangling_volumes host vh w).1.db ≡ tables w.db
  unfolding clean_up_dangling_volumes find_by_handle
  clean_up_dangling_volumes-tables vh w =
      let ((rows, e), read) = host.db.find_deleted_volumes w.db in
      let ((paths, failure), globbed) =
        host.os.glob (volumes_pattern vh.vols_path) (remove_all_deleted host.os vh rows w.os) in
      let looked : World D F = record { db = read; os = globbed } in
      let removed = remove_all_dangling host vh paths looked in
      let same : tables read ≡ tables w.db = laws.find_deleted_tables w.db in
      elim (Option-cases (host.db.handle_error read)) [
        | inr (loud, is_loud) ↦ ground (arith, same)
        | inl quiet ↦ elim (Option-cases failure) [
          | inr (no_paths, is_none) ↦ ground (arith, same)
          | inl globs ↦ ground (
            arith,
            same,
            remove_all_dangling-tables vh paths looked,
            rebuild_sym_links-tables vh removed,
          )
        ]
      ]
