-- ===== src/Volumes/Cleanup/Links/Rebuilt.antt =====
-- The links of the volumes after `ReBuildSymLinks`.
use mathlib.Core.List.Perm
use mathlib.Core.List.{Mem}
use csi_sharedhostpath.Base.{none, some, List, ◌∷◌, ◌≡◌, ◌∙◌, ap, inl, arith, Text}
use csi_sharedhostpath.FilePath.Laws.{AllParts, abs_path}
use csi_sharedhostpath.Host.Db.Laws.{DbLaws}
use csi_sharedhostpath.Host.Db.Matching.{Finds-perm}
use csi_sharedhostpath.Host.Rows.{Volume}
use csi_sharedhostpath.Host.World.{World, Host, find}
use csi_sharedhostpath.Volumes.Cleanup.{link_volumes, rebuild_sym_links}
use csi_sharedhostpath.Volumes.Cleanup.Links.{LinkLaws, linked, HasPlainNames}
use csi_sharedhostpath.Volumes.Cleanup.Links.Loop.{Agree, HasRoom, IsOpen, link_volumes_linked}
use csi_sharedhostpath.Volumes.Paths.{VolumeHelper}

module _ {D F : Type 0} (host : Host D F) (laws : DbLaws host.db) (vh : VolumeHelper)
    (links : LinkLaws host.os vh.syms_path) where
  open laws use {tables}
  open links use {entry}

  reaches_links :
      (w : World D F)
      → let (removed, s) = host.os.remove_all vh.syms_path w.os in
        let (made, s') = host.os.mkdir_all vh.syms_path s in
        let ((rows, e), d) = host.db.find_volumes w.db in
        removed ≡ none
        → made ≡ none
        → e ≡ none
        → (rebuild_sym_links host vh w).1.os ≡ (link_volumes host.os vh none rows s').1
  unfolding rebuild_sym_links find
  reaches_links w removed made found = ground arith

  -- After a rebuild of the links, the link of a volume of the table is there, with the path of
  -- the volume, under its claim in its namespace, also where the links of other volumes cannot be
  -- made. The directory of the links has a clean absolute path, it could be removed and made
  -- again, the volumes could be read, namespaces and claims are plain names, volumes of one
  -- namespace and claim have one path, and for this volume there is room: the directory of its
  -- namespace can be made where nothing else is in its place, and the link in that directory
  -- where nothing is.
  pub rebuild_sym_links_linked :
      (w : World D F) (p : Text) (ps : List Text) (v : Volume)
      → vh.syms_path ≡ abs_path (p ∷ ps)
      → AllParts (p ∷ ps)
      → (host.os.remove_all vh.syms_path w.os).0 ≡ none
      → (host.os.mkdir_all vh.syms_path (host.os.remove_all vh.syms_path w.os).1).0 ≡ none
      → (host.db.find_volumes w.db).0.1 ≡ none
      → ((u : Volume) → Mem u (tables w.db).volumes → HasPlainNames u)
      → Agree (tables w.db).volumes
      → HasRoom host.os vh links v
      → Mem v (tables w.db).volumes
      → entry (rebuild_sym_links host vh w).1.os v.ns_name v.pvc_name ≡ some (linked v.vol_path)
  rebuild_sym_links_linked w p ps v syms parts removed made found plain_names agree room there =
      let s = (host.os.remove_all vh.syms_path w.os).1 in
      let s' = (host.os.mkdir_all vh.syms_path s).1 in
      let rows = (host.db.find_volumes w.db).0.0 in
      let perm =
        Finds-perm (host.db.find_volumes w.db).0 (tables w.db).volumes (laws.find_all w.db).0
          found in
      let in_table = λ (u : Volume) (m : Mem u rows). (Perm.mem_iff perm).0 m in
      let (plain, empty, no_entries) = links.remove_all_lem w.os removed in
      let (plain', same, same_entries) = links.mkdir_root_lem s plain in
      let is_open : IsOpen host.os vh links v s' = record {
        plain = plain';
        place = inl (same v.ns_name ∙ empty v.ns_name);
        free = inl (same_entries v.ns_name v.pvc_name ∙ no_entries v.ns_name v.pvc_name);
      } in
      ap (λ x. entry x v.ns_name v.pvc_name) (reaches_links w removed made found)
      ∙ link_volumes_linked host.os vh links p ps syms parts none rows v s'
          (λ u m. plain_names u (in_table u m)) (plain_names v there)
          (λ u m is_ns is_pvc. agree u v (in_table u m) there is_ns is_pvc) room is_open
          ((Perm.mem_iff perm).1 there)
