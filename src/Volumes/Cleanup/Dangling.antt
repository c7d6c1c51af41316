-- ===== src/Volumes/Cleanup/Dangling.antt =====
-- Which paths the cleanup removes.
use mathlib.Core.List.Perm
use csi_sharedhostpath.Base.{
  none, some, List, [], ◌∷◌, ◌++◌, ◌≡◌, ◌≢◌, refl, sym, ap, ◌∙◌, ◌⊎◌, inl, inr, arith, Text, length,
  length-append,
}
use csi_sharedhostpath.FilePath.Laws.{
  IsPart, AllParts, abs_path, abs_path_onto-append, abs_path_onto-cancel, join-abs_path,
}
use csi_sharedhostpath.Host.Rows.{Volume}
use csi_sharedhostpath.Host.Db.{Err}
use csi_sharedhostpath.Host.Db.Laws.{DbLaws, Tables, first, keep, has_path}
use csi_sharedhostpath.Host.World.{World, Host}
use csi_sharedhostpath.Host.Db.Matching.{Finds-perm}
use csi_sharedhostpath.Volumes.Paths.{VolumeHelper, volume_path, slice}
use csi_sharedhostpath.Volumes.Paths.Layout.{shards, volume_path-abs_path}
use csi_sharedhostpath.Volumes.Cleanup.{deleted_path, remove_dangling, remove_all_dangling}

-- Some row has the path.
abbrev pub IsUsed : Text → Tables → Type 0
IsUsed path t = first (has_path path) t.volumes ≢ none

first-keep_nil :
    (path : Text) (l : List Volume) → keep (has_path path) l ≡ [] → first (has_path path) l ≡ none
first-keep_nil path [] e = refl
first-keep_nil path (x ∷ l) e = ground (arith, first-keep_nil path l)

keep-first-none :
    (path : Text) (l : List Volume) → first (has_path path) l ≡ none → keep (has_path path) l ≡ []
keep-first-none path [] e = refl
keep-first-none path (x ∷ l) e = ground (arith, keep-first-none path l)

List-cases : (l : List Volume) → (l ≡ []) ⊎ ((v : Volume) × (vs : List Volume) × (l ≡ v ∷ vs))
List-cases [] = inl refl
List-cases (v ∷ vs) = inr (v, vs, refl)

module _ {D F : Type 0} (host : Host D F) (vh : VolumeHelper) where
  -- If the query by path reports no rows and an error, the path is removed, although a row may
  -- have it.
  remove_dangling_on_error :
      (path : Text) (e : Err) (w : World D F)
      → (host.db.find_volumes_by_path path w.db).0 ≡ ([], some e)
      → (remove_all_dangling host vh (path ∷ []) w).os ≡ (host.os.remove_all path w.os).1
  unfolding remove_all_dangling
  remove_dangling_on_error path e w failed = ground arith

  module _ (laws : DbLaws host.db) where
    open laws use {tables}

    -- No query by path fails.
    abbrev pub Answered : Type 0
    Answered = (path : Text) (d : D) → (host.db.find_volumes_by_path path d).0.1 ≡ none

    remove_dangling-tables :
        (path : Text) (w : World D F) → tables (remove_dangling host vh path w).db ≡ tables w.db
    unfolding remove_dangling
    remove_dangling-tables path w = ground (arith, laws.find_by_path path w.db)

    -- One path: it is removed exactly if no row has it.
    removed_or_kept :
        Answered
        → (path : Text) (w : World D F)
        → (IsUsed path (tables w.db) × ((remove_dangling host vh path w).os ≡ w.os))
          ⊎ ((first (has_path path) (tables w.db).volumes ≡ none)
              × ((remove_dangling host vh path w).os ≡ (host.os.remove_all path w.os).1))
    unfolding remove_dangling
    removed_or_kept answered path w =
        let found = laws.find_by_path path w.db in
        let rows =
          Finds-perm (host.db.find_volumes_by_path path w.db).0 _ found.0 (answered path w.db) in
        elim (List-cases (host.db.find_volumes_by_path path w.db).0.0) [
          | inl empty ↦
              let unused =
                first-keep_nil path (tables w.db).volumes (sym (Perm.nil-eq (rw empty at rows))) in
              inr (unused, ground arith)
          | inr (v, vs, some_rows) ↦ inl (
            λ unused. cc (
              some_rows,
              Perm.eq-nil (rw (keep-first-none path (tables w.db).volumes unused) at rows),
            ),
            ground arith,
          )
        ]

    -- Where no query by path fails, the removal of dangling paths keeps whatever the removal of
    -- paths that are in no row keeps: no path of a row is removed.
    pub remove_all_dangling_keeps :
        Answered
        → (P : F → Type 0) (t : Tables)
        → ((path : Text) (s : F) → ¬ IsUsed path t → P s → P (host.os.remove_all path s).1)
        → (paths : List Text) (w : World D F) → tables w.db ≡ t
        → P w.os
        → P (remove_all_dangling host vh paths w).os
    unfolding remove_all_dangling
    remove_all_dangling_keeps answered P t keeps [] w e h = h
    remove_all_dangling_keeps answered P t keeps (path ∷ paths) w e h =
        remove_all_dangling_keeps answered P t keeps paths (remove_dangling host vh path w)
          (remove_dangling-tables path w ∙ e)
          (elim (removed_or_kept answered path w) [
            | inl (used, same) ↦ rw same h
            | inr (unused, gone) ↦ rw gone (keeps path w.os (λ used. used (rw (← e) unused)) h)
          ])

    -- Where no query by path fails, each path of the list that is in no row is removed, if the
    -- removal of a path has an effect that later removals keep.
    remove_all_dangling_removes :
        Answered
        → (Gone : Text → F → Type 0) (t : Tables)
        → ((path : Text) (s : F) → Gone path (host.os.remove_all path s).1)
        → ((path other : Text) (s : F) → Gone path s → Gone path (host.os.remove_all other s).1)
        → (before : List Text) (path : Text) (rest : List Text) (w : World D F) → tables w.db ≡ t
        → ¬ IsUsed path t
        → Gone path (remove_all_dangling host vh (before ++ (path ∷ rest)) w).os
    unfolding remove_all_dangling
    remove_all_dangling_removes answered Gone t gone stays [] path rest w e unused =
        remove_all_dangling_keeps answered (Gone path) t (λ other s _ g. stays path other s g) rest
          (remove_dangling host vh path w) (remove_dangling-tables path w ∙ e)
          (elim (removed_or_kept answered path w) [
            | inl (used, same) ↦ absurd (unused (rw (← e) used))
            | inr (none_has, removed) ↦ rw removed (gone path w.os)
          ])
    remove_all_dangling_removes answered Gone t gone stays (other ∷ before) path rest w e unused =
        remove_all_dangling_removes answered Gone t gone stays before path rest
          (remove_dangling host vh other w) (remove_dangling-tables other w ∙ e) unused

longer : (a b c s : Text) → ¬ (abs_path (s ∷ []) ≡ abs_path (a ∷ b ∷ c ∷ s ∷ []))
longer a b c s e =
    let n : length (abs_path (s ∷ [])) ≡ length (abs_path (a ∷ b ∷ c ∷ s ∷ [])) = ap length e in
    omega (arith, length-append {0})

-- Below a directory with a clean absolute path, the path where phase 1 of the cleanup looks for a
-- deleted volume, whose identifier and its three directories are plain names, is not the path of
-- that volume.
pub deleted_path-ne-volume_path :
    (p : Text) (ps : List Text) (syms : Text) (vol : Volume)
    → AllParts (p ∷ ps)
    → AllParts (shards vol.vol_id)
    → IsPart vol.vol_id
    → let vols = abs_path (p ∷ ps) in
      deleted_path (record { vols_path = vols; syms_path = syms }) vol ≢ volume_path vols vol.vol_id
unfolding deleted_path
deleted_path-ne-volume_path p ps syms vol h k i e =
    let tail = shards vol.vol_id ++ (vol.vol_id ∷ []) in
    let paths : abs_path ((p ∷ ps) ++ (vol.vol_id ∷ [])) ≡ abs_path ((p ∷ ps) ++ tail) =
      sym (join-abs_path p ps vol.vol_id h i) ∙ e ∙ volume_path-abs_path p ps vol.vol_id h k i in
    let same : abs_path (vol.vol_id ∷ []) ≡ abs_path tail = abs_path_onto-cancel (p ∷ ps) (
      sym (abs_path_onto-append (p ∷ ps) (vol.vol_id ∷ []) [])
      ∙ paths
      ∙ abs_path_onto-append (p ∷ ps) tail []) in
    longer (slice vol.vol_id 0 2) (slice vol.vol_id 2 4) (slice vol.vol_id 4 6) vol.vol_id same
