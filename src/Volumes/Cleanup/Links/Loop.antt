-- ===== src/Volumes/Cleanup/Links/Loop.antt =====
-- The loop of `ReBuildSymLinks` over the volumes.
use mathlib.Core.Logic.Or
use mathlib.Core.List.{Mem, not-mem-nil, mem-cons_self, mem-cons_of_mem, eq-or-mem_of_mem-cons}
use csi_sharedhostpath.Base.{
  true, false, Option, none, some, List, [], ◌∷◌, ◌≡◌, sym, ap, ◌∙◌, ◌⊎◌, inl, inr, Text,
  Text-discrete,
}
use csi_sharedhostpath.FilePath.Laws.{IsPart, AllParts, abs_path}
use csi_sharedhostpath.Host.Db.{Err}
use csi_sharedhostpath.Host.Os.{Os}
use csi_sharedhostpath.Host.Rows.{Volume}
use csi_sharedhostpath.Volumes.Cleanup.{link_volumes}
use csi_sharedhostpath.Volumes.Cleanup.Links.{
  LinkLaws, Entry, linked, HasPlainNames, made, link_made, link_volume_steps,
}
use csi_sharedhostpath.Volumes.Files.{link_volume}
use csi_sharedhostpath.Volumes.Paths.{VolumeHelper}

Entry-prop : (x y : Option Entry) → IsProp (x ≡ y)
Entry-prop x y = hlevel Text-discrete

-- Volumes of one namespace and one claim have one path.
abbrev pub Agree : List Volume → Type 0
Agree vols =
    (v u : Volume)
    → Mem v vols
    → Mem u vols
    → v.ns_name ≡ u.ns_name
    → v.pvc_name ≡ u.pvc_name
    → v.vol_path ≡ u.vol_path

module _ {F : Type 0} (os : Os F) (vh : VolumeHelper) (laws : LinkLaws os vh.syms_path) where
  open laws use {IsPlain, has_dir, taken, entry}

  -- At the name of the volume's namespace there is nothing or a directory, and at the name of its
  -- claim nothing or the link to the volume.
  pub record IsOpen (v : Volume) (s : F) : Type 0 where
    pub plain : IsPlain s
    pub place : (taken s v.ns_name ≡ false) ⊎ (has_dir s v.ns_name ≡ true)
    pub free :
        (entry s v.ns_name v.pvc_name ≡ none)
        ⊎ (entry s v.ns_name v.pvc_name ≡ some (linked v.vol_path))

  -- There is room for the link of a volume: the directory of its namespace can be made where
  -- nothing else is in its place, and the link where the directory is there and nothing is in its
  -- place.
  pub record HasRoom (v : Volume) : Type 0 where
    pub makes_dir :
        (s : F)
        → IsPlain s
        → (taken s v.ns_name ≡ false) ⊎ (has_dir s v.ns_name ≡ true)
        → (made os vh.syms_path v s).0 ≡ none
    pub makes_link :
        (s : F)
        → IsPlain s
        → has_dir s v.ns_name ≡ true
        → entry s v.ns_name v.pvc_name ≡ none
        → (link_made os vh.syms_path v s).0 ≡ none

module _ {F : Type 0} (os : Os F) (vh : VolumeHelper) (laws : LinkLaws os vh.syms_path) (p : Text)
    (ps : List Text) (syms : vh.syms_path ≡ abs_path (p ∷ ps)) (parts : AllParts (p ∷ ps)) where
  open laws use {IsPlain, has_dir, taken, entry}

  -- What one volume of the loop leaves alone.
  link_volume_plain :
      (u : Volume) (s : F) → HasPlainNames u → IsPlain s → IsPlain (link_volume os vh u s).1
  link_volume_plain u s names plain =
      let plain' = laws.mkdir_all_plain u.ns_name s names.0 plain in
      elim (link_volume_steps os vh laws p ps syms parts u s names) [
        | inl (done, e) ↦ rw e (
            laws.symlink_plain u.vol_path u.ns_name u.pvc_name (made os vh.syms_path u s).1 names.0
              names.1 plain')
        | inr (fails, e) ↦ rw e plain'
      ]

  -- What one volume of the loop does to two levels of names.
  link_volume_kept :
      (u : Volume) (m n : Text) (s : F)
      → let s' = (link_volume os vh u s).1 in
        HasPlainNames u
        → IsPart m
        → IsPart n
        → IsPlain s
        → ((entry s' m n ≡ entry s m n)
            ⊎ ((u.ns_name ≡ m)
                × (u.pvc_name ≡ n)
                × (entry s m n ≡ none)
                × (entry s' m n ≡ some (linked u.vol_path))))
          × (has_dir s m ≡ true → has_dir s' m ≡ true)
          × ((taken s' m ≡ taken s m) ⊎ (has_dir s' m ≡ true))
  link_volume_kept u m n s names is_m is_n plain =
      let s1 = (made os vh.syms_path u s).1 in
      let plain1 = laws.mkdir_all_plain u.ns_name s names.0 plain in
      let (entries1, dirs1, taken1) = laws.mkdir_all_kept u.ns_name m n s names.0 is_m is_n plain in
      let (entries2, dirs2, taken2) =
        laws.symlink_kept u.vol_path u.ns_name u.pvc_name m n s1 names.0 names.1 is_m is_n plain1 in
      elim (link_volume_steps os vh laws p ps syms parts u s names) [
        | inr (fails, e) ↦ rw e (inl entries1, dirs1, taken1)
        | inl (done, e) ↦ rw e (
          elim entries2 [
            | inl same ↦ inl (same ∙ entries1)
            | inr (is_ns, is_pvc, free, now) ↦ inr (is_ns, is_pvc, sym entries1 ∙ free, now)
          ],
          λ h. dirs2 ∙ dirs1 h,
          elim taken1 [ inl same ↦ inl (taken2 ∙ same) | inr dir ↦ inr (dirs2 ∙ dir) ],
        )
      ]

  link_volume_linked :
      (v : Volume) (s : F)
      → HasPlainNames v
      → HasRoom os vh laws v
      → IsOpen os vh laws v s
      → entry (link_volume os vh v s).1 v.ns_name v.pvc_name ≡ some (linked v.vol_path)
  link_volume_linked v s names room is_open =
      let s1 = (made os vh.syms_path v s).1 in
      let plain1 = laws.mkdir_all_plain v.ns_name s names.0 is_open.plain in
      let made_it = room.makes_dir s is_open.plain is_open.place in
      let dir = laws.mkdir_all_done v.ns_name s names.0 is_open.plain made_it in
      let same =
        (laws.mkdir_all_kept v.ns_name v.ns_name v.pvc_name s names.0 names.0 names.1
          is_open.plain).0 in
      let kept =
        (laws.symlink_kept v.vol_path v.ns_name v.pvc_name v.ns_name v.pvc_name s1 names.0 names.1
          names.0 names.1 plain1).0 in
      elim (link_volume_steps os vh laws p ps syms parts v s names) [
        | inr (fails, e) ↦ absurd (fails made_it)
        | inl (done, e) ↦ rw e (elim is_open.free [
          | inl free ↦
              laws.symlink_done v.vol_path v.ns_name v.pvc_name s1 names.0 names.1 plain1
                (room.makes_link s1 plain1 dir (same ∙ free))
          | inr there ↦ elim kept [
            | inl stays ↦ stays ∙ same ∙ there
            | inr (is_ns, is_pvc, free, now) ↦ now
          ]
        ])
      ]

  link_volume-IsOpen :
      (u v : Volume) (s : F)
      → HasPlainNames u
      → HasPlainNames v
      → (u.ns_name ≡ v.ns_name → u.pvc_name ≡ v.pvc_name → u.vol_path ≡ v.vol_path)
      → IsOpen os vh laws v s
      → IsOpen os vh laws v (link_volume os vh u s).1
  link_volume-IsOpen u v s names names' agree is_open =
      let (entries, dirs, places) =
        link_volume_kept u v.ns_name v.pvc_name s names names'.0 names'.1 is_open.plain in
      record {
        plain = link_volume_plain u s names is_open.plain;
        place = elim places [
          | inr dir ↦ inr dir
          | inl same ↦ elim is_open.place [
            | inl free ↦ inl (same ∙ free)
            | inr dir ↦ inr (dirs dir)
          ]
        ];
        free = elim entries [
          | inr (is_ns, is_pvc, free, now) ↦
              inr (now ∙ ap (λ t. some (linked t)) (agree is_ns is_pvc))
          | inl same ↦ elim is_open.free [
            | inl free ↦ inl (same ∙ free)
            | inr there ↦ inr (same ∙ there)
          ]
        ];
      }

  link_volumes_keeps :
      (last : Option Err) (vols : List Volume) (v : Volume) (there : Entry) (s : F)
      → ((u : Volume) → Mem u vols → HasPlainNames u)
      → HasPlainNames v
      → IsPlain s
      → entry s v.ns_name v.pvc_name ≡ some there
      → entry (link_volumes os vh last vols s).1 v.ns_name v.pvc_name ≡ some there
  unfolding link_volumes
  link_volumes_keeps last [] v there s plain_names names plain e = e
  link_volumes_keeps last (u ∷ vols) v there s plain_names names plain e =
      let names_u = plain_names u mem-cons_self in
      let (entries, dirs, places) =
        link_volume_kept u v.ns_name v.pvc_name s names_u names.0 names.1 plain in
      link_volumes_keeps (link_volume os vh u s).0 vols v there (link_volume os vh u s).1
        (λ x m. plain_names x (mem-cons_of_mem u m)) names (link_volume_plain u s names_u plain)
        (elim entries [ inl same ↦ same ∙ e | inr (is_ns, is_pvc, free, now) ↦ cc ])

  pub link_volumes_linked :
      (last : Option Err) (vols : List Volume) (v : Volume) (s : F)
      → ((u : Volume) → Mem u vols → HasPlainNames u)
      → HasPlainNames v
      → ((u : Volume)
          → Mem u vols
          → u.ns_name ≡ v.ns_name
          → u.pvc_name ≡ v.pvc_name
          → u.vol_path ≡ v.vol_path)
      → HasRoom os vh laws v
      → IsOpen os vh laws v s
      → Mem v vols
      → entry (link_volumes os vh last vols s).1 v.ns_name v.pvc_name ≡ some (linked v.vol_path)
  unfolding link_volumes
  link_volumes_linked last [] v s plain_names names agree room is_open m = absurd (not-mem-nil m)
  link_volumes_linked last (u ∷ vols) v s plain_names names agree room is_open m =
      let names_u = plain_names u mem-cons_self in
      let plain_rest = λ (x : Volume) (m' : Mem x vols). plain_names x (mem-cons_of_mem u m') in
      let (e, s') = link_volume os vh u s in
      Or.elim (Entry-prop _ _) (eq-or-mem_of_mem-cons m)
        (λ is_u.
          link_volumes_keeps e vols v (linked v.vol_path) s' plain_rest names
            (link_volume_plain u s names_u is_open.plain)
            (rw (← is_u) (link_volume_linked v s names room is_open)))
        (λ later.
          link_volumes_linked e vols v s' plain_rest names (λ x m'. agree x (mem-cons_of_mem u m'))
            room (link_volume-IsOpen u v s names_u names (agree u mem-cons_self) is_open) later)
