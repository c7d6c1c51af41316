-- ===== src/Tests/LinkTree.antt =====
-- A disk in memory on which links are made, and its laws.
use csi_sharedhostpath.Base.{
  true, Bool, false, Option, none, some, [], ◌∷◌, ◌++◌, ◌≡◌, ◌≢◌, ◌⊎◌, ==_refl, refl, ap, ◌∙◌,
  arith, Text, Bool-cases, inl, inr, ◌==◌, text_eq, nat_eq, if◌then◌else◌,
}
use csi_sharedhostpath.Base.Run.{ok, err}
use csi_sharedhostpath.Base.Int.{pos}
use csi_sharedhostpath.Base.Strings.{codes, has_prefix}
use csi_sharedhostpath.FilePath.Laws.{IsPart, NoSlash}
use csi_sharedhostpath.Host.Db.{Err}
use csi_sharedhostpath.Host.Os.{Os}
use csi_sharedhostpath.Volumes.Cleanup.Links.{LinkLaws, Entry, linked, other, at_name, below_name}
use csi_sharedhostpath.Tests.Memory.{broken}

-- What lies at each path: a folder, or a link.
pub data Node : Type 0 where
  folder : Node
  link : Text → Node

abbrev pub Tree : Type 0
Tree = Text → Option Node

abbrev pub put : Text → Node → Tree → Tree
put path node s q = if q == path then some node else s q

abbrev pub is_folder : Option Node → Bool
is_folder none = false
is_folder (some folder) = true
is_folder (some (link t)) = false

abbrev pub is_there : Option Node → Bool
is_there none = false
is_there (some node) = true

abbrev pub entry_of : Option Node → Option Entry
entry_of none = none
entry_of (some folder) = some other
entry_of (some (link t)) = some (linked t)

abbrev pub fold_into : Text → Tree → Option Node → Option Err × Tree
fold_into path s none = (none, put path folder s)
fold_into path s (some folder) = (none, s)
fold_into path s (some (link t)) = (some broken, s)

-- The folder is made where nothing is in its place.
abbrev pub make_folder : Text → Tree → Option Err × Tree
make_folder path s = fold_into path s (s path)

-- The path up to its last slash; the first argument is what comes before.
abbrev pub parent : Text → Text → Text → Text
parent up seen [] = up
parent up seen (c ∷ path) = parent (if c == b'/' then seen else up) (seen ++ (c ∷ [])) path

abbrev pub link_into : Text → Text → Tree → Bool → Option Node → Option Err × Tree
link_into old new s true none = (none, put new (link old) s)
link_into old new s true (some there) = (some broken, s)
link_into old new s false _ = (some broken, s)

-- There is no link where its folder is not there, or where something is in its place.
abbrev pub make_link : Text → Text → Tree → Option Err × Tree
make_link old new s = link_into old new s (is_folder (s (parent [] [] new))) (s new)

abbrev pub remove_below : Text → Tree → Tree
remove_below dir s path =
    if has_prefix path (dir ++ (b'/' ∷ [])) then none else if path == dir then none else s path

abbrev pub linking : Os Tree
linking = record {
  stat = λ path s. (err broken, s);
  lstat = λ path s. (err broken, s);
  mkdir_all = make_folder;
  symlink = make_link;
  remove = λ path s. (none, s);
  remove_all = λ path s. (none, remove_below path s);
  chmod = λ path s. (none, s);
  open_file = λ path s. (none, s);
  close_file = λ path s. (none, s);
  glob = λ pattern s. (([], none), s);
  read_dir = λ path s. (ok [], s);
  statfs = λ path s. (err broken, s);
  command = λ args s. (([], none), s);
  is_not_mount_point = λ path s. (ok true, s);
  mount = λ source target fstype options s. (none, s);
  unmount = λ target s. (none, s);
  format_and_mount = λ source target fstype options s. (none, s);
  get_disk_format = λ device s. (ok [], s);
  now = λ s. (pos 0, s);
  new_random = λ s. (ok (codes "abcdef01"), s);
}

has_prefix_append :
    (dir rest : Text) → has_prefix (dir ++ (b'/' ∷ rest)) (dir ++ (b'/' ∷ [])) ≡ true
unfolding has_prefix
has_prefix_append [] rest = refl
has_prefix_append (c ∷ dir) rest = ground (arith, has_prefix_append dir rest)

abbrev pub root : Text
root = codes "/csi/syms"

slash_inside : (m n : Text) → ¬ NoSlash (m ++ (b'/' ∷ n))
slash_inside [] n h = h.0 refl
slash_inside (c ∷ m) n h = slash_inside m n h.1

same_parts :
    (ns pvc m n : Text)
    → NoSlash ns
    → NoSlash m
    → ns ++ (b'/' ∷ pvc) ≡ m ++ (b'/' ∷ n)
    → (ns ≡ m) × (pvc ≡ n)
same_parts [] pvc [] n hs hm e = (refl, cc)
same_parts [] pvc (c ∷ m) n hs hm e = absurd (hm.0 (cc))
same_parts (c ∷ ns) pvc [] n hs hm e = absurd (hs.0 (cc))
same_parts (c ∷ ns) pvc (d ∷ m) n hs hm e =
    let (is_ns, is_pvc) = same_parts ns pvc m n hs.1 hm.1 (cc) in (cc, is_pvc)

-- A place on the second level is none on the first.
levels : (ns m n : Text) → IsPart ns → (below_name root m n == at_name root ns) ≡ false
levels ns m n h = elim (Bool-cases (below_name root m n == at_name root ns)) [
  | inr apart ↦ apart
  | inl same ↦
      let e : below_name root m n ≡ at_name root ns = ground arith in
      let inner : m ++ (b'/' ∷ n) ≡ ns = cc in absurd (slash_inside m n (rw inner h.1))
]

places :
    (ns pvc m n : Text)
    → IsPart ns
    → IsPart m
    → (below_name root m n == below_name root ns pvc) ≡ true
    → (ns ≡ m) × (pvc ≡ n)
places ns pvc m n is_ns is_m same =
    let e : below_name root m n ≡ below_name root ns pvc = ground arith in
    same_parts ns pvc m n is_ns.1 is_m.1 (cc)

pub fold_into_lem :
    (path q : Text) (s : Tree) (here : Option Node)
    → s path ≡ here
    → let (e, s') = fold_into path s here in
      (e ≡ none → is_folder (s' path) ≡ true)
      × (is_folder (s q) ≡ true → is_folder (s' q) ≡ true)
      × ((is_there (s' q) ≡ is_there (s q)) ⊎ (is_folder (s' q) ≡ true))
      × ((q == path) ≡ false → s' q ≡ s q)
fold_into_lem path q s none free =
    let self = ==_refl path in
    (
      λ h. ground arith,
      λ h. elim (Bool-cases (q == path)) [ inl same ↦ ground arith | inr apart ↦ ground arith ],
      elim (Bool-cases (q == path)) [
        | inl same ↦ inr (ground arith)
        | inr apart ↦ inl (ground arith)
      ],
      λ h. ground arith,
    )
fold_into_lem path q s (some folder) there = (λ h. rw there refl, λ h. h, inl refl, λ h. refl)
fold_into_lem path q s (some (link t)) there = (λ h. absurd (cc), λ h. h, inl refl, λ h. refl)

pub link_into_lem :
    (old new q : Text) (s : Tree) (ready : Bool) (here : Option Node)
    → s new ≡ here
    → let (e, s') = link_into old new s ready here in
      (e ≡ none → s' new ≡ some (link old))
      × ((s' q ≡ s q) ⊎ (((q == new) ≡ true) × (s q ≡ none) × (s' q ≡ some (link old))))
link_into_lem old new q s true none free =
    let self = ==_refl new in
    (
      λ h. ground arith,
      elim (Bool-cases (q == new)) [
        | inl same ↦ let e : q ≡ new = ground arith in inr (same, ap s e ∙ free, ground arith)
        | inr apart ↦ inl (ground arith)
      ],
    )
link_into_lem old new q s true (some node) there = (λ h. absurd (cc), inl refl)
link_into_lem old new q s false here there = (λ h. absurd (cc), inl refl)

pub remove_below_lem : (s : Tree) (rest : Text) → remove_below root s (root ++ (b'/' ∷ rest)) ≡ none
remove_below_lem s rest = rw (has_prefix_append root rest) refl

differ : (a b : Text) → a ≢ b → (a == b) ≡ false
differ a b apart = elim (Bool-cases (a == b)) [
  | inl same ↦ let e : a ≡ b = ground arith in absurd (apart e)
  | inr distinct ↦ distinct
]

-- The root is none of the places below it.
pub root_apart :
    (s : Tree) (rest : Text)
    → (make_folder root s).1 (root ++ (b'/' ∷ rest)) ≡ s (root ++ (b'/' ∷ rest))
root_apart s rest =
    let q : Text = root ++ (b'/' ∷ rest) in
    let (done, dirs, there, same) = fold_into_lem root q s (s root) refl in
    same (differ q root (λ e. cc))

pub second_apart :
    (ns m n : Text) (s : Tree)
    → IsPart ns
    → (make_folder (at_name root ns) s).1 (below_name root m n) ≡ s (below_name root m n)
second_apart ns m n s h =
    let path = at_name root ns in
    let (done, dirs, there, same) = fold_into_lem path (below_name root m n) s (s path) refl in
    same (levels ns m n h)

pub first_apart :
    (old ns pvc m : Text) (s : Tree)
    → IsPart m
    → (make_link old (below_name root ns pvc) s).1 (at_name root m) ≡ s (at_name root m)
first_apart old ns pvc m s h =
    let new = below_name root ns pvc in
    let (done, kept) =
      link_into_lem old new (at_name root m) s (is_folder (s (parent [] [] new))) (s new) refl in
    elim kept [
      | inl same ↦ same
      | inr (same, free, now) ↦
          let e : at_name root m ≡ new = ground arith in
          let apart = levels m ns pvc h in absurd (ground arith)
    ]

pub second_kept :
    (old ns pvc m n : Text) (s : Tree)
    → IsPart ns
    → IsPart m
    → let s' = (make_link old (below_name root ns pvc) s).1 in
      (entry_of (s' (below_name root m n)) ≡ entry_of (s (below_name root m n)))
      ⊎ ((ns ≡ m)
          × (pvc ≡ n)
          × (entry_of (s (below_name root m n)) ≡ none)
          × (entry_of (s' (below_name root m n)) ≡ some (linked old)))
second_kept old ns pvc m n s is_ns is_m =
    let new = below_name root ns pvc in
    let (done, kept) =
      link_into_lem old new (below_name root m n) s (is_folder (s (parent [] [] new))) (s new)
        refl in
    elim kept [
      | inl same ↦ inl (ap entry_of same)
      | inr (same, free, now) ↦
          let (is_m', is_n') = places ns pvc m n is_ns is_m same in
          inr (is_m', is_n', ap entry_of free, ap entry_of now)
    ]

abbrev pub link_laws : LinkLaws linking root
link_laws = record {
  IsPlain = λ s. Unit;
  has_dir = λ s ns. is_folder (s (at_name root ns));
  taken = λ s ns. is_there (s (at_name root ns));
  entry = λ s ns pvc. entry_of (s (below_name root ns pvc));
  remove_all_lem = λ s done. (
    tt,
    λ ns. ap is_there (remove_below_lem s ns),
    λ ns pvc. ap entry_of (remove_below_lem s (ns ++ (b'/' ∷ pvc))),
  );
  mkdir_root_lem = λ s plain. (
    tt,
    λ ns. ap is_there (root_apart s ns),
    λ ns pvc. ap entry_of (root_apart s (ns ++ (b'/' ∷ pvc))),
  );
  mkdir_all_plain = λ ns s is_ns plain. tt;
  mkdir_all_done =
      λ ns s is_ns plain. (fold_into_lem (at_name root ns) [] s (s (at_name root ns)) refl).0;
  mkdir_all_kept = λ ns m n s is_ns is_m is_n plain. (
    ap entry_of (second_apart ns m n s is_ns),
    (fold_into_lem (at_name root ns) (at_name root m) s (s (at_name root ns)) refl).1,
    (fold_into_lem (at_name root ns) (at_name root m) s (s (at_name root ns)) refl).2,
  );
  symlink_plain = λ old ns pvc s is_ns is_pvc plain. tt;
  symlink_done = λ old ns pvc s is_ns is_pvc plain done. ap entry_of (
      (link_into_lem old (below_name root ns pvc) [] s
          (is_folder (s (parent [] [] (below_name root ns pvc)))) (s (below_name root ns pvc))
          refl).0
        done);
  symlink_kept = λ old ns pvc m n s is_ns is_pvc is_m is_n plain. (
    second_kept old ns pvc m n s is_ns is_m,
    ap is_folder (first_apart old ns pvc m s is_m),
    ap is_there (first_apart old ns pvc m s is_m),
  );
}
