-- ===== src/Tests/Links.antt =====
-- A rebuild of the links.
use mathlib.Core.Logic.Or
use mathlib.Core.List.{Mem, mem-cons_self, not-mem-nil, eq-or-mem_of_mem-cons}
use csi_sharedhostpath.Base.{
  Bool, Option, Text, ◌⊎◌, some, none, true, false, [], ◌∷◌, ◌≡◌, refl, sym, ap, ◌∙◌, arith,
  Text-discrete, inl, inr,
}
use csi_sharedhostpath.Base.Int.{ℤ-discrete}
use csi_sharedhostpath.Base.Strings.{codes, has_prefix}
use csi_sharedhostpath.Host.Rows.{Volume}
use csi_sharedhostpath.Host.World.{World, Host}
use csi_sharedhostpath.Volumes.Cleanup.{rebuild_sym_links}
use csi_sharedhostpath.Volumes.Cleanup.Links.{linked, at_name, below_name, HasPlainNames}
use csi_sharedhostpath.Volumes.Cleanup.Links.Loop.{Agree, HasRoom}
use csi_sharedhostpath.Volumes.Cleanup.Links.Rebuilt.{rebuild_sym_links_linked}
use csi_sharedhostpath.Tests.LinkTree.{
  Tree, Node, folder, link, root, is_there, is_folder, entry_of, fold_into, link_into, linking,
  link_laws,
}
use csi_sharedhostpath.Tests.Memory.{Memory, memory, memory_laws}
use csi_sharedhostpath.Tests.Scene.{helper, first_volume, one_world}

abbrev linking_host : Host Memory Tree
linking_host = record { db = memory; os = linking }

-- Everywhere there are links to another volume.
abbrev linking_world : World Memory Tree
linking_world = record { db = one_world.db; os = λ path. some (link (codes "/csi/vols/old")) }

only_row : (v : Volume) → Mem v (first_volume ∷ []) → v ≡ first_volume
only_row v m =
    let one : IsProp (v ≡ first_volume) = hlevel (Text-discrete, ℤ-discrete) in
    Or.elim one (eq-or-mem_of_mem-cons m) (λ e. e) (λ n. absurd (not-mem-nil n))

first_names : HasPlainNames first_volume
first_names = (ground arith, ground arith)

plain_names : (v : Volume) → Mem v (first_volume ∷ []) → HasPlainNames v
plain_names v m = rw (only_row v m) first_names

agree : Agree (first_volume ∷ [])
agree v u is_v is_u same_ns same_pvc =
    ap (λ (x : Volume). x.vol_path) (only_row v is_v ∙ sym (only_row u is_u))

folds :
    (path : Text) (s : Tree) (here : Option Node)
    → (is_there here ≡ false) ⊎ (is_folder here ≡ true)
    → (fold_into path s here).0 ≡ none
folds path s none place = refl
folds path s (some folder) place = refl
folds path s (some (link t)) place = elim place [ inl e ↦ absurd (cc) | inr e ↦ absurd (cc) ]

links :
    (to new : Text) (s : Tree) (ready : Bool) (here : Option Node)
    → ready ≡ true
    → entry_of here ≡ none
    → (link_into to new s ready here).0 ≡ none
links to new s true none dir free = refl
links to new s true (some folder) dir free = absurd (cc)
links to new s true (some (link t)) dir free = absurd (cc)
links to new s false here dir free = absurd (cc)

room : HasRoom linking helper link_laws first_volume
room = record {
  makes_dir =
      λ s plain place. folds (at_name root (codes "ns")) s (s (at_name root (codes "ns"))) place;
  makes_link = λ s plain dir free.
      links first_volume.vol_path (below_name root (codes "ns") (codes "pvc1")) s
        (is_folder (s (at_name root (codes "ns"))))
        (s (below_name root (codes "ns") (codes "pvc1"))) dir free;
}

rebuild_sym_links_linked_example :
    link_laws.entry
      (rebuild_sym_links linking_host helper linking_world).1.os
      (codes "ns")
      (codes "pvc1")
    ≡ some (linked (codes "/csi/vols/ab/cd/ef/abcdef02"))
unfolding has_prefix Text-discrete
rebuild_sym_links_linked_example =
    rebuild_sym_links_linked linking_host memory_laws helper link_laws linking_world (codes "csi")
      (codes "syms" ∷ []) first_volume refl (ground arith) refl refl refl plain_names agree room
      mem-cons_self
