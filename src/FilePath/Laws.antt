-- ===== src/FilePath/Laws.antt =====
-- Laws of joining clean absolute paths.
use mathlib.Core.List.{append-nil, append_assoc}
use csi_sharedhostpath.Base.{
  ℕ, Bool, true, List, [], ◌∷◌, ◌++◌, ◌≡◌, ◌≢◌, refl, sym, ap, ◌∙◌, arith, Text, nat_eq, text_eq,
}
use csi_sharedhostpath.Base.Strings.{codes}
use csi_sharedhostpath.FilePath.{clean, join, split_parts, keep_part, keep_parts, join_onto}

abbrev pub NoSlash : Text → Type 0
NoSlash [] = Unit
NoSlash (c ∷ s) = (c ≢ b'/') × NoSlash s

-- A part that `filepath.Clean` keeps as it is.
abbrev pub IsPart : Text → Type 0
IsPart p = (p ≢ []) × NoSlash p × (p ≢ codes ".") × (p ≢ codes "..")

abbrev pub AllParts : List Text → Type 0
AllParts [] = Unit
AllParts (p ∷ ps) = IsPart p × AllParts ps

-- The absolute path of the parts, in front of `rest`.
abbrev pub abs_path_onto : List Text → Text → Text
abs_path_onto [] rest = rest
abs_path_onto (p ∷ ps) rest = b'/' ∷ (p ++ abs_path_onto ps rest)

abbrev pub abs_path : List Text → Text
abs_path ps = abs_path_onto ps []

pub AllParts-append : (ps qs : List Text) → AllParts ps → AllParts qs → AllParts (ps ++ qs)
AllParts-append [] qs hp hq = hq
AllParts-append (p ∷ ps) qs hp hq = (hp.0, AllParts-append ps qs hp.1 hq)

pub abs_path_onto-append :
    (ps qs : List Text) (rest : Text)
    → abs_path_onto (ps ++ qs) rest ≡ abs_path_onto ps (abs_path_onto qs rest)
abs_path_onto-append [] qs rest = refl
abs_path_onto-append (p ∷ ps) qs rest = rw (abs_path_onto-append ps qs rest)

pub abs_path_onto-text :
    (ps : List Text) (s rest : Text) → abs_path_onto ps s ++ rest ≡ abs_path_onto ps (s ++ rest)
abs_path_onto-text [] s rest = refl
abs_path_onto-text (p ∷ ps) s rest = rw (append_assoc, abs_path_onto-text ps s rest)

split_parts-part : (p s : Text) → NoSlash p → split_parts (p ++ (b'/' ∷ s)) ≡ p ∷ split_parts s
unfolding split_parts
split_parts-part [] s h = refl
split_parts-part (c ∷ p) s h = ground (arith, split_parts-part p s h.1)

split_parts_last : (p : Text) → NoSlash p → split_parts p ≡ p ∷ []
unfolding split_parts
split_parts_last [] h = refl
split_parts_last (c ∷ p) h = ground (arith, split_parts_last p h.1)

-- Behind a part the path of more parts splits into them.
split_parts-abs_path :
    (p : Text) (ps : List Text) → NoSlash p → AllParts ps → split_parts (p ++ abs_path ps) ≡ p ∷ ps
split_parts-abs_path p [] h a = rw append-nil (split_parts_last p h)
split_parts-abs_path p (q ∷ ps) h a =
    split_parts-part p (q ++ abs_path ps) h ∙ ap (◌∷◌ p) (split_parts-abs_path q ps a.0.1 a.1)

abbrev rev_onto : List Text → List Text → List Text
rev_onto [] kept = kept
rev_onto (p ∷ ps) kept = rev_onto ps (p ∷ kept)

keep_part-IsPart :
    (r : Bool) (kept : List Text) (p : Text) → IsPart p → keep_part r kept p ≡ p ∷ kept
unfolding keep_part
keep_part-IsPart r kept [] h = absurd (h.0 refl)
keep_part-IsPart r kept (c ∷ p) h = ground arith

keep_parts-AllParts :
    (r : Bool) (kept ps : List Text) → AllParts ps → keep_parts r kept ps ≡ rev_onto ps kept
unfolding keep_parts
keep_parts-AllParts r kept [] h = refl
keep_parts-AllParts r kept (p ∷ ps) h =
    rw (keep_part-IsPart r kept p h.0) (keep_parts-AllParts r (p ∷ kept) ps h.1)

-- The kept parts, last first, as an absolute path.
abbrev abs_onto : List Text → Text → Text
abs_onto [] rest = rest
abs_onto (p ∷ kept) rest = abs_onto kept (b'/' ∷ (p ++ rest))

join_onto-abs_onto :
    (p : Text) (kept : List Text) (rest : Text)
    → b'/' ∷ join_onto (p ∷ kept) rest ≡ abs_onto (p ∷ kept) rest
unfolding join_onto
join_onto-abs_onto p [] rest = refl
join_onto-abs_onto p (q ∷ kept) rest = join_onto-abs_onto q kept (b'/' ∷ (p ++ rest))

abs_onto-rev_onto :
    (ps kept : List Text) (rest : Text)
    → abs_onto (rev_onto ps kept) rest ≡ abs_onto kept (abs_path_onto ps rest)
abs_onto-rev_onto [] kept rest = refl
abs_onto-rev_onto (p ∷ ps) kept rest = abs_onto-rev_onto ps (p ∷ kept) rest

-- The kept parts of a path with a part are not empty.
join_onto-rev_onto :
    (p : Text) (ps kept : List Text)
    → b'/' ∷ join_onto (rev_onto ps (p ∷ kept)) [] ≡ abs_onto (rev_onto ps (p ∷ kept)) []
join_onto-rev_onto p [] kept = join_onto-abs_onto p kept []
join_onto-rev_onto p (q ∷ ps) kept = join_onto-rev_onto q ps (p ∷ kept)

-- A path of such parts is clean already.
pub clean-abs_path :
    (p : Text) (ps : List Text) → AllParts (p ∷ ps) → clean (abs_path (p ∷ ps)) ≡ abs_path (p ∷ ps)
unfolding clean
clean-abs_path p ps h =
    rw (split_parts-abs_path p ps h.0.1 h.1, keep_parts-AllParts true [] (p ∷ ps) h)
      (join_onto-rev_onto p ps [] ∙ abs_onto-rev_onto ps (p ∷ []) [])

join-clean : (c : ℕ) (a b : Text) → join (c ∷ a) b ≡ clean ((c ∷ a) ++ (b'/' ∷ b))
unfolding join
join-clean c a b = refl

pub abs_path-append :
    (ps : List Text) (q : Text) → abs_path ps ++ (b'/' ∷ q) ≡ abs_path (ps ++ (q ∷ []))
abs_path-append ps q =
    abs_path_onto-text ps [] (b'/' ∷ q)
    ∙ ap (λ (s : Text). abs_path_onto ps (b'/' ∷ s)) (sym (append-nil q))
    ∙ sym (abs_path_onto-append ps (q ∷ []) [])

-- Joining an absolute path of such parts and one more part appends the part.
pub join-abs_path :
    (p : Text) (ps : List Text) (q : Text)
    → AllParts (p ∷ ps)
    → IsPart q
    → join (abs_path (p ∷ ps)) q ≡ abs_path (p ∷ (ps ++ (q ∷ [])))
join-abs_path p ps q h k =
    join-clean b'/' (p ++ abs_path ps) q
    ∙ ap clean (abs_path-append (p ∷ ps) q)
    ∙ clean-abs_path p (ps ++ (q ∷ [])) (h.0, AllParts-append ps (q ∷ []) h.1 (k, tt))

-- Behind the same parts, equal paths have equal rests.
append-cancel : (s : Text) {a b : Text} → s ++ a ≡ s ++ b → a ≡ b
append-cancel [] e = e
append-cancel (c ∷ s) e = append-cancel s (cc)

pub abs_path_onto-cancel :
    (ps : List Text) {a b : Text} → abs_path_onto ps a ≡ abs_path_onto ps b → a ≡ b
abs_path_onto-cancel [] e = e
abs_path_onto-cancel (p ∷ ps) e = abs_path_onto-cancel ps (append-cancel p (cc))
