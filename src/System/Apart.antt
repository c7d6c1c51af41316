-- ===== src/System/Apart.antt =====
-- Lists no two elements of which are alike, under a symmetric test.
use csi_sharedhostpath.Base.{
  Bool, false, none, List, [], ◌∷◌, ◌++◌, ◌≡◌, refl, arith, Bool-cases, inl, inr,
}
use csi_sharedhostpath.Host.Db.Laws.{first, keep}

module _ {A : Type 0} where
  abbrev pub Apart : (A → A → Bool) → List A → Type 0
  Apart like [] = Unit
  Apart like (x ∷ l) = (first (like x) l ≡ none) × Apart like l

  first-snoc :
      (p : A → Bool) (l : List A) (v : A)
      → first p l ≡ none
      → p v ≡ false
      → first p (l ++ (v ∷ [])) ≡ none
  first-snoc p [] v e n = ground arith
  first-snoc p (x ∷ l) v e n = ground (arith, first-snoc p l v)

  first-none-head : (p : A → Bool) (x : A) (l : List A) → first p (x ∷ l) ≡ none → p x ≡ false
  first-none-head p x l e = ground arith

  first-none-tail : (p : A → Bool) (x : A) (l : List A) → first p (x ∷ l) ≡ none → first p l ≡ none
  first-none-tail p x l e = ground arith

  pub Apart-snoc :
      (like : A → A → Bool)
      → ((x y : A) → like x y ≡ like y x)
      → (l : List A) (v : A) → Apart like l
      → first (like v) l ≡ none
      → Apart like (l ++ (v ∷ []))
  Apart-snoc like swap [] v h e = (refl, tt)
  Apart-snoc like swap (x ∷ l) v h e = (
    first-snoc (like x) l v h.0 (ground (arith, swap x v, first-none-head (like v) x l e)),
    Apart-snoc like swap l v h.1 (first-none-tail (like v) x l e),
  )

  first-keep-none : (p q : A → Bool) (l : List A) → first p l ≡ none → first p (keep q l) ≡ none
  first-keep-none p q [] e = refl
  first-keep-none p q (x ∷ l) e = ground (arith, first-keep-none p q l)

  pub Apart-keep :
      (like : A → A → Bool) (q : A → Bool) (l : List A) → Apart like l → Apart like (keep q l)
  Apart-keep like q [] h = tt
  Apart-keep like q (x ∷ l) h = elim (Bool-cases (q x)) [
    | inl kept ↦ rw kept (first-keep-none (like x) q l h.0, Apart-keep like q l h.1)
    | inr dropped ↦ rw dropped (Apart-keep like q l h.1)
  ]

  abbrev pub Every : (A → Type 0) → List A → Type 0
  Every P [] = Unit
  Every P (x ∷ l) = P x × Every P l

  pub Every-snoc : (P : A → Type 0) (l : List A) (v : A) → Every P l → P v → Every P (l ++ (v ∷ []))
  Every-snoc P [] v h p = (p, tt)
  Every-snoc P (x ∷ l) v h p = (h.0, Every-snoc P l v h.1 p)

  pub Every-keep : (P : A → Type 0) (q : A → Bool) (l : List A) → Every P l → Every P (keep q l)
  Every-keep P q [] h = tt
  Every-keep P q (x ∷ l) h = elim (Bool-cases (q x)) [
    | inl kept ↦ rw kept (h.0, Every-keep P q l h.1)
    | inr dropped ↦ rw dropped (Every-keep P q l h.1)
  ]
