-- ===== src/Host/Db/Matching.antt =====
-- The rows of a table that pass a test, where rows come and go.
use csi_sharedhostpath.Base.{
  Bool, true, not, Option, none, some, List, [], ◌∷◌, ◌++◌, ◌≡◌, refl, Bool-cases, inl, inr, arith,
}
use mathlib.Core.List.{Perm}
use csi_sharedhostpath.Base.Run.{Result, ok, err}
use csi_sharedhostpath.Host.Db.{Err, record_not_found, not_exist, failed}
use csi_sharedhostpath.Host.Db.Laws.{Answers, IsAnswered, Finds, first, keep}

module _ {A : Type 0} where
  pub first-kept :
      (p q : A → Bool) (l : List A)
      → ((x : A) → p x ≡ true → q x ≡ true)
      → first p (keep q l) ≡ first p l
  first-kept p q [] spared = refl
  first-kept p q (x ∷ l) spared = elim (Bool-cases (p x)) [
    | inl here ↦ ground (arith, spared x here)
    | inr there ↦ ground (arith, first-kept p q l spared)
  ]

  pub first-appended :
      (p : A → Bool) (l m : List A) (x : A) → first p l ≡ some x → first p (l ++ m) ≡ some x
  first-appended p [] m x e = cc
  first-appended p (y ∷ l) m x e = ground (arith, first-appended p l m x)

  pub first-snoc :
      (p : A → Bool) (l : List A) (x : A)
      → p x ≡ true
      → first p l ≡ none
      → first p (l ++ (x ∷ [])) ≡ some x
  first-snoc p [] x here e = ground arith
  first-snoc p (y ∷ l) x here e = ground (arith, first-snoc p l x here)

  pub keep-first-none : (p : A → Bool) (l : List A) → first p l ≡ none → keep (λ x. not (p x)) l ≡ l
  keep-first-none p [] e = refl
  keep-first-none p (y ∷ l) e = ground (arith, keep-first-none p l)

  pub first-keep-not : (p : A → Bool) (l : List A) → first p (keep (λ x. not (p x)) l) ≡ none
  first-keep-not p [] = refl
  first-keep-not p (x ∷ l) = ground (arith, first-keep-not p l)

  -- A new row goes again.
  pub keep-snoc :
      (p : A → Bool) (l : List A) (x : A)
      → p x ≡ true
      → first p l ≡ none
      → keep (λ y. not (p y)) (l ++ (x ∷ [])) ≡ l
  keep-snoc p [] x here e = ground arith
  keep-snoc p (y ∷ l) x here e = ground (arith, keep-snoc p l x here)

-- A query that is answered finds the row that is there.
pub answered_row :
    {A : Type 0} (r : Result Err A) (x : A) → Answers r (some x) → IsAnswered r → r ≡ ok x
answered_row (ok a) x h answered = cc
answered_row (err record_not_found) x h answered = cc
answered_row (err (not_exist text)) x h answered = absurd answered
answered_row (err (failed text)) x h answered = absurd answered

-- What a `Find` without an error returns.
pub Finds-perm :
    {A : Type 0} (r : List A × Option Err) (l : List A) → Finds r l → r.1 ≡ none → Perm r.0 l
Finds-perm (rows, none) l h e = h
Finds-perm (rows, some failure) l h e = cc

-- A query that is answered says that there is no row.
pub answered_none :
    {A : Type 0} (r : Result Err A) → Answers r none → IsAnswered r → r ≡ err record_not_found
answered_none (ok a) h answered = cc
answered_none (err record_not_found) h answered = refl
answered_none (err (not_exist text)) h answered = absurd answered
answered_none (err (failed text)) h answered = absurd answered
