-- ===== src/Base/Run.antt =====
-- Results of Go functions, and the body of a Go function as state passing with early return.
use mathlib.Core.Path.{◌≡◌, refl}
use mathlib.Core.Logic.{◌⊎◌, ◌≢◌, inl, inr}
use mathlib.Core.Bool.{Bool}
use mathlib.Core.Option.{Option, none, some}
use csi_sharedhostpath.Base.Tests.{if◌then◌else◌}

-- What a call that may fail returns: `(value, nil)` or `(_, err)`.
pub data Result (E A : Type 0) : Type 0 where
  ok : A → Result E A
  err : E → Result E A

pub Result-cases :
    {E A : Type 0} (r : Result E A) → ((a : A) × (r ≡ ok a)) ⊎ ((e : E) × (r ≡ err e))
Result-cases (ok a) = inl (a, refl)
Result-cases (err e) = inr (e, refl)

pub ok-injective : {E A : Type 0} {a b : A} → ◌≡◌ {A = Result E A} (ok a) (ok b) → a ≡ b
ok-injective e = cc

pub ok-ne-err : {E A : Type 0} {a : A} {e : E} → ◌≢◌ {A = Result E A} (ok a) (err e)
ok-ne-err same = cc

-- A body has returned `r`, or goes on with a value.
pub data Exit (R A : Type 0) : Type 0 where
  ret : R → Exit R A
  next : A → Exit R A

-- A part of the body of a function whose result is `R`, over a state `W`.
abbrev pub Run : Type 0 → Type 0 → Type 0 → Type 0
Run W R A = W → Exit R A × W

infixl 5 ◌>>=◌ ◌>>◌
abbrev pub ◌>>=◌ : {W R A B : Type 0} → Run W R A → (A → Run W R B) → Run W R B
◌>>=◌ m f w = let (x, w') = m w in elim x [ ret r ↦ (ret r, w') | next a ↦ f a w' ]

abbrev pub ◌>>◌ : {W R B : Type 0} → Run W R (Unit {0}) → Run W R B → Run W R B
m >> k = m >>= λ _. k

module _ {W R : Type 0} where
  -- `return r`
  abbrev pub return : {A : Type 0} → R → Run W R A
  return r w = (ret r, w)

  -- `if c { return r }`
  abbrev pub return_if : Bool → R → Run W R (Unit {0})
  return_if c r w = (if c then ret r else next tt, w)

  -- `if c { m }`
  abbrev pub when : Bool → Run W R (Unit {0}) → Run W R (Unit {0})
  when c m w = if c then m w else (next tt, w)

  -- A call whose result is bound.
  abbrev pub act : {A : Type 0} → (W → A × W) → Run W R A
  act f w = let (a, w') = f w in (next a, w')

  -- A call whose error is not looked at.
  abbrev pub ignore : {A : Type 0} → (W → A × W) → Run W R (Unit {0})
  ignore f w = let (a, w') = f w in (next tt, w')

  -- `x, err := f(); if err != nil { … return … }`
  abbrev pub try : {E A : Type 0} → (W → Result E A × W) → (E → W → R × W) → Run W R A
  try f fail w =
      let (x, w') = f w in
      elim x [ ok a ↦ (next a, w') | err e ↦ let (r, w'') = fail e w' in (ret r, w'') ]

  -- `if err := f(); err != nil { … return … }`
  abbrev pub check : {E : Type 0} → (W → Option E × W) → (E → W → R × W) → Run W R (Unit {0})
  check f fail w =
      let (x, w') = f w in
      elim x [ none ↦ (next tt, w') | some e ↦ let (r, w'') = fail e w' in (ret r, w'') ]

  -- `v, found := …; if !found { return r }`
  abbrev pub need : {A : Type 0} → Option A → R → Run W R A
  need o r w = (elim o [ none ↦ ret r | some a ↦ next a ], w)

  -- A failure branch that only returns.
  abbrev pub give : {E : Type 0} → (E → R) → E → W → R × W
  give f e w = (f e, w)

  -- The function whose body is `m`.
  abbrev pub call : Run W R R → W → R × W
  call m w = let (x, w') = m w in elim x [ ret r ↦ (r, w') | next r ↦ (r, w') ]
