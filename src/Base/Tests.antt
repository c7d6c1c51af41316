-- ===== src/Base/Tests.antt =====
-- Boolean tests, the conditional, and equality on every type where it is decided.
use Prim.Native.Nat.{ℕ, compare, Ordering}
use mathlib.Core.Path.{◌≡◌, refl, sym, ◌∙◌}
use mathlib.Core.Logic.{◌⊎◌, ◌≢◌, ◌↔◌, inl, inr, ite}
use mathlib.Core.Bool.{Bool, true, false, Bool-discrete}
use mathlib.Core.List.{List}
use mathlib.Core.Option.{Option, none, some}
use native.Mathlib.Omega.{arith}
use native.Mathlib.Decide.{ℕ_discrete}

abbrev pub ltb : ℕ → ℕ → Bool
ltb a b = elim (compare a b) [ Ordering.lt ↦ true | _ ↦ false ]

abbrev pub leb : ℕ → ℕ → Bool
leb a b = elim (compare a b) [ Ordering.gt ↦ false | _ ↦ true ]

infix 1 if◌then◌else◌
abbrev pub if◌then◌else◌ {ℓ} : {A : Type ℓ} → Bool → A → A → A
if true then x else y = x
if false then x else y = y

abbrev nat_same : ℕ → ℕ → Bool
nat_same a b = elim (compare a b) [ Ordering.eq ↦ true | _ ↦ false ]

pub nat_same_iff : (a b : ℕ) → (nat_same a b ≡ true) ↔ (a ≡ b)
nat_same_iff a b = ground arith

-- The test that a decision makes.
abbrev pub decided {ℓ} : {A : Type ℓ} → Discrete A → A → A → Bool
decided d a b = ite (d a b) true false

pub decided_iff {ℓ} : {A : Type ℓ} (d : Discrete A) (a b : A) → (decided d a b ≡ true) ↔ (a ≡ b)
decided_iff d a b = ground arith

-- `==` of the source: what a type needs to be compared.
pub record Comparable {ℓ} (T : Type ℓ) : Type ℓ where
  pub same : T → T → Bool
  pub same_iff : (x y : T) → (same x y ≡ true) ↔ (x ≡ y)

infix 50 ◌==◌
abbrev pub ◌==◌ {ℓ} : {T : Type ℓ} ⦃c : Comparable T⦄ → T → T → Bool
◌==◌ ⦃c⦄ x y = c.same x y

instance abbrev pub bool_eq : Comparable Bool
bool_eq = record { same = decided Bool-discrete; same_iff = decided_iff Bool-discrete }

instance abbrev pub nat_eq : Comparable ℕ
nat_eq = record { same = nat_same; same_iff = nat_same_iff }

-- Strings of the source, as their bytes (code points in ASCII text).
abbrev pub Text : Type 0
Text = List ℕ

unfoldable pub Text-discrete : Discrete Text
unfolding ℕ_discrete
Text-discrete = hlevel ℕ_discrete

instance abbrev pub text_eq : Comparable Text
text_eq = record { same = decided Text-discrete; same_iff = decided_iff Text-discrete }

pub Bool-cases : (b : Bool) → (b ≡ true) ⊎ (b ≡ false)
Bool-cases true = inl refl
Bool-cases false = inr refl

bool_absurd : true ≡ false → ⊥
bool_absurd e = cc

pub Option-cases {ℓ} : {A : Type ℓ} (o : Option A) → (o ≡ none) ⊎ ((a : A) × (o ≡ some a))
Option-cases none = inl refl
Option-cases (some a) = inr (a, refl)

module _ {ℓ} {A : Type ℓ} ⦃e : Comparable A⦄ where
  pub ==_refl : (a : A) → (a == a) ≡ true
  ==_refl a = (e.same_iff a a).1 refl

  pub ==_ne : (a b : A) → a ≢ b → (a == b) ≡ false
  ==_ne a b h = elim (Bool-cases (a == b)) [
    | inl same ↦ absurd (h ((e.same_iff a b).0 same))
    | inr differ ↦ differ
  ]

  pub ==_swap : (a b : A) → (a == b) ≡ (b == a)
  ==_swap a b = elim (Bool-cases (a == b)) [
    | inl same ↦ same ∙ sym ((e.same_iff b a).1 (sym ((e.same_iff a b).0 same)))
    | inr differ ↦
        differ
        ∙ sym (==_ne b a (λ same. bool_absurd (sym ((e.same_iff a b).1 (sym same)) ∙ differ)))
  ]
