-- ===== src/Endpoint/Accepts.antt =====
-- Which endpoints are accepted, and what they are taken for.
use csi_sharedhostpath.Base.{
  ◌∙◌, Bool-cases, ℕ, true, none, some, [], ◌∷◌, ◌++◌, ◌≡◌, ◌≢◌, ◌↔◌, ◌⊎◌, inl, inr, refl, arith,
  Text, text_eq, nat_eq, if◌then◌else◌,
}
use mathlib.Core.List.{map-append}
use csi_sharedhostpath.Base.Strings.{codes, is_empty, to_lower, lower, has_prefix, cut, split_n2}
use csi_sharedhostpath.Endpoint.{listen_on, parsed, invalid, panics, has_scheme, parse_endpoint}

abbrev pub IsScheme : Text → Type 0
IsScheme p = (to_lower p ≡ codes "unix") ⊎ (to_lower p ≡ codes "tcp")

-- A colon and a slash come from themselves only.
lower_colon : (c : ℕ) → lower c ≡ b':' → c ≡ b':'
unfolding lower
lower_colon c h = ground arith

lower_slash : (c : ℕ) → lower c ≡ b'/' → c ≡ b'/'
unfolding lower
lower_slash c h = ground arith

abbrev NoColon : Text → Type 0
NoColon [] = Unit
NoColon (c ∷ s) = (c ≢ b':') × NoColon s

NoColon-lower : (p : Text) → NoColon (to_lower p) → NoColon p
unfolding lower
NoColon-lower [] h = tt
NoColon-lower (c ∷ p) h = (ground arith, NoColon-lower p h.1)

IsScheme-NoColon : (p : Text) → IsScheme p → NoColon p
IsScheme-NoColon p (inl e) = NoColon-lower p (rw e (ground arith))
IsScheme-NoColon p (inr e) = NoColon-lower p (rw e (ground arith))

-- The first separator is the one behind a text with no colon.
cut_at : (p a : Text) → NoColon p → cut (p ++ (codes "://" ++ a)) (codes "://") ≡ some (p, a)
unfolding cut
cut_at [] a h = refl
cut_at (c ∷ p) a h = ground (arith, cut_at p a h.1)

has_scheme_at : (p a : Text) → IsScheme p → has_scheme (p ++ (codes "://" ++ a)) ≡ true
unfolding has_prefix lower
has_scheme_at p a (inl e) = rw (map-append, e) refl
has_scheme_at p a (inr e) = rw (map-append, e) refl

parse_endpoint_at :
    (p a : Text)
    → IsScheme p
    → parse_endpoint (p ++ (codes "://" ++ a)) ≡ (if is_empty a then invalid else parsed p a)
unfolding parse_endpoint
parse_endpoint_at p a s = rw (has_scheme_at p a s, cut_at p a (IsScheme-NoColon p s), split_n2) refl

-- A text whose lower case holds the separator holds it too, at the same place.
unlower :
    (p rest ep : Text)
    → to_lower ep ≡ p ++ (codes "://" ++ rest)
    → (q : Text) × (a : Text) × (to_lower q ≡ p) × (ep ≡ q ++ (codes "://" ++ a))
unlower [] rest [] e = cc
unlower [] rest (c ∷ []) e = cc
unlower [] rest (c ∷ d ∷ []) e = cc
unlower [] rest (c ∷ d ∷ f ∷ a) e =
    ([], a, refl, ground (arith, lower_colon c, lower_slash d, lower_slash f))
unlower (x ∷ p) rest [] e = cc
unlower (x ∷ p) rest (c ∷ ep) e =
    let (q, a, low, split) = unlower p rest ep (cc) in (c ∷ q, a, cc, cc)

has_prefix-append : (s p : Text) → has_prefix s p ≡ true → (rest : Text) × (s ≡ p ++ rest)
unfolding has_prefix
has_prefix-append s [] h = (s, refl)
has_prefix-append [] (c ∷ p) h = cc
has_prefix-append (d ∷ s) (c ∷ p) h =
    let (rest, e) = has_prefix-append s p (ground arith) in (rest, ground arith)

-- An accepted text is a scheme, the separator and the rest.
has_scheme-split :
    (ep : Text)
    → has_scheme ep ≡ true
    → (p : Text) × (a : Text) × IsScheme p × (ep ≡ p ++ (codes "://" ++ a))
has_scheme-split ep h = elim (Bool-cases (has_prefix (to_lower ep) (codes "unix://"))) [
  | inl unix ↦
      let (rest, e) = has_prefix-append (to_lower ep) (codes "unix://") unix in
      let (q, a, low, split) = unlower (codes "unix") rest ep e in (q, a, inl low, split)
  | inr other ↦
      let (rest, e) = has_prefix-append (to_lower ep) (codes "tcp://") (rw other at h) in
      let (q, a, low, split) = unlower (codes "tcp") rest ep e in (q, a, inr low, split)
]

abbrev Accepted : Text → Text → Text → Type 0
Accepted ep p a = IsScheme p × (a ≢ []) × (ep ≡ p ++ (codes "://" ++ a))

parse_endpoint_either :
    (ep p a : Text)
    → IsScheme p
    → ep ≡ p ++ (codes "://" ++ a)
    → (parse_endpoint ep ≡ invalid) ⊎ (Accepted ep p a × (parse_endpoint ep ≡ parsed p a))
parse_endpoint_either ep p [] s e = inl (rw e (parse_endpoint_at p [] s))
parse_endpoint_either ep p (c ∷ a) s e =
    inr ((s, (λ h. cc), e), rw e (parse_endpoint_at p (c ∷ a) s))

parse_endpoint-cases :
    (ep : Text)
    → (parse_endpoint ep ≡ invalid)
      ⊎ ((p : Text) × (a : Text) × Accepted ep p a × (parse_endpoint ep ≡ parsed p a))
unfolding parse_endpoint
parse_endpoint-cases ep = elim (Bool-cases (has_scheme ep)) [
  | inr refused ↦ inl (rw refused)
  | inl scheme ↦
      let (p, a, s, e) = has_scheme-split ep scheme in
      elim (parse_endpoint_either ep p a s e) [ inl bad ↦ inl bad | inr (x, y) ↦ inr (p, a, x, y) ]
]

-- An endpoint is accepted exactly if it is a scheme, `unix` or `tcp` in letters of any case, then
-- `://`, then a text that is not empty; the two texts are returned as they are written.
pub parse_endpoint_iff :
    (ep p a : Text)
    → (parse_endpoint ep ≡ parsed p a) ↔ (IsScheme p × (a ≢ []) × (ep ≡ p ++ (codes "://" ++ a)))
parse_endpoint_iff ep p a = (
  λ h. elim (parse_endpoint-cases ep) [
    | inl bad ↦ cc
    | inr (q, b, (s, full, e), taken) ↦
        let same : parsed q b ≡ parsed p a = cc in
        let pq : q ≡ p = cc in let ab : b ≡ a = cc in rw (← pq, ← ab) (s, full, e)
  ],
  λ (s, full, e). rw e (parse_endpoint_at p a s ∙ ground arith),
)

-- No endpoint makes the index into the parts go out of range.
pub parse_endpoint-ne-panics : (ep : Text) → parse_endpoint ep ≢ panics
parse_endpoint-ne-panics ep h = elim (parse_endpoint-cases ep) [
  | inl bad ↦ cc
  | inr (p, a, x, taken) ↦ cc
]

-- A scheme `unix` that is not all in lower case, before an address that is not empty, is
-- accepted, and `serve` does not take it for a socket: the protocol is passed on as it is
-- written, the path gets no slash in front, and no old socket file is removed.
listen_on-mixed_case :
    (p a : Text)
    → to_lower p ≡ codes "unix"
    → p ≢ codes "unix"
    → a ≢ []
    → (parse_endpoint (p ++ (codes "://" ++ a)) ≡ parsed p a) × (listen_on p a ≡ ((p, a), none))
unfolding listen_on
listen_on-mixed_case p a low mixed full =
    ((parse_endpoint_iff _ p a).1 (inl low, full, refl), ground arith)
