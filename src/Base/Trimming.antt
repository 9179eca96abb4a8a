-- ===== src/Base/Trimming.antt =====
-- Laws of `trim`.
use choschmous_v.Base.{
  ℕ, is_empty, ◌≡◌, refl, sym, ap, ◌∙◌, subst, inl, inr, false, [], ◌∷◌, ◌++◌, Bool-cases, nat_eq,
  Text, text_eq, trim, is_space,
}
use mathlib.Core.List.{reverse, reverse-reverse, reverse-append}
use choschmous_v.Base.{trim_start}

-- The first code unit, if any, is no space.
abbrev IsTight : Text → Type 0
IsTight [] = Unit
IsTight (c ∷ s) = is_space c ≡ false

trim_start-IsTight : (s : Text) → IsTight (trim_start s)
unfolding trim_start
trim_start-IsTight [] = tt
trim_start-IsTight (c ∷ s) = elim (Bool-cases (is_space c)) [
  | inl p ↦ rw p (trim_start-IsTight s)
  | inr p ↦ rw p p
]

trim_start_of_IsTight : (s : Text) → IsTight s → trim_start s ≡ s
unfolding trim_start
trim_start_of_IsTight [] h = refl
trim_start_of_IsTight (c ∷ s) h = rw h

trim_start-suffix : (s : Text) → (x : Text) × (s ≡ x ++ trim_start s)
unfolding trim_start
trim_start-suffix [] = ([], refl)
trim_start-suffix (c ∷ s) = elim (Bool-cases (is_space c)) [
  | inl p ↦ let (x, e) = trim_start-suffix s in (c ∷ x, rw p (ap (◌∷◌ c) e))
  | inr p ↦ ([], rw p refl)
]

IsTight-prefix : (s t : Text) → IsTight (s ++ t) → IsTight s
IsTight-prefix [] t h = tt
IsTight-prefix (c ∷ s) t h = h

-- What is left has no space at its start.
trim-IsTight : (s : Text) → IsTight (trim s)
unfolding trim
trim-IsTight s =
    let a : Text = trim_start s in
    let b : Text = trim_start (reverse a) in
    let (x, e) = trim_start-suffix (reverse a) in
    let e' : a ≡ reverse b ++ reverse x =
      sym (reverse-reverse a) ∙ ap reverse e ∙ reverse-append x b in
    IsTight-prefix (reverse b) (reverse x) (subst IsTight e' (trim_start-IsTight s))

-- Trimming a trimmed text changes nothing.
pub trim-trim : (s : Text) → trim (trim s) ≡ trim s
unfolding trim
trim-trim s =
    let b : Text = trim_start (reverse (trim_start s)) in
    rw (trim_start_of_IsTight (reverse b) (trim-IsTight s), reverse-reverse b)
      (ap reverse (trim_start_of_IsTight b (trim_start-IsTight (reverse (trim_start s)))))

trim_start-last :
    (c : ℕ) (xs : Text)
    → is_space c ≡ false
    → (ys : Text) × (trim_start (xs ++ c ∷ []) ≡ ys ++ c ∷ [])
unfolding trim_start
trim_start-last c [] h = ([], rw h refl)
trim_start-last c (x ∷ xs) h = elim (Bool-cases (is_space x)) [
  | inl p ↦ rw p (trim_start-last c xs h)
  | inr p ↦ (x ∷ xs, rw p refl)
]

-- A text that begins with no space is not trimmed away.
pub trim-kept : (c : ℕ) (s : Text) → is_space c ≡ false → is_empty (trim (c ∷ s)) ≡ false
unfolding trim
trim-kept c s h =
    let (ys, q) = trim_start-last c (reverse s) h in
    rw (trim_start_of_IsTight (c ∷ s) h, reverse-append (c ∷ []) s, q, reverse-append ys (c ∷ []))
      refl
