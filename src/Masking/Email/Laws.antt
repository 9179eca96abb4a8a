-- ===== src/Masking/Email/Laws.antt =====
-- The mask of an e-mail address never fails, and what it reveals.
use choschmous_v.Base.{
  ℕ, suc, ◌≤◌, ◌≡◌, refl, ap, ◌∙◌, inl, inr, true, false, Option, none, some, List, [], ◌∷◌, ◌++◌,
  arith, ltb, leb, Bool-cases, ◌==◌, nat_eq, is_some, length, length-append, includes, Text,
  text_eq, is_empty,
}
use choschmous_v.Base.Splitting.{split, push}
use choschmous_v.Base.Splitting.Laws.{IsFree, split-free, split-append}
use choschmous_v.Masking.{hidden}
use choschmous_v.Masking.Laws.{drop-append}
use choschmous_v.Masking.Email.{
  at_sign, dot, first_units, last_index_of, masked_local, masked_domain, masked_parts, mask_email,
}

-- A text that has the separator is split into at least two parts.
pushed_twice :
    (c : ℕ) (ps : List Text)
    → is_some (masked_parts ps) ≡ true
    → is_some (masked_parts (push c ps)) ≡ true
unfolding push
pushed_twice c [] h = absurd (cc h)
pushed_twice c (p ∷ []) h = absurd (cc h)
pushed_twice c (p ∷ q ∷ ps) h = refl

first_cut : (ps : List Text) → 1 ≤ length ps → is_some (masked_parts ([] ∷ ps)) ≡ true
first_cut [] h = absurd (omega arith)
first_cut (p ∷ ps) h = refl

pushed_nonempty : (c : ℕ) (ps : List Text) → 1 ≤ length (push c ps)
unfolding push
pushed_nonempty c [] = omega arith
pushed_nonempty c (p ∷ ps) = omega arith

split_nonempty : (d : ℕ) (s : Text) → 1 ≤ length (split d s)
unfolding split
split_nonempty d [] = omega arith
split_nonempty d (c ∷ s) = elim (Bool-cases (c == d)) [
  | inl b ↦ rw b (omega arith)
  | inr b ↦ rw b (pushed_nonempty c (split d s))
]

parts_of_split :
    (s : Text) → includes s at_sign ≡ true → is_some (masked_parts (split at_sign s)) ≡ true
unfolding split
parts_of_split [] h = absurd (cc h)
parts_of_split (c ∷ s) h = elim (Bool-cases (c == at_sign)) [
  | inl b ↦ rw b (first_cut (split at_sign s) (split_nonempty at_sign s))
  | inr b ↦ rw b (pushed_twice c (split at_sign s) (parts_of_split s (ground arith)))
]

last_index-free : (t : Text) → IsFree dot t → last_index_of dot t ≡ none
unfolding last_index_of
last_index-free [] h = refl
last_index-free (c ∷ t) (h, hs) = rw (last_index-free t hs, h) refl

last_index-append : (x t : Text) → IsFree dot t → last_index_of dot (x ++ dot ∷ t) ≡ some (length x)
unfolding last_index_of
last_index-append [] t h = rw (last_index-free t h) refl
last_index-append (c ∷ x) t h = rw (last_index-append x t h) refl

domain_shown :
    (c : ℕ) (x t : Text) → IsFree dot t → masked_domain ((c ∷ x) ++ dot ∷ t) ≡ hidden ++ dot ∷ t
unfolding masked_domain
domain_shown c x t h =
    let inside : ltb 0 (suc (length x)) ≡ true = ground arith in
    rw (last_index-append (c ∷ x) t h, inside)
      (ap (λ r. hidden ++ r) (drop-append (c ∷ x) (dot ∷ t)))

first_two : (a l : Text) → length a ≡ 2 → first_units 2 (a ++ l) ≡ a
unfolding first_units
first_two [] l h = absurd (omega (arith, h))
first_two (c ∷ []) l h = absurd (omega (arith, h))
first_two (c ∷ d ∷ []) l h = refl
first_two (c ∷ d ∷ e ∷ a) l h = absurd (omega (arith, h))

local_shown : (a l : Text) → length a ≡ 2 → 1 ≤ length l → masked_local (a ++ l) ≡ a ++ hidden
unfolding masked_local
local_shown a l h k =
    let long : leb (length (a ++ l)) 2 ≡ false = ground (arith, length-append a l) in
    rw (long, first_two a l h) refl

includes-append : (x t : Text) → includes (x ++ at_sign ∷ t) at_sign ≡ true
includes-append [] t = refl
includes-append (c ∷ x) t = rw (includes-append x t) (ground arith)

nonempty-append : (x t : Text) → is_empty (x ++ at_sign ∷ t) ≡ false
nonempty-append [] t = refl
nonempty-append (c ∷ x) t = refl

with_at_sign :
    (s : Text)
    → is_empty s ≡ false
    → includes s at_sign ≡ true
    → mask_email (some s) ≡ masked_parts (split at_sign s)
unfolding mask_email
with_at_sign s h k = rw (h, k) refl

never_throws : (email : Option Text) → is_some (mask_email email) ≡ true
unfolding mask_email
never_throws none = refl
never_throws (some []) = refl
never_throws (some (c ∷ t)) = elim (Bool-cases (includes (c ∷ t) at_sign)) [
  | inl b ↦ rw b (parts_of_split (c ∷ t) b)
  | inr b ↦ rw b refl
]

-- The mask of an e-mail address never fails. Of an address with a local part of more than two
-- characters, one "@", and a domain with a dot that is not its first character, the mask shows the
-- first two characters and the domain from its last dot on, and nothing of the rest, not even how
-- much it is; a text without "@" it hides.
pub mask_email_reveals :
    (email : Option Text) (a l h t u : Text) (c : ℕ)
    → length a ≡ 2
    → 1 ≤ length l
    → IsFree at_sign (a ++ l)
    → IsFree at_sign ((c ∷ h) ++ dot ∷ t)
    → IsFree dot t
    → includes u at_sign ≡ false
    → (is_some (mask_email email) ≡ true)
      × (mask_email (some ((a ++ l) ++ at_sign ∷ ((c ∷ h) ++ dot ∷ t)))
          ≡ some ((a ++ hidden) ++ at_sign ∷ (hidden ++ dot ∷ t)))
      × (mask_email (some u) ≡ some hidden)
unfolding mask_email
mask_email_reveals email a l h t u c two rest free_local free_domain free_end absent =
    let domain = (c ∷ h) ++ dot ∷ t in
    (
      never_throws email,
      with_at_sign ((a ++ l) ++ at_sign ∷ domain) (nonempty-append (a ++ l) domain)
            (includes-append (a ++ l) domain)
          ∙ rw
              (
                split-append at_sign (a ++ l) domain free_local,
                split-free at_sign domain free_domain,
                local_shown a l two rest,
                domain_shown c h t free_end,
              )
              refl,
      ground arith,
    )
