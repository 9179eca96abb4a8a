-- ===== src/OpenSurvey/Reorder/Moved.antt =====
-- Lists in which an element and the one behind it change places.
use choschmous_v.Base.{
  ℕ, zero, suc, ◌≤◌, ◌≡◌, refl, ap, ◌∙◌, Option, none, some, List, [], ◌∷◌, map, arith, nat_eq, All,
  length, includes, text_eq,
}
use choschmous_v.OpenSurvey.Builder.{FieldDef}
use choschmous_v.OpenSurvey.Reorder.{
  Direction, up, down, get_elem?, set, set_both, exchange, distinct,
}

-- The elements at `i` and behind it change places.
unfoldable pub moved {ℓ} : {A : Type ℓ} → ℕ → List A → List A
moved i [] = []
moved zero (x ∷ []) = x ∷ []
moved zero (x ∷ y ∷ r) = y ∷ x ∷ r
moved (suc i) (x ∷ r) = x ∷ moved i r

-- What the buttons promise, of any list.
abbrev pub moved_by {ℓ} : {A : Type ℓ} → ℕ × Direction → List A → List A
moved_by (zero, up) xs = xs
moved_by (suc i, up) xs = moved i xs
moved_by (i, down) xs = moved i xs

abbrev pub moved_all {ℓ} : {A : Type ℓ} → List (ℕ × Direction) → List A → List A
moved_all [] xs = xs
moved_all (m ∷ ms) xs = moved_all ms (moved_by m xs)

abbrev pub ids : List FieldDef → List ℕ
ids fs = map (λ f. f.id) fs

module _ {ℓ} {A : Type ℓ} where
  pub moved-end : (i : ℕ) (xs : List A) → length xs ≤ suc i → moved i xs ≡ xs
  unfolding moved
  moved-end i [] h = refl
  moved-end zero (x ∷ []) h = refl
  moved-end zero (x ∷ y ∷ r) h = absurd (omega (arith, h))
  moved-end (suc i) (x ∷ r) h = ap (◌∷◌ x) (moved-end i r (omega (arith, h)))

  pub moved_twice : (i : ℕ) (xs : List A) → moved i (moved i xs) ≡ xs
  unfolding moved
  moved_twice i [] = refl
  moved_twice zero (x ∷ []) = refl
  moved_twice zero (x ∷ y ∷ r) = refl
  moved_twice (suc i) (x ∷ r) = ap (◌∷◌ x) (moved_twice i r)

  set_both-cons :
      (x : A) (xs : List A) (i j : ℕ) (a b : Option A)
      → set_both (x ∷ xs) (suc i) (suc j) a b ≡ x ∷ set_both xs i j a b
  unfolding set
  set_both-cons x xs i j none b = refl
  set_both-cons x xs i j (some a) none = refl
  set_both-cons x xs i j (some a) (some b) = refl

  set_both-none : (xs : List A) (i j : ℕ) (a : Option A) → set_both xs i j a none ≡ xs
  set_both-none xs i j none = refl
  set_both-none xs i j (some a) = refl

  pub exchange_down : (i : ℕ) (xs : List A) → exchange i (suc i) xs ≡ moved i xs
  unfolding exchange moved get_elem? set
  exchange_down i [] = refl
  exchange_down zero (x ∷ []) = refl
  exchange_down zero (x ∷ y ∷ r) = refl
  exchange_down (suc i) (x ∷ r) =
      set_both-cons x r i (suc i) (get_elem? r i) (get_elem? r (suc i))
      ∙ ap (◌∷◌ x) (exchange_down i r)

  pub exchange_up : (i : ℕ) (xs : List A) → exchange (suc i) i xs ≡ moved i xs
  unfolding exchange moved get_elem? set
  exchange_up i [] = refl
  exchange_up zero (x ∷ []) = refl
  exchange_up zero (x ∷ y ∷ r) = refl
  exchange_up (suc i) (x ∷ r) =
      set_both-cons x r (suc i) i (get_elem? r (suc i)) (get_elem? r i)
      ∙ ap (◌∷◌ x) (exchange_up i r)

pub map-moved {ℓ κ} :
    {A : Type ℓ} {B : Type κ} (f : A → B) (i : ℕ) (xs : List A)
    → map f (moved i xs) ≡ moved i (map f xs)
unfolding moved
map-moved f i [] = refl
map-moved f zero (x ∷ []) = refl
map-moved f zero (x ∷ y ∷ r) = refl
map-moved f (suc i) (x ∷ r) = ap (◌∷◌ (f x)) (map-moved f i r)

pub includes-moved : (i a : ℕ) (xs : List ℕ) → includes (moved i xs) a ≡ includes xs a
unfolding moved
includes-moved i a [] = refl
includes-moved zero a (x ∷ []) = refl
includes-moved zero a (x ∷ y ∷ r) = ground arith
includes-moved (suc i) a (x ∷ r) = rw (includes-moved i a r) refl

pub distinct-moved : (i : ℕ) (xs : List ℕ) → distinct (moved i xs) ≡ distinct xs
unfolding moved
distinct-moved i [] = refl
distinct-moved zero (x ∷ []) = refl
distinct-moved zero (x ∷ y ∷ r) = ground arith
distinct-moved (suc i) (x ∷ r) = rw (includes-moved i x r, distinct-moved i r) refl

pub All-moved {ℓ} :
    {A : Type ℓ} (P : A → Type 0) (i : ℕ) (xs : List A) → All P xs → All P (moved i xs)
unfolding moved
All-moved P i [] h = tt
All-moved P zero (x ∷ []) h = h
All-moved P zero (x ∷ y ∷ r) (a, (b, h)) = (b, (a, h))
All-moved P (suc i) (x ∷ r) (a, h) = (a, All-moved P i r h)
