-- ===== src/Base/Sorting.antt =====
-- `Array.prototype.sort`: the stable sort of a list by a comparator, of which only the test
-- "comes strictly before" is used.
use mathlib.Core.List.{Perm, perm_append_comm, append_assoc}
use mathlib.Core.List.Perm
use choschmous_v.Base.{
  Bool, true, false, ◌≡◌, inl, inr, List, [], ◌∷◌, ◌++◌, All, Bool-cases, if◌then◌else◌,
}

module _ {ℓ} {A : Type ℓ} (before : A → A → Bool) where
  unfoldable pub insert : A → List A → List A
  insert x [] = x ∷ []
  insert x (y ∷ ys) = let later = y ∷ insert x ys in if before y x then later else x ∷ y ∷ ys

  unfoldable pub sort : List A → List A
  unfolding insert
  sort [] = []
  sort (x ∷ xs) = insert x (sort xs)

  -- No element comes strictly before one that stands in front of it.
  abbrev pub IsSorted : List A → Type 0
  IsSorted [] = Unit
  IsSorted (x ∷ xs) = All (λ y. before y x ≡ false) xs × IsSorted xs

  insert-perm : (x : A) (ys : List A) → Perm (insert x ys) (x ∷ ys)
  unfolding insert
  insert-perm x [] = Perm.refl _
  insert-perm x (y ∷ ys) = elim (Bool-cases (before y x)) [
    | inl p ↦ rw p (Perm.trans (Perm.cons y (insert-perm x ys)) (Perm.swap x y ys))
    | inr p ↦ rw p (Perm.refl _)
  ]

  pub sort-perm : (xs : List A) → Perm (sort xs) xs
  unfolding sort
  sort-perm [] = Perm.refl []
  sort-perm (x ∷ xs) = Perm.trans (insert-perm x (sort xs)) (Perm.cons x (sort-perm xs))

  insert-All {κ} : (P : A → Type κ) (x : A) (ys : List A) → P x → All P ys → All P (insert x ys)
  unfolding insert
  insert-All P x [] p h = (p, tt)
  insert-All P x (y ∷ ys) p (q, h) = elim (Bool-cases (before y x)) [
    | inl b ↦ rw b (q, insert-All P x ys p h)
    | inr b ↦ rw b (p, (q, h))
  ]

  pub sort-All {κ} : (P : A → Type κ) (xs : List A) → All P xs → All P (sort xs)
  unfolding sort
  sort-All P [] h = tt
  sort-All P (x ∷ xs) (p, h) = insert-All P x (sort xs) p (sort-All P xs h)

  module _ (asym : (a b : A) → before a b ≡ true → before b a ≡ false)
      (trans : (a b c : A) → before b a ≡ false → before c b ≡ false → before c a ≡ false) where
    All-weaken :
        (x y : A) (ys : List A)
        → before y x ≡ false
        → All (λ z. before z y ≡ false) ys
        → All (λ z. before z x ≡ false) ys
    All-weaken x y [] h k = tt
    All-weaken x y (z ∷ ys) h (k, ks) = (trans x y z h k, All-weaken x y ys h ks)

    insert-IsSorted : (x : A) (ys : List A) → IsSorted ys → IsSorted (insert x ys)
    unfolding insert
    insert-IsSorted x [] s = (tt, tt)
    insert-IsSorted x (y ∷ ys) (h, s) = elim (Bool-cases (before y x)) [
      | inl b ↦
          rw b (insert-All (λ z. before z y ≡ false) x ys (asym y x b) h, insert-IsSorted x ys s)
      | inr b ↦ rw b ((b, All-weaken x y ys b h), (h, s))
    ]

    pub sort-IsSorted : (xs : List A) → IsSorted (sort xs)
    unfolding sort
    sort-IsSorted [] = tt
    sort-IsSorted (x ∷ xs) = insert-IsSorted x (sort xs) (sort-IsSorted xs)

-- `xs.flatMap(f)`
abbrev pub gather {ℓ} : {A B : Type ℓ} → (A → List B) → List A → List B
gather f [] = []
gather f (x ∷ xs) = f x ++ gather f xs

module _ {ℓ} {A B : Type ℓ} (before : A → A → Bool) (f : A → List B) where
  swap_front : (xs ys zs : List B) → Perm ((ys ++ xs) ++ zs) ((xs ++ ys) ++ zs)
  swap_front xs ys zs = Perm.append_right zs (perm_append_comm ys xs)

  gather-insert : (x : A) (ys : List A) → Perm (gather f (insert before x ys)) (f x ++ gather f ys)
  unfolding insert
  gather-insert x [] = Perm.refl (f x ++ [])
  gather-insert x (y ∷ ys) = elim (Bool-cases (before y x)) [
    | inl p ↦ rw p (
        Perm.trans (Perm.append_left (f y) (gather-insert x ys)) (
          rw (← append_assoc (f y) (f x) (gather f ys), ← append_assoc (f x) (f y) (gather f ys))
            (swap_front (f x) (f y) (gather f ys))))
    | inr p ↦ rw p (Perm.refl (f x ++ (f y ++ gather f ys)))
  ]

  -- Sorting permutes what the elements hold.
  pub gather-sort : (xs : List A) → Perm (gather f (sort before xs)) (gather f xs)
  unfolding sort
  gather-sort [] = Perm.refl []
  gather-sort (x ∷ xs) =
      Perm.trans (gather-insert x (sort before xs)) (Perm.append_left (f x) (gather-sort xs))
