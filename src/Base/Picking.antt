-- ===== src/Base/Picking.antt =====
-- One of several things that are pending, and the others.
use choschmous_v.Base.Options.{◌>>=◌, bind_some, some_eq}
use mathlib.Core.List.{Perm, perm_append_comm, append_assoc}
use mathlib.Core.List.Perm
use choschmous_v.Base.Sorting.{gather}
use choschmous_v.Base.{
  ℕ, zero, suc, ◌<◌, ◌≡◌, refl, sym, subst, Option, none, some, List, [], ◌∷◌, ◌++◌, arith, All,
  length,
}

-- What is at a place of the list, with the others.
abbrev pub pick {ℓ} : {A : Type ℓ} → ℕ → List A → Option (A × List A)
pick i [] = none
pick zero (x ∷ xs) = some (x, xs)
pick (suc i) (x ∷ xs) = pick i xs >>= λ r. some (r.0, x ∷ r.1)

module _ {ℓ κ} {A : Type ℓ} (P : A → Type κ) where
  -- What `pick` takes, and what it leaves.
  pub pick-All :
      (i : ℕ) (xs : List A) → All P xs → (r : A × List A) → pick i xs ≡ some r → P r.0 × All P r.1
  pick-All i [] h r q = absurd (cc q)
  pick-All zero (x ∷ xs) h r q = subst (λ t. P t.0 × All P t.1) (sym (some_eq q)) h
  pick-All (suc i) (x ∷ xs) h r q =
      let (t, k, l) = bind_some (pick i xs) (λ t. some (t.0, x ∷ t.1)) q in
      let (a, o) = pick-All i xs h.1 t k in
      subst (λ u. P u.0 × All P u.1) (sym (some_eq l)) (a, (h.0, o))

swap_middle {ℓ} : {B : Type ℓ} (xs ys zs : List B) → Perm (xs ++ (ys ++ zs)) (ys ++ (xs ++ zs))
swap_middle xs ys zs =
    rw (← append_assoc xs ys zs, ← append_assoc ys xs zs)
      (Perm.append_right zs (perm_append_comm xs ys))

-- What the elements hold, with that of the one taken in front.
pub gather-pick {ℓ} :
    {A B : Type ℓ} (f : A → List B) (i : ℕ) (xs : List A) (r : A × List A)
    → pick i xs ≡ some r
    → Perm (f r.0 ++ gather f r.1) (gather f xs)
gather-pick f i [] r q = absurd (cc q)
gather-pick f zero (x ∷ xs) r q =
    subst (λ t. Perm (f t.0 ++ gather f t.1) (f x ++ gather f xs)) (sym (some_eq q)) (Perm.refl _)
gather-pick f (suc i) (x ∷ xs) r q =
    let (t, k, l) = bind_some (pick i xs) (λ t. some (t.0, x ∷ t.1)) q in
    subst (λ u. Perm (f u.0 ++ gather f u.1) (f x ++ gather f xs)) (sym (some_eq l))
      (Perm.trans (swap_middle (f t.0) (f x) (gather f t.1))
        (Perm.append_left (f x) (gather-pick f i xs t k)))

pub length-pick {ℓ} :
    {A : Type ℓ} (i : ℕ) (xs : List A)
    → i < length xs
    → (r : A × List A) × (pick i xs ≡ some r) × (length xs ≡ suc (length r.1))
length-pick i [] h = absurd (omega (arith, h))
length-pick zero (x ∷ xs) h = ((x, xs), refl, refl)
length-pick (suc i) (x ∷ xs) h =
    let (r, q, n) = length-pick i xs (omega (arith, h)) in
    ((r.0, x ∷ r.1), rw q refl, omega (arith, n))
