-- ===== src/Wizard/Survey/Merge.antt =====
-- The sports that an organization chose before, merged into the selection of the survey's form.
use choschmous_v.Base.{
  ℕ, ◌≤◌, ◌≡◌, refl, sym, ap, inl, inr, true, false, ◌||◌, List, [], ◌∷◌, ◌++◌, arith, ltb,
  nat_beq_iff, Bool-cases, nat_eq, length, length-append, includes, text_eq,
}
use mathlib.Core.List.{append-nil}
use choschmous_v.Wizard.Moves.{distinct}
use choschmous_v.Wizard.Survey.{unique_from, merge_existing}

-- The numbers seen after a list of new ones.
over : List ℕ → List ℕ → List ℕ
over [] seen = seen
over (x ∷ xs) seen = over xs (x ∷ seen)

includes-over :
    (xs seen : List ℕ) (x : ℕ) → includes (over xs seen) x ≡ (includes xs x || includes seen x)
unfolding over
includes-over [] seen x = refl
includes-over (y ∷ ys) seen x = ground (arith, includes-over ys (y ∷ seen) x)

includes-unique_from :
    (seen ys : List ℕ) (x : ℕ)
    → (includes seen x || includes (unique_from seen ys) x) ≡ (includes seen x || includes ys x)
unfolding unique_from
includes-unique_from seen [] x = refl
includes-unique_from seen (y ∷ ys) x =
    ground
      (arith, nat_beq_iff x y, includes-unique_from seen ys x, includes-unique_from (y ∷ seen) ys x)

unique_from-append :
    (seen xs ys : List ℕ)
    → distinct xs ≡ true
    → ((x : ℕ) → includes xs x ≡ true → includes seen x ≡ false)
    → unique_from seen (xs ++ ys) ≡ xs ++ unique_from (over xs seen) ys
unfolding unique_from over
unique_from-append seen [] ys d n = refl
unique_from-append seen (x ∷ xs) ys d n = rw (n x (ground (arith, nat_beq_iff x x))) (
    ap (λ zs. x ∷ zs)
      (unique_from-append (x ∷ seen) xs ys (ground arith)
        (λ z h. ground (arith, nat_beq_iff z x, n z))))

includes-append :
    (xs ys : List ℕ) (x : ℕ) → includes (xs ++ ys) x ≡ (includes xs x || includes ys x)
includes-append [] ys x = refl
includes-append (y ∷ ys) zs x = ground (arith, includes-append ys zs x)

nil_of_length : (xs : List ℕ) → length xs ≤ 0 → xs ≡ []
nil_of_length [] h = refl
nil_of_length (x ∷ xs) h = absurd (omega arith)

-- The sports that are not in the selection yet.
abbrev added : List ℕ → List ℕ → List ℕ
added current existing = unique_from (over current []) existing

merged-eq :
    (current existing : List ℕ)
    → distinct current ≡ true
    → unique_from [] (current ++ existing) ≡ current ++ added current existing
merged-eq current existing d = unique_from-append [] current existing d (λ x h. refl)

includes-added :
    (current existing : List ℕ) (x : ℕ)
    → includes (current ++ added current existing) x ≡ (includes current x || includes existing x)
includes-added current existing x = ground (
  arith,
  includes-append current (added current existing) x,
  includes-unique_from (over current []) existing x,
  includes-over current [] x,
)

includes-same :
    (current existing : List ℕ)
    → added current existing ≡ []
    → (x : ℕ) → includes current x ≡ (includes current x || includes existing x)
includes-same current existing h x = ground (
  arith,
  ap (λ zs. includes zs x) h,
  includes-unique_from (over current []) existing x,
  includes-over current [] x,
)

-- The merged selection is the selection, without repetitions as it is, in its order, followed by new
-- sports, and it holds a sport exactly if the selection or the earlier choice of the organization
-- holds it.
pub merge_existing_adds :
    (current existing : List ℕ)
    → distinct current ≡ true
    → (fresh : List ℕ) × (merge_existing current existing ≡ current ++ fresh)
      × ((x : ℕ)
          → includes (merge_existing current existing) x
            ≡ (includes current x || includes existing x))
unfolding merge_existing
merge_existing_adds current existing d =
    rw (merged-eq current existing d)
      (elim (Bool-cases (ltb (length current) (length (current ++ added current existing)))) [
        | inl more ↦ rw more (added current existing, refl, includes-added current existing)
        | inr same ↦ rw same (
          [],
          sym (append-nil current),
          includes-same current existing (
              nil_of_length (added current existing)
                (ground (arith, length-append current (added current existing)))),
        )
      ])
