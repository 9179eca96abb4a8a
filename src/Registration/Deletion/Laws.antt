-- ===== src/Registration/Deletion/Laws.antt =====
-- A rejected deletion leaves every cached list as it was.
use choschmous_v.Base.{
  ℕ, ◌≡◌, refl, sym, ap, ◌∙◌, subst, ◌⊎◌, inl, inr, Bool, true, false, Option, none, some, List, [],
  ◌∷◌, arith, if◌then◌else◌, Bool-cases, ◌==◌, nat_eq, filter, Text, text_beq_iff, text_eq,
}
use choschmous_v.Base.Assoc.{get, get-put}
use choschmous_v.Registration.Deletion.{
  Row, is_kept, Cached, undefined, page, other, QueryCache, without, queries_data, set_queries_data,
  set_query_data, on_mutate, on_error,
}

-- Each key stands once.
abbrev pub IsKeyed : QueryCache → Type 0
IsKeyed [] = Unit
IsKeyed ((k, d) ∷ c) = (get k c ≡ none) × IsKeyed c

-- What a query holds after an entry is put back.
abbrev over : Option Cached → Option Cached → Option Cached
over none o = o
over (some undefined) o = o
over (some (page r rows)) o = some (page r rows)
over (some (other x)) o = some (other x)

abbrev mapped : (Cached → Cached) → Option Cached → Option Cached
mapped f none = none
mapped f (some d) = some (f d)

get-set_query_data :
    (k j : Text) (d : Cached) (c : QueryCache)
    → get j (set_query_data k d c) ≡ (if k == j then over (some d) (get j c) else get j c)
unfolding set_query_data
get-set_query_data k j undefined c = ground arith
get-set_query_data k j (page r rows) c = get-put k j (page r rows) c
get-set_query_data k j (other x) c = get-put k j (other x) c

module _ (matches : Text → Bool) where
  get-set_queries_data :
      (f : Cached → Cached) (j : Text) (c : QueryCache)
      → get j (set_queries_data matches f c) ≡ (if matches j then mapped f (get j c) else get j c)
  unfolding set_queries_data get
  get-set_queries_data f j [] = ground arith
  get-set_queries_data f j ((k, d) ∷ c) =
      ground (arith, text_beq_iff k j, ap matches, get-set_queries_data f j c)

  get-queries_data :
      (j : Text) (c : QueryCache)
      → get j (queries_data matches c) ≡ (if matches j then get j c else none)
  unfolding queries_data get
  get-queries_data j [] = ground arith
  get-queries_data j ((k, d) ∷ c) = ground (arith, text_beq_iff k j, get-queries_data j c)

get-on_error :
    (previous c : QueryCache) (j : Text)
    → IsKeyed previous
    → get j (on_error previous c) ≡ over (get j previous) (get j c)
unfolding on_error get
get-on_error [] c j h = refl
get-on_error ((k, d) ∷ previous) c j (n, h) =
    get-on_error previous (set_query_data k d c) j h ∙ elim (Bool-cases (k == j)) [
      | inl q ↦
          let p : get j previous ≡ none =
            subst (λ i. get i previous ≡ none) ((text_beq_iff k j).0 q) n in
          rw (q, p)
            (get-set_query_data k j d c
              ∙ ap (λ b. if b then over (some d) (get j c) else get j c) q)
      | inr q ↦ rw q (
          ap (over (get j previous)) (
            get-set_query_data k j d c
            ∙ ap (λ b. if b then over (some d) (get j c) else get j c) q))
    ]

undone : (id : ℕ) (o : Option Cached) → over o (mapped (without id) o) ≡ o
unfolding without
undone id none = refl
undone id (some undefined) = refl
undone id (some (page r rows)) = refl
undone id (some (other x)) = refl

queries_data-IsKeyed :
    (matches : Text → Bool) (c : QueryCache) → IsKeyed c → IsKeyed (queries_data matches c)
unfolding queries_data
queries_data-IsKeyed matches [] h = tt
queries_data-IsKeyed matches ((k, d) ∷ c) (n, h) = elim (Bool-cases (matches k)) [
  | inl m ↦ rw m (get-queries_data matches k c ∙ rw m n, queries_data-IsKeyed matches c h)
  | inr m ↦ rw m (queries_data-IsKeyed matches c h)
]

-- The rows that are left after the deletion with the id: a row without a registration's number
-- stays, and of the numbered ones all with other numbers.
abbrev pub IsLeft : ℕ → List Row → List Row → Type 0
IsLeft id [] out = out ≡ []
IsLeft id (r ∷ rows) out =
    ((r.enroll_id ≡ some id) × IsLeft id rows out)
    ⊎ (¬ (r.enroll_id ≡ some id)) × (rest : List Row) × (out ≡ r ∷ rest) × IsLeft id rows rest

-- What a query holds after the deletion's first step.
abbrev pub IsLeftIn : ℕ → Option Cached → Option Cached → Type 0
IsLeftIn id (some (page t rows)) o = (out : List Row) × (o ≡ some (page t out)) × IsLeft id rows out
IsLeftIn id (some undefined) o = o ≡ some undefined
IsLeftIn id (some (other x)) o = o ≡ some (other x)
IsLeftIn id none o = o ≡ none

cons-IsLeft :
    (id : ℕ) (r : Row) (rows out : List Row) (o : Option ℕ)
    → r.enroll_id ≡ o
    → IsLeft id rows out
    → IsLeft id (r ∷ rows) (if is_kept id r.enroll_id then r ∷ out else out)
cons-IsLeft id r rows out none e h =
    inr (λ q. absurd (cc (q, e)), out, ap (λ x. if is_kept id x then r ∷ out else out) e, h)
cons-IsLeft id r rows out (some n) e h = elim (Bool-cases (n == id)) [
  | inl q ↦ inl (
    e ∙ ground (arith, q),
    subst (IsLeft id rows) (sym (ap (λ x. if is_kept id x then r ∷ out else out) e ∙ rw q refl)) h,
  )
  | inr q ↦ inr (
    λ p. absurd (ground (arith, q, p, e)),
    out,
    ap (λ x. if is_kept id x then r ∷ out else out) e ∙ rw q refl,
    h,
  )
]

without-IsLeft :
    (id : ℕ) (rows : List Row) → IsLeft id rows (filter (λ r. is_kept id r.enroll_id) rows)
without-IsLeft id [] = refl
without-IsLeft id (r ∷ rows) = cons-IsLeft id r rows _ r.enroll_id refl (without-IsLeft id rows)

mapped-IsLeftIn : (id : ℕ) (o : Option Cached) → IsLeftIn id o (mapped (without id) o)
unfolding without
mapped-IsLeftIn id none = refl
mapped-IsLeftIn id (some undefined) = refl
mapped-IsLeftIn id (some (page r rows)) = (_, refl, without-IsLeft id rows)
mapped-IsLeftIn id (some (other x)) = refl

-- If every query stands once in the cache and nothing else is written meanwhile, a deletion takes out of
-- each cached list of registrations the rows whose field `enroll_id` is the deleted id, and no other
-- row, and leaves the other queries; and if it is rejected, every query holds again what it held before.
-- A row without the field, as all rows are that the schema of the list lets through, stays.
pub deletion_undone :
    (matches : Text → Bool) (id : ℕ) (c : QueryCache) (j : Text)
    → IsKeyed c
    → (matches j ≡ true → IsLeftIn id (get j c) (get j (on_mutate matches id c).0))
      × (matches j ≡ false → get j (on_mutate matches id c).0 ≡ get j c)
      × (get j (on_error (on_mutate matches id c).1 (on_mutate matches id c).0) ≡ get j c)
unfolding on_mutate
deletion_undone matches id c j h = (
  λ m.
      subst (IsLeftIn id (get j c))
        (sym (get-set_queries_data matches (without id) j c ∙ rw m refl))
        (mapped-IsLeftIn id (get j c)),
  λ m. get-set_queries_data matches (without id) j c ∙ rw m refl,
  get-on_error (queries_data matches c) (set_queries_data matches (without id) c) j
        (queries_data-IsKeyed matches c h)
      ∙ rw (get-queries_data matches j c, get-set_queries_data matches (without id) j c)
          (restored (matches j)),
)
  where
    restored :
        (b : Bool)
        → over (if b then get j c else none) (if b then mapped (without id) (get j c) else get j c)
          ≡ get j c
    restored true = undone id (get j c)
    restored false = refl
