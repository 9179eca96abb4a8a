-- ===== src/Api/SharedRefresh/Laws.antt =====
-- Concurrent callers share one POST, and each of them is answered once.
use mathlib.Core.List.{append_assoc, append-nil}
use choschmous_v.Base.{
  ℕ, ◌+◌, ◌≡◌, refl, sym, ap, ◌∙◌, inl, inr, Bool, Option, none, some, List, [], ◌∷◌, ◌++◌, map,
  arith, Option-cases, nat_eq, text_eq,
}
use choschmous_v.Api.SharedRefresh.{Refreshes, Event, call, settle, idle, resume, step, run}

abbrev pub outstanding : Option (List ℕ) → ℕ
outstanding none = 0
outstanding (some callers) = 1

-- The callers that wait, the latest first.
abbrev pub waiters : Option (List ℕ) → List ℕ
waiters none = []
waiters (some callers) = callers

-- The first answer among the events.
abbrev pub first_reply : List Event → Option Bool
first_reply [] = none
first_reply (call c ∷ es) = first_reply es
first_reply (settle b ∷ es) = some b

-- Each call with the first answer after it, if there is one; the latest call first.
abbrev pub fates : List Event → List (ℕ × Option Bool)
fates [] = []
fates (call c ∷ es) = fates es ++ (c, first_reply es) ∷ []
fates (settle b ∷ es) = fates es

abbrev with_fate : Option Bool → List ℕ → List (ℕ × Option Bool)
with_fate o callers = map (λ c. (c, o)) callers

abbrev answered : List (ℕ × Bool) → List (ℕ × Option Bool)
answered answers = map (λ (a : ℕ × Bool). (a.0, some a.1)) answers

-- What became of the callers: those that wait, and those that were answered.
abbrev pub outcomes : Refreshes → List (ℕ × Option Bool)
outcomes s =
    map (λ c. (c, none)) (waiters s.waiting) ++ map (λ (a : ℕ × Bool). (a.0, some a.1)) s.answers

-- One POST is outstanding while the promise is set, none otherwise.
abbrev pub IsCounted : Refreshes → Type 0
IsCounted s = s.posts ≡ s.replies + outstanding s.waiting

step-IsCounted : (s : Refreshes) (e : Event) → IsCounted s → IsCounted (step s e)
unfolding step
step-IsCounted s (call c) h = ground arith
step-IsCounted s (settle b) h = ground arith

answered-resume :
    (b : Bool) (callers : List ℕ) (answers : List (ℕ × Bool))
    → answered (resume b callers ++ answers) ≡ with_fate (some b) callers ++ answered answers
answered-resume b [] answers = refl
answered-resume b (c ∷ callers) answers = ap (◌∷◌ (c, some b)) (answered-resume b callers answers)

-- Whatever the interleaving, at most one POST is outstanding, exactly while callers are waiting.
pub run-IsCounted : (s : Refreshes) (es : List Event) → IsCounted s → IsCounted (run s es)
unfolding run
run-IsCounted s [] h = h
run-IsCounted s (e ∷ es) h = run-IsCounted (step s e) es (step-IsCounted s e h)

run-fates :
    (s : Refreshes) (es : List Event)
    → outcomes (run s es)
      ≡ fates es ++ (with_fate (first_reply es) (waiters s.waiting) ++ answered s.answers)
unfolding run step
run-fates s [] = refl
run-fates s (call c ∷ es) = elim (Option-cases s.waiting) [
  | inl e ↦
      run-fates (step s (call c)) es
      ∙ rw e (sym (append_assoc (fates es) ((c, first_reply es) ∷ []) (answered s.answers)))
  | inr (callers, e) ↦
      run-fates (step s (call c)) es
      ∙ rw e (
          sym (
            append_assoc (fates es) ((c, first_reply es) ∷ [])
              (with_fate (first_reply es) callers ++ answered s.answers)))
]
run-fates s (settle b ∷ es) = elim (Option-cases s.waiting) [
  | inl e ↦ run-fates (step s (settle b)) es ∙ rw e refl
  | inr (callers, e) ↦
      run-fates (step s (settle b)) es
      ∙ rw e (ap (λ xs. fates es ++ xs) (answered-resume b callers s.answers))
]

-- From an idle client and in any interleaving: a POST is unanswered exactly while callers wait, and
-- then only one; and every call, once and in the order of the calls, is answered with the first answer
-- after it, or waits if there is none.
pub shared_refresh :
    (es : List Event)
    → ((run idle es).posts ≡ (run idle es).replies + outstanding (run idle es).waiting)
      × (outcomes (run idle es) ≡ fates es)
shared_refresh es =
    (run-IsCounted idle es (ground arith), run-fates idle es ∙ append-nil (fates es))
