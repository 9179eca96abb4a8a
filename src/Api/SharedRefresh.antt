-- ===== src/Api/SharedRefresh.antt =====
-- `performRefresh` under concurrent requests (core/api/client.ts): the callers that share one refresh.
-- A schedule interleaves the calls of the interceptors with the answers to the POST.
pub mod Laws
use choschmous_v.Base.{ℕ, ◌+◌, Bool, Option, none, some, List, [], ◌∷◌, ◌++◌, map}
use mathlib.Core.List.{foldl}

-- `waiting` is `refreshPromise`: the callers that await it, the latest first, or `null`. `answers`
-- records what each caller was resumed with.
pub record Refreshes : Type 0 where
  pub waiting : Option (List ℕ)
  pub posts : ℕ
  pub replies : ℕ
  pub answers : List (ℕ × Bool)

-- A caller asks for a refresh, or the outstanding POST is answered, with success or not.
pub data Event : Type 0 where
  call : (caller : ℕ) → Event
  settle : (success : Bool) → Event

abbrev pub idle : Refreshes
idle = record { waiting = none; posts = 0; replies = 0; answers = [] }

abbrev pub resume : Bool → List ℕ → List (ℕ × Bool)
resume success callers = map (λ c. (c, success)) callers

-- `finally` clears the promise before the callers go on. With no POST outstanding nothing can answer.
unfoldable pub step : Refreshes → Event → Refreshes
step s (call c) = elim s.waiting [
  | none ↦ record s { waiting = some (c ∷ []); posts = s.posts + 1 }
  | some callers ↦ record s { waiting = some (c ∷ callers) }
]
step s (settle success) = elim s.waiting [
  | none ↦ s
  | some callers ↦ record s {
    waiting = none;
    replies = s.replies + 1;
    answers = resume success callers ++ s.answers;
  }
]

unfoldable pub run : Refreshes → List Event → Refreshes
unfolding step
run = foldl step
