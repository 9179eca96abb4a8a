-- ===== src/Wizard.antt =====
-- The position in a wizard of steps, which the survey forms (frontend/src/modules/survey, bynumber
-- and bycategory) and the registration form keep alike, and shared/ui/StepIndicator.tsx.
pub mod Moves
pub mod Survey
pub mod ByNumber
pub mod ByCategory
pub mod Register
mod Tests
use choschmous_v.Base.{
  ℕ, zero, suc, Bool, false, Option, none, some, List, [], ◌∷◌, leb, if◌then◌else◌, Eq, ◌==◌,
  nat_eq, length, text_eq,
}

-- `currentStep` and `maxReached`. What `FORM_STEPS[i]` is past the end, `undefined`, is `none`.
pub record Position {ℓ} (S : Type ℓ) : Type ℓ where
  pub current : Option S
  pub max_reached : ℕ

module _ {ℓ} {S : Type ℓ} where
  -- `FORM_STEPS[i]`
  abbrev pub get_elem? : List S → ℕ → Option S
  get_elem? [] i = none
  get_elem? (x ∷ xs) zero = some x
  get_elem? (x ∷ xs) (suc i) = get_elem? xs i

  -- `setCurrentStep(FORM_STEPS[idx]); setMaxReached((m) => Math.max(m, idx))`
  unfoldable pub go_to_step : List S → ℕ → Position S → Position S
  go_to_step steps i p = record {
    current = get_elem? steps i;
    max_reached = if leb p.max_reached i then i else p.max_reached;
  }

  -- A click on a step: only up to the furthest one reached, which stays.
  unfoldable pub handle_step_click : List S → ℕ → Position S → Position S
  handle_step_click steps i p =
      if leb i p.max_reached then record p { current = get_elem? steps i } else p

-- `i + 1` of an index, where `none` is -1.
abbrev pub next_index : Option ℕ → ℕ
next_index none = 0
next_index (some i) = suc i

-- The buttons of the step indicator that are not disabled: up to the current step.
unfoldable pub is_reachable : Option ℕ → ℕ → Bool
is_reachable none i = false
is_reachable (some c) i = leb i c

module _ {ℓ} {S : Type ℓ} ⦃e : Eq S⦄ where
  -- `steps.indexOf(x)`: `none` is -1.
  unfoldable pub index_from : ℕ → S → List S → Option ℕ
  index_from n x [] = none
  index_from n x (y ∷ ys) = if y == x then some n else index_from (suc n) x ys

  unfoldable pub index_of : List S → Option S → Option ℕ
  unfolding index_from
  index_of steps none = none
  index_of steps (some x) = index_from 0 x steps

  -- The next step, if there is one and the current one may be left.
  unfoldable pub advance : List S → Bool → Position S → Position S
  unfolding go_to_step index_of
  advance steps can_proceed p =
      let next = next_index (index_of steps p.current) in
      if leb (length steps) next then p else if can_proceed then go_to_step steps next p else p

  -- `if (stepIndex > 0) goToStep(stepIndex - 1)`
  unfoldable pub handle_previous_step : List S → Position S → Position S
  unfolding go_to_step index_of
  handle_previous_step steps p = elim (index_of steps p.current) [
    | some (suc i) ↦ go_to_step steps i p
    | some zero ↦ p
    | none ↦ p
  ]
