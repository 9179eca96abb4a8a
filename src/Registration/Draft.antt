-- ===== src/Registration/Draft.antt =====
-- The autosaved draft (hooks/useRegistrationDraft.ts): one mounted wizard with its key. A `V` is what
-- the form holds; `print` is its JSON, and `merge` lays the values of a JSON text over it, or is `none`
-- for a text that is no JSON.
pub mod Laws
use choschmous_v.Base.{
  ℕ, Bool, true, Option, none, some, List, [], ◌∷◌, if◌then◌else◌, or_else, Text, is_empty,
}

-- The item under the key, the pending timer with the values it will save, whether the draft was
-- restored, and `savedAt`. `writable` says whether a write to the storage succeeds.
pub record Draft (V : Type 0) : Type 0 where
  pub writable : Bool
  pub form : V
  pub item : Option Text
  pub timer : Option V
  pub restored : Bool
  pub saved_at : Option ℕ

-- The form becomes ready, its values change, the debounced timer fires, `clearDraft` is called (after a
-- submission), the effect is cleaned up.
pub data Event (V : Type 0) : Type 0 where
  ready : Event V
  change : V → Event V
  fire : (now : ℕ) → Event V
  clear : Event V
  unmount : Event V

module _ {V : Type 0} (print : V → Text) (merge : V → Text → Option V) where
  -- A missing or empty item is left alone, and so is one that is no JSON.
  abbrev pub restored_form : Option Text → V → V
  restored_form none v = v
  restored_form (some raw) v = if is_empty raw then v else or_else (merge v raw) v

  unfoldable pub step : Draft V → Event V → Draft V
  step d ready =
      if d.restored then d else record d { restored = true; form = restored_form d.item d.form }
  step d (change v) = record d { form = v; timer = some v }
  step d (fire now) = elim d.timer [
    | none ↦ d
    | some v ↦
        if d.writable
        then record d { timer = none; item = some (print v); saved_at = some now }
        else record d { timer = none }
  ]
  step d clear = record d { item = if d.writable then none else d.item; saved_at = none }
  step d unmount = record d { timer = none }

  unfoldable pub run : Draft V → List (Event V) → Draft V
  unfolding step
  run d [] = d
  run d (e ∷ es) = run (step d e) es
