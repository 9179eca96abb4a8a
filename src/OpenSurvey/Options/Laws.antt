-- ===== src/OpenSurvey/Options/Laws.antt =====
-- What the builder stores is read back alike by the renderer and by the builder.
use choschmous_v.Base.{
  ◌≡◌, refl, ap, inl, inr, false, some, List, [], ◌∷◌, arith, Bool-cases, nat_eq, All, text_eq,
  is_empty, trim,
}
use choschmous_v.Base.Trimming.{trim-trim}
use choschmous_v.OpenSurvey.Options.{
  ChoiceOption, rendered, edited, read_items, or_null, extract_field_options,
  field_options_to_inputs, stored_option, inputs_to_field_options, option_items, options_json,
}

-- Value and label are both there.
abbrev pub IsFilled : ChoiceOption → Type 0
IsFilled o = (is_empty o.value ≡ false) × (is_empty o.label ≡ false)

read_items-rendered :
    (os : List ChoiceOption) → All IsFilled os → read_items rendered (option_items os) ≡ os
unfolding read_items
read_items-rendered [] h = refl
read_items-rendered (o ∷ os) ((v, l), h) = rw (v, read_items-rendered os h)

read_items-edited :
    (os : List ChoiceOption) → All IsFilled os → read_items edited (option_items os) ≡ os
unfolding read_items
read_items-edited [] h = refl
read_items-edited (o ∷ os) ((v, l), h) = rw (v, l, read_items-edited os h)

stored-IsFilled :
    (os : List ChoiceOption)
    → All (λ o. is_empty (trim o.value) ≡ false) os
    → All IsFilled (inputs_to_field_options os)
unfolding inputs_to_field_options
stored-IsFilled [] h = tt
stored-IsFilled (o ∷ os) (v, h) = ((v, ground arith), stored-IsFilled os h)

-- For options whose trimmed values are not empty, the renderer and the builder read the stored
-- object alike: as the trimmed values, each with its trimmed label or with the value in its place.
pub stored_options_read :
    (o : ChoiceOption) (os : List ChoiceOption)
    → All (λ c. is_empty (trim c.value) ≡ false) (o ∷ os)
    → (extract_field_options (some (options_json (inputs_to_field_options (o ∷ os))))
        ≡ some (inputs_to_field_options (o ∷ os)))
      × (field_options_to_inputs (some (options_json (inputs_to_field_options (o ∷ os))))
          ≡ inputs_to_field_options (o ∷ os))
unfolding extract_field_options field_options_to_inputs inputs_to_field_options
stored_options_read o os h =
    let filled = stored-IsFilled (o ∷ os) h in
    (
      ap or_null (read_items-rendered (inputs_to_field_options (o ∷ os)) filled),
      read_items-edited (inputs_to_field_options (o ∷ os)) filled,
    )

stored_option_idempotent :
    (o : ChoiceOption)
    → is_empty (trim o.value) ≡ false
    → stored_option (stored_option o) ≡ stored_option o
unfolding stored_option
stored_option_idempotent o v = elim (Bool-cases (is_empty (trim o.label))) [
  | inl e ↦ rw (e, trim-trim o.value, v) refl
  | inr e ↦ rw (e, trim-trim o.value, trim-trim o.label, e) refl
]

-- Storing what was read from the store changes nothing.
pub inputs_to_field_options_idempotent :
    (os : List ChoiceOption)
    → All (λ o. is_empty (trim o.value) ≡ false) os
    → inputs_to_field_options (inputs_to_field_options os) ≡ inputs_to_field_options os
unfolding inputs_to_field_options
inputs_to_field_options_idempotent [] h = refl
inputs_to_field_options_idempotent (o ∷ os) (v, h) =
    cc (stored_option_idempotent o v, inputs_to_field_options_idempotent os h)
