-- ===== src/OpenSurvey/Options.antt =====
-- The options of a choice field: what is stored, and how the builder and the renderer read it.
pub mod Laws
use choschmous_v.Base.{
  ℕ, Bool, Option, none, some, List, [], ◌∷◌, map, if◌then◌else◌, ◌==◌, nat_eq, or_else, Text,
  codes, text_eq, is_empty, trim,
}

-- JSON values. The fields of an object stand in the order in which `Object.entries` lists them.
mutual
  pub data Json : Type 0 where
    null : Json
    bool : Bool → Json
    num : ℕ → Json
    str : Text → Json
    arr : Items → Json
    obj : Props → Json

  pub data Items : Type 0 where
    nil : Items
    cons : Json → Items → Items

  pub data Props : Type 0 where
    end : Props
    prop : Text → Json → Props → Props

-- `obj[key]`
unfoldable pub property : Text → Props → Option Json
property k end = none
property k (prop j v ps) = if j == k then some v else property k ps

-- `OpenSurveyChoiceOption`, `OpenSurveyFieldOptionInput`
pub record ChoiceOption : Type 0 where
  pub value : Text
  pub label : Text

-- `typeof x === 'string' ? x : undefined`
abbrev pub string_of : Option Json → Option Text
string_of (some (str s)) = some s
string_of _ = none

abbrev pub value_key : Text
value_key = codes "value"

abbrev pub label_key : Text
label_key = codes "label"

abbrev pub choices_key : Text
choices_key = codes "choices"

-- The renderer's reading of an object item: an empty value is dropped, an empty label is kept.
abbrev pub rendered : Option Text → Option Text → Option ChoiceOption
rendered none label = none
rendered (some v) label =
    if is_empty v then none else some (record { value = v; label = or_else label v })

-- The builder's reading: an empty label becomes the value.
abbrev pub edited : Option Text → Option Text → Option ChoiceOption
edited none label = none
edited (some v) none = if is_empty v then none else some (record { value = v; label = v })
edited (some v) (some l) =
    if is_empty v then none else some (record { value = v; label = if is_empty l then v else l })

abbrev pub Reading : Type 0
Reading = Option Text → Option Text → Option ChoiceOption

-- An item of the `choices` array. An array among the items has neither property.
unfoldable pub read_item : Reading → Json → Option ChoiceOption
unfolding property
read_item reading (str s) = some (record { value = s; label = s })
read_item reading (obj ps) =
    reading (string_of (property value_key ps)) (string_of (property label_key ps))
read_item reading _ = none

abbrev pub keep {ℓ} : {A : Type ℓ} → Option A → List A → List A
keep none xs = xs
keep (some x) xs = x ∷ xs

unfoldable pub read_items : Reading → Items → List ChoiceOption
unfolding read_item
read_items reading nil = []
read_items reading (cons v vs) = keep (read_item reading v) (read_items reading vs)

-- A flat `{ value: label }` object.
unfoldable pub read_entries : Props → List ChoiceOption
read_entries end = []
read_entries (prop k (str s) ps) = record { value = k; label = s } ∷ read_entries ps
read_entries (prop k _ ps) = read_entries ps

abbrev pub read_choices : Reading → Option Json → Props → List ChoiceOption
read_choices reading (some (arr items)) ps = read_items reading items
read_choices reading _ ps = read_entries ps

abbrev pub or_null {ℓ} : {A : Type ℓ} → List A → Option (List A)
or_null [] = none
or_null (x ∷ xs) = some (x ∷ xs)

-- The renderer (opensurvey.schema.ts); `null` if there is nothing to choose from.
unfoldable pub extract_field_options : Option Props → Option (List ChoiceOption)
unfolding property read_items read_entries
extract_field_options none = none
extract_field_options (some ps) = or_null (read_choices rendered (property choices_key ps) ps)

-- The builder (openSurveyField.schema.ts).
unfoldable pub field_options_to_inputs : Option Props → List ChoiceOption
unfolding property read_items read_entries
field_options_to_inputs none = []
field_options_to_inputs (some ps) = read_choices edited (property choices_key ps) ps

unfoldable pub stored_option : ChoiceOption → ChoiceOption
stored_option o = record {
  value = trim o.value;
  label = if is_empty (trim o.label) then trim o.value else trim o.label;
}

-- The `choices` that `inputsToFieldOptions` stores.
unfoldable pub inputs_to_field_options : List ChoiceOption → List ChoiceOption
unfolding stored_option
inputs_to_field_options = map stored_option

abbrev pub option_items : List ChoiceOption → Items
option_items [] = nil
option_items (o ∷ os) =
    cons (obj (prop value_key (str o.value) (prop label_key (str o.label) end))) (option_items os)

-- The stored options as the JSON object that is sent.
abbrev pub options_json : List ChoiceOption → Props
options_json os = prop choices_key (arr (option_items os)) end
