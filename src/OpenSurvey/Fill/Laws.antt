-- ===== src/OpenSurvey/Fill/Laws.antt =====
-- The canonical order, and what is submitted for each field.
use choschmous_v.Base.{
  ℕ, ◌≡◌, refl, sym, ap, ◌∙◌, inl, inr, true, false, ◌&&◌, Option, none, some, List, [], ◌∷◌, arith,
  if◌then◌else◌, Bool-cases, Option-cases, ◌==◌, nat_eq, or_else, All, Any, Text, text_beq_iff,
  text_eq, is_empty, trim,
}
use mathlib.Core.List.{Perm}
use choschmous_v.Base.Sorting
use choschmous_v.Base.Assoc.{get, put, get-put}
use choschmous_v.Base.Decimal.{show, show-injective}
use choschmous_v.OpenSurvey.Fill.{
  Field, before, sort_open_survey_fields, Check, check_of, shape_from,
  build_open_survey_form_schema, Responses, check_entry, cons_entry, parse_responses, defaults_from,
  fields_to_defaults, payload_from, form_values_to_payload,
}

-- The fields are shown by ascending position, ties by id, whatever the order they arrive in, and none
-- is lost or repeated.
pub sort_open_survey_fields-sorts :
    (fields : List Field)
    → Sorting.IsSorted before (sort_open_survey_fields fields)
      × Perm (sort_open_survey_fields fields) fields
unfolding sort_open_survey_fields
sort_open_survey_fields-sorts fields = (
  Sorting.sort-IsSorted before (λ a b h. ground arith) (λ a b c h k. ground arith) fields,
  Sorting.sort-perm before fields,
)

-- No field of the list has the id.
abbrev pub IsNew : ℕ → List Field → Type 0
IsNew i fs = All (λ f. (f.field_id == i) ≡ false) fs

abbrev pub HasDistinctIds : List Field → Type 0
HasDistinctIds [] = Unit
HasDistinctIds (f ∷ fs) = IsNew f.field_id fs × HasDistinctIds fs

abbrev pub IsIn : Field → List Field → Type 0
IsIn f fs = Any (λ g. f ≡ g) fs

get-payload_from-new :
    (values : Responses) (out : List (ℕ × Option Text)) (fs : List Field) (i : ℕ)
    → IsNew i fs
    → get i (payload_from values out fs) ≡ get i out
get-payload_from-new values out [] i h = refl
get-payload_from-new values out (f ∷ fs) i (h, hs) =
    get-payload_from-new values (put f.field_id (get (show f.field_id) values) out) fs i hs
    ∙ ground (arith, get-put f.field_id i (get (show f.field_id) values) out)

get-payload_from :
    (values : Responses) (out : List (ℕ × Option Text)) (fs : List Field) (f : Field)
    → HasDistinctIds fs
    → IsIn f fs
    → get f.field_id (payload_from values out fs) ≡ some (get (show f.field_id) values)
get-payload_from values out [] f d m = absurd m
get-payload_from values out (g ∷ fs) f (new, d) (inl e) = rw e (
    get-payload_from-new values (put g.field_id (get (show g.field_id) values) out) fs g.field_id
      new
    ∙ ground (arith, get-put g.field_id g.field_id (get (show g.field_id) values) out))
get-payload_from values out (g ∷ fs) f (new, d) (inr m) =
    get-payload_from values (put g.field_id (get (show g.field_id) values) out) fs f d m

show-ne : (i j : ℕ) → (i == j) ≡ false → (show i == show j) ≡ false
show-ne i j h = elim (Bool-cases (show i == show j)) [
  | inl e ↦ absurd (ground (arith, show-injective i j ((text_beq_iff (show i) (show j)).0 e)))
  | inr e ↦ e
]

get-defaults_from-new :
    (out : Responses) (fs : List Field) (i : ℕ)
    → IsNew i fs
    → get (show i) (defaults_from out fs) ≡ get (show i) out
get-defaults_from-new out [] i h = refl
get-defaults_from-new out (f ∷ fs) i (h, hs) =
    get-defaults_from-new (put (show f.field_id) (or_else f.value []) out) fs i hs
    ∙ get-put (show f.field_id) (show i) (or_else f.value []) out
    ∙ rw (show-ne f.field_id i h)

same : (t : Text) → (t == t) ≡ true
same t = (text_beq_iff t t).1 refl

get-defaults_from :
    (out : Responses) (fs : List Field) (f : Field)
    → HasDistinctIds fs
    → IsIn f fs
    → get (show f.field_id) (defaults_from out fs) ≡ some (or_else f.value [])
get-defaults_from out [] f d m = absurd m
get-defaults_from out (g ∷ fs) f (new, d) (inl e) = rw e (
    get-defaults_from-new (put (show g.field_id) (or_else g.value []) out) fs g.field_id new
    ∙ get-put (show g.field_id) (show g.field_id) (or_else g.value []) out
    ∙ rw (same (show g.field_id)))
get-defaults_from out (g ∷ fs) f (new, d) (inr m) =
    get-defaults_from (put (show g.field_id) (or_else g.value []) out) fs f d m

get-shape_from-new :
    (shape : List (Text × Check)) (fs : List Field) (i : ℕ)
    → IsNew i fs
    → get (show i) (shape_from shape fs) ≡ get (show i) shape
get-shape_from-new shape [] i h = refl
get-shape_from-new shape (f ∷ fs) i (h, hs) =
    get-shape_from-new (put (show f.field_id) (check_of f) shape) fs i hs
    ∙ get-put (show f.field_id) (show i) (check_of f) shape
    ∙ rw (show-ne f.field_id i h)

get-shape_from :
    (shape : List (Text × Check)) (fs : List Field) (f : Field)
    → HasDistinctIds fs
    → IsIn f fs
    → get (show f.field_id) (shape_from shape fs) ≡ some (check_of f)
get-shape_from shape [] f d m = absurd m
get-shape_from shape (g ∷ fs) f (new, d) (inl e) = rw e (
    get-shape_from-new (put (show g.field_id) (check_of g) shape) fs g.field_id new
    ∙ get-put (show g.field_id) (show g.field_id) (check_of g) shape
    ∙ rw (same (show g.field_id)))
get-shape_from shape (g ∷ fs) f (new, d) (inr m) =
    get-shape_from (put (show g.field_id) (check_of g) shape) fs f d m

cons_entry-inv :
    (k : Text) (a : Option Text) (b : Option Responses) (out : Responses)
    → cons_entry k a b ≡ some out
    → (s : Text) × (r : Responses) × (a ≡ some s) × (b ≡ some r) × (out ≡ (k, s) ∷ r)
cons_entry-inv k (some s) (some r) out h = (s, r, refl, refl, ground arith)
cons_entry-inv k none b out h = absurd (cc h)
cons_entry-inv k (some s) none out h = absurd (cc h)

-- A parsed form holds for each key of the shape what its check made of the entry.
get-parse_responses :
    (shape : List (Text × Check)) (responses out : Responses) (k : Text) (c : Check)
    → parse_responses shape responses ≡ some out
    → get k shape ≡ some c
    → (s : Text) × (get k out ≡ some s) × (check_entry c (get k responses) ≡ some s)
unfolding parse_responses get
get-parse_responses [] responses out k c h g = absurd (cc g)
get-parse_responses ((j, d) ∷ shape) responses out k c h g =
    let (s, rest, checked, parsed, e) = cons_entry-inv j _ _ out h in
    rw e (elim (Bool-cases (j == k)) [
      | inl p ↦ (s, rw p, ground (arith, (text_beq_iff j k).0 p))
      | inr p ↦ rw p (get-parse_responses shape responses rest k c parsed (ground arith))
    ])

-- Of a submission that passes the form's schema, each required field has an answer that is not blank,
-- trimmed, and each other field the text that was typed, of fields with different ids.
pub accepted_form :
    (fields : List Field) (values out : Responses) (event_id : ℕ) (org : Option ℕ) (f : Field)
    → HasDistinctIds fields
    → IsIn f fields
    → parse_responses (build_open_survey_form_schema fields) values ≡ some out
    → (typed answer : Text) × (get (show f.field_id) values ≡ some typed)
      × (get f.field_id (form_values_to_payload out fields event_id org).responses
          ≡ some (some answer))
      × (answer ≡ (if f.required then trim typed else typed))
      × (f.required && is_empty answer ≡ false)
unfolding form_values_to_payload build_open_survey_form_schema
accepted_form fields values out event_id org f d m h =
    let (answer, in_out, checked) =
      get-parse_responses (shape_from [] fields) values out (show f.field_id) (check_of f) h
        (get-shape_from [] fields f d m) in
    let sent = get-payload_from out [] fields f d m ∙ ap some in_out in
    elim (Option-cases (get (show f.field_id) values)) [
      | inl e ↦ absurd (cc (rw e at checked))
      | inr (typed, e) ↦
          let answered = rw e at checked in
          (typed, answer, e, sent, ground (arith, answered), ground (arith, answered))
    ]

-- A form that is submitted as it was filled in from the server, and passes its schema, sends back each
-- saved answer, trimmed if the field is required, and an empty text, not `null`, for an optional field
-- that has none, of fields with different ids. It does not pass with a required field whose saved answer
-- is missing or blank.
pub untouched_form :
    (fields : List Field) (out : Responses) (event_id : ℕ) (org : Option ℕ) (f : Field)
    → HasDistinctIds fields
    → IsIn f fields
    → parse_responses (build_open_survey_form_schema fields) (fields_to_defaults fields) ≡ some out
    → (get f.field_id (form_values_to_payload out fields event_id org).responses
        ≡ some (some (if f.required then trim (or_else f.value []) else or_else f.value [])))
      × (f.required ≡ true → is_empty (trim (or_else f.value [])) ≡ false)
unfolding fields_to_defaults
untouched_form fields out event_id org f d m h =
    let (typed, answer, saved, sent, e, full) =
      accepted_form fields (fields_to_defaults fields) out event_id org f d m h in
    let value : or_else f.value [] ≡ typed =
      ap (λ o. or_else o []) (sym (get-defaults_from [] fields f d m) ∙ saved) in
    (sent ∙ rw (e, value) refl, λ r. rw value (ap is_empty (sym (e ∙ rw r refl)) ∙ (rw r at full)))
