-- ===== src/OpenSurvey/Builder/Laws.antt =====
-- What an accepted form guarantees to the organizations that fill the field in.
use choschmous_v.Base.{
  ◌⊎◌, Bool, ℕ, ◌+◌, ◌≡◌, refl, ◌≢◌, ◌↔◌, inl, inr, true, false, some, List, [], ◌∷◌, ◌++◌, arith,
  Bool-cases, ◌==◌, nat_eq, is_some, All, Any, length, includes, Text, text_eq, is_empty, trim,
}
use choschmous_v.Base.Trimming.{trim-trim}
use choschmous_v.Base.Splitting.Laws.{IsFree}
use choschmous_v.OpenSurvey.Choices.{
  is_choice_field_type, comma, parse_checkbox_selection, join_checkbox_selection,
}
use choschmous_v.OpenSurvey.Choices.Laws.{IsKey, parse-join_checkbox_selection}
use choschmous_v.OpenSurvey.Options.{
  ChoiceOption, options_json, extract_field_options, inputs_to_field_options,
}
use choschmous_v.OpenSurvey.Options.Laws.{stored_options_read}
use choschmous_v.OpenSurvey.Builder.{
  FormValues, Issue, label_kh_required, report, issues_from, choice_issues, option_issues, accepted,
  parse_form, form_values_to_create_dto,
}

-- The value is not in the list.
abbrev pub IsFresh : List Text → Text → Type 0
IsFresh seen v = includes seen v ≡ false

-- The trimmed values are usable as keys, and each differs from those before it.
abbrev pub AreKeys : List Text → List ChoiceOption → Type 0
AreKeys seen [] = Unit
AreKeys seen (o ∷ os) =
    (is_empty (trim o.value) ≡ false)
    × (includes (trim o.value) comma ≡ false)
    × IsFresh seen (trim o.value)
    × AreKeys (trim o.value ∷ seen) os

issues_from_iff :
    (seen : List Text) (index : ℕ) (os : List ChoiceOption)
    → (issues_from seen index os ≡ []) ↔ AreKeys seen os
unfolding issues_from
issues_from_iff seen index [] = (λ _. tt, λ _. refl)
issues_from_iff seen index (o ∷ os) =
    let ih = issues_from_iff (trim o.value ∷ seen) (index + 1) os in
    elim (Bool-cases (is_empty (trim o.value))) [
      | inl e ↦ rw e (λ h. absurd (cc h), λ h. absurd (cc h.0))
      | inr e ↦ rw e (elim (Bool-cases (includes (trim o.value) comma)) [
        | inl c ↦ rw c (λ h. absurd (cc h), λ h. absurd (cc h.1))
        | inr c ↦ rw c (elim (Bool-cases (includes seen (trim o.value))) [
          | inl d ↦ rw d (λ h. absurd (cc h), λ h. absurd (cc h.2))
          | inr d ↦ rw d (λ h. (refl, refl, refl, ih.0 h), λ h. ih.1 h.3)
        ])
      ])
    ]

accepted_iff : (is : List Issue) (v : FormValues) → (is_some (accepted is v) ≡ true) ↔ (is ≡ [])
accepted_iff [] v = (λ _. refl, λ _. refl)
accepted_iff (i ∷ is) v = (λ h. absurd (cc h), λ h. absurd (cc h))

abbrev pub HasKeys : List ChoiceOption → Type 0
HasKeys os = (length os ≢ 0) × AreKeys [] os

choice_issues_iff : (os : List ChoiceOption) → (choice_issues os ≡ []) ↔ HasKeys os
choice_issues_iff [] = (λ h. absurd (cc h), λ h. absurd (h.0 refl))
choice_issues_iff (o ∷ os) =
    let (to, from) = issues_from_iff [] 0 (o ∷ os) in (λ h. (omega arith, to h), λ h. from h.1)

of_choice :
    (choice : Bool) (os : List ChoiceOption)
    → choice ≡ true
    → (choice ≡ false) ⊎ HasKeys os
    → HasKeys os
of_choice choice os c (inl f) = absurd (cc (c, f))
of_choice choice os c (inr keys) = keys

-- A form is accepted exactly if its Khmer label is not blank and, for a choice type, there is an
-- option, and the options' trimmed values are not empty, hold no comma and are pairwise different.
pub parse_form_iff :
    (v : FormValues)
    → (is_some (parse_form v) ≡ true) ↔ (
        (is_empty (trim v.label_kh) ≡ false)
        × ((is_choice_field_type v.field_type ≡ false) ⊎ HasKeys v.options))
unfolding parse_form
parse_form_iff v =
    let (to, from) =
      accepted_iff (report (is_empty (trim v.label_kh)) label_kh_required ++ option_issues v) v in
    let (keys, issues) = choice_issues_iff v.options in
    elim (Bool-cases (is_empty (trim v.label_kh))) [
      | inl e ↦ (λ h. absurd (cc (to h, e)), λ h. absurd (cc (h.0, e)))
      | inr e ↦ elim (Bool-cases (is_choice_field_type v.field_type)) [
        | inl c ↦ (
          λ h. (e, inr (keys (rw (e, c) at (to h)))),
          λ h. from (rw (e, c) (issues (of_choice _ v.options c h.1))),
        )
        | inr c ↦ (λ h. (e, inl c), λ h. from (rw (e, c) refl))
      ]
    ]

includes-IsFree : (d : ℕ) (s : Text) → includes s d ≡ false → IsFree d s
includes-IsFree d [] h = tt
includes-IsFree d (c ∷ s) h = elim (Bool-cases (c == d)) [
  | inl e ↦ absurd (cc (rw e at h))
  | inr e ↦ (e, includes-IsFree d s (rw e at h))
]

AreKeys-filled :
    (seen : List Text) (os : List ChoiceOption)
    → AreKeys seen os
    → All (λ o. is_empty (trim o.value) ≡ false) os
AreKeys-filled seen [] h = tt
AreKeys-filled seen (o ∷ os) h = (h.0, AreKeys-filled (trim o.value ∷ seen) os h.3)

-- The value of one of the options.
abbrev pub IsValueOf : List ChoiceOption → Text → Type 0
IsValueOf os v = Any (λ o. v ≡ o.value) os

stored-IsKey :
    (seen : List Text) (os : List ChoiceOption) (v : Text)
    → AreKeys seen os
    → IsValueOf (inputs_to_field_options os) v
    → IsKey v
unfolding inputs_to_field_options
stored-IsKey seen [] v h m = absurd m
stored-IsKey seen (o ∷ os) v h (inl e) =
    rw e (trim-trim o.value, h.0, includes-IsFree comma (trim o.value) h.1)
stored-IsKey seen (o ∷ os) v h (inr m) = stored-IsKey (trim o.value ∷ seen) os v h.3 m

selection-AreKeys :
    (os : List ChoiceOption) (sel : List Text)
    → AreKeys [] os
    → All (IsValueOf (inputs_to_field_options os)) sel
    → All IsKey sel
selection-AreKeys os [] h m = tt
selection-AreKeys os (v ∷ sel) h (m, ms) = (stored-IsKey [] os v h m, selection-AreKeys os sel h ms)

-- What an organization checks in a field of an accepted form: the renderer reads the options as they
-- were stored, and any selection of their values, in any order, is read back as it was submitted.
pub accepted_selection_round_trip :
    (v : FormValues) (os : List ChoiceOption) (sel : List Text)
    → is_some (parse_form v) ≡ true
    → is_choice_field_type v.field_type ≡ true
    → (form_values_to_create_dto v).options ≡ some os
    → All (IsValueOf os) sel
    → (extract_field_options (some (options_json os)) ≡ some os)
      × (parse_checkbox_selection (join_checkbox_selection sel) ≡ sel)
unfolding form_values_to_create_dto
accepted_selection_round_trip v os sel ok choice dto chosen =
    let keys = of_choice _ v.options choice ((parse_form_iff v).0 ok).1 in
    let e : inputs_to_field_options v.options ≡ os = ground arith in
    by_options v.options keys (rw (← e) at chosen) e
  where
    by_options :
        (inputs : List ChoiceOption)
        → HasKeys inputs
        → All (IsValueOf (inputs_to_field_options inputs)) sel
        → inputs_to_field_options inputs ≡ os
        → (extract_field_options (some (options_json os)) ≡ some os)
          × (parse_checkbox_selection (join_checkbox_selection sel) ≡ sel)
    by_options [] keys m e = absurd (keys.0 refl)
    by_options (o ∷ inputs) keys m e = (
      rw (← e) (stored_options_read o inputs (AreKeys-filled [] (o ∷ inputs) keys.1)).0,
      parse-join_checkbox_selection sel (selection-AreKeys (o ∷ inputs) sel keys.1 m),
    )
