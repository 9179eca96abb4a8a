-- ===== src/Registration/Errors/Laws.antt =====
-- The messages that the fields show of a list of field errors.
use choschmous_v.Base.{
  ◌≡◌, refl, ap, ◌∙◌, subst, inl, inr, Bool, Option, none, some, List, [], ◌∷◌, arith,
  if◌then◌else◌, Bool-cases, Option-cases, ◌==◌, nat_eq, Text, codes, text_beq_iff, text_eq,
  is_empty,
}
use choschmous_v.Base.Assoc.{get, put, get-put}
use choschmous_v.Registration.Errors.{
  Message, plain, or_null, root_after, server_error, FieldError, fields, last, key_beq_iff, key_eq,
  fields_from, parse_api_error, field_errors, on_error,
}

-- The message of the last error of a field, if it has one.
abbrev pub last_message : Option Text → List FieldError → Option Text
last_message k [] = none
last_message k (e ∷ es) = elim (last_message k es) [
  | some m ↦ some m
  | none ↦ if last e.loc == k then some e.msg else none
]

get-fields_from :
    (m : List (Option Text × Text)) (es : List FieldError) (k : Option Text)
    → get k (fields_from m es) ≡ elim (last_message k es) [ some t ↦ some t | none ↦ get k m ]
unfolding fields_from
get-fields_from m [] k = refl
get-fields_from m (e ∷ es) k =
    get-fields_from (put (last e.loc) e.msg m) es k ∙ elim (Option-cases (last_message k es)) [
      | inl none_left ↦ rw none_left (
          get-put (last e.loc) k e.msg m
          ∙ elim (Bool-cases (last e.loc == k)) [ inl b ↦ rw b refl | inr b ↦ rw b refl ])
      | inr (t, found) ↦ rw found refl
    ]

-- Each field stands once.
abbrev pub HasDistinctKeys : List (Option Text × Text) → Type 0
HasDistinctKeys [] = Unit
HasDistinctKeys ((k, t) ∷ m) = (get k m ≡ none) × HasDistinctKeys m

put-HasDistinctKeys :
    (k : Option Text) (t : Text) (m : List (Option Text × Text))
    → HasDistinctKeys m
    → HasDistinctKeys (put k t m)
unfolding put
put-HasDistinctKeys k t [] h = (unfold get in refl, tt)
put-HasDistinctKeys k t ((j, u) ∷ m) (n, h) = elim (Bool-cases (j == k)) [
  | inl b ↦ rw b (n, h)
  | inr b ↦ rw b (
    get-put k j t m ∙ ground (arith, n, b, key_beq_iff j k, key_beq_iff k j),
    put-HasDistinctKeys k t m h,
  )
]

fields_from-HasDistinctKeys :
    (m : List (Option Text × Text)) (es : List FieldError)
    → HasDistinctKeys m
    → HasDistinctKeys (fields_from m es)
unfolding fields_from
fields_from-HasDistinctKeys m [] h = h
fields_from-HasDistinctKeys m (e ∷ es) h =
    fields_from-HasDistinctKeys (put (last e.loc) e.msg m) es
      (put-HasDistinctKeys (last e.loc) e.msg m h)

-- The banner that a field called "root" gives.
abbrev pub banner_of : Option Text → Option Message → Option Message
banner_of none before = before
banner_of (some t) before = some (plain t)

root_after-field_errors :
    (before : Option Message) (m : List (Option Text × Text))
    → HasDistinctKeys m
    → root_after before (field_errors m) ≡ banner_of (get (some (codes "root")) m) before
unfolding get
root_after-field_errors before [] h = refl
root_after-field_errors before ((none, t) ∷ m) (n, h) = root_after-field_errors before m h
root_after-field_errors before ((some name, t) ∷ m) (n, h) =
    elim (Bool-cases (name == codes "root")) [
      | inl b ↦ rw b (
          root_after-field_errors (some (plain t)) m h
          ∙ ap (λ o. banner_of o (some (plain t)))
              (subst (λ x. get (some x) m ≡ none) ((text_beq_iff name (codes "root")).0 b) n))
      | inr b ↦ rw b (root_after-field_errors before m h)
    ]

-- Of a list of field errors the handler sets one message for each field that the list names, the last
-- one for it, and nothing else; of an empty list it sets nothing. The banner of the form stays empty,
-- but for the message of a field that is called "root", if that is not empty.
pub field_messages :
    (has_dialog : Bool) (es : List FieldError)
    → (m : List (Option Text × Text)) × (on_error has_dialog (parse_api_error (fields es))
        ≡ field_errors m)
      × HasDistinctKeys m
      × ((k : Option Text) → get k m ≡ last_message k es)
      × (server_error (on_error has_dialog (parse_api_error (fields es)))
          ≡ elim (last_message (some (codes "root")) es) [
            | some t ↦ if is_empty t then none else some (plain t)
            | none ↦ none
          ])
unfolding on_error parse_api_error server_error
field_messages has_dialog es = (
  fields_from [] es,
  refl,
  fields_from-HasDistinctKeys [] es tt,
  λ k. last_of k,
  ap shown (
        root_after-field_errors none (fields_from [] es) (fields_from-HasDistinctKeys [] es tt)
        ∙ ap (λ o. banner_of o none) (last_of (some (codes "root"))))
      ∙ shown_banner (last_message (some (codes "root")) es),
)
  where
    last_of : (k : Option Text) → get k (fields_from [] es) ≡ last_message k es
    last_of k =
        get-fields_from [] es k
        ∙ unfold get in
          elim (Option-cases (last_message k es)) [ inl e ↦ rw e refl | inr (t, e) ↦ rw e refl ]

    shown : Option Message → Option Message
    shown o = elim o [ some m ↦ or_null m | none ↦ none ]

    shown_banner :
        (o : Option Text)
        → shown (banner_of o none)
          ≡ elim o [ some t ↦ if is_empty t then none else some (plain t) | none ↦ none ]
    shown_banner none = refl
    shown_banner (some []) = refl
    shown_banner (some (c ∷ t)) = refl
