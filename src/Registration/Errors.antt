-- ===== src/Registration/Errors.antt =====
-- What a rejected registration shows (parseApiError of mappers/registration.mapper.ts, and `onError`
-- and `onSubmit` of hooks/useRegisterForm.ts).
pub mod Laws
use choschmous_v.Base.{
  ◌≡◌, refl, ap, ◌↔◌, Bool, true, false, Option, none, some, List, [], ◌∷◌, map, if◌then◌else◌, Eq,
  ◌==◌, nat_eq, or_else, includes, Text, codes, text_beq_iff, text_eq,
}
use choschmous_v.Base.Assoc.{put}

-- `FieldError`; the last part of `loc` names the field.
pub record FieldError : Type 0 where
  pub loc : List Text
  pub msg : Text

-- `CodedErrorDetail`, of which the parameters are only handed on.
pub record Coded : Type 0 where
  pub code : Option Text
  pub message : Option Text
  pub duplicate_suspect : Bool

-- The `detail` of the response's body; `absent` if there is no response, no body or no detail, or
-- it is a number or a truth value.
pub data Detail : Type 0 where
  absent : Detail
  text : Text → Detail
  fields : List FieldError → Detail
  coded : Coded → Detail

-- `ParsedError`; a field's key is `undefined`, here `none`, if its `loc` is empty.
pub record ParsedError : Type 0 where
  pub code : Option Text
  pub message : Text
  pub duplicate_suspect : Bool
  pub fields : Option (List (Option Text × Text))

abbrev pub unexpected : Text
unexpected = codes "An unexpected error occurred. Please try again."

abbrev pub last : List Text → Option Text
last [] = none
last (x ∷ []) = some x
last (x ∷ y ∷ ys) = last (y ∷ ys)

abbrev pub key_beq : Option Text → Option Text → Bool
key_beq none none = true
key_beq (some s) (some t) = s == t
key_beq _ _ = false

pub key_beq_iff : (a b : Option Text) → (key_beq a b ≡ true) ↔ (a ≡ b)
key_beq_iff none none = (λ _. refl, λ _. refl)
key_beq_iff (some s) (some t) =
    (λ h. ap some ((text_beq_iff s t).0 h), λ h. (text_beq_iff s t).1 (cc h))
key_beq_iff none (some t) = (λ h. absurd (cc h), λ h. absurd (cc h))
key_beq_iff (some s) none = (λ h. absurd (cc h), λ h. absurd (cc h))

instance abbrev pub key_eq : Eq (Option Text)
key_eq = record { beq = key_beq; beq_iff = key_beq_iff }

-- The loop that fills the map of the fields.
unfoldable pub fields_from : List (Option Text × Text) → List FieldError → List (Option Text × Text)
fields_from m [] = m
fields_from m (e ∷ es) = fields_from (put (last e.loc) e.msg m) es

abbrev pub first_message : List FieldError → Text
first_message [] = codes "Validation error"
first_message (e ∷ es) = e.msg

unfoldable pub parse_api_error : Detail → ParsedError
unfolding fields_from
parse_api_error absent = record {
  code = none;
  message = unexpected;
  duplicate_suspect = false;
  fields = none;
}
parse_api_error (text t) = record {
  code = none;
  message = t;
  duplicate_suspect = false;
  fields = none;
}
parse_api_error (fields es) = record {
  code = none;
  message = first_message es;
  duplicate_suspect = false;
  fields = some (fields_from [] es);
}
parse_api_error (coded c) = record {
  code = c.code;
  message = or_else c.message unexpected;
  duplicate_suspect = c.duplicate_suspect;
  fields = none;
}

-- A message of the form: a text of the server's or of the code's, or a translated code.
pub data Message : Type 0 where
  plain : Text → Message
  localized : (code : Text) → Message

-- What the form does: `setError` on the root or on a field, or the caller's dialog.
pub data Shown : Type 0 where
  root : Message → Shown
  field : Option Text → Text → Shown
  duplicate_dialog : Shown

abbrev pub localized_codes : List Text
localized_codes =
    codes "REGISTRATION_CLOSED"
    ∷ codes "SPORT_NOT_ELIGIBLE"
    ∷ codes "CATEGORY_INVALID"
    ∷ codes "AGE_OUT_OF_RANGE"
    ∷ codes "DOCUMENT_REQUIRED"
    ∷ codes "QUOTA_FULL"
    ∷ []

abbrev pub message_of : Option Text → Text → Message
message_of none message = plain message
message_of (some code) message =
    if includes localized_codes code then localized code else plain message

abbrev pub field_errors : List (Option Text × Text) → List Shown
field_errors m = map (λ e. field e.0 e.1) m

-- `onError`; `has_dialog` says whether the caller gave `onDuplicate`.
unfoldable pub on_error : (has_dialog : Bool) → ParsedError → List Shown
on_error has_dialog p =
    if p.duplicate_suspect
    then (if has_dialog then duplicate_dialog else root (plain p.message)) ∷ []
    else elim p.fields [ some m ↦ field_errors m | none ↦ root (message_of p.code p.message) ∷ [] ]

-- `message || null`; a translated message is not empty.
abbrev pub or_null : Message → Option Message
or_null (plain []) = none
or_null (plain (c ∷ t)) = some (plain (c ∷ t))
or_null (localized code) = some (localized code)

-- The message that stands at the root when the given one stood there before: a field of the server's may
-- be called "root" too.
abbrev pub root_after : Option Message → List Shown → Option Message
root_after before [] = before
root_after before (root m ∷ xs) = root_after (some m) xs
root_after before (field (some name) t ∷ xs) =
    let kept = root_after before xs in
    let new = root_after (some (plain t)) xs in if name == codes "root" then new else kept
root_after before (field none t ∷ xs) = root_after before xs
root_after before (duplicate_dialog ∷ xs) = root_after before xs

-- `serverError`: the banner of the form, which an empty message does not fill.
unfoldable pub server_error : List Shown → Option Message
server_error xs = elim (root_after none xs) [ some m ↦ or_null m | none ↦ none ]
