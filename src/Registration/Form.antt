-- ===== src/Registration/Form.antt =====
-- The registration form: its schema (schema/registration.schema.ts) and the payload that is sent
-- (mappers/registration.mapper.ts, types/index.ts). A field that may be missing or `null` is `none`.
pub mod Laws
use choschmous_v.Base.{
  ℕ, Bool, true, false, not, ◌&&◌, ◌||◌, Option, none, some, List, [], ◌∷◌, leb, if◌then◌else◌,
  ◌==◌, nat_eq, or_else, is_some, length, includes, Text, codes, text_eq, is_empty, trim, to_upper,
  to_lower,
}
use choschmous_v.Base.Assoc.{get}

-- What the code uses of the JavaScript runtime: `Number(s)`, the time value of `new Date(s)`, counted
-- from the earliest one, or `none` for an invalid date, and the present one.
pub record Runtime : Type 1 where
  pub Num : Type 0
  pub number_of : Text → Num
  pub time_of : Text → Option ℕ
  pub now : ℕ

-- `RegisterFormInput`
pub record Input : Type 0 where
  pub event_type : Option Text
  pub event_id : Option ℕ
  pub organization_id : Option Text
  pub sport_id : Option ℕ
  pub category_id : Option ℕ
  pub team_id : Option ℕ
  pub kh_family_name : Text
  pub kh_given_name : Text
  pub en_family_name : Text
  pub en_given_name : Text
  pub gender : Text
  pub date_of_birth : Text
  pub nationality : Option Text
  pub phone : Text
  pub id_document_type : Text
  pub address : Option Text
  pub role : Text
  pub leader_role : Option Text
  pub photo_path : Option Text
  pub birth_certificate_path : Option Text
  pub national_id_path : Option Text
  pub passport_path : Option Text
  pub force : Option Bool

-- `RegisterFormData`: the input as the schema's transformations leave it.
unfoldable pub transformed : Input → Input
transformed i = record i {
  kh_family_name = trim i.kh_family_name;
  kh_given_name = trim i.kh_given_name;
  en_family_name = trim i.en_family_name;
  en_given_name = trim i.en_given_name;
  gender = to_upper i.gender;
  nationality = some (trim (or_else i.nationality (codes "Cambodian")));
  phone = trim i.phone;
  id_document_type = to_upper i.id_document_type;
  address = elim i.address [ some a ↦ some (trim a) | none ↦ none ];
  role = to_lower i.role;
}

abbrev pub is_digit : ℕ → Bool
is_digit c = leb 48 c && leb c 57

abbrev pub all_digits : Text → Bool
all_digits [] = true
all_digits (c ∷ s) = is_digit c && all_digits s

-- `/^\d{7,15}$/`
abbrev pub is_phone : Text → Bool
is_phone s = all_digits s && leb 7 (length s) && leb (length s) 15

abbrev pub genders : List Text
genders = codes "MALE" ∷ codes "FEMALE" ∷ codes "OTHER" ∷ []

abbrev pub document_types : List Text
document_types =
    codes "IDCARD"
    ∷ codes "BIRTHCERTIFICATE"
    ∷ codes "PASSPORT"
    ∷ codes "FAMILYBOOK"
    ∷ codes "OTHER"
    ∷ []

abbrev pub athlete : Text
athlete = codes "athlete"

abbrev pub leader : Text
leader = codes "leader"

-- `z.number().min(1).nullable()`
abbrev pub null_or_positive : Option ℕ → Bool
null_or_positive none = true
null_or_positive (some n) = leb 1 n

-- `z.string().min(1).nullable()`
abbrev pub null_or_filled : Option Text → Bool
null_or_filled none = true
null_or_filled (some s) = not (is_empty s)

-- `!!n` and `!!s`
abbrev pub truthy : Option ℕ → Bool
truthy none = false
truthy (some n) = not (n == 0)

abbrev pub filled : Option Text → Bool
filled none = false
filled (some s) = not (is_empty s)

-- Each of the checks holds.
abbrev pub all_of : List Bool → Bool
all_of [] = true
all_of (b ∷ bs) = b && all_of bs

module _ (js : Runtime) where
  abbrev pub is_past : Text → Bool
  is_past s = elim (js.time_of s) [ none ↦ false | some t ↦ leb t js.now ]

  -- The checks of the object's fields, on the transformed values.
  abbrev pub field_checks : Input → List Bool
  field_checks d =
      null_or_filled d.event_type
      ∷ null_or_positive d.event_id
      ∷ null_or_filled d.organization_id
      ∷ null_or_positive d.sport_id
      ∷ null_or_positive d.category_id
      ∷ not (is_empty d.kh_family_name)
      ∷ not (is_empty d.kh_given_name)
      ∷ not (is_empty d.en_family_name)
      ∷ not (is_empty d.en_given_name)
      ∷ includes genders d.gender
      ∷ is_past d.date_of_birth
      ∷ filled d.nationality
      ∷ is_phone d.phone
      ∷ includes document_types d.id_document_type
      ∷ (d.role == athlete || d.role == leader)
      ∷ null_or_filled d.photo_path
      ∷ []

  -- The refinements of the whole object.
  abbrev pub refinements : Input → List Bool
  refinements d =
      filled d.event_type
      ∷ is_some d.event_id
      ∷ is_some d.organization_id
      ∷ is_some d.sport_id
      ∷ not (d.role == athlete && not (truthy d.category_id))
      ∷ not (d.role == leader && not (filled d.leader_role))
      ∷ []

  -- `registerSchema`: the parsed form, or `none` if a check fails.
  unfoldable pub parse_registration : Input → Option Input
  parse_registration i =
      if all_of (field_checks (transformed i)) && all_of (refinements (transformed i))
      then some (transformed i)
      else none

-- `documentTypeByFormValue`
abbrev pub document_type_by_form_value : List (Text × Text)
document_type_by_form_value =
    (codes "IDCARD", codes "IDCard")
    ∷ (codes "BIRTHCERTIFICATE", codes "BirthCertificate")
    ∷ (codes "PASSPORT", codes "Passport")
    ∷ (codes "FAMILYBOOK", codes "FamilyBook")
    ∷ (codes "OTHER", codes "Other")
    ∷ []

-- `RegisterPayload`. The ids stand as the casts of the code leave them: a `null` stays one.
pub record Payload (Num : Type 0) : Type 0 where
  pub user_id : Text
  pub event_id : Option ℕ
  pub organization_id : Num
  pub sport_id : Option ℕ
  pub category_id : Option ℕ
  pub team_id : Option ℕ
  pub force : Bool
  pub last_name_khmer : Text
  pub first_name_khmer : Text
  pub last_name_latin : Text
  pub first_name_latin : Text
  pub phone : Text
  pub gender : Text
  pub date_of_birth : Text
  pub id_doc_type : Text
  pub address : Option Text
  pub nationality : Option Text
  pub role : Text
  pub leader_role : Option Text
  pub photo_url : Option Text
  pub birth_certificate_url : Option Text
  pub national_id_url : Option Text
  pub passport_url : Option Text
  pub nationality_document_url : Option Text

-- `Number(x)` of the organization's id; of `null` it is that of the text "0".
abbrev pub organization_number : (js : Runtime) → Option Text → js.Num
organization_number js o = js.number_of (or_else o (codes "0"))

unfoldable pub form_data_to_payload : (js : Runtime) → Input → Text → Payload js.Num
unfolding get
form_data_to_payload js d user_id = record {
  user_id = user_id;
  event_id = d.event_id;
  organization_id = organization_number js d.organization_id;
  sport_id = d.sport_id;
  category_id = d.category_id;
  team_id = d.team_id;
  force = or_else d.force false;
  last_name_khmer = d.kh_family_name;
  first_name_khmer = d.kh_given_name;
  last_name_latin = d.en_family_name;
  first_name_latin = d.en_given_name;
  phone = d.phone;
  gender = d.gender;
  date_of_birth = d.date_of_birth;
  id_doc_type = or_else (get d.id_document_type document_type_by_form_value) d.id_document_type;
  address = d.address;
  nationality = d.nationality;
  role = d.role;
  leader_role = elim d.leader_role [ none ↦ none | some r ↦ if is_empty r then none else some r ];
  photo_url = d.photo_path;
  birth_certificate_url = d.birth_certificate_path;
  national_id_url = d.national_id_path;
  passport_url = d.passport_path;
  nationality_document_url = none;
}
