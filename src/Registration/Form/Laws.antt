-- ===== src/Registration/Form/Laws.antt =====
-- What the server is sent of a form that the schema accepts.
use choschmous_v.Base.{
  ℕ, ◌≤◌, ◌≡◌, refl, ◌⊎◌, Bool, true, false, Option, some, List, [], ◌∷◌, nat_eq, or_else, All,
  length, includes, Text, codes, text_eq, is_empty, trim,
}
use choschmous_v.Base.Assoc.{get}
use choschmous_v.Registration.Form.{
  Runtime, Input, all_digits, all_of, genders, athlete, leader, is_past, Payload,
  document_type_by_form_value,
}

-- A positive id.
abbrev pub IsId : Option ℕ → Type 0
IsId o = (n : ℕ) × (o ≡ some n) × (1 ≤ n)

-- A name without spaces at its ends, and not empty.
abbrev pub IsName : Text → Type 0
IsName s = (trim s ≡ s) × (is_empty s ≡ false)

-- The document types in the payload's spelling.
abbrev pub server_document_types : List Text
server_document_types =
    codes "IDCard"
    ∷ codes "BirthCertificate"
    ∷ codes "Passport"
    ∷ codes "FamilyBook"
    ∷ codes "Other"
    ∷ []

-- The role with what it requires.
abbrev pub HasRole : {N : Type 0} → Payload N → Type 0
HasRole p =
    ((p.role ≡ athlete) × IsId p.category_id)
    ⊎ ((p.role ≡ leader) × ((r : Text) × (p.leader_role ≡ some r) × (is_empty r ≡ false)))

pub record IsComplete (js : Runtime) (i : Input) (p : Payload js.Num) : Type 0 where
  pub event : IsId p.event_id
  pub sport : IsId p.sport_id
  pub organization :
      (o : Text) × (i.organization_id ≡ some o)
      × (is_empty o ≡ false)
      × (p.organization_id ≡ js.number_of o)
  pub last_name_khmer : IsName p.last_name_khmer
  pub first_name_khmer : IsName p.first_name_khmer
  pub last_name_latin : IsName p.last_name_latin
  pub first_name_latin : IsName p.first_name_latin
  pub phone : (all_digits p.phone ≡ true) × (7 ≤ length p.phone) × (length p.phone ≤ 15)
  pub gender : includes genders p.gender ≡ true
  pub birth : is_past js p.date_of_birth ≡ true
  pub document : includes server_document_types p.id_doc_type ≡ true
  pub nationality : (n : Text) × (p.nationality ≡ some n) × IsName n
  pub role : HasRole p

abbrev IsServed : Text → Type 0
IsServed t = includes server_document_types (or_else (get t document_type_by_form_value) t) ≡ true

pub all_of-All : (bs : List Bool) → all_of bs ≡ true → All (λ b. b ≡ true) bs
all_of-All [] h = tt
all_of-All (true ∷ bs) h = (refl, all_of-All bs h)
all_of-All (false ∷ bs) h = absurd (cc h)
