-- ===== src/Registration/Tests.antt =====
-- A form, two rejections and a draft, on concrete inputs.
use choschmous_v.Base.{
  ℕ, ◌≤◌, ◌≡◌, refl, Bool, true, false, Option, none, some, List, [], ◌∷◌, ◌==◌, nat_eq, length,
  Text, codes, text_eq,
}
use choschmous_v.Registration.Deletion.{Row, Cached, page, other, QueryCache, without, on_mutate}
use choschmous_v.Registration.Deletion
use choschmous_v.Registration.Deletion.Laws.{IsLeftIn, deletion_undone}
use choschmous_v.Base.Assoc.{get}
use choschmous_v.Registration.Form.{Runtime, Input}
use choschmous_v.Registration.Errors.{
  FieldError, fields, root, plain, parse_api_error, on_error, server_error, field_errors, key_eq,
}
use choschmous_v.Registration.Errors.Laws.{HasDistinctKeys, last_message, field_messages}
use choschmous_v.Registration.Draft.{Draft, Event, ready, change, fire, clear, unmount}

-- Every text is the date of its length.
abbrev runtime : Runtime
runtime = record { Num = ℕ; number_of = λ s. length s; time_of = λ s. some (length s); now = 20 }

abbrev athlete_input : Input
athlete_input = record {
  event_type = some (codes "NATIONAL");
  event_id = some 3;
  organization_id = some (codes "12");
  sport_id = some 4;
  category_id = some 5;
  team_id = none;
  kh_family_name = codes " sok ";
  kh_given_name = codes "dara";
  en_family_name = codes "Sok";
  en_given_name = codes "Dara";
  gender = codes "male";
  date_of_birth = codes "2008-01-01";
  nationality = none;
  phone = codes " 012345678";
  id_document_type = codes "passport";
  address = none;
  role = codes "Athlete";
  leader_role = some [];
  photo_path = none;
  birth_certificate_path = none;
  national_id_path = none;
  passport_path = none;
  force = none;
}

abbrev errors : List FieldError
errors =
    record { loc = codes "body" ∷ codes "phone" ∷ []; msg = codes "bad" }
    ∷ record { loc = codes "phone" ∷ []; msg = codes "worse" }
    ∷ []

field_messages_example :
    (m : List (Option Text × Text)) × (on_error true (parse_api_error (fields errors))
      ≡ field_errors m)
    × HasDistinctKeys m
    × ((k : Option Text) → get k m ≡ last_message k errors)
    × (server_error (on_error true (parse_api_error (fields errors))) ≡ none)
field_messages_example = field_messages true errors

no_banner : server_error (root (plain []) ∷ []) ≡ none
unfolding server_error
no_banner = refl

abbrev printed : ℕ → Text
printed n = n ∷ []

abbrev merged : ℕ → Text → Option ℕ
merged n [] = none
merged n (c ∷ s) = some c

abbrev draft : Draft ℕ
draft = record {
  writable = true;
  form = 1;
  item = some (codes "9");
  timer = none;
  restored = false;
  saved_at = none;
}

abbrev events : List (Event ℕ)
events = ready ∷ change 5 ∷ fire 100 ∷ clear ∷ change 6 ∷ unmount ∷ []

abbrev IsSmall : ℕ → Type 0
IsSmall n = n ≤ 6

-- A list with two rows, and a query that is no list.
abbrev cached : QueryCache
cached =
    (
      codes "list",
      page (codes "2") (
          record { enroll_id = none; fields = codes "a" }
          ∷ record { enroll_id = none; fields = codes "b" }
          ∷ []),
    )
    ∷ (codes "me", other (codes "x"))
    ∷ []

abbrev is_list : Text → Bool
is_list k = k == codes "list"

deletion_undone_example :
    (is_list (codes "list") ≡ true
      → IsLeftIn 7 (get (codes "list") cached) (get (codes "list") (on_mutate is_list 7 cached).0))
    × (is_list (codes "list") ≡ false
        → get (codes "list") (on_mutate is_list 7 cached).0 ≡ get (codes "list") cached)
    × (get
          (codes "list")
          (Deletion.on_error (on_mutate is_list 7 cached).1 (on_mutate is_list 7 cached).0)
        ≡ get (codes "list") cached)
unfolding get
deletion_undone_example = deletion_undone is_list 7 cached (codes "list") (refl, (refl, tt))

-- The rows that the schema lets through have no number, so the list stays as it is.
rows_stay : get (codes "list") (on_mutate is_list 7 cached).0 ≡ get (codes "list") cached
unfolding on_mutate get
rows_stay = refl
