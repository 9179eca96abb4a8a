-- ===== src/Users/Tests.antt =====
-- A federation's account, on a concrete input.
use choschmous_v.Base.{ℕ, ◌≡◌, refl, ◌↔◌, ◌⊎◌, true, none, some, [], nat_eq, length, codes, text_eq}
use choschmous_v.Registration.Form.{all_of}
use choschmous_v.Auth.Role.{federation, role_eq}
use choschmous_v.Users.{
  Runtime, missing, text, Values, checks, form_data_to_create_dto, form_data_to_update_dto,
}
use choschmous_v.Users.Laws.{IsBound, accepted_user-IsBound}

-- Every text is the number of its length, and an e-mail address.
abbrev runtime : Runtime
runtime = record { Num = ℕ; number_of = λ s. length s; of_integer = λ n. n; is_email = λ s. true }

abbrev values : Values
values = record {
  username = codes "dara";
  email = codes "d@x.kh";
  password = none;
  kh_family_name = codes "sok";
  kh_given_name = codes "dara";
  en_family_name = codes "Sok";
  en_given_name = codes "Dara";
  role = federation;
  organization_id = missing;
  sport_id = text (codes "12");
}

values_accepted : all_of (checks runtime values) ≡ true
unfolding checks
values_accepted = refl

accepted_user-IsBound_example :
    IsBound runtime federation (text (codes "12")) missing (form_data_to_create_dto runtime values)
    × IsBound runtime federation
        (text (codes "12"))
        missing
        (form_data_to_update_dto runtime values)
    × (((form_data_to_update_dto runtime values).password ≡ none)
        ↔ ((values.password ≡ none) ⊎ (values.password ≡ some [])))
accepted_user-IsBound_example = accepted_user-IsBound runtime values values_accepted

default_password : (form_data_to_create_dto runtime values).password ≡ some (codes "password123")
unfolding form_data_to_create_dto
default_password = refl
