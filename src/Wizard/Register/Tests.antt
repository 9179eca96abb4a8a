-- ===== src/Wizard/Register/Tests.antt =====
-- A visit of the registration's form, for a team.
use choschmous_v.Base.{
  ℕ, ◌≡◌, refl, ◌↔◌, true, false, none, some, [], ◌∷◌, nat_eq, length, codes, text_eq,
}
use choschmous_v.Registration.Form.{Runtime, Input, filled}
use choschmous_v.Wizard.{index_of, go_to_step}
use choschmous_v.Wizard.Register.{
  documents, review, step_eq, Surroundings, State, category_is_team, form_steps,
}
use choschmous_v.Wizard.Register.Handlers.{
  initialize, initial, select_team, handle_next, may_press_next,
}
use choschmous_v.Wizard.Register.Visit.{Reach, open_form, select, next}
use choschmous_v.Wizard.Register.Documents.{HasIdentity, handle_next-documents}

abbrev runtime : Runtime
runtime = record { Num = ℕ; number_of = λ s. length s; time_of = λ s. some (length s); now = 20 }

abbrev restored : Input
restored = record {
  event_type = some (codes "NATIONAL");
  event_id = some 3;
  organization_id = some (codes "12");
  sport_id = some 4;
  category_id = some 5;
  team_id = none;
  kh_family_name = codes "sok";
  kh_given_name = codes "dara";
  en_family_name = codes "Sok";
  en_given_name = codes "Dara";
  gender = codes "MALE";
  date_of_birth = codes "2008-01-01";
  nationality = none;
  phone = codes "012345678";
  id_document_type = codes "PASSPORT";
  address = none;
  role = codes "athlete";
  leader_role = none;
  photo_path = some (codes "a.png");
  birth_certificate_path = none;
  national_id_path = none;
  passport_path = some (codes "b.png");
  force = none;
}

-- The category 5 is a team category; everybody is born on 2 May 2000, and it is 1 May 2018.
abbrev around : Surroundings
around = record {
  categories_of = λ e s. record { id = 5; team_size_min = some 2; team_size_max = some 4 } ∷ [];
  trigger = λ f xs. true;
  day_of = λ s. some (record { year = 2000; month = 5; date = 2 });
  today = record { year = 2018; month = 5; date = 1 };
  blank = restored;
}

abbrev at_team : State
at_team = handle_next around (handle_next around (initialize none (initial false restored)))

abbrev with_team : State
with_team = handle_next around (select_team (some (record { id = 8 })) at_team)

visit : Reach around false with_team
unfolding handle_next initialize select_team form_steps index_of go_to_step step_eq may_press_next
    category_is_team
visit =
    next refl (select (record { id = 8 }) refl (next refl (next refl (open_form restored none))))

abbrev at_documents : State
at_documents = record with_team { position = record { current = some documents; max_reached = 4 } }

handle_next-documents_example :
    ((handle_next around at_documents).position.current ≡ some review)
    ↔ ((filled at_documents.form.photo_path ≡ true) × HasIdentity around at_documents.form)
handle_next-documents_example = handle_next-documents around at_documents refl
