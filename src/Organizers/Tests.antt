-- ===== src/Organizers/Tests.antt =====
-- A registration from an organization's account.
use choschmous_v.Base.{ℕ, ◌≡◌, refl, true, some, List, [], ◌∷◌, length, Text, codes}
use choschmous_v.Organizers.{
  Event, next, submit, choose_event, choose_org, choose_role, fill, kh_family_name, kh_given_name,
  en_family_name, en_given_name, gender, date_of_birth, phone, is_enabled, handle, run, start,
}

abbrev number_of : Text → ℕ
number_of t = length t

-- The organization cannot be changed.
abbrev clicks : List (Event number_of)
clicks =
    choose_event (codes "12")
    ∷ choose_org (codes "99")
    ∷ next
    ∷ fill kh_family_name (codes "sok")
    ∷ fill kh_given_name (codes "dara")
    ∷ fill en_family_name (codes "Sok")
    ∷ next
    ∷ fill en_given_name (codes "Dara")
    ∷ fill gender (codes "Male")
    ∷ fill date_of_birth (codes "1990-01-01")
    ∷ fill phone (codes "012345678")
    ∷ next
    ∷ choose_role (codes "3")
    ∷ next
    ∷ submit
    ∷ submit
    ∷ []

one_request : length (run number_of true clicks (start number_of true (some (codes "7")))).sent ≡ 1
unfolding run is_enabled handle start
one_request = refl
