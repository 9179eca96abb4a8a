-- ===== src/Sports/Participants/Tests.antt =====
-- A birthday that is today, and one that is tomorrow.
use choschmous_v.Base.{ℕ, suc, ◌≡◌, refl, true, false}
use choschmous_v.Sports.Participants.{pos, Day, age_at}
use choschmous_v.Sports.Participants.Laws.{is_until, birthday, age_at-birthday}

abbrev today : Day
today = record { year = 2026; month = 3; day = 15 }

abbrev born : Day
born = record { year = 2008; month = 3; day = 16 }

age_at-birthday_example :
    (n : ℕ) × (age_at today born ≡ pos n)
    × (is_until (birthday n born) today ≡ true)
    × (is_until (birthday (suc n) born) today ≡ false)
age_at-birthday_example = age_at-birthday today born refl

not_yet : age_at today born ≡ pos 17
unfolding age_at
not_yet = refl
