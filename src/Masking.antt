-- ===== src/Masking.antt =====
-- The masks of personal data (frontend/src/shared/utils/maskPhone.ts and maskNationalId.ts); that of an
-- e-mail address is in `Masking.Email`.
pub mod Laws
pub mod Email
mod Tests
use choschmous_v.Base.{
  ℕ, zero, suc, ◌-◌, Bool, ◌&&◌, Option, [], ◌∷◌, ◌++◌, ltb, leb, if◌then◌else◌, or_else, length,
  filter, Text, codes, trim,
}

abbrev pub is_digit : ℕ → Bool
is_digit c = leb 48 c && leb c 57

-- `s.replace(/\D/g, "")`
abbrev pub digits : Text → Text
digits = filter is_digit

-- `s.slice(n)` for a number that is not negative.
unfoldable pub drop : ℕ → Text → Text
drop zero s = s
drop (suc n) [] = []
drop (suc n) (c ∷ s) = drop n s

-- `s.slice(-n)`
unfoldable pub last_units : ℕ → Text → Text
unfolding drop
last_units n s = drop (length s - n) s

abbrev pub hidden : Text
hidden = codes "***"

abbrev pub phone_prefix : Text
phone_prefix = codes "*** *** "

abbrev pub id_prefix : Text
id_prefix = codes "**** **** "

abbrev pub masked_digits : Text → Text
masked_digits ds = if ltb (length ds) 4 then hidden else phone_prefix ++ last_units 3 ds

unfoldable pub mask_phone : Option Text → Text
mask_phone phone = masked_digits (digits (or_else phone []))

abbrev pub masked_id : Text → Text
masked_id s = if leb (length s) 4 then hidden else id_prefix ++ last_units 4 s

unfoldable pub mask_national_id : Option Text → Text
mask_national_id id = masked_id (trim (or_else id []))
