-- ===== src/Masking/Email.antt =====
-- The mask of an e-mail address (frontend/src/shared/utils/maskEmail.ts). `none` as a result is the
-- error that the code throws where it reads `length` or `lastIndexOf` of `undefined`.
pub mod Laws
use choschmous_v.Base.{
  ℕ, zero, suc, Bool, not, ◌||◌, Option, none, some, List, [], ◌∷◌, ◌++◌, ltb, leb, if◌then◌else◌,
  ◌==◌, nat_eq, length, includes, Text, text_eq, is_empty,
}
use choschmous_v.Base.Splitting.{split}
use choschmous_v.Masking.{drop, hidden}

abbrev pub at_sign : ℕ
at_sign = 64

abbrev pub dot : ℕ
dot = 46

-- `s.slice(0, n)`
unfoldable pub first_units : ℕ → Text → Text
first_units zero s = []
first_units (suc n) [] = []
first_units (suc n) (c ∷ s) = c ∷ first_units n s

abbrev pub index_behind : Bool → Option ℕ → Option ℕ
index_behind here (some n) = some (suc n)
index_behind here none = if here then some 0 else none

-- `s.lastIndexOf(d)` for one code unit, with `none` for -1.
unfoldable pub last_index_of : ℕ → Text → Option ℕ
last_index_of d [] = none
last_index_of d (c ∷ s) = index_behind (c == d) (last_index_of d s)

unfoldable pub masked_local : Text → Text
unfolding first_units
masked_local local = if leb (length local) 2 then local ++ hidden else first_units 2 local ++ hidden

abbrev pub suffix_from : Text → Option ℕ → Text
suffix_from domain none = hidden
suffix_from domain (some n) = if ltb 0 n then hidden ++ drop n domain else hidden

unfoldable pub masked_domain : Text → Text
unfolding last_index_of
masked_domain domain = suffix_from domain (last_index_of dot domain)

-- `const [local, domain] = parts`
abbrev pub masked_parts : List Text → Option Text
masked_parts [] = none
masked_parts (local ∷ []) = none
masked_parts (local ∷ domain ∷ rest) = some (masked_local local ++ at_sign ∷ masked_domain domain)

unfoldable pub mask_email : Option Text → Option Text
unfolding split masked_local masked_domain
mask_email none = some hidden
mask_email (some email) =
    if is_empty email || not (includes email at_sign)
    then some hidden
    else masked_parts (split at_sign email)
