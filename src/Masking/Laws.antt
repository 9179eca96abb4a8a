-- ===== src/Masking/Laws.antt =====
-- What a mask reveals.
use choschmous_v.Base.{
  ℕ, ◌-◌, ◌≤◌, ◌≡◌, refl, ap, inl, inr, true, false, some, [], ◌∷◌, ◌++◌, arith, ltb, leb,
  Bool-cases, nat_eq, length, length-append, Text, text_eq, trim,
}
use choschmous_v.Masking.{
  is_digit, digits, drop, last_units, hidden, phone_prefix, id_prefix, masked_digits, mask_phone,
  masked_id, mask_national_id,
}

pub drop-append : (x t : Text) → drop (length x) (x ++ t) ≡ t
unfolding drop
drop-append [] t = refl
drop-append (c ∷ x) t = drop-append x t

last_units-append : (n : ℕ) (x t : Text) → length t ≡ n → last_units n (x ++ t) ≡ t
unfolding last_units
last_units-append n x t h =
    let e : length (x ++ t) - n ≡ length x = omega (arith, length-append x t) in
    rw e (drop-append x t)

digits-append : (x t : Text) → digits (x ++ t) ≡ digits x ++ digits t
digits-append [] t = refl
digits-append (c ∷ x) t = elim (Bool-cases (is_digit c)) [
  | inl b ↦ rw b (ap (◌∷◌ c) (digits-append x t))
  | inr b ↦ rw b (digits-append x t)
]

long_digits :
    (a t : Text) → 1 ≤ length a → length t ≡ 3 → masked_digits (a ++ t) ≡ phone_prefix ++ t
long_digits a t h k =
    let long : ltb (length (a ++ t)) 4 ≡ false = ground (arith, length-append a t) in
    rw (long, last_units-append 3 a t k) refl

long_id : (a t : Text) → 1 ≤ length a → length t ≡ 4 → masked_id (a ++ t) ≡ id_prefix ++ t
long_id a t h k =
    let long : leb (length (a ++ t)) 4 ≡ false = ground (arith, length-append a t) in
    rw (long, last_units-append 4 a t k) refl

-- Of a phone number with at least four digits the mask shows the last three and nothing of what
-- stands before them, not even how much it is; of one with fewer it shows nothing.
pub mask_phone_reveals :
    (x t u : Text)
    → 1 ≤ length (digits x)
    → length (digits t) ≡ 3
    → length (digits u) ≤ 3
    → (mask_phone (some (x ++ t)) ≡ phone_prefix ++ digits t) × (mask_phone (some u) ≡ hidden)
unfolding mask_phone
mask_phone_reveals x t u h k short =
    let few : ltb (length (digits u)) 4 ≡ true = ground arith in
    (rw (digits-append x t) (long_digits (digits x) (digits t) h k), rw few refl)

-- Of a national id that, trimmed, has more than four characters the mask shows the last four and
-- nothing of what stands before them, not even how much it is; of a shorter one it shows nothing.
pub mask_national_id_reveals :
    (id a t u : Text)
    → trim id ≡ a ++ t
    → 1 ≤ length a
    → length t ≡ 4
    → length (trim u) ≤ 4
    → (mask_national_id (some id) ≡ id_prefix ++ t) × (mask_national_id (some u) ≡ hidden)
unfolding mask_national_id
mask_national_id_reveals id a t u e h k short =
    let few : leb (length (trim u)) 4 ≡ true = ground arith in (rw e (long_id a t h k), rw few refl)
