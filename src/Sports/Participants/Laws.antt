-- ===== src/Sports/Participants/Laws.antt =====
-- The age of a participant, and who is listed.
use choschmous_v.Base.Options.{if_holds}
use choschmous_v.Base.{
  ℕ, suc, ◌+◌, ◌-◌, ◌≡◌, refl, ◌⊎◌, inl, inr, Bool, true, false, ◌&&◌, ◌||◌, Option, none, some,
  List, [], ◌∷◌, arith, ltb, leb, Bool-cases, ◌==◌, nat_eq, All, length, filter, Text, text_eq,
  is_empty,
}
use choschmous_v.Sports.Participants.{
  pos, Day, is_ahead, age_at, Role, athlete, leader, is_role, Participant, Runtime, Filters, age_of,
  age_from_dob, in_range, passes_age, rows, summary,
}

-- A day is not after another.
abbrev pub is_until : Day → Day → Bool
is_until a b =
    ltb a.year b.year
    || (a.year == b.year && (ltb a.month b.month || (a.month == b.month && leb a.day b.day)))

-- The birthday after `n` years.
abbrev pub birthday : ℕ → Day → Day
birthday n d = record d { year = d.year + n }

-- Whoever is born by now is as old as the number of birthdays that have come: the last of them has
-- come, and the next one has not.
pub age_at-birthday :
    (now d : Day)
    → is_until d now ≡ true
    → (n : ℕ) × (age_at now d ≡ pos n)
      × (is_until (birthday n d) now ≡ true)
      × (is_until (birthday (suc n) d) now ≡ false)
unfolding age_at
age_at-birthday now d h = elim (Bool-cases (is_ahead now d)) [
  | inl b ↦ (now.year - d.year - 1, ground arith, ground arith, ground arith)
  | inr b ↦ (now.year - d.year, ground arith, ground arith, ground arith)
]

All-filter {ℓ} :
    {A : Type ℓ} (q : A → Bool) (P : A → Type 0) (xs : List A)
    → ((x : A) → q x ≡ true → P x)
    → All P (filter q xs)
All-filter q P [] h = tt
All-filter q P (x ∷ xs) h =
    if_holds (All P) (q x) (x ∷ filter q xs) (filter q xs) (λ k. (h x k, All-filter q P xs h))
      (All-filter q P xs h)

module _ (js : Runtime) (now : Day) where
  -- The date of birth is known, and the age is not below the least nor above the greatest.
  pub record IsInRange (f : Filters) (p : Participant) : Type 0 where
    pub text : Text
    pub born : Day
    pub date_of_birth : p.date_of_birth ≡ some text
    pub date : js.date_of text ≡ some born
    pub least : js.is_below (age_at now born) (js.number_of f.age_min) ≡ false
    pub greatest : js.is_above (age_at now born) (js.number_of f.age_max) ≡ false

  in_range_text :
      (f : Filters) (p : Participant) (t : Text) (o : Option Day)
      → p.date_of_birth ≡ some t
      → js.date_of t ≡ o
      → is_empty f.age_min ≡ false
      → is_empty f.age_max ≡ false
      → in_range js now f.age_min f.age_max (age_of js now o) ≡ true
      → IsInRange f p
  in_range_text f p t none a b c d h = absurd (cc h)
  in_range_text f p t (some day) a b c d h = record {
    text = t;
    born = day;
    date_of_birth = a;
    date = b;
    least = ground arith;
    greatest = ground arith;
  }

  passes_age-IsInRange :
      (f : Filters) (p : Participant) (o : Option Text)
      → p.date_of_birth ≡ o
      → is_empty f.age_min ≡ false
      → is_empty f.age_max ≡ false
      → in_range js now f.age_min f.age_max (age_from_dob js now o) ≡ true
      → IsInRange f p
  unfolding age_from_dob
  passes_age-IsInRange f p none a c d h = absurd (cc h)
  passes_age-IsInRange f p (some []) a c d h = absurd (cc h)
  passes_age-IsInRange f p (some (x ∷ t)) a c d h =
      in_range_text f p (x ∷ t) (js.date_of (x ∷ t)) a refl c d h

  -- With both bounds given, each participant who is listed has a known date of birth and an age within
  -- them.
  pub rows-IsInRange :
      (f : Filters) (category : ℕ) (athletes leaders : List Participant)
      → is_empty f.age_min ≡ false
      → is_empty f.age_max ≡ false
      → All (IsInRange f) (rows js now f category athletes leaders)
  unfolding rows
  rows-IsInRange f category athletes leaders c d =
      All-filter (passes_age js now f) (IsInRange f) _
        (λ p h. passes_age-IsInRange f p p.date_of_birth refl c d (ground arith))

role_cases :
    (r : Role)
    → ((is_role r athlete ≡ true) × (is_role r leader ≡ false))
      ⊎ ((is_role r athlete ≡ false) × (is_role r leader ≡ true))
role_cases athlete = inl (refl, refl)
role_cases leader = inr (refl, refl)

-- Each of the participants who are listed is counted as an athlete or as a leader, and once.
pub summary_roles : (ps : List Participant) → (summary ps).0 + (summary ps).1 ≡ length ps
unfolding summary
summary_roles [] = refl
summary_roles (p ∷ ps) = elim (role_cases p.role) [
  | inl (a, b) ↦ rw (a, b) (ground (arith, summary_roles ps))
  | inr (a, b) ↦ rw (a, b) (ground (arith, summary_roles ps))
]
