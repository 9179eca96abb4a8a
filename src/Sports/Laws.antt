-- ===== src/Sports/Laws.antt =====
-- A category that is saved, opened again and saved unchanged.
use choschmous_v.Base.Options.{bind_some, some_eq, guard_some}
use choschmous_v.Base.{
  ℕ, ◌≤◌, ◌≡◌, refl, sym, ◌∙◌, subst, inl, inr, Bool, true, false, Option, none, some, [], ◌∷◌,
  arith, ltb, leb, if◌then◌else◌, Bool-cases, nat_eq, or_else, length, Text, text_eq,
}
use choschmous_v.Sports.{
  Gender, male, female, other, CategoryType, individual, team, Field, missing, number, typed,
  Inputs, Values, Category, Body, gender_schema, positive, team_size_field, category_form_schema,
  converted, team_size, form_data_to_add_category, form_data_to_update_category, field_of, type_of,
  gender_text, default_values,
}

-- A size is missing or positive.
abbrev pub IsSize : Option ℕ → Type 0
IsSize size = 1 ≤ or_else size 1

gender_shown : (g : Option Gender) → gender_schema (gender_text g) ≡ some g
unfolding gender_schema
gender_shown none = refl
gender_shown (some male) = refl
gender_shown (some female) = refl
gender_shown (some other) = refl

-- The category that a body leaves, of which the server may store another gender.
abbrev pub stored : (normalize : Option Gender → Option Gender) → ℕ → Body → Category
stored normalize id b = record {
  id = id;
  category = b.category;
  gender = normalize b.gender;
  team_size_min = b.team_size_min;
  team_size_max = b.team_size_max;
}

abbrev pub with_gender : Option Gender → Body → Body
with_gender g b = record b { gender = g }

abbrev pub without_sizes : Body → Body
without_sizes b = record b { team_size_min = none; team_size_max = none }

-- The values that the unchanged form of a category gives.
abbrev reread : Category → Values
reread c = record {
  category = c.category;
  gender = c.gender;
  category_type = type_of c.team_size_max;
  team_size_min = c.team_size_min;
  team_size_max = c.team_size_max;
}

positive-IsSize : (o : Option ℕ) (s : Option ℕ) → positive o ≡ some s → IsSize s
positive-IsSize none s h = absurd (cc h)
positive-IsSize (some n) s h =
    let (b, k) = guard_some (leb 1 n) (some (some n)) h in
    subst IsSize (sym (some_eq k)) (ground arith)

module _ (number_of : Text → Option ℕ) where
  size_shown : (s : Option ℕ) → IsSize s → team_size_field number_of (field_of s) ≡ some s
  unfolding team_size_field
  size_shown none h = refl
  size_shown (some n) h = let p : leb 1 n ≡ true = ground arith in rw p refl

  category_reread :
      (c : Category)
      → 2 ≤ length c.category
      → IsSize c.team_size_min
      → IsSize c.team_size_max
      → category_form_schema number_of (default_values c) ≡ some (reread c)
  unfolding category_form_schema converted default_values
  category_reread c h least most =
      let long : leb 2 (length c.category) ≡ true = ground arith in
      rw
        (
          long,
          gender_shown c.gender,
          size_shown c.team_size_min least,
          size_shown c.team_size_max most,
        )
        refl

  team_size_field-IsSize :
      (f : Field) (s : Option ℕ) → team_size_field number_of f ≡ some s → IsSize s
  unfolding team_size_field
  team_size_field-IsSize missing s h = subst IsSize (sym (some_eq h)) (omega arith)
  team_size_field-IsSize (number n) s h = positive-IsSize (some n) s h
  team_size_field-IsSize (typed []) s h = subst IsSize (sym (some_eq h)) (omega arith)
  team_size_field-IsSize (typed (c ∷ t)) s h = positive-IsSize (number_of (c ∷ t)) s h

  -- What the schema accepts has a name of two characters and sizes that are missing or positive.
  record IsAccepted (i : Inputs) (v : Values) : Type 0 where
    name : 2 ≤ length v.category
    least : IsSize v.team_size_min
    most : IsSize v.team_size_max

  converted-IsAccepted :
      (i : Inputs) (v : Values)
      → 2 ≤ length i.category
      → converted number_of i ≡ some v
      → IsAccepted i v
  unfolding converted
  converted-IsAccepted i v long h =
      let (g, g_eq, h1) = bind_some (gender_schema i.gender) _ h in
      let (l, l_eq, h2) = bind_some (team_size_field number_of i.team_size_min) _ h1 in
      let (m, m_eq, h3) = bind_some (team_size_field number_of i.team_size_max) _ h2 in
      subst (IsAccepted i) (sym (some_eq h3)) (record {
        name = long;
        least = team_size_field-IsSize i.team_size_min l l_eq;
        most = team_size_field-IsSize i.team_size_max m m_eq;
      })

  category_form_schema-IsAccepted :
      (i : Inputs) (v : Values) → category_form_schema number_of i ≡ some v → IsAccepted i v
  unfolding category_form_schema
  category_form_schema-IsAccepted i v h =
      let (b, k) = guard_some (leb 2 (length i.category)) (converted number_of i) h in
      converted-IsAccepted i v (ground arith) k

team_size-IsSize : (t : CategoryType) (s : Option ℕ) → IsSize s → IsSize (team_size t s)
team_size-IsSize individual s h = omega arith
team_size-IsSize team s h = h

unchanged_update :
    (sport : ℕ) (c : Category) (b : Bool)
    → ltb 1 (or_else c.team_size_max 1) ≡ b
    → form_data_to_update_category c.id sport (reread c) ≡ (
      c.id,
      record {
        sport_id = sport;
        category = c.category;
        gender = c.gender;
        team_size_min = if b then c.team_size_min else none;
        team_size_max = if b then c.team_size_max else none;
      },
    )
unfolding form_data_to_update_category
unchanged_update sport c true h = rw h refl
unchanged_update sport c false h = rw h refl

-- A category that is saved from an accepted form, opened again and saved unchanged is accepted again,
-- whatever gender the server stores for the one that is sent; its id, sport and name stay, its gender is
-- the one that the server has stored, and its sizes of a team stay if the largest is above one.
-- Otherwise, also where it was saved as a team's, it is read as that of individuals, and both sizes
-- are dropped.
pub reopened_category :
    (number_of : Text → Option ℕ) (normalize : Option Gender → Option Gender) (id sport : ℕ)
    (i : Inputs) (v : Values)
    → category_form_schema number_of i ≡ some v
    → let sent = form_data_to_add_category sport v in
      let kept = with_gender (normalize sent.gender) sent in
      (w : Values) × (category_form_schema number_of (default_values (stored normalize id sent))
        ≡ some w)
      × (form_data_to_update_category id sport w
          ≡ (id, if ltb 1 (or_else sent.team_size_max 1) then kept else without_sizes kept))
unfolding form_data_to_add_category
reopened_category number_of normalize id sport i v h =
    let ok = category_form_schema-IsAccepted number_of i v h in
    let c = stored normalize id (form_data_to_add_category sport v) in
    (
      reread c,
      category_reread number_of c ok.name
          (team_size-IsSize v.category_type v.team_size_min ok.least)
          (team_size-IsSize v.category_type v.team_size_max ok.most),
      elim (Bool-cases (ltb 1 (or_else (team_size v.category_type v.team_size_max) 1))) [
        | inl b ↦ unchanged_update sport c true b ∙ rw b refl
        | inr b ↦ unchanged_update sport c false b ∙ rw b refl
      ],
    )
