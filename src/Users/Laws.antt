-- ===== src/Users/Laws.antt =====
-- What is sent of an accepted form of a user.
use choschmous_v.Base.{
  zero, suc, ◌≡◌, refl, ◌∙◌, ◌↔◌, ◌⊎◌, inl, inr, true, not, ◌&&◌, Option, none, some, [], ◌∷◌,
  arith, ◌==◌, nat_eq, Text, text_eq,
}
use choschmous_v.Registration.Form.{all_of}
use choschmous_v.Registration.Form.Laws.{all_of-All}
use choschmous_v.Auth.Role.{UserRole, super_admin, admin, organization, federation, guest, role_eq}
use choschmous_v.Users.{
  Runtime, Chosen, missing, number, text, is_chosen, Values, checks, number_or_null,
  resolve_bindings, filled, Dto, form_data_to_create_dto, form_data_to_update_dto,
}

module _ (js : Runtime) where
  -- The number of a choice that is one: of a number other than 0, or of a text that is not empty.
  abbrev pub IsNumberOf : Chosen → js.Num → Type 0
  IsNumberOf missing n = ⊥
  IsNumberOf (number zero) n = ⊥
  IsNumberOf (number (suc i)) n = n ≡ js.of_integer (suc i)
  IsNumberOf (text []) n = ⊥
  IsNumberOf (text (c ∷ t)) n = n ≡ js.number_of (c ∷ t)

  -- The role of the form; of a federation the chosen sport, of an organization the chosen organization,
  -- and of nobody else either of them.
  abbrev pub IsBound : UserRole → Chosen → Chosen → Dto js → Type 0
  IsBound federation s o d =
      (d.role ≡ federation)
      × ((n : js.Num) × (d.sport_id ≡ some n) × IsNumberOf s n)
      × (d.organization_id ≡ none)
  IsBound organization s o d =
      (d.role ≡ organization)
      × (d.sport_id ≡ none)
      × ((n : js.Num) × (d.organization_id ≡ some n) × IsNumberOf o n)
  IsBound r s o d = (d.role ≡ r) × (d.sport_id ≡ none) × (d.organization_id ≡ none)

  chosen_number :
      (c : Chosen)
      → is_chosen c ≡ true
      → (n : js.Num) × (number_or_null js c ≡ some n) × IsNumberOf c n
  unfolding is_chosen number_or_null
  chosen_number missing h = absurd (cc h)
  chosen_number (number zero) h = absurd (ground arith)
  chosen_number (number (suc n)) h = (js.of_integer (suc n), ground arith, refl)
  chosen_number (text []) h = absurd (cc h)
  chosen_number (text (c ∷ t)) h = (js.number_of (c ∷ t), refl, refl)

  bound :
      (r : UserRole) (s o : Chosen) (d : Dto js)
      → not (r == federation && not (is_chosen s)) ≡ true
      → not (r == organization && not (is_chosen o)) ≡ true
      → d.role ≡ r
      → d.sport_id ≡ (resolve_bindings js r s o).0
      → d.organization_id ≡ (resolve_bindings js r s o).1
      → IsBound r s o d
  unfolding resolve_bindings
  bound federation s o d h k r p q =
      let (n, e, m) = chosen_number s (ground arith) in (r, (n, p ∙ e, m), q)
  bound organization s o d h k r p q =
      let (n, e, m) = chosen_number o (ground arith) in (r, p, (n, q ∙ e, m))
  bound super_admin s o d h k r p q = (r, p, q)
  bound admin s o d h k r p q = (r, p, q)
  bound guest s o d h k r p q = (r, p, q)

  checked_bindings :
      (v : Values)
      → all_of (checks js v) ≡ true
      → (not (v.role == federation && not (is_chosen v.sport_id)) ≡ true)
        × (not (v.role == organization && not (is_chosen v.organization_id)) ≡ true)
  unfolding checks
  checked_bindings v ok =
      let (a, (b, (c, (d, (e, (f, (g, (h, (k, _))))))))) = all_of-All (checks js v) ok in (h, k)

kept : (p : Option Text) → (filled p ≡ none) ↔ ((p ≡ none) ⊎ (p ≡ some []))
kept none = (λ h. inl refl, λ h. refl)
kept (some []) = (λ h. inr refl, λ h. refl)
kept (some (c ∷ t)) = (λ h. absurd (cc h), λ h. absurd (ground arith))

-- What is sent of an accepted form, whether the user is created or updated, has the role of the form and
-- the number of the sport that is chosen for a federation, or of the organization that is chosen for an
-- organization, and no other binding; and a user that is updated keeps the password exactly if the field
-- is empty. Whether the number of a text is a number is not said.
pub accepted_user-IsBound :
    (js : Runtime) (v : Values)
    → all_of (checks js v) ≡ true
    → IsBound js v.role v.sport_id v.organization_id (form_data_to_create_dto js v)
      × IsBound js v.role v.sport_id v.organization_id (form_data_to_update_dto js v)
      × (((form_data_to_update_dto js v).password ≡ none)
          ↔ ((v.password ≡ none) ⊎ (v.password ≡ some [])))
unfolding form_data_to_create_dto form_data_to_update_dto
accepted_user-IsBound js v ok =
    let (s, o) = checked_bindings js v ok in
    (
      bound js v.role v.sport_id v.organization_id (form_data_to_create_dto js v) s o refl refl
          refl,
      bound js v.role v.sport_id v.organization_id (form_data_to_update_dto js v) s o refl refl
          refl,
      kept v.password,
    )
