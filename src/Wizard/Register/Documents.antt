-- ===== src/Wizard/Register/Documents.antt =====
-- The step of the registration's form that asks for the documents.
use choschmous_v.Base.{
  ◌+◌, ◌<◌, ◌≡◌, refl, sym, ap, subst, ◌↔◌, ◌⊎◌, inl, inr, Bool, true, false, ◌&&◌, ◌||◌, some,
  List, [], ◌∷◌, arith, ltb, if◌then◌else◌, Bool-cases, Option-cases, ◌==◌, nat_eq, or_else, Text,
  text_eq, is_empty,
}
use choschmous_v.Registration.Form.{Input, filled}
use choschmous_v.Wizard.{index_of, go_to_step}
use choschmous_v.Wizard.Register.{
  documents, review, step_eq, Day, Surroundings, is_under_18, FormError, State, category_is_team,
  form_steps, step_index,
}
use choschmous_v.Wizard.Register.Gates.{missing_documents, document_errors, step_errors}
use choschmous_v.Wizard.Register.Handlers.{forward, leave, proceed, go_to, handle_next}

complete_iff :
    (photo under birth card passport : Bool)
    → (missing_documents photo under birth (card || passport) ≡ []) ↔ (
        (photo ≡ true)
        × (((under ≡ true) × (birth ≡ true))
            ⊎ ((under ≡ false) × ((card ≡ true) ⊎ (passport ≡ true)))))
complete_iff photo under birth card passport = ground arith

-- A day before the eighteenth birthday of somebody born on the second one.
abbrev pub IsBeforeBirthday : Day → Day → Type 0
IsBeforeBirthday t d =
    (t.year < d.year + 18)
    ⊎ ((t.year ≡ d.year + 18) × (t.month < d.month))
    ⊎ ((t.year ≡ d.year + 18) × (t.month ≡ d.month) × (t.date < d.date))

before_birthday :
    (t d : Day)
    → ((if ltb t.month d.month || (t.month == d.month && ltb t.date d.date)
          then ltb t.year (d.year + 19)
          else ltb t.year (d.year + 18))
        ≡ true)
      ↔ IsBeforeBirthday t d
before_birthday t d = ground arith

-- A test that decides a property.
by_test :
    (b : Bool) (M A B : Type 0)
    → (b ≡ true) ↔ M
    → (((b ≡ true) × A) ⊎ ((b ≡ false) × B)) ↔ ((M × A) ⊎ ((¬ M) × B))
by_test true M A B (f, g) = (
  λ q. elim q [ inl (p, a) ↦ inl (f p, a) | inr (p, b) ↦ absurd (cc p) ],
  λ q. elim q [ inl (m, a) ↦ inl (refl, a) | inr (n, b) ↦ absurd (n (f refl)) ],
)
by_test false M A B (f, g) = (
  λ q. elim q [ inl (p, a) ↦ absurd (cc p) | inr (p, b) ↦ inr (λ m. absurd (cc (g m)), b) ],
  λ q. elim q [ inl (m, a) ↦ absurd (cc (g m)) | inr (n, b) ↦ inr (refl, b) ],
)

module _ (around : Surroundings) where
  -- There is a valid date of birth, and its eighteenth birthday comes after today.
  abbrev pub IsMinor : Text → Type 0
  IsMinor s =
      (d : Day) × (is_empty s ≡ false)
      × (around.day_of s ≡ some d)
      × IsBeforeBirthday around.today d

  -- The document that proves the identity: of somebody under 18 the birth certificate, of anybody else
  -- the identity card or the passport.
  abbrev pub HasIdentity : Input → Type 0
  HasIdentity f =
      (IsMinor f.date_of_birth × (filled f.birth_certificate_path ≡ true))
      ⊎ ((¬ (IsMinor f.date_of_birth))
          × ((filled f.national_id_path ≡ true) ⊎ (filled f.passport_path ≡ true)))

  is_under_18_iff : (s : Text) → (is_under_18 around.day_of around.today s ≡ true) ↔ IsMinor s
  unfolding is_under_18
  is_under_18_iff s = elim (Bool-cases (is_empty s)) [
    | inl e ↦ rw e (λ q. absurd (cc q), λ (d, f, g, b). absurd (cc f))
    | inr e ↦ rw e (elim (Option-cases (around.day_of s)) [
      | inl n ↦ rw n (λ q. absurd (cc q), λ (d, f, g, b). absurd (cc g))
      | inr (d, g) ↦ rw g (
        λ q. (d, refl, refl, (before_birthday around.today d).0 q),
        λ (c, f, same, b).
            (before_birthday around.today d).1
              (subst (λ x. IsBeforeBirthday around.today x) (sym (ap (λ o. or_else o d) same)) b),
      )
    ])
  ]

  document_errors_iff :
      (f : Input) → (document_errors around f ≡ []) ↔ ((filled f.photo_path ≡ true) × HasIdentity f)
  unfolding document_errors
  document_errors_iff f =
      let under = is_under_18 around.day_of around.today f.date_of_birth in
      let (all, none_missing) =
        complete_iff (filled f.photo_path) under (filled f.birth_certificate_path)
          (filled f.national_id_path) (filled f.passport_path) in
      let (out, back) = by_test under _ _ _ (is_under_18_iff f.date_of_birth) in
      (λ q. ((all q).0, out (all q).1), λ (p, i). none_missing (p, back i))

  -- The steps have one of three forms, and in each the review follows the documents.
  forward_to_review :
      (s : State)
      → s.position.current ≡ some documents
      → (forward around s).position.current ≡ some review
  unfolding forward go_to go_to_step step_index form_steps index_of step_eq
  forward_to_review s h = elim (Bool-cases s.is_leader) [
    | inl l ↦ rw (l, h) refl
    | inr l ↦ elim (Bool-cases (category_is_team around s.form)) [
      | inl t ↦ rw (l, t, h) refl
      | inr t ↦ rw (l, t, h) refl
    ]
  ]

  leave_documents :
      (s : State) (es : List FormError)
      → s.position.current ≡ some documents
      → ((leave around (some es) s).position.current ≡ some review) ↔ (es ≡ [])
  unfolding leave
  leave_documents s [] h = (λ q. refl, λ q. forward_to_review s h)
  leave_documents s (e ∷ es) h = (λ q. absurd (ground arith), λ q. absurd (cc q))

  -- The handler of the button "next" leads from the documents to the review exactly if there is a photo
  -- and the document that proves the identity: of somebody with a date of birth whose eighteenth birthday
  -- comes after today the birth certificate, of anybody else the identity card or the passport. That
  -- the button is also disabled, while the window of registration is in error, is not part of this.
  pub handle_next-documents :
      (s : State)
      → s.position.current ≡ some documents
      → ((handle_next around s).position.current ≡ some review)
        ↔ ((filled s.form.photo_path ≡ true) × HasIdentity s.form)
  unfolding handle_next step_errors
  handle_next-documents s h =
      let leaves = leave_documents s (document_errors around s.form) h in
      let complete = document_errors_iff s.form in
      subst
        (λ o.
          ((proceed around o s).position.current ≡ some review)
          ↔ ((filled s.form.photo_path ≡ true) × HasIdentity s.form))
        (sym h) (λ q. complete.0 (leaves.0 q), λ q. leaves.1 (complete.1 q))
