-- ===== src/Survey/ByNumber/Found.antt =====
-- Which rows the callbacks of the sports find, by an independent description (fetchOrgEventSports of
-- bynumber/adapters/bynumberHttpAdapter.ts).
use choschmous_v.Base.{
  ℕ, ◌≡◌, refl, sym, ap, ◌∙◌, subst, ◌⊎◌, inl, inr, Option, none, some, List, [], ◌∷◌, ◌++◌, arith,
  Bool-cases, Option-cases, ◌==◌, nat_eq, or_else, Text, text_beq_iff, text_eq,
}
use choschmous_v.Base.Options.{◌>>=◌}
use choschmous_v.Base.Sorting.{gather}
use choschmous_v.Survey.Schema.{SportEntry, SportsEvent}
use choschmous_v.Survey.Reads.{find_sport}
use choschmous_v.Survey.ByNumber.{find_link, new_row, check, OrgLink, SportRow, rows_of}

-- The first sport with the name, and the first link of the organization.
abbrev pub IsSportOf : Text → List SportEntry → SportEntry → Type 0
IsSportOf name [] s = ⊥
IsSportOf name (t ∷ ts) s =
    ((t.name_kh ≡ name) × (s ≡ t)) ⊎ ((¬ (t.name_kh ≡ name)) × IsSportOf name ts s)

abbrev pub IsLinkOf : ℕ → List OrgLink → OrgLink → Type 0
IsLinkOf org [] l = ⊥
IsLinkOf org (o ∷ os) l =
    ((o.organization_id ≡ org) × (l ≡ o)) ⊎ ((¬ (o.organization_id ≡ org)) × IsLinkOf org os l)

module _ (org : ℕ) (get_sport_orgs : SportsEvent → (sport_id : ℕ) → Option (List OrgLink))
    (all : List SportEntry) where
  -- The row of a sport of the event: the sport is in the list of all sports by its name, its lookup
  -- succeeds and has a link of the organization; all counts are 0.
  abbrev pub IsRowOf : SportsEvent → SportRow → Type 0
  IsRowOf es r =
      (name : Text) × (sport : SportEntry) × (links : List OrgLink) × (link : OrgLink)
      × (es.sport_name ≡ some name)
      × IsSportOf name all sport
      × (get_sport_orgs es sport.id ≡ some links)
      × IsLinkOf org links link
      × (r ≡ record {
        sport_id = sport.id;
        sport_name_kh = name;
        athlete_male_count = 0;
        athlete_female_count = 0;
        leader_male_count = 0;
        leader_female_count = 0;
        sports_event_org_id = link.id;
      })

  -- One row for each sport that has one, in the order of the sports.
  abbrev pub AreRowsOf : List SportsEvent → List SportRow → Type 0
  AreRowsOf [] rows = rows ≡ []
  AreRowsOf (es ∷ ess) rows =
      ((r : SportRow) × (rest : List SportRow) × (rows ≡ r ∷ rest)
        × IsRowOf es r
        × AreRowsOf ess rest)
      ⊎ (¬ ((r : SportRow) × IsRowOf es r)) × AreRowsOf ess rows

find_sport-IsSportOf :
    (name : Text) (ts : List SportEntry)
    → ((s : SportEntry) × (find_sport (some name) ts ≡ some s) × IsSportOf name ts s)
      ⊎ (find_sport (some name) ts ≡ none) × ((s : SportEntry) → ¬ (IsSportOf name ts s))
find_sport-IsSportOf name [] = inr (refl, λ s z. z)
find_sport-IsSportOf name (t ∷ ts) = elim (Bool-cases (t.name_kh == name)) [
  | inl b ↦ inl (t, rw b refl, inl ((text_beq_iff t.name_kh name).0 b, refl))
  | inr b ↦
      let other : ¬ (t.name_kh ≡ name) =
        λ q. absurd (ground (arith, b, (text_beq_iff t.name_kh name).1 q)) in
      elim (find_sport-IsSportOf name ts) [
        | inl (s, q, f) ↦ inl (s, rw b q, inr (other, f))
        | inr (q, f) ↦ inr (rw b q, λ s h. elim h [ inl (p, e) ↦ other p | inr (n, g) ↦ f s g ])
      ]
]

find_link-IsLinkOf :
    (org : ℕ) (os : List OrgLink)
    → ((l : OrgLink) × (find_link org os ≡ some l) × IsLinkOf org os l)
      ⊎ (find_link org os ≡ none) × ((l : OrgLink) → ¬ (IsLinkOf org os l))
find_link-IsLinkOf org [] = inr (refl, λ l z. z)
find_link-IsLinkOf org (o ∷ os) = elim (Bool-cases (o.organization_id == org)) [
  | inl b ↦ inl (o, rw b refl, inl (ground (arith, b), refl))
  | inr b ↦
      let other : ¬ (o.organization_id ≡ org) = λ q. absurd (ground (arith, b, q)) in
      elim (find_link-IsLinkOf org os) [
        | inl (l, q, f) ↦ inl (l, rw b q, inr (other, f))
        | inr (q, f) ↦ inr (rw b q, λ l h. elim h [ inl (p, e) ↦ other p | inr (n, g) ↦ f l g ])
      ]
]

IsSportOf-unique :
    (name : Text) (ts : List SportEntry) (s u : SportEntry)
    → IsSportOf name ts s
    → IsSportOf name ts u
    → s ≡ u
IsSportOf-unique name [] s u h k = absurd h
IsSportOf-unique name (t ∷ ts) s u (inl (p, e)) (inl (q, f)) = e ∙ sym f
IsSportOf-unique name (t ∷ ts) s u (inl (p, e)) (inr (q, f)) = absurd (q p)
IsSportOf-unique name (t ∷ ts) s u (inr (p, e)) (inl (q, f)) = absurd (p q)
IsSportOf-unique name (t ∷ ts) s u (inr (p, e)) (inr (q, f)) = IsSportOf-unique name ts s u e f

module _ (org : ℕ) (get_sport_orgs : SportsEvent → (sport_id : ℕ) → Option (List OrgLink))
    (all : List SportEntry) where
  -- What the callback finds of a sport that is named and known.
  linked-cases :
      (es : SportsEvent) (name : Text) (sport : SportEntry) (answer : Option (List OrgLink))
      → es.sport_name ≡ some name
      → IsSportOf name all sport
      → get_sport_orgs es sport.id ≡ answer
      → let found =
          answer >>= λ orgs. find_link org orgs >>= λ link. some (new_row sport es link) in
        ((r : SportRow) × (found ≡ some r) × IsRowOf org get_sport_orgs all es r)
        ⊎ (found ≡ none) × ((r : SportRow) → ¬ (IsRowOf org get_sport_orgs all es r))
  linked-cases es name sport none named known asked = inr (
    refl,
    λ r (n, s, os, l, named', known', asked', h, e).
        let same : s ≡ sport =
          IsSportOf-unique name all s sport
            (subst (λ x. IsSportOf x all s) (ap (λ o. or_else o []) (sym named' ∙ named)) known')
            known in
        absurd (cc (asked, asked', same)),
  )
  linked-cases es name sport (some orgs) named known asked = elim (find_link-IsLinkOf org orgs) [
    | inl (l, q, f) ↦ inl (
      new_row sport es l,
      rw q refl,
      (name, sport, orgs, l, named, known, asked, f, rw named refl),
    )
    | inr (q, f) ↦ inr (
      rw q refl,
      λ r (n, s, os, l, named', known', asked', h, e).
          let same : s ≡ sport =
            IsSportOf-unique name all s sport
              (subst (λ x. IsSportOf x all s) (ap (λ o. or_else o []) (sym named' ∙ named)) known')
              known in
          let links : os ≡ orgs =
            ap (λ o. or_else o []) (sym asked' ∙ ap (λ x. get_sport_orgs es x.id) same ∙ asked) in
          f l (subst (λ x. IsLinkOf org x l) links h),
    )
  ]

  -- What is done with the sport that is found.
  abbrev callback : SportsEvent → SportEntry → Option SportRow
  callback es sport = get_sport_orgs es sport.id >>= λ orgs.
      find_link org orgs >>= λ link. some (new_row sport es link)

  check-cases :
      (es : SportsEvent)
      → ((r : SportRow) × (check org get_sport_orgs all es ≡ some r)
          × IsRowOf org get_sport_orgs all es r)
        ⊎ (check org get_sport_orgs all es ≡ none)
          × ((r : SportRow) → ¬ (IsRowOf org get_sport_orgs all es r))
  check-cases es = elim (Option-cases es.sport_name) [
    | inl e ↦ inr (
      ap (λ o. find_sport o all >>= callback es) e,
      λ r (n, s, os, l, named, k, q, h, f). absurd (cc (e, named)),
    )
    | inr (name, e) ↦ elim (find_sport-IsSportOf name all) [
      | inl (sport, q, f) ↦
          let same : check org get_sport_orgs all es ≡ (
              get_sport_orgs es sport.id >>= λ orgs.
              find_link org orgs >>= λ link. some (new_row sport es link)) =
            ap (λ o. o >>= callback es) (ap (λ o. find_sport o all) e ∙ q) in
          elim (linked-cases es name sport (get_sport_orgs es sport.id) e f refl) [
            | inl (r, p, h) ↦ inl (r, same ∙ p, h)
            | inr (p, h) ↦ inr (same ∙ p, h)
          ]
      | inr (q, f) ↦ inr (
        ap (λ o. o >>= callback es) (ap (λ o. find_sport o all) e ∙ q),
        λ r (n, s, os, l, named, k, asked, h, g).
            f s (subst (λ x. IsSportOf x all s) (ap (λ o. or_else o []) (sym named ∙ e)) k),
      )
    ]
  ]

  pub gather-AreRowsOf :
      (raw : List SportsEvent)
      → AreRowsOf org get_sport_orgs all raw (gather (rows_of org get_sport_orgs all) raw)
  gather-AreRowsOf [] = refl
  gather-AreRowsOf (es ∷ ess) = elim (check-cases es) [
    | inl (r, q, h) ↦ inl (r, _, row_or_none (some r) q, h, gather-AreRowsOf ess)
    | inr (q, h) ↦ inr (
      λ (r, w). h r w,
      subst (AreRowsOf org get_sport_orgs all ess) (sym (row_or_none none q))
          (gather-AreRowsOf ess),
    )
  ]
    where
      row_or_none :
          (o : Option SportRow)
          → check org get_sport_orgs all es ≡ o
          → gather (rows_of org get_sport_orgs all) (es ∷ ess)
            ≡ elim o [ some r ↦ r ∷ [] | none ↦ [] ] ++ gather (rows_of org get_sport_orgs all) ess
      row_or_none o q =
          ap
            (λ x.
              elim x [ some r ↦ r ∷ [] | none ↦ [] ] ++ gather (rows_of org get_sport_orgs all) ess)
            q
