-- ===== src/Survey/ByNumber/Rows.antt =====
-- The rows that the adapter gathers, whatever the order of the answers.
use mathlib.Core.List.{Perm, append_assoc, append-nil}
use mathlib.Core.List.Perm
use choschmous_v.Base.Picking.{gather-pick, length-pick}
use choschmous_v.Base.Sorting.{gather}
use choschmous_v.Base.{
  ℕ, zero, suc, ◌<◌, ◌≡◌, refl, sym, ap, subst, Option, some, List, [], ◌∷◌, ◌++◌, arith, nat_eq,
  or_else, length, text_eq,
}
use choschmous_v.Survey.Schema.{SportEntry, SportsEvent}
use choschmous_v.Survey.ByNumber.Found.{AreRowsOf, gather-AreRowsOf}
use choschmous_v.Survey.ByNumber.{
  OrgLink, SportRow, Checks, rows_of, settle, settle_all, fetch_rows, fetch_org_event_sports,
}

-- An order in which `n` callbacks end: each index is one of those that wait at the time.
abbrev pub IsOrder : ℕ → List ℕ → Type 0
IsOrder zero [] = Unit
IsOrder zero (i ∷ is) = ⊥
IsOrder (suc n) [] = ⊥
IsOrder (suc n) (i ∷ is) = (i < suc n) × IsOrder n is

length_zero {ℓ} : {A : Type ℓ} (xs : List A) → length xs ≡ 0 → xs ≡ []
length_zero [] h = refl
length_zero (x ∷ xs) h = absurd (omega (arith, h))

module _ (org : ℕ) (get_sport_orgs : SportsEvent → (sport_id : ℕ) → Option (List OrgLink))
    (all : List SportEntry) where
  abbrev expected : List SportsEvent → List SportRow
  expected = gather (rows_of org get_sport_orgs all)

  settle-Perm :
      (i : ℕ) (c : Checks)
      → i < length c.pending
      → (d : Checks) × (settle org get_sport_orgs all i c ≡ some d)
        × (length c.pending ≡ suc (length d.pending))
        × Perm (d.rows ++ expected d.pending) (c.rows ++ expected c.pending)
  unfolding settle
  settle-Perm i c h =
      let (r, q, n) = length-pick i c.pending h in
      (
        record { pending = r.1; rows = c.rows ++ rows_of org get_sport_orgs all r.0 },
        rw q refl,
        n,
        rw (append_assoc c.rows (rows_of org get_sport_orgs all r.0) (expected r.1)) (
            Perm.append_left c.rows (gather-pick (rows_of org get_sport_orgs all) i c.pending r q)),
      )

  settle_all-Perm :
      (n : ℕ) (order : List ℕ) (c : Checks)
      → length c.pending ≡ n
      → IsOrder n order
      → let d = settle_all org get_sport_orgs all order c in
        (d.pending ≡ []) × Perm d.rows (c.rows ++ expected c.pending)
  unfolding settle_all
  settle_all-Perm zero [] c h o =
      let q = length_zero c.pending h in (q, rw (q, append-nil c.rows) (Perm.refl c.rows))
  settle_all-Perm zero (i ∷ is) c h o = absurd o
  settle_all-Perm (suc n) [] c h o = absurd o
  settle_all-Perm (suc n) (i ∷ is) c h (b, o) =
      let (d, q, k, p) = settle-Perm i c (omega (arith, h, b)) in
      let (e, r) = settle_all-Perm n is d (omega (arith, h, k)) o in
      subst (λ x. (x.pending ≡ []) × Perm x.rows (c.rows ++ expected c.pending))
        (sym (ap (λ m. settle_all org get_sport_orgs all is (or_else m c)) q)) (e, Perm.trans r p)

-- For any order in which the callbacks end, one index for each sport of the event, none of them is left,
-- and the fetched rows are, in some order, one for each sport of the event that is known by its name,
-- whose lookup succeeds and finds the organization linked: with the first sport of that name, the
-- organization's first link, and no counts. The other sports have no row.
pub fetch_rows-AreRows :
    (org : ℕ) (get_sport_orgs : SportsEvent → (sport_id : ℕ) → Option (List OrgLink))
    (all : List SportEntry) (raw : List SportsEvent) (order : List ℕ)
    → IsOrder (length raw) order
    → ((fetch_rows org get_sport_orgs all order raw).pending ≡ [])
      × (rows : List SportRow) × AreRowsOf org get_sport_orgs all raw rows
      × Perm (fetch_org_event_sports org get_sport_orgs (some raw) (some all) order) rows
unfolding fetch_org_event_sports
fetch_rows-AreRows org get_sport_orgs all raw order o =
    let (settled, p) =
      settle_all-Perm org get_sport_orgs all (length raw) order
        (record { pending = raw; rows = [] }) refl o in
    (settled, _, gather-AreRowsOf org get_sport_orgs all raw, p)
