-- ===== src/Survey/ByNumber/Table.antt =====
-- What the table of counts holds after edits.
use choschmous_v.Base.{
  ℕ, zero, suc, ◌+◌, ◌≡◌, refl, ap, ◌∙◌, ◌≢◌, Bool, true, false, ◌&&◌, Option, none, some, List, [],
  ◌∷◌, map, arith, if◌then◌else◌, ◌==◌, nat_eq, or_else, length, Text, text_eq,
}
use choschmous_v.Survey.ByNumber.{
  SportRow, CountField, athlete_male, athlete_female, leader_male, leader_female, field_eq,
  with_count, Parsed, count_in, update_sport, subtotal, grand_total, Edit, run_edits,
}

abbrev pub sum : List ℕ → ℕ
sum [] = 0
sum (n ∷ ns) = n + sum ns

grand_total_lem : (rs : List SportRow) → grand_total rs ≡ sum (map subtotal rs)
grand_total_lem [] = refl
grand_total_lem (r ∷ rs) = omega (arith, grand_total_lem rs)

-- The row at a place of the table.
abbrev pub row_at : ℕ → List SportRow → Option SportRow
row_at i [] = none
row_at zero (r ∷ rs) = some r
row_at (suc i) (r ∷ rs) = row_at i rs

module _ (parse_int : Text → Parsed) where
  -- The count of a cell: what is typed last, or the number at first.
  abbrev pub last_count : List Edit → ℕ → CountField → ℕ → ℕ
  last_count [] i f n = n
  last_count (e ∷ es) i f n =
      last_count es i f
        (if e.index == i && field_eq e.field f then count_in (parse_int e.typed) else n)

  -- The row with the last count in each cell.
  abbrev pub last_row : List Edit → ℕ → SportRow → SportRow
  last_row es i r = record r {
    athlete_male_count = last_count es i athlete_male r.athlete_male_count;
    athlete_female_count = last_count es i athlete_female r.athlete_female_count;
    leader_male_count = last_count es i leader_male r.leader_male_count;
    leader_female_count = last_count es i leader_female r.leader_female_count;
  }

  apart : (j i : ℕ) → j ≢ i → (j == i) ≡ false
  apart j i h = ground arith

  same_suc : (j i : ℕ) → (suc j == suc i) ≡ (j == i)
  same_suc j i = ground arith

  update_row :
      (f : CountField) (n j i : ℕ) (rs : List SportRow) {r : SportRow}
      → row_at i rs ≡ some r
      → row_at i (update_sport j f n rs) ≡ some (if j == i then with_count f n r else r)
  unfolding update_sport
  update_row f n j i [] h = absurd (cc h)
  update_row f n zero zero (r ∷ rs) h = ap (λ o. some (with_count f n (or_else o r))) h
  update_row f n zero (suc i) (r ∷ rs) h = rw (apart 0 (suc i) (omega arith)) h
  update_row f n (suc j) zero (r ∷ rs) h = rw (apart (suc j) 0 (omega arith)) h
  update_row f n (suc j) (suc i) (r ∷ rs) h = rw (same_suc j i) (update_row f n j i rs h)

  edited_row :
      (b : Bool) (f : CountField) (n : ℕ) (es : List Edit) (i : ℕ) (r : SportRow)
      → last_row es i (if b then with_count f n r else r) ≡ record r {
        athlete_male_count =
            last_count es i athlete_male
              (if b && field_eq f athlete_male then n else r.athlete_male_count);
        athlete_female_count =
            last_count es i athlete_female
              (if b && field_eq f athlete_female then n else r.athlete_female_count);
        leader_male_count =
            last_count es i leader_male
              (if b && field_eq f leader_male then n else r.leader_male_count);
        leader_female_count =
            last_count es i leader_female
              (if b && field_eq f leader_female then n else r.leader_female_count);
      }
  edited_row true athlete_male n es i r = refl
  edited_row true athlete_female n es i r = refl
  edited_row true leader_male n es i r = refl
  edited_row true leader_female n es i r = refl
  edited_row false f n es i r = refl

  last_row_cons :
      (e : Edit) (es : List Edit) (i : ℕ) (r : SportRow)
      → last_row es i
          (if e.index == i then with_count e.field (count_in (parse_int e.typed)) r else r)
        ≡ last_row (e ∷ es) i r
  last_row_cons e es i r = edited_row (e.index == i) e.field (count_in (parse_int e.typed)) es i r

  run_edits-row :
      (es : List Edit) (i : ℕ) (rs : List SportRow) {r : SportRow}
      → row_at i rs ≡ some r
      → row_at i (run_edits parse_int es rs) ≡ some (last_row es i r)
  unfolding run_edits
  run_edits-row [] i rs h = h
  run_edits-row (e ∷ es) i rs {r = r} h =
      run_edits-row es i _ (update_row e.field (count_in (parse_int e.typed)) e.index i rs h)
      ∙ ap some (last_row_cons e es i r)

  update_sport-length :
      (f : CountField) (n j : ℕ) (rs : List SportRow) → length (update_sport j f n rs) ≡ length rs
  unfolding update_sport
  update_sport-length f n j [] = refl
  update_sport-length f n zero (r ∷ rs) = refl
  update_sport-length f n (suc j) (r ∷ rs) = ap suc (update_sport-length f n j rs)

  run_edits-length :
      (es : List Edit) (rs : List SportRow) → length (run_edits parse_int es rs) ≡ length rs
  unfolding run_edits
  run_edits-length [] rs = refl
  run_edits-length (e ∷ es) rs =
      run_edits-length es _ ∙ update_sport-length e.field (count_in (parse_int e.typed)) e.index rs

-- After edits of cells the table has as many rows as before; the row at any place is the one that was
-- there with, in each cell, the number that was typed there last (0 for what is not a number, or is
-- negative); and the total of the columns is that of the rows.
pub run_edits_lem :
    (parse_int : Text → Parsed) (es : List Edit) (rs : List SportRow) (i : ℕ) (r : SportRow)
    → row_at i rs ≡ some r
    → let after = run_edits parse_int es rs in
      (length after ≡ length rs)
      × (row_at i after ≡ some (last_row parse_int es i r))
      × (grand_total after ≡ sum (map subtotal after))
run_edits_lem parse_int es rs i r h = (
  run_edits-length parse_int es rs,
  run_edits-row parse_int es i rs h,
  grand_total_lem (run_edits parse_int es rs),
)
