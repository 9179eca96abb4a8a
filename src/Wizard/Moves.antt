-- ===== src/Wizard/Moves.antt =====
-- What the moves of a wizard keep: the current step is one of the steps, it is not past the furthest
-- one reached, and each step below that one was left by passing its check.
use choschmous_v.Base.{
  ℕ, zero, suc, ◌+◌, ◌≤◌, ◌<◌, ◌≡◌, refl, sym, ap, ◌∙◌, subst, inl, inr, Bool, true, false, not,
  ◌&&◌, Option, none, some, List, [], ◌∷◌, arith, ltb, leb, if◌then◌else◌, Bool-cases, Eq, nat_eq,
  length, includes, text_eq,
}
use choschmous_v.Wizard.{
  Position, get_elem?, go_to_step, handle_step_click, is_reachable, index_from, index_of, advance,
  handle_previous_step,
}

module _ {ℓ} {S : Type ℓ} ⦃e : Eq S⦄ where
  -- No step occurs twice.
  abbrev pub distinct : List S → Bool
  distinct [] = true
  distinct (x ∷ xs) = not (includes xs x) && distinct xs

  -- `log` holds the steps whose check was passed.
  pub record IsPlaced (steps log : List S) (p : Position S) : Type ℓ where
    pub index : ℕ
    pub at : p.current ≡ get_elem? steps index
    pub below : index ≤ p.max_reached
    pub within : p.max_reached < length steps
    pub passed :
        (j : ℕ) (x : S) → j < p.max_reached → get_elem? steps j ≡ some x → includes log x ≡ true

  -- The log after the current step is left, if its check holds.
  abbrev pub left_by : Bool → Option S → List S → List S
  left_by true (some x) log = x ∷ log
  left_by true none log = log
  left_by false c log = log

  includes-get_elem? :
      (xs : List S) (i : ℕ) (x : S) → get_elem? xs i ≡ some x → includes xs x ≡ true
  includes-get_elem? [] i x h = absurd (cc h)
  includes-get_elem? (y ∷ ys) zero x h = ground (arith, e.beq_iff x y)
  includes-get_elem? (y ∷ ys) (suc i) x h = ground (arith, includes-get_elem? ys i x h)

  index_from-get_elem? :
      (n : ℕ) (xs : List S) (i : ℕ) (x : S)
      → distinct xs ≡ true
      → get_elem? xs i ≡ some x
      → index_from n x xs ≡ some (n + i)
  unfolding index_from
  index_from-get_elem? n [] i x d h = absurd (cc h)
  index_from-get_elem? n (y ∷ ys) zero x d h = ground (arith, e.beq_iff y x)
  index_from-get_elem? n (y ∷ ys) (suc i) x d h = ground (
    arith,
    e.beq_iff y x,
    includes-get_elem? ys i x h,
    index_from-get_elem? (suc n) ys i x (ground arith) h,
  )

  get_elem?_total : (xs : List S) (i : ℕ) → i < length xs → (x : S) × (get_elem? xs i ≡ some x)
  get_elem?_total [] i h = absurd (omega arith)
  get_elem?_total (x ∷ xs) zero h = (x, refl)
  get_elem?_total (x ∷ xs) (suc i) h = get_elem?_total xs i (omega arith)

  pub index_of-get_elem? :
      (xs : List S) (i : ℕ)
      → distinct xs ≡ true
      → i < length xs
      → index_of xs (get_elem? xs i) ≡ some i
  unfolding index_of
  index_of-get_elem? xs i d h =
      let (x, q) = get_elem?_total xs i h in
      rw q (index_from-get_elem? 0 xs i x d q ∙ ap some (omega arith))

  module _ (steps : List S) (d : distinct steps ≡ true) where
    index_of-IsPlaced :
        {log : List S} {p : Position S} (w : IsPlaced steps log p)
        → index_of steps p.current ≡ some w.index
    index_of-IsPlaced {p = p} w =
        rw (w.at) (index_of-get_elem? steps w.index d (omega (arith, w.below, w.within)))

    pub start-IsPlaced :
        (p : Position S)
        → p.current ≡ get_elem? steps 0
        → p.max_reached ≡ 0
        → 0 < length steps
        → IsPlaced steps [] p
    start-IsPlaced p c m h = record {
      index = 0;
      at = c;
      below = omega arith;
      within = omega arith;
      passed = λ j x lt q. absurd (omega arith);
    }

    reachable_index :
        {log : List S} {p : Position S} (i : ℕ)
        → is_reachable (index_of steps p.current) i ≡ true
        → (w : IsPlaced steps log p) → i ≤ w.index
    unfolding is_reachable
    reachable_index i r w =
        let c : leb i w.index ≡ true =
          subst (λ o. is_reachable o i ≡ true) (index_of-IsPlaced w) r in
        ground arith

    -- A step that may be clicked is one that the handler goes to.
    pub click_goes :
        {log : List S} {p : Position S} (i : ℕ)
        → is_reachable (index_of steps p.current) i ≡ true
        → IsPlaced steps log p
        → handle_step_click steps i p ≡ record p { current = get_elem? steps i }
    unfolding handle_step_click
    click_goes i r w = ground (arith, reachable_index i r w, w.below)

    pub click-IsPlaced :
        {log : List S} {p : Position S} (i : ℕ)
        → is_reachable (index_of steps p.current) i ≡ true
        → IsPlaced steps log p
        → IsPlaced steps log (handle_step_click steps i p)
    click-IsPlaced i r w = rw (click_goes i r w) (record {
      index = i;
      at = refl;
      below = omega (arith, reachable_index i r w, w.below);
      within = w.within;
      passed = w.passed;
    })

    pub go_back-IsPlaced :
        {log : List S} {p : Position S} (w : IsPlaced steps log p) (i : ℕ)
        → i ≤ p.max_reached
        → IsPlaced steps log (go_to_step steps i p)
    unfolding go_to_step
    go_back-IsPlaced {p = p} w i h =
        let m : (if leb p.max_reached i then i else p.max_reached) ≡ p.max_reached = ground arith in
        record {
          index = i;
          at = refl;
          below = omega (arith, m);
          within = rw m w.within;
          passed = rw m w.passed;
        }

    previous_at :
        {log : List S} {p : Position S} (w : IsPlaced steps log p) (i : ℕ)
        → index_of steps p.current ≡ some i
        → i ≤ p.max_reached
        → IsPlaced steps log (handle_previous_step steps p)
    unfolding handle_previous_step
    previous_at w zero q h = rw (q, handle_previous_step) w
    previous_at w (suc i) q h = rw (q, handle_previous_step) (go_back-IsPlaced w i (omega arith))

    pub previous-IsPlaced :
        {log : List S} {p : Position S}
        → IsPlaced steps log p
        → IsPlaced steps log (handle_previous_step steps p)
    previous-IsPlaced w = previous_at w w.index (index_of-IsPlaced w) w.below

    includes-left_by :
        (ok : Bool) (c : Option S) (log : List S) (x : S)
        → includes log x ≡ true
        → includes (left_by ok c log) x ≡ true
    includes-left_by true (some y) log x h = ground arith
    includes-left_by true none log x h = h
    includes-left_by false c log x h = h

    stay-IsPlaced :
        {log : List S} {p : Position S} (ok : Bool)
        → IsPlaced steps log p
        → IsPlaced steps (left_by ok p.current log) p
    stay-IsPlaced {log} {p} ok w = record {
      index = w.index;
      at = w.at;
      below = w.below;
      within = w.within;
      passed = λ j x lt q. includes-left_by ok p.current log x (w.passed j x lt q);
    }

    -- The next step is reached when the current one, whose check holds, is logged.
    forward-IsPlaced :
        {log : List S} {p : Position S} (w : IsPlaced steps log p)
        → suc w.index < length steps
        → IsPlaced steps (left_by true p.current log) (go_to_step steps (suc w.index) p)
    unfolding go_to_step
    forward-IsPlaced {log} {p} w h = record {
      index = suc w.index;
      at = refl;
      below = ground arith;
      within = ground (arith, w.within);
      passed = λ j x lt q. elim (Bool-cases (ltb j p.max_reached)) [
        | inl lower ↦ includes-left_by true p.current log x (w.passed j x (ground arith) q)
        | inr same ↦
            let k : j ≡ w.index = ground (arith, w.below) in
            rw (w.at ∙ ap (get_elem? steps) (sym k) ∙ q) (ground (arith, e.beq_iff x x))
      ];
    }

    move :
        {log : List S} {p : Position S} (ok : Bool) (w : IsPlaced steps log p)
        → suc w.index < length steps
        → IsPlaced steps
            (left_by ok p.current log)
            (if ok then go_to_step steps (suc w.index) p else p)
    move true w h = forward-IsPlaced w h
    move false w h = w

    pub advance-IsPlaced :
        {log : List S} {p : Position S} (ok : Bool)
        → IsPlaced steps log p
        → IsPlaced steps (left_by ok p.current log) (advance steps ok p)
    unfolding advance
    advance-IsPlaced {log} {p} ok w =
        rw (index_of-IsPlaced w) (elim (Bool-cases (leb (length steps) (suc w.index))) [
          | inl last ↦ rw last (stay-IsPlaced ok w)
          | inr more ↦ rw more (move ok w (ground arith))
        ])

    -- From a step that is not the last, a check that holds leads to the next one.
    pub advance_goes :
        (i : ℕ)
        → suc i < length steps
        → advance steps true (record { current = get_elem? steps i; max_reached = i })
          ≡ record { current = get_elem? steps (suc i); max_reached = suc i }
    unfolding advance go_to_step
    advance_goes i h = rw (index_of-get_elem? steps i d (omega arith)) (ground arith)

    -- Every step before the current one was left by passing its check.
    pub earlier_passed :
        {log : List S} {p : Position S}
        → IsPlaced steps log p
        → (n : ℕ) → n < length steps
        → p.current ≡ get_elem? steps n
        → (j : ℕ) (x : S) → j < n
        → get_elem? steps j ≡ some x
        → includes log x ≡ true
    earlier_passed {p = p} w n h c j x lt q =
        let here : some w.index ≡ some n =
          sym (index_of-IsPlaced w) ∙ ap (index_of steps) c ∙ index_of-get_elem? steps n d h in
        w.passed j x (ground (arith, w.below)) q
