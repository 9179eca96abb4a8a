-- ===== src/Upload/Display.antt =====
-- What the control displays: a file while one is uploaded, and then as long as the form has a value.
use choschmous_v.Base.Options.{step_holds, bind_some, some_eq, guard_some}
use choschmous_v.Base.{
  ℕ, zero, suc, ◌≡◌, refl, sym, ap, ◌∙◌, subst, ◌⊎◌, inl, inr, Bool, true, false, not, ◌&&◌, ◌||◌,
  Option, none, some, List, [], ◌∷◌, arith, ltb, Bool-cases, nat_eq, or_else, is_some, All, Text,
  text_eq, is_empty,
}
use choschmous_v.Base.Picking.{pick}
use choschmous_v.Upload.{
  File, Constraints, Variant, is_hero, Pending, State, value_or_null, preview_of, start, is_image,
  Event, choose, remove, fulfilled, rejected, begin_upload, call_of, handle_file, succeed, fail,
  handle_remove, shows_file, handle, run,
}

module _ (variant : Variant) (max_size : ℕ) (c : Constraints) where
  -- A file has a name, and a path is not empty.
  abbrev pub HasText : Event → Type 0
  HasText (choose f) = is_empty f.name ≡ false
  HasText (fulfilled i path) = is_empty path ≡ false
  HasText _ = Unit

  -- Nothing is removed while a file is uploaded.
  abbrev pub IsCalm : List Event → State → Type 0
  IsCalm [] s = Unit
  IsCalm (e ∷ es) s =
      (e ≡ remove → s.uploading ≡ false) × IsCalm es (or_else (handle variant max_size c e s) s)

  abbrev pub has_value : State → Bool
  has_value s = is_some (value_or_null s.value)

  abbrev shows : State → Bool
  shows s = shows_file variant max_size c s

  abbrev IsIdle : State → Type 0
  IsIdle s = (s.pending ≡ []) × (s.uploading ≡ false) × (shows s ≡ has_value s)

  -- One call waits, which began with the form's value, an empty one.
  abbrev IsBusy : State → Type 0
  IsBusy s =
      (p : Pending) × (s.pending ≡ p ∷ [])
      × (p.value ≡ s.value)
      × (s.uploading ≡ true)
      × (shows s ≡ true)
      × (has_value s ≡ false)

  preview_iff : (v : Option Text) → is_some (preview_of v) ≡ is_some (value_or_null v)
  preview_iff none = refl
  preview_iff (some t) = ground arith

  begin_upload-shows :
      (f : File) (s : State)
      → (not (is_image f) && is_hero variant) ≡ false
      → is_empty f.name ≡ false
      → shows (begin_upload variant max_size c f s) ≡ true
  begin_upload-shows f s k n = ground arith

  handle_file-Display :
      (f : File) (s : State)
      → is_empty f.name ≡ false
      → shows s ≡ false
      → IsIdle s
      → IsIdle (handle_file variant max_size c f s) ⊎ IsBusy (handle_file variant max_size c f s)
  unfolding handle_file
  handle_file-Display f s n o (p, u, v) = elim (Bool-cases (ltb max_size f.size)) [
    | inl h ↦ rw h (inl (p, u, v))
    | inr h ↦ elim (Bool-cases (not (is_image f) && is_hero variant)) [
      | inl k ↦ rw (h, k) (inl (p, u, v))
      | inr k ↦
          rw (h, k)
            (inr (
              call_of variant max_size c f s,
              ap (λ ps. call_of variant max_size c f s ∷ ps) p,
              refl,
              refl,
              begin_upload-shows f s k n,
              sym v ∙ o,
            ))
    ]
  ]

  succeed-shows :
      (path : Text) (p : Pending) (s : State)
      → is_empty path ≡ false
      → IsBusy s
      → IsIdle (succeed variant max_size c path p [] s)
  succeed-shows path p s n (_, _, _, _, o, _) = (refl, refl, ground arith)

  fail-shows :
      (p : Pending) (s : State)
      → p.value ≡ s.value
      → has_value s ≡ false
      → IsIdle (fail variant max_size c p [] s)
  fail-shows p s q n =
      let k : is_some (preview_of p.value) ≡ false = preview_iff p.value ∙ rw q n in
      (refl, refl, ground arith)

  handle_remove-shows : (s : State) → IsIdle s → IsIdle (handle_remove variant max_size c s)
  handle_remove-shows s (p, u, _) = (p, u, ground arith)

  -- The only call is the one that ends.
  no_call :
      {A : Type 0} (i : ℕ) (ps : List Pending) {r : Pending × List Pending}
      → ps ≡ []
      → pick i ps ≡ some r
      → A
  no_call i ps q h = absurd (cc (ap (pick i) q, h))

  only_call :
      (i : ℕ) (p : Pending) (r : Pending × List Pending) → pick i (p ∷ []) ≡ some r → r ≡ (p, [])
  only_call zero p r h = some_eq h
  only_call (suc i) p r h = absurd (cc h)

  handle-Display :
      (e : Event) (s t : State)
      → HasText e
      → (e ≡ remove → s.uploading ≡ false)
      → IsIdle s ⊎ IsBusy s
      → handle variant max_size c e s ≡ some t
      → IsIdle t ⊎ IsBusy t
  unfolding handle
  handle-Display (choose f) s t n m (inl g) h =
      let (o, q) = guard_some (not (shows s)) (some (handle_file variant max_size c f s)) h in
      subst (λ x. IsIdle x ⊎ IsBusy x) (sym (some_eq q))
        (handle_file-Display f s n (ground arith) g)
  handle-Display (choose f) s t n m (inr g) h = absurd (ground arith)
  handle-Display remove s t n m (inl g) h =
      let (_, q) = guard_some (shows s) (some (handle_remove variant max_size c s)) h in
      inl (subst IsIdle (sym (some_eq q)) (handle_remove-shows s g))
  handle-Display remove s t n m (inr (_, _, _, u, _, _)) h = absurd (cc (m refl, u))
  handle-Display (fulfilled i path) s t n m (inl g) h =
      let (r, k, _) = bind_some (pick i s.pending) _ h in no_call i s.pending g.0 k
  handle-Display (fulfilled i path) s t n m (inr (p, w, v, u, o, x)) h =
      let (r, k, l) = bind_some (pick i s.pending) _ h in
      let (_, q) = guard_some r.0.is_posted _ l in
      let only = only_call i p r (subst (λ ps. pick i ps ≡ some r) w k) in
      inl (
        subst IsIdle (sym (some_eq q ∙ ap (λ y. succeed variant max_size c path y.0 y.1 s) only))
          (succeed-shows path p s n (p, w, v, u, o, x)))
  handle-Display (rejected i) s t n m (inl g) h =
      let (r, k, _) = bind_some (pick i s.pending) _ h in no_call i s.pending g.0 k
  handle-Display (rejected i) s t n m (inr (p, w, v, u, o, x)) h =
      let (r, k, l) = bind_some (pick i s.pending) _ h in
      let only = only_call i p r (subst (λ ps. pick i ps ≡ some r) w k) in
      inl (
        subst IsIdle (sym (some_eq l ∙ ap (λ y. fail variant max_size c y.0 y.1 s) only))
          (fail-shows p s v x))

  run-Display :
      (es : List Event) (s : State)
      → All HasText es
      → IsCalm es s
      → IsIdle s ⊎ IsBusy s
      → IsIdle (run variant max_size c es s) ⊎ IsBusy (run variant max_size c es s)
  unfolding run
  run-Display [] s n m g = g
  run-Display (e ∷ es) s (n, ns) (m, ms) g = run-Display es _ ns ms (
      step_holds (λ t. IsIdle t ⊎ IsBusy t) (handle variant max_size c e s) s
        (λ t. handle-Display e s t n m g) g)

  -- The start: of a photo with any value, of a document without one.
  start-IsIdle :
      (value : Option Text)
      → (is_hero variant || not (is_some (value_or_null value))) ≡ true
      → IsIdle (start value)
  unfolding start
  start-IsIdle value h = let k = preview_iff value in (refl, refl, ground arith)

-- If nothing is removed while a file is uploaded, names and paths are not empty, and, of a document, the
-- form has no value at the start, then at any time the control displays a file if and only if one is
-- uploaded or the form has a value.
pub run-shows_file :
    (variant : Variant) (max_size : ℕ) (c : Constraints) (value : Option Text) (es : List Event)
    → (is_hero variant || not (is_some (value_or_null value))) ≡ true
    → All (HasText variant max_size c) es
    → IsCalm variant max_size c es (start value)
    → let s = run variant max_size c es (start value) in
      shows_file variant max_size c s ≡ (s.uploading || is_some (value_or_null s.value))
run-shows_file variant max_size c value es h n m =
    elim (run-Display variant max_size c es (start value) n m
      (inl (start-IsIdle variant max_size c value h))) [
        | inl (_, u, v) ↦ rw u v
        | inr (_, _, _, u, o, _) ↦ rw u o
      ]
