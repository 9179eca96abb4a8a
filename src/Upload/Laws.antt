-- ===== src/Upload/Laws.antt =====
-- Which files are posted, and where the value of the form comes from.
use choschmous_v.Base.Options.{if_holds, step_holds, bind_some, some_eq, guard_some}
use choschmous_v.Base.{
  ℕ, ◌≤◌, ◌≡◌, refl, sym, subst, ◌⊎◌, inl, inr, true, false, not, ◌&&◌, Option, none, some, List,
  [], ◌∷◌, arith, ltb, Bool-cases, nat_eq, All, Any, includes, Text, text_eq, is_empty,
}
use choschmous_v.Base.Picking.{pick, pick-All}
use choschmous_v.Upload.{
  File, Constraints, upload_file, Variant, is_hero, Pending, State, start, is_image, Event, choose,
  remove, fulfilled, rejected, handle_file, succeed, handle, run, shows_file, handle_remove,
  begin_upload, is_post,
}

module _ (variant : Variant) (max_size : ℕ) (c : Constraints) where
  -- A file that passes the checks of the control and those of the upload.
  pub record IsAccepted (f : File) : Type 0 where
    pub within_control : f.size ≤ max_size
    pub within_upload : f.size ≤ c.max_size
    pub allowed : includes c.allowed_types f.type ≡ true
    pub image : is_hero variant ≡ true → is_image f ≡ true

  -- The value is what it was at first, or nothing, or the path of a file that passed the checks.
  abbrev pub HasOrigin : Option Text → State → Type 0
  HasOrigin initial s =
      (s.value ≡ none)
      ⊎ (s.value ≡ initial)
      ⊎ Any (λ a. IsAccepted a.file × (s.value ≡ some a.path)) s.answers

  abbrev IsChecked : Pending → Type 0
  IsChecked p = p.is_posted ≡ true → IsAccepted p.file

  record IsSound (initial : Option Text) (s : State) : Type 0 where
    posted : All IsAccepted s.posted
    pending : All IsChecked s.pending
    origin : HasOrigin initial s

  posted-IsAccepted :
      (f : File)
      → ltb max_size f.size ≡ false
      → (not (is_image f) && is_hero variant) ≡ false
      → is_post (upload_file c f) ≡ true
      → IsAccepted f
  posted-IsAccepted f h k p = ground arith

  module _ (initial : Option Text) where
    -- The invariant reads these four fields only.
    same :
        (s t : State)
        → s.posted ≡ t.posted
        → s.pending ≡ t.pending
        → s.answers ≡ t.answers
        → s.value ≡ t.value
        → IsSound initial s
        → IsSound initial t
    same s t p q a v g = record {
      posted = subst (All IsAccepted) p g.posted;
      pending = subst (All IsChecked) q g.pending;
      origin = rw (← a, ← v) g.origin;
    }

    begin_upload-IsSound :
        (f : File) (s : State)
        → ltb max_size f.size ≡ false
        → (not (is_image f) && is_hero variant) ≡ false
        → IsSound initial s
        → IsSound initial (begin_upload variant max_size c f s)
    begin_upload-IsSound f s h k g =
        let p = is_post (upload_file c f) in
        record {
          posted =
              if_holds (All IsAccepted) p (f ∷ s.posted) s.posted
                (λ q. (posted-IsAccepted f h k q, g.posted)) g.posted;
          pending = (λ q. posted-IsAccepted f h k q, g.pending);
          origin = g.origin;
        }

    handle_file-IsSound :
        (f : File) (s : State)
        → IsSound initial s
        → IsSound initial (handle_file variant max_size c f s)
    unfolding handle_file
    handle_file-IsSound f s g = elim (Bool-cases (ltb max_size f.size)) [
      | inl h ↦ rw h (same s _ refl refl refl refl g)
      | inr h ↦ elim (Bool-cases (not (is_image f) && is_hero variant)) [
        | inl k ↦ rw (h, k) (same s _ refl refl refl refl g)
        | inr k ↦ rw (h, k) (begin_upload-IsSound f s h k g)
      ]
    ]

    succeed-IsSound :
        (path : Text) (p : Pending) (others : List Pending) (s : State)
        → IsSound initial s
        → IsAccepted p.file
        → All IsChecked others
        → IsSound initial (succeed variant max_size c path p others s)
    succeed-IsSound path p others s g a o = record {
      posted = g.posted;
      pending = o;
      origin = elim (Bool-cases (is_empty path)) [
        | inl e ↦ inl (ground arith)
        | inr e ↦ inr (inr (inl (a, ground arith)))
      ];
    }

    handle-IsSound :
        (e : Event) (s t : State)
        → IsSound initial s
        → handle variant max_size c e s ≡ some t
        → IsSound initial t
    unfolding handle
    handle-IsSound (choose f) s t g h =
        let (_, q) =
          guard_some (not (shows_file variant max_size c s))
            (some (handle_file variant max_size c f s)) h in
        subst (IsSound initial) (sym (some_eq q)) (handle_file-IsSound f s g)
    handle-IsSound remove s t g h =
        let (_, q) =
          guard_some (shows_file variant max_size c s) (some (handle_remove variant max_size c s))
            h in
        subst (IsSound initial) (sym (some_eq q))
          (record { posted = g.posted; pending = g.pending; origin = inl refl })
    handle-IsSound (fulfilled i path) s t g h =
        let (r, k, l) = bind_some (pick i s.pending) _ h in
        let (a, o) = pick-All IsChecked i s.pending g.pending r k in
        let (p, q) = guard_some r.0.is_posted _ l in
        subst (IsSound initial) (sym (some_eq q)) (succeed-IsSound path r.0 r.1 s g (a p) o)
    handle-IsSound (rejected i) s t g h =
        let (r, k, l) = bind_some (pick i s.pending) _ h in
        let (_, o) = pick-All IsChecked i s.pending g.pending r k in
        subst (IsSound initial) (sym (some_eq l))
          (record { posted = g.posted; pending = o; origin = g.origin })

    run-IsSound :
        (es : List Event) (s : State)
        → IsSound initial s
        → IsSound initial (run variant max_size c es s)
    unfolding run
    run-IsSound [] s g = g
    run-IsSound (e ∷ es) s g = run-IsSound es _ (
        step_holds (IsSound initial) (handle variant max_size c e s) s (λ t. handle-IsSound e s t g)
          g)

-- For any sequence of choices, removals and answers, uploads that overlap included: each file that is
-- posted is within the sizes of the control and of the upload, has one of the upload's types, and is an
-- image if the control is that of a photo; and the value of the form is empty, or the one at the start,
-- or a path that was answered for a file that passes the same checks.
pub run-HasOrigin :
    (variant : Variant) (max_size : ℕ) (c : Constraints) (initial : Option Text) (es : List Event)
    → let s = run variant max_size c es (start initial) in
      All (IsAccepted variant max_size c) s.posted × HasOrigin variant max_size c initial s
unfolding start
run-HasOrigin variant max_size c initial es =
    let g =
      run-IsSound variant max_size c initial es (start initial)
        (record { posted = tt; pending = tt; origin = inr (inl refl) }) in
    (g.posted, g.origin)
