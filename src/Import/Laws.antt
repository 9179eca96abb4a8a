-- ===== src/Import/Laws.antt =====
-- What the page asks the server to import.
use choschmous_v.Base.Options.{some_eq, if_holds}
use choschmous_v.Base.{
  ℕ, ◌≡◌, refl, sym, subst, Bool, true, Option, none, some, List, [], ◌∷◌, arith, if◌then◌else◌,
  nat_eq, All, includes, Text, text_eq,
}
use choschmous_v.Import.{
  Context, RequestKind, Offers, State, initial, context, context_of, requested, run_request, Event,
  choose_event, choose_organization, choose_sport, choose_category, set_force, choose_file, press,
  answered, offered_categories, is_enabled, handle, run,
}

-- What is in a context was offered, and the category for the event and the sport that are in it.
pub record IsOffered (o : Offers) (c : Context) : Type 0 where
  pub event_id : includes o.events c.event_id ≡ true
  pub sport_id : includes o.sports c.sport_id ≡ true
  pub category_id : includes (o.categories c.event_id c.sport_id) c.category_id ≡ true

-- A value that is chosen is one of the list.
abbrev IsIn : Option ℕ → List ℕ → Type 0
IsIn none xs = Unit
IsIn (some x) xs = includes xs x ≡ true

module _ (o : Offers) where
  -- What is chosen is offered, the category for the event and the sport, and so is what was sent.
  abbrev IsCascade : State → Type 0
  IsCascade s =
      (IsIn s.event_id o.events
        × IsIn s.sport_id o.sports
        × IsIn s.category_id (offered_categories o s.event_id s.sport_id))
      × All (λ r. IsOffered o r.2) s.sent

  context_of-IsOffered :
      (e sp c n : Option ℕ) (f : Bool) (x : Context)
      → IsIn e o.events
      → IsIn sp o.sports
      → IsIn c (offered_categories o e sp)
      → context_of e sp c n f ≡ some x
      → IsOffered o x
  context_of-IsOffered (some e) (some sp) (some c) n f x p q r k =
      subst (IsOffered o) (sym (some_eq k)) (record { event_id = p; sport_id = q; category_id = r })
  context_of-IsOffered none sp c n f x p q r k = absurd (cc k)
  context_of-IsOffered (some e) none c n f x p q r k = absurd (cc k)
  context_of-IsOffered (some e) (some sp) none n f x p q r k = absurd (cc k)

  requested-IsCascade :
      (kind : RequestKind) (f : Option Text) (c : Option Context) (s : State)
      → ((x : Context) → c ≡ some x → IsOffered o x)
      → IsCascade s
      → IsCascade (requested kind f c s)
  requested-IsCascade kind none c s k h = h
  requested-IsCascade kind (some f) none s k h = h
  requested-IsCascade kind (some f) (some c) s k (h, sent) = (h, (k c refl, sent))

  handle-IsCascade :
      (e : Event) (s : State) → is_enabled o s e ≡ true → IsCascade s → IsCascade (handle e s)
  unfolding is_enabled handle run_request context
  handle-IsCascade (choose_event e) s ok (h, sent) = ((ok, tt, tt), sent)
  handle-IsCascade (choose_organization n) s ok h = h
  handle-IsCascade (choose_sport n) s ok ((p, q, r), sent) = ((p, ground arith, tt), sent)
  handle-IsCascade (choose_category c) s ok ((p, q, r), sent) = ((p, q, ground arith), sent)
  handle-IsCascade (set_force b) s ok h = h
  handle-IsCascade (choose_file f) s ok h = h
  handle-IsCascade (press kind) s ok ((p, q, r), sent) =
      requested-IsCascade kind s.file (context s) s
        (λ x.
          context_of-IsOffered s.event_id s.sport_id s.category_id s.organization_id s.force x p q
            r)
        ((p, q, r), sent)
  handle-IsCascade (answered none) s ok h = h
  handle-IsCascade (answered (some r)) s ok h = h

  run-IsCascade : (es : List Event) (s : State) → IsCascade s → IsCascade (run o es s)
  unfolding run
  run-IsCascade [] s h = h
  run-IsCascade (e ∷ es) s h =
      run-IsCascade es (if is_enabled o s e then handle e s else s)
        (if_holds IsCascade (is_enabled o s e) (handle e s) s (λ ok. handle-IsCascade e s ok h) h)

-- Whatever is chosen on the page, in whatever order, each request that is sent, to validate or to
-- import, names an event and a sport that are offered, and a category that is offered for just that
-- event and that sport: a change of the event or of the sport leaves no stale choice behind.
pub run-IsOffered :
    (o : Offers) (es : List Event) → All (λ r. IsOffered o r.2) (run o es initial).sent
run-IsOffered o es = (run-IsCascade o es initial ((tt, tt, tt), tt)).1
