-- ===== src/Registration/Draft/Laws.antt =====
-- What the storage may hold after any sequence of events.
use choschmous_v.Base.{
  ℕ, ◌≡◌, refl, ◌⊎◌, inl, inr, true, Option, none, some, List, [], ◌∷◌, arith, if◌then◌else◌,
  Bool-cases, Option-cases, nat_eq, All, Text, text_eq,
}
use choschmous_v.Registration.Draft.{Draft, Event, ready, change, fire, clear, unmount, step, run}

module _ {V : Type 0} (print : V → Text) (merge : V → Text → Option V) where
  -- What the user typed has the property `P`.
  abbrev pub IsTyped : (V → Type 0) → Event V → Type 0
  IsTyped P (change v) = P v
  IsTyped P _ = Unit

  -- Nothing is typed.
  abbrev pub IsQuiet : Event V → Type 0
  IsQuiet (change v) = ⊥
  IsQuiet _ = Unit

  abbrev pub Pending : (V → Type 0) → Option V → Type 0
  Pending P none = Unit
  Pending P (some v) = P v

  -- The item is missing, is the one at the start, or is that of a value with the property.
  abbrev pub Stems : (V → Type 0) → Option Text → Option Text → Type 0
  Stems P start none = Unit
  Stems P start (some t) = (start ≡ some t) ⊎ ((v : V) × P v × (t ≡ print v))

  step-Stems :
      (P : V → Type 0) (start : Option Text) (d : Draft V) (e : Event V)
      → IsTyped P e
      → Pending P d.timer × Stems P start d.item
      → Pending P (step print merge d e).timer × Stems P start (step print merge d e).item
  unfolding step
  step-Stems P start d ready p (t, s) = elim (Bool-cases d.restored) [
    | inl b ↦ rw b (t, s)
    | inr b ↦ rw b (t, s)
  ]
  step-Stems P start d (change v) p (t, s) = (p, s)
  step-Stems P start d (fire now) p (t, s) = elim (Option-cases d.timer) [
    | inl e ↦ rw e (tt, s)
    | inr (v, e) ↦ rw e (elim (Bool-cases d.writable) [
      | inl b ↦ rw b (tt, inr (v, (rw e at t), refl))
      | inr b ↦ rw b (tt, s)
    ])
  ]
  step-Stems P start d clear p (t, s) = elim (Bool-cases d.writable) [
    | inl b ↦ rw b (t, tt)
    | inr b ↦ rw b (t, s)
  ]
  step-Stems P start d unmount p (t, s) = (tt, s)

  -- Whatever happens to the wizard, the storage holds nothing, what it held at the start, or the JSON of
  -- values that were typed in between.
  pub run-Stems :
      (P : V → Type 0) (start : Option Text) (d : Draft V) (es : List (Event V))
      → All (IsTyped P) es
      → Pending P d.timer
      → Stems P start d.item
      → Stems P start (run print merge d es).item
  unfolding run
  run-Stems P start d [] p t s = s
  run-Stems P start d (e ∷ es) (p, ps) t s =
      let (t', s') = step-Stems P start d e p (t, s) in
      run-Stems P start (step print merge d e) es ps t' s'

  quiet_step :
      (d : Draft V) (e : Event V)
      → IsQuiet e
      → d.timer ≡ none
      → d.item ≡ none
      → ((step print merge d e).timer ≡ none) × ((step print merge d e).item ≡ none)
  unfolding step
  quiet_step d ready q t i = elim (Bool-cases d.restored) [
    | inl b ↦ rw b (t, i)
    | inr b ↦ rw b (t, i)
  ]
  quiet_step d (change v) q t i = elim q [ ]
  quiet_step d (fire now) q t i = ground arith
  quiet_step d clear q t i = elim (Bool-cases d.writable) [
    | inl b ↦ rw b (t, refl)
    | inr b ↦ rw b (t, i)
  ]
  quiet_step d unmount q t i = (refl, i)

  quiet_run :
      (d : Draft V) (es : List (Event V))
      → All IsQuiet es
      → d.timer ≡ none
      → d.item ≡ none
      → (run print merge d es).item ≡ none
  unfolding run
  quiet_run d [] q t i = i
  quiet_run d (e ∷ es) (q, qs) t i =
      let (t', i') = quiet_step d e q t i in quiet_run (step print merge d e) es qs t' i'

  -- With a storage that can be written, a cleared draft stays away as long as nothing is typed if no
  -- save is pending; a pending save is not cancelled, and puts the draft back.
  pub clear_keeps_timer :
      (d : Draft V) (es : List (Event V)) (v : V) (now : ℕ)
      → d.writable ≡ true
      → All IsQuiet es
      → ((run print merge (record d { timer = none }) (clear ∷ es)).item ≡ none)
        × ((run print merge d (change v ∷ clear ∷ fire now ∷ [])).item ≡ some (print v))
  unfolding run step
  clear_keeps_timer d es v now w q = (
    quiet_run
        (record d { timer = none; saved_at = none; item = if d.writable then none else d.item }) es
        q refl (rw w refl),
    rw w refl,
  )
