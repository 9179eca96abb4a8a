-- ===== src/Survey/Submit/Laws.antt =====
-- What a submission sends, when it succeeds and what is left in the caches.
use choschmous_v.Base.{
  ℕ, ◌≡◌, refl, ap, ◌∙◌, subst, ◌≢◌, ◌⊎◌, inl, inr, Bool, true, false, ◌&&◌, none, some, List, [],
  ◌∷◌, map, arith, if◌then◌else◌, nat_beq_iff, Bool-cases, ◌==◌, nat_eq, All, Any, Text, text_eq,
}
use choschmous_v.Base.Assoc.{get, remove, get-remove}
use choschmous_v.Survey.Schema.{
  SurveyPayload, ByNumberPayload, Body, link, Posted, accepted, rejected, Server,
}
use choschmous_v.Survey.Cache.{W}
use choschmous_v.Survey.Submit.{
  is_settled, link_bodies, participation_bodies, post_one, post_all, clear_caches, then_do,
  submit_survey, org_event_key, submit_by_number,
}

-- The log after the requests, the latest first.
abbrev pub logged : List Body → List Body → List Body
logged [] log = log
logged (body ∷ bodies) log = logged bodies (body ∷ log)

module _ (s : Server) where
  -- The server's answers to the requests, in the order in which they are started.
  abbrev pub answers : List Body → s.Net → List Posted
  answers [] n = []
  answers (body ∷ bodies) n = (s.post body n).0 ∷ answers bodies (s.post body n).1

  -- Each request was accepted, or rejected as a link that is there already.
  abbrev pub all_settled : List Posted → Bool
  all_settled [] = true
  all_settled (a ∷ more) = is_settled a && all_settled more

  pub record Posts (bodies : List Body) (w : W s) (r : Bool × W s) : Type 0 where
    pub posted : r.1.posted ≡ logged bodies w.posted
    pub success : r.0 ≡ all_settled (answers bodies w.net)
    pub cache : r.1.cache ≡ w.cache
    pub bynumber_cache : r.1.bynumber_cache ≡ w.bynumber_cache

  post_all-Posts : (bodies : List Body) (w : W s) → Posts bodies w (post_all s bodies w)
  unfolding post_all
  post_all-Posts [] w = record {
    posted = refl;
    success = refl;
    cache = refl;
    bynumber_cache = refl;
  }
  post_all-Posts (body ∷ bodies) w =
      let rest = post_all-Posts bodies (post_one s body w).1 in
      record {
        posted = rest.posted;
        success = ap (λ b. is_settled (s.post body w.net).0 && b) rest.success;
        cache = rest.cache;
        bynumber_cache = rest.bynumber_cache;
      }

  -- The link was accepted, or is there already.
  abbrev pub IsDone : Posted → Type 0
  IsDone a = (a ≡ accepted) ⊎ (a ≡ rejected (some 400))

  -- The request was rejected without a response, or with another status.
  abbrev pub IsRefused : Posted → Type 0
  IsRefused a = (a ≡ rejected none) ⊎ ((n : ℕ) × (a ≡ rejected (some n)) × (n ≢ 400))

  is_settled-split :
      (a : Posted) → ((is_settled a ≡ true) × IsDone a) ⊎ ((is_settled a ≡ false) × IsRefused a)
  is_settled-split accepted = inl (refl, inl refl)
  is_settled-split (rejected none) = inr (refl, inl refl)
  is_settled-split (rejected (some n)) = elim (Bool-cases (n == 400)) [
    | inl q ↦
        let e : n ≡ 400 = (nat_beq_iff n 400).0 q in inl (q, inr (ap (λ m. rejected (some m)) e))
    | inr q ↦ inr (q, inr (n, refl, λ e. ground (arith, q, e)))
  ]

  post_all-split :
      (xs : List Posted)
      → ((all_settled xs ≡ true) × All IsDone xs) ⊎ ((all_settled xs ≡ false) × Any IsRefused xs)
  post_all-split [] = inl (refl, tt)
  post_all-split (a ∷ xs) = elim (is_settled-split a) [
    | inl (q, d) ↦ elim (post_all-split xs) [
      | inl (r, ds) ↦ inl (rw (q, r) refl, (d, ds))
      | inr (r, f) ↦ inr (rw (q, r) refl, inr f)
    ]
    | inr (q, f) ↦ inr (rw q refl, inl f)
  ]

  -- One link of the organization at the event for each sport.
  abbrev pub links : (organization_id event_id : ℕ) → List ℕ → List Body
  links o e [] = []
  links o e (sport ∷ sports) = link o e sport ∷ links o e sports

  links-eq :
      (p : SurveyPayload) (ids : List ℕ)
      → map (λ i. link p.organization_id p.event_id i) ids ≡ links p.organization_id p.event_id ids
  links-eq p [] = refl
  links-eq p (i ∷ ids) = ap (◌∷◌ (link p.organization_id p.event_id i)) (links-eq p ids)

  -- Success, and the caches cleared; or failure, and the caches as they were.
  abbrev pub IsOutcome : (is_imported : Bool) → List Posted → W s → Bool × W s → Type 0
  IsOutcome is_imported xs w r =
      ((r.0 ≡ true)
        × All IsDone xs
        × (r.1.cache ≡ [])
        × (r.1.bynumber_cache ≡ (if is_imported then [] else w.bynumber_cache)))
      ⊎ ((r.0 ≡ false)
          × Any IsRefused xs
          × (r.1.cache ≡ w.cache)
          × (r.1.bynumber_cache ≡ w.bynumber_cache))

  cleared :
      (is_imported : Bool) (bodies : List Body) (w : W s) (r : Bool × W s)
      → Posts bodies w r
      → ((then_do s (clear_caches s is_imported) r).1.posted ≡ logged bodies w.posted)
        × IsOutcome is_imported (answers bodies w.net) w (then_do s (clear_caches s is_imported) r)
  cleared i bodies w (true, v) h = (
    h.posted,
    elim (post_all-split (answers bodies w.net)) [
      | inl (q, d) ↦ inl (refl, d, refl, ap (λ m. if i then [] else m) h.bynumber_cache)
      | inr (q, f) ↦ absurd (cc (h.success, q))
    ],
  )
  cleared i bodies w (false, v) h = (
    h.posted,
    elim (post_all-split (answers bodies w.net)) [
      | inl (q, d) ↦ absurd (cc (h.success, q))
      | inr (q, f) ↦ inr (refl, f, h.cache, h.bynumber_cache)
    ],
  )

  -- A survey's submission posts one link of its organization and event for each of its sports, in their
  -- order and whatever is answered. Either each is accepted or rejected with 400; then it succeeds, the
  -- survey's cache is empty, and so is that of the registration by number if its module can be imported,
  -- which otherwise stays. Or one is rejected otherwise; then it fails, and both caches are as they
  -- were, although some of the links may have been made.
  pub submit_survey-IsOutcome :
      (is_imported : Bool) (p : SurveyPayload) (w : W s)
      → let bodies = links p.organization_id p.event_id p.sport_ids in
        ((submit_survey s is_imported p w).1.posted ≡ logged bodies w.posted)
        × IsOutcome is_imported (answers bodies w.net) w (submit_survey s is_imported p w)
  unfolding submit_survey link_bodies
  submit_survey-IsOutcome i p w =
      subst
        (λ bodies.
          ((submit_survey s i p w).1.posted ≡ logged bodies w.posted)
          × IsOutcome i (answers bodies w.net) w (submit_survey s i p w))
        (links-eq p p.sport_ids)
        (cleared i (link_bodies p) w (post_all s (link_bodies p) w)
          (post_all-Posts (link_bodies p) w))

  forgotten :
      (key : Text) (bodies : List Body) (w : W s) (r : Bool × W s) (k : Text)
      → Posts bodies w r
      → ((then_do s (λ v. record v { bynumber_cache = remove key v.bynumber_cache }) r).1.posted
          ≡ logged bodies w.posted)
        × ((then_do s (λ v. record v { bynumber_cache = remove key v.bynumber_cache }) r).0
            ≡ all_settled (answers bodies w.net))
        × (get k
              (then_do s
                (λ v. record v { bynumber_cache = remove key v.bynumber_cache })
                r).1.bynumber_cache
            ≡ (if all_settled (answers bodies w.net) && key == k
                then none
                else get k w.bynumber_cache))
  forgotten key bodies w (true, v) k h = (
    h.posted,
    h.success,
    rw (← h.success) (
        get-remove key k v.bynumber_cache
        ∙ ap (λ m. if key == k then none else get k m) h.bynumber_cache),
  )
  forgotten key bodies w (false, v) k h =
      (h.posted, h.success, rw (← h.success) (ap (get k) h.bynumber_cache))

  -- A submission by number posts the counts of each sport likewise, and succeeds likewise; then, and
  -- only then, the cached sports of that organization and event are forgotten, and no other entry.
  pub submit_by_number-outcome :
      (p : ByNumberPayload) (w : W s) (k : Text)
      → ((submit_by_number s p w).1.posted ≡ logged (participation_bodies p) w.posted)
        × ((submit_by_number s p w).0 ≡ all_settled (answers (participation_bodies p) w.net))
        × (get k (submit_by_number s p w).1.bynumber_cache ≡ (
            if all_settled (answers (participation_bodies p) w.net)
              && org_event_key p.organization_id p.event_id == k
            then none
            else get k w.bynumber_cache))
  unfolding submit_by_number
  submit_by_number-outcome p w k =
      forgotten (org_event_key p.organization_id p.event_id) (participation_bodies p) w
        (post_all s (participation_bodies p) w) k (post_all-Posts (participation_bodies p) w)
