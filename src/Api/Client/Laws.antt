-- ===== src/Api/Client/Laws.antt =====
-- What one call of the client does to the wire and to the session.
use choschmous_v.Base.{
  ◌≡◌, refl, ap, ◌⊎◌, inl, inr, Bool, true, false, not, ◌&&◌, ◌||◌, List, [], ◌∷◌, arith,
  Bool-cases, nat_eq, Text, text_eq,
}
use choschmous_v.Auth.Expiry.{is_access_token_expired}
use choschmous_v.Auth.State.{empty, reducer}
use choschmous_v.Api.World.{
  Failure, Result, ok, err, Backend, Exec, settle, pure, raise, plain, settle-ok, Result-cases,
}
use choschmous_v.Api.Client.{
  is_auth_endpoint, is_unauthorized, W, exchange, perform_refresh, before_request, session_expired,
  on_rejected, attempt, request, refresh_url,
}

-- The requests of one call: `once` if the first attempt settles it, `refused` if that is answered
-- 401 and the refresh fails, `twice` if the refresh succeeds. Each attempt may have a refresh ahead.
pub data Trace : Type 0 where
  once : (ahead : Bool) → Trace
  refused : (ahead : Bool) → Trace
  twice : (ahead ahead_again : Bool) → Trace

abbrev pub ahead : Bool → List Text → List Text
ahead true sent = refresh_url ∷ sent
ahead false sent = sent

abbrev pub wire : Text → Trace → List Text → List Text
wire url (once p) sent = url ∷ ahead p sent
wire url (refused p) sent = refresh_url ∷ url ∷ ahead p sent
wire url (twice p q) sent = url ∷ ahead q (refresh_url ∷ url ∷ ahead p sent)

module _ (b : Backend) where
  -- The session and the wire after a step that leaves the session alone.
  pub record Kept (sent : List Text) (w v : W b) : Type 0 where
    pub auth : v.auth ≡ w.auth
    pub cache : v.cache ≡ w.cache
    pub wire : v.sent ≡ sent

  pub record Wiped {A : Type 0} (sent : List Text) (r : Result A) (v : W b) : Type 0 where
    pub auth : v.auth ≡ empty
    pub cache : v.cache ≡ []
    pub wire : v.sent ≡ sent
    pub failure : Failure
    pub rejected : r ≡ err failure
    pub unauthorized : is_unauthorized failure ≡ true

  exchange-Kept :
      {A : Type 0} (url : Text) (call : b.Net → Result A × b.Net) (w : W b)
      → Kept (url ∷ w.sent) w (exchange b url call w).1
  unfolding exchange
  exchange-Kept url call w = record { auth = refl; cache = refl; wire = refl }

  perform_refresh-Kept : (w : W b) → Kept (refresh_url ∷ w.sent) w (perform_refresh b w).1
  unfolding perform_refresh exchange
  perform_refresh-Kept w = ground arith

  before_request-Kept :
      (url : Text) (w : W b)
      → (p : Bool) × ((before_request b url w).0 ≡ ok tt)
        × Kept (ahead p w.sent) w (before_request b url w).1
        × (is_auth_endpoint url ≡ true → p ≡ false)
  unfolding before_request
  before_request-Kept url w = (
    not (is_auth_endpoint url) && is_access_token_expired (b.clock w.net) w.store,
    ground arith,
    ground (arith, perform_refresh-Kept w),
    ground arith,
  )

  -- What one call comes to, by its trace.
  abbrev pub Settled : {A : Type 0} → W b → Result A × W b → Text → Trace → Type 0
  Settled w m url (once p) = Kept (wire url (once p) w.sent) w m.1
  Settled w m url (refused p) = Wiped (wire url (refused p) w.sent) m.0 m.1
  Settled w m url (twice p q) = Kept (wire url (twice p q) w.sent) w m.1

  -- Why a call takes its course: `first` is the answer to the first attempt, `refreshed` that to the
  -- refresh behind it, and `last` what the call returns.
  abbrev pub HasCause :
      {A : Type 0} → Text → (first : Result A) → Result (Unit {0}) → Result A → Trace → Type 0
  HasCause {A = A} url first refreshed last (once p) =
      (last ≡ first)
      × (((a : A) × (first ≡ ok a))
          ⊎ ((f : Failure) × (first ≡ err f)
              × ((is_unauthorized f ≡ false) ⊎ (is_auth_endpoint url ≡ true))))
  HasCause url first refreshed last (refused p) =
      (is_auth_endpoint url ≡ false)
      × ((f : Failure) × (first ≡ err f) × (is_unauthorized f ≡ true) × (last ≡ err f))
      × ((g : Failure) × (refreshed ≡ err g))
  HasCause url first refreshed last (twice p q) =
      (is_auth_endpoint url ≡ false)
      × ((f : Failure) × (first ≡ err f) × (is_unauthorized f ≡ true))
      × (refreshed ≡ ok tt)

  module _ {A : Type 0} (url : Text) (call : b.Net → Result A × b.Net) where
    -- The answer to the first attempt, with the world behind it.
    abbrev pub first_attempt : W b → Result A × W b
    first_attempt w = exchange b url call (before_request b url w).1

    attempt-eq :
        (retry : Bool) (again : Exec (W b) A) (w : W b)
        → attempt b retry again url call w
          ≡ settle
              (exchange b url call (before_request b url w).1)
              pure
              (on_rejected b url retry again)
    unfolding attempt
    attempt-eq retry again w = settle-ok _ _ _ (before_request-Kept url w).1

    on_rejected_retried :
        (again : Exec (W b) A) (e : Failure) (w : W b)
        → on_rejected b url true again e w ≡ (err e, w)
    unfolding on_rejected
    on_rejected_retried again e w = ground arith

    attempt_again :
        (again : Exec (W b) A) (w : W b)
        → (q : Bool) × Kept (url ∷ ahead q w.sent) w (attempt b true again url call w).1
    attempt_again again w =
        let (q, done, kept, _) = before_request-Kept url w in
        let v : W b = (before_request b url w).1 in
        let sent = exchange-Kept url call v in
        (
          q,
          rw (attempt-eq true again w) (elim (Result-cases (exchange b url call v).0) [
            | inl (a, e) ↦ rw (e, settle) (ground (arith, kept, sent))
            | inr (f, e) ↦
                rw (e, settle)
                  (ground
                    (arith, kept, sent, on_rejected_retried again f (exchange b url call v).1))
          ]),
        )

    -- A rejected first attempt: given up, or retried behind a refresh.
    on_rejected-Settled :
        (again : Exec (W b) A) (e : Failure) (w u : W b) (p : Bool)
        → Kept (url ∷ ahead p w.sent) w u
        → ((v : W b) → (q : Bool) × Kept (url ∷ ahead q v.sent) v (again v).1)
        → (t : Trace) × Settled w (on_rejected b url false again e u) url t
          × (is_auth_endpoint url ≡ true → p ≡ false → t ≡ once false)
          × HasCause url (err e) (perform_refresh b u).0 (on_rejected b url false again e u).0 t
    unfolding on_rejected session_expired reducer
    on_rejected-Settled again e w u p kept keeps =
        elim (Bool-cases (not (is_unauthorized e) || is_auth_endpoint url)) [
          | inl given_up ↦ (
            once p,
            ground (arith, kept),
            ground arith,
            (
              ground arith,
              inr (
                e,
                refl,
                elim (Bool-cases (is_auth_endpoint url)) [
                  | inl h ↦ inr h
                  | inr h ↦ inl (ground arith)
                ],
              ),
            ),
          )
          | inr retried ↦
              let fresh = perform_refresh-Kept u in
              elim (Result-cases (perform_refresh b u).0) [
                | inl (x, done) ↦
                    let (q, again_kept) = keeps (perform_refresh b u).1 in
                    (
                      twice p q,
                      ground (arith, kept, fresh, again_kept),
                      ground arith,
                      (ground arith, (e, refl, ground arith), done),
                    )
                | inr (f, failed) ↦ (
                  refused p,
                  record {
                    auth = ground (arith, kept, fresh);
                    cache = ground (arith, kept, fresh);
                    wire = ground (arith, kept, fresh);
                    failure = e;
                    rejected = ground (arith, kept, fresh);
                    unauthorized = ground arith;
                  },
                  ground arith,
                  (ground arith, (e, refl, ground arith, ground arith), (f, failed)),
                )
              ]
        ]

    request-Trace :
        (w : W b)
        → (t : Trace) × Settled w (request b url call w) url t
          × (is_auth_endpoint url ≡ true → t ≡ once false)
          × HasCause url
              (first_attempt w).0
              (perform_refresh b (first_attempt w).1).0
              (request b url call w).0
              t
    unfolding request
    request-Trace w =
        let again = attempt b true (raise (plain [])) url call in
        let (p, done, kept, none_ahead) = before_request-Kept url w in
        let v : W b = (before_request b url w).1 in
        let sent = exchange-Kept url call v in
        rw (attempt-eq false again w) (elim (Result-cases (exchange b url call v).0) [
          | inl (a, e) ↦ (
            once p,
            rw (e, settle) (ground (arith, kept, sent)),
            λ a. ap once (none_ahead a),
            rw (e, settle) (refl, inl (a, refl)),
          )
          | inr (f, e) ↦
              let settled =
                on_rejected-Settled again f w (exchange b url call v).1 p
                  (ground (arith, kept, sent)) (attempt_again (raise (plain []))) in
              (
                settled.0,
                rw (e, settle) settled.1,
                λ a. settled.2 a (none_ahead a),
                rw (e, settle) settled.3,
              )
        ])

    -- A call puts its request on the wire once if the answer is a success, a failure other than 401, or
    -- for a request of login, refresh or logout, and returns that answer; otherwise, behind a 401, there
    -- is one refresh: if it succeeds, the request is put on the wire a second time; if it fails, the call
    -- is rejected with the 401, nobody is signed in and the query cache is empty. But for this last
    -- case a call leaves the session and the query cache alone. Each time there is at most one
    -- refresh ahead, and none ahead of a request of login, refresh or logout.
    pub request-Settled :
        (w : W b)
        → (t : Trace) × Settled w (request b url call w) url t
          × HasCause url
              (first_attempt w).0
              (perform_refresh b (first_attempt w).1).0
              (request b url call w).0
              t
          × ((is_auth_endpoint url ≡ false) ⊎ (t ≡ once false))
    request-Settled w =
        let (t, settled, alone, cause) = request-Trace w in
        (
          t,
          settled,
          cause,
          elim (Bool-cases (is_auth_endpoint url)) [ inl h ↦ inr (alone h) | inr h ↦ inl h ],
        )

    -- What a call returns is an answer that the server gave to its request.
    module _ (R : A → Type 0) (answers : (n : b.Net) (a : A) → (call n).0 ≡ ok a → R a) where
      on_rejected-answers :
          (retry : Bool) (again : Exec (W b) A) (e : Failure) (w : W b) (a : A)
          → ((v : W b) (a : A) → (again v).0 ≡ ok a → R a)
          → (on_rejected b url retry again e w).0 ≡ ok a
          → R a
      unfolding on_rejected session_expired
      on_rejected-answers retry again e w a more h =
          elim (Bool-cases (not (is_unauthorized e) || retry || is_auth_endpoint url)) [
            | inl given_up ↦ absurd (ground arith)
            | inr retried ↦ elim (Result-cases (perform_refresh b w).0) [
              | inl (x, done) ↦ more (perform_refresh b w).1 a (ground arith)
              | inr (f, failed) ↦ absurd (ground arith)
            ]
          ]

      attempt-answers :
          (retry : Bool) (again : Exec (W b) A) (w : W b) (a : A)
          → ((v : W b) (a : A) → (again v).0 ≡ ok a → R a)
          → (attempt b retry again url call w).0 ≡ ok a
          → R a
      unfolding exchange
      attempt-answers retry again w a more h =
          let v : W b = (before_request b url w).1 in
          let h' = rw (attempt-eq retry again w) at h in
          elim (Result-cases (call v.net).0) [
            | inl (x, e) ↦ answers v.net a (ground (arith, h'))
            | inr (f, e) ↦
                on_rejected-answers retry again f (exchange b url call v).1 a more
                  (ground (arith, h'))
          ]

      pub request-answers : (w : W b) (a : A) → (request b url call w).0 ≡ ok a → R a
      unfolding request
      request-answers w a =
          attempt-answers false _ w a (λ v x. attempt-answers true _ v x (λ u y h. absurd (cc h)))
