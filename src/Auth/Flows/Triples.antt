-- ===== src/Auth/Flows/Triples.antt =====
-- Postconditions of actions, as far as they speak of the session state.
use choschmous_v.Base.{◌≡◌, refl, nat_eq, Text, text_eq}
use choschmous_v.Auth.State.{AuthState, empty}
use choschmous_v.Api.World.{Failure, Result, ok, err, Backend, Exec, try, settle}
use choschmous_v.Api.Client.{W, request}
use choschmous_v.Api.Client.Laws.{
  Trace, once, refused, twice, Settled, request-Settled, request-answers,
}

-- What is known of the value of a result that has one.
abbrev pub Value : {A : Type 0} → (A → Type 0) → Result A → Type 0
Value R (ok a) = R a
Value R (err e) = Unit

module _ (b : Backend) where
  -- From a session state with `P` the action ends in one with `Q`, whatever its result.
  pub record Meets {A : Type 0} (P : AuthState → Type 0) (m : Exec (W b) A)
      (Q : Result A → AuthState → Type 0) : Type 0 where
    pub run : (w : W b) → P w.auth → Q (m w).0 (m w).1.auth

  pub Meets-try :
      {A B : Type 0} {P : AuthState → Type 0} {m : Exec (W b) A} {f : A → Exec (W b) B}
      {g : Failure → Exec (W b) B} (Q : Result A → AuthState → Type 0)
      {R : Result B → AuthState → Type 0}
      → Meets P m Q
      → ((a : A) → Meets (Q (ok a)) (f a) R)
      → ((e : Failure) → Meets (Q (err e)) (g e) R)
      → Meets P (try m f g) R
  Meets-try {A} {B} {m} {f} {g} Q {R} mm mf mg = record {
    run = λ w p. by_result w (m w).0 (m w).1 (mm.run w p);
  }
    where
      by_result :
          (w : W b) (r : Result A) (v : W b)
          → Q r v.auth
          → R (settle (r, v) f g).0 (settle (r, v) f g).1.auth
      by_result w (ok a) v q = (mf a).run v q
      by_result w (err e) v q = (mg e).run v q

  Value-intro :
      {A : Type 0} (R : A → Type 0) (r : Result A) → ((a : A) → r ≡ ok a → R a) → Value R r
  Value-intro R (ok a) h = h a refl
  Value-intro R (err e) h = tt

  -- A call of the client leaves the session state as it is, or empties it.
  pub Meets-request :
      {A : Type 0} (url : Text) (call : b.Net → Result A × b.Net) (S : AuthState → Type 0)
      (R : A → Type 0)
      → S empty
      → ((n : b.Net) (a : A) → (call n).0 ≡ ok a → R a)
      → Meets S (request b url call) (λ r s. S s × Value R r)
  Meets-request url call S R at_empty answers = record {
    run = λ w p. (
      by_trace w p (request-Settled b url call w).0 (request-Settled b url call w).1,
      Value-intro R (request b url call w).0 (request-answers b url call R answers w),
    );
  }
    where
      by_trace :
          (w : W b)
          → S w.auth
          → (t : Trace) → Settled b w (request b url call w) url t
          → S (request b url call w).1.auth
      by_trace w p (once q) k = rw k.auth p
      by_trace w p (refused q) k = rw k.auth at_empty
      by_trace w p (twice q r) k = rw k.auth p
