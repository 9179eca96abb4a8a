-- ===== src/Auth/Flows/Legs.antt =====
-- The legs of the session's operations, for any property of the state that an emptied one has.
use choschmous_v.Base.{
  ◌≡◌, refl, inl, inr, false, Option, none, some, Bool-cases, nat_eq, Text, text_eq,
}
use choschmous_v.Auth.Role.{UserRole}
use choschmous_v.Auth.Expiry.{Reported, is_access_token_expired}
use choschmous_v.Auth.Mfa.{MfaMethod, LoginBody, challenge, session}
use choschmous_v.Auth.State.{User, AuthState, empty, reducer, IsCoherent}
use choschmous_v.Api.World.{Result, ok, err, Backend, Exec, try}
use choschmous_v.Api.Client.{W, request, refresh_url}
use choschmous_v.Auth.Flows.{
  with_org_id, accept_login, store_expiry, login_user, verify_mfa_login, refresh_access_token,
  get_current_user, sign_in, refresh_if_due, login_url, me_url, verify_url,
}
use choschmous_v.Auth.Flows.Triples.{Meets, Meets-try, Meets-request, Value}

abbrev pub Held : (User → Type 0) → Option User → Type 0
Held P none = Unit
Held P (some u) = P u

-- The state is coherent, and its user, if any, has `P`.
abbrev pub Vouched : (User → Type 0) → AuthState → Type 0
Vouched P s = IsCoherent s × Held P s.user

abbrev pub IsSignedIn : (User → Type 0) → UserRole → AuthState → Type 0
IsSignedIn P r s =
    IsCoherent s × Held P s.user × (s.role ≡ some r) × (s.is_loading ≡ false) × (s.error ≡ none)

abbrev AnyAnswer : {A : Type 0} → A → Type 0
AnyAnswer a = Unit

module _ (b : Backend) (P : User → Type 0)
    (vouch : (n : b.Net) (u : User) → (b.me n).0 ≡ ok u → P (with_org_id u))
    (S : AuthState → Type 0) (at_empty : S empty) where
  abbrev pub After : {A : Type 0} → Result A → AuthState → Type 0
  After r s = S s

  abbrev pub SignInEnd : Result UserRole → AuthState → Type 0
  SignInEnd (ok r) s = IsSignedIn P r s
  SignInEnd (err e) s = S s

  abbrev pub GotUser : Result User → AuthState → Type 0
  GotUser r s = S s × Value P r

  pub get_current_user-Meets : Meets b S (get_current_user b) GotUser
  unfolding get_current_user
  get_current_user-Meets =
      Meets-try b (λ r s. S s × Value (λ u. P (with_org_id u)) r)
        (Meets-request b me_url b.me S (λ u. P (with_org_id u)) at_empty vouch)
        (λ u. record { run = λ w h. h }) (λ e. record { run = λ w h. h })

  pub sign_in-Meets : Meets b S (sign_in b) SignInEnd
  unfolding sign_in reducer
  sign_in-Meets =
      Meets-try b GotUser get_current_user-Meets
        (λ u. record { run = λ w h. (refl, h.1, refl, refl, refl) })
        (λ e. record { run = λ w h. h.0 })

  pub login_user-Meets : (u p : Text) → Meets b S (login_user b u p) After
  unfolding login_user
  login_user-Meets u p =
      Meets-try b (λ r s. S s × Value AnyAnswer r)
        (Meets-request b login_url (b.login u p) S AnyAnswer at_empty (λ n a h. tt)) accepted
        (λ e. record { run = λ w h. h.0 })
    where
      accepted : (body : LoginBody) → Meets b (λ s. S s × Unit {0}) (accept_login b body) After
      accepted (challenge c) = record { run = λ w h. h.0 }
      accepted (session r) = record { run = λ w h. h.0 }

  pub store_answer-Meets :
      (url : Text) (call : b.Net → Result Reported × b.Net)
      → Meets b S (try (request b url call) (store_expiry b) (λ e w. (err e, w))) After
  store_answer-Meets url call =
      Meets-try b (λ r s. S s × Value AnyAnswer r)
        (Meets-request b url call S AnyAnswer at_empty (λ n a h. tt))
        (λ r. record { run = λ w h. h.0 }) (λ e. record { run = λ w h. h.0 })

  pub verify_mfa_login-Meets :
      (t : Text) (m : MfaMethod) (c : Text) → Meets b S (verify_mfa_login b t m c) After
  unfolding verify_mfa_login
  verify_mfa_login-Meets t m c = store_answer-Meets verify_url (b.verify t m c)

  pub refresh_access_token-Meets : Meets b S (refresh_access_token b) After
  unfolding refresh_access_token
  refresh_access_token-Meets = store_answer-Meets refresh_url b.refresh

  -- A first leg, and then the question who is signed in.
  pub then_sign_in-Meets :
      (m : Exec (W b) (Unit {0}))
      → Meets b S m After
      → Meets b S (try m (λ _. sign_in b) (λ e w. (err e, w))) SignInEnd
  then_sign_in-Meets m mm =
      Meets-try b After mm (λ _. sign_in-Meets) (λ e. record { run = λ w h. h })

  pub refresh_if_due-Meets : Meets b S (refresh_if_due b) After
  refresh_if_due-Meets = record {
    run = λ w h. elim (Bool-cases (is_access_token_expired (b.clock w.net) w.store)) [
      | inl due ↦ rw due (refresh_access_token-Meets.run w h)
      | inr not_due ↦ rw not_due h
    ];
  }
