-- ===== src/Auth/Flows/Laws.antt =====
-- What each operation of the session leaves behind, on success and on every failure.
use choschmous_v.Base.{
  ◌≡◌, refl, ◌⊎◌, inl, inr, false, none, some, [], arith, Bool-cases, nat_eq, Text, text_eq,
}
use choschmous_v.Auth.Role.{UserRole}
use choschmous_v.Auth.Expiry.{clear_access_token_expiry}
use choschmous_v.Auth.Mfa.{MfaMethod}
use choschmous_v.Auth.State.{User, AuthState, loading, empty, reducer}
use choschmous_v.Api.World.{Failure, required, plain, Result, ok, err, Backend, Exec, pure, try}
use choschmous_v.Api.Client.{W, exchange}
use choschmous_v.Auth.Flows.{
  with_org_id, message_or, login_failed, verification_failed, is_auth_rejection, dispatch,
  login_user, logout_user, sign_in, login_rejected, login, complete_mfa, sign_out, refresh_rejected,
  refresh_session, restore,
}
use choschmous_v.Auth.Flows.Triples.{Meets, Meets-try}
use choschmous_v.Auth.Flows.Legs.{
  Vouched, IsSignedIn, SignInEnd, login_user-Meets, verify_mfa_login-Meets,
  refresh_access_token-Meets, then_sign_in-Meets, refresh_if_due-Meets,
}

-- Coherent, and no operation is left loading.
abbrev pub IsSettled : (User → Type 0) → AuthState → Type 0
IsSettled P s = Vouched P s × (s.is_loading ≡ false)

-- How an attempt to sign in ends: signed in; waiting for a second factor, with no error; or with an
-- error on display.
abbrev pub LoginEnd : (User → Type 0) → Text → Result UserRole → AuthState → Type 0
LoginEnd P d (ok r) s = IsSignedIn P r s
LoginEnd P d (err (required m)) s = Vouched P s × (s.is_loading ≡ false) × (s.error ≡ none)
LoginEnd P d (err e) s = Vouched P s × (s.is_loading ≡ false) × (s.error ≡ some (message_or e d))

module _ (b : Backend) (P : User → Type 0)
    (vouch : (n : b.Net) (u : User) → (b.me n).0 ≡ ok u → P (with_org_id u)) where
  -- Dispatching `LOADING` ahead keeps what the rest needs.
  loading-Meets :
      {A : Type 0} (m : Exec (W b) A) (Q : Result A → AuthState → Type 0)
      → Meets b (Vouched P) m Q
      → Meets b (Vouched P) (try (dispatch b loading) (λ _. m) (λ e w. (err e, w))) Q
  unfolding reducer
  loading-Meets m Q mm = record { run = λ w h. mm.run (dispatch b loading w).1 h }

  -- Whatever the server answers, a login ends signed in, with the role it returns, that of the user
  -- that the server named; or, with a second factor outstanding, settled and with no error; or
  -- settled with the failure's message on display.
  pub login-LoginEnd :
      (w : W b) (username password : Text)
      → Vouched P w.auth
      → LoginEnd P login_failed (login b username password w).0 (login b username password w).1.auth
  unfolding login reducer
  login-LoginEnd w u p h = (loading-Meets _ (LoginEnd P login_failed) caught).run w h
    where
      rejected : (e : Failure) → Meets b (Vouched P) (login_rejected b e) (LoginEnd P login_failed)
      rejected (required m) = record { run = λ w h. (h, refl, refl) }
      rejected (plain m) = record { run = λ w h. (h, refl, refl) }
      rejected _ = record { run = λ w h. (h, refl, refl) }

      caught :
          Meets b
            (Vouched P)
            (try
              (try (login_user b u p) (λ _. sign_in b) (λ e w. (err e, w)))
              pure
              (login_rejected b))
            (LoginEnd P login_failed)
      caught =
          Meets-try b (SignInEnd b P vouch (Vouched P) (tt, tt))
            (then_sign_in-Meets b P vouch (Vouched P) (tt, tt) _
              (login_user-Meets b P vouch (Vouched P) (tt, tt) u p))
            (λ r. record { run = λ w h. h }) rejected

  abbrev pub VerifyEnd : Result UserRole → AuthState → Type 0
  VerifyEnd (ok r) s = IsSignedIn P r s
  VerifyEnd (err e) s =
      Vouched P s × (s.is_loading ≡ false) × (s.error ≡ some (message_or e verification_failed))

  -- Whatever the server answers, the second leg of a login ends signed in, as the user that the server
  -- named, or settled with the failure's message on display.
  pub complete_mfa-VerifyEnd :
      (w : W b) (token : Text) (method : MfaMethod) (code : Text)
      → Vouched P w.auth
      → VerifyEnd (complete_mfa b token method code w).0 (complete_mfa b token method code w).1.auth
  unfolding complete_mfa reducer
  complete_mfa-VerifyEnd w t m c h =
      (loading-Meets _ VerifyEnd (
          Meets-try b (SignInEnd b P vouch (Vouched P) (tt, tt))
            (then_sign_in-Meets b P vouch (Vouched P) (tt, tt) _
              (verify_mfa_login-Meets b P vouch (Vouched P) (tt, tt) t m c))
            (λ r. record { run = λ w h. h }) (λ e. record { run = λ w h. (h, refl, refl) }))).run
        w h

  -- Restoring the session on load fails closed: signed in as a user that the server named, or nobody
  -- is, nothing is loading and there is no error.
  pub restore_fails_closed :
      (w : W b)
      → Vouched P w.auth
      → ((restore b w).1.auth ≡ empty) ⊎ ((r : UserRole) × IsSignedIn P r (restore b w).1.auth)
  unfolding restore reducer
  restore_fails_closed w h =
      (Meets-try b (SignInEnd b P vouch (Vouched P) (tt, tt))
          {R = λ _ s. (s ≡ empty) ⊎ ((r : UserRole) × IsSignedIn P r s)}
          (then_sign_in-Meets b P vouch (Vouched P) (tt, tt) _
            (refresh_if_due-Meets b P vouch (Vouched P) (tt, tt)))
          (λ r. record { run = λ w h. inr (r, h) }) (λ e. record { run = λ w h. inl refl })).run
        w h

  abbrev pub RefreshEnd : Result (Unit {0}) → AuthState → Type 0
  RefreshEnd (ok _) s = (r : UserRole) × IsSignedIn P r s
  RefreshEnd (err e) s = IsSettled P s × ((is_auth_rejection e ≡ false) ⊎ (s ≡ empty))

  -- From a settled state, a refresh of the session that succeeds ends signed in; one that is rejected leaves a settled
  -- state, and an empty one where the server said 401 or 403.
  pub refresh_session-RefreshEnd :
      (w : W b)
      → IsSettled P w.auth
      → RefreshEnd (refresh_session b w).0 (refresh_session b w).1.auth
  unfolding refresh_session reducer
  refresh_session-RefreshEnd w h =
      (Meets-try b (SignInEnd b P vouch (IsSettled P) ((tt, tt), refl)) {R = RefreshEnd}
          (then_sign_in-Meets b P vouch (IsSettled P) ((tt, tt), refl) _
            (refresh_access_token-Meets b P vouch (IsSettled P) ((tt, tt), refl)))
          (λ r. record { run = λ w h. (r, h) }) rejected).run
        w h
    where
      rejected : (e : Failure) → Meets b (IsSettled P) (refresh_rejected b e) RefreshEnd
      rejected e = record {
        run = λ w h. elim (Bool-cases (is_auth_rejection e)) [
          | inl r ↦ rw r (((tt, tt), refl), inr refl)
          | inr r ↦ rw r (h, inl r)
        ];
      }

-- Signing out always succeeds, whatever the server answers: nobody is signed in, the query cache is
-- empty, and the expiry hint is cleared as far as the storage lets itself be written.
pub sign_out-wipes :
    (b : Backend) (w : W b)
    → ((sign_out b w).0 ≡ ok tt)
      × ((sign_out b w).1.auth ≡ empty)
      × ((sign_out b w).1.cache ≡ [])
      × ((sign_out b w).1.store ≡ clear_access_token_expiry w.store)
unfolding sign_out logout_user exchange reducer
sign_out-wipes b w = ground arith
