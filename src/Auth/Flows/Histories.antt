-- ===== src/Auth/Flows/Histories.antt =====
-- Any sequence of the session's operations, from the moment that the provider is mounted.
use choschmous_v.Base.{◌≡◌, refl, inl, inr, List, [], ◌∷◌, nat_eq, Text, text_eq}
use choschmous_v.Auth.Role.{UserRole}
use choschmous_v.Auth.Mfa.{MfaMethod}
use choschmous_v.Auth.State.{User, AuthState, clear_error, initial, reducer}
use choschmous_v.Api.World.{
  http, network, flat, flat_detail, required, plain, Result, ok, err, Backend,
}
use choschmous_v.Api.Client.{W, session_expired}
use choschmous_v.Auth.Flows.{
  with_org_id, dispatch, login, complete_mfa, sign_out, refresh_session, restore, login_failed,
}
use choschmous_v.Auth.Flows.Legs.{IsSignedIn}
use choschmous_v.Auth.Flows.Laws.{
  IsSettled, LoginEnd, login-LoginEnd, VerifyEnd, complete_mfa-VerifyEnd, restore_fails_closed,
  RefreshEnd, refresh_session-RefreshEnd, sign_out-wipes,
}

-- What a component may call of the provider, and the event that another request may raise.
pub data Operation : Type 0 where
  log_in : (username password : Text) → Operation
  second_factor : (token : Text) → MfaMethod → (code : Text) → Operation
  log_out refresh forget_error expire : Operation

module _ (b : Backend) where
  unfoldable pub run : W b → Operation → W b
  run w (log_in u p) = (login b u p w).1
  run w (second_factor t m c) = (complete_mfa b t m c w).1
  run w log_out = (sign_out b w).1
  run w refresh = (refresh_session b w).1
  run w forget_error = (dispatch b clear_error w).1
  run w expire = session_expired b w

  unfoldable pub run_all : W b → List Operation → W b
  unfolding run
  run_all w [] = w
  run_all w (o ∷ os) = run_all (run w o) os

  module _ (P : User → Type 0)
      (vouch : (n : b.Net) (u : User) → (b.me n).0 ≡ ok u → P (with_org_id u)) where
    of_SignedIn : (r : UserRole) (s : AuthState) → IsSignedIn P r s → IsSettled P s
    of_SignedIn r s h = ((h.0, h.1), h.3)

    of_LoginEnd :
        (r : Result UserRole) (s : AuthState) → LoginEnd P login_failed r s → IsSettled P s
    of_LoginEnd (ok r) s h = of_SignedIn r s h
    of_LoginEnd (err (required m)) s h = (h.0, h.1)
    of_LoginEnd (err (http c m t)) s h = (h.0, h.1)
    of_LoginEnd (err (network m)) s h = (h.0, h.1)
    of_LoginEnd (err (flat c)) s h = (h.0, h.1)
    of_LoginEnd (err (flat_detail m)) s h = (h.0, h.1)
    of_LoginEnd (err (plain m)) s h = (h.0, h.1)

    of_VerifyEnd : (r : Result UserRole) (s : AuthState) → VerifyEnd b P vouch r s → IsSettled P s
    of_VerifyEnd (ok r) s h = of_SignedIn r s h
    of_VerifyEnd (err e) s h = (h.0, h.1)

    of_RefreshEnd :
        (r : Result (Unit {0})) (s : AuthState) → RefreshEnd b P vouch r s → IsSettled P s
    of_RefreshEnd (ok _) s h = of_SignedIn h.0 s h.1
    of_RefreshEnd (err e) s h = h.0

    run-IsSettled : (w : W b) (o : Operation) → IsSettled P w.auth → IsSettled P (run w o).auth
    unfolding run session_expired reducer
    run-IsSettled w (log_in u p) h = of_LoginEnd _ _ (login-LoginEnd b P vouch w u p h.0)
    run-IsSettled w (second_factor t m c) h =
        of_VerifyEnd _ _ (complete_mfa-VerifyEnd b P vouch w t m c h.0)
    run-IsSettled w log_out h = rw (sign_out-wipes b w).1 ((tt, tt), refl)
    run-IsSettled w refresh h = of_RefreshEnd _ _ (refresh_session-RefreshEnd b P vouch w h)
    run-IsSettled w forget_error h = h
    run-IsSettled w expire h = ((tt, tt), refl)

    run_all-IsSettled :
        (w : W b) (os : List Operation) → IsSettled P w.auth → IsSettled P (run_all w os).auth
    unfolding run_all
    run_all-IsSettled w [] h = h
    run_all-IsSettled w (o ∷ os) h = run_all-IsSettled (run w o) os (run-IsSettled w o h)

    -- From the provider's initial state, once the session has been restored and after any operations
    -- that each run to their end, the user, the role and the flag agree, nothing is loading, and a user
    -- who is signed in is one that the server's `/me` named: it has every property that those answers
    -- have, `org_id` filled in.
    pub session_integrity :
        (w : W b) (os : List Operation)
        → w.auth ≡ initial
        → IsSettled P (run_all (restore b w).1 os).auth
    session_integrity w os e =
        run_all-IsSettled _ os (elim (restore_fails_closed b P vouch w (rw e (tt, tt))) [
          | inl wiped ↦ rw wiped ((tt, tt), refl)
          | inr (r, h) ↦ of_SignedIn r _ h
        ])
