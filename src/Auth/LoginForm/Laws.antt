-- ===== src/Auth/LoginForm/Laws.antt =====
-- What a visitor sees of a login.
use choschmous_v.Base.{ℕ, ◌≡◌, refl, ◌⊎◌, false, Option, none, some, nat_eq, Text, text_eq}
use choschmous_v.Auth.Role.{UserRole}
use choschmous_v.Auth.Mfa.{MfaMethod, MfaRequired}
use choschmous_v.Auth.State.{User, AuthState}
use choschmous_v.Api.World.{detail_object, http, Result, ok, err, Backend}
use choschmous_v.Api.Client.{W}
use choschmous_v.Auth.Flows.{with_org_id, complete_mfa}
use choschmous_v.Auth.Flows.Legs.{Vouched, IsSignedIn}
use choschmous_v.Auth.Flows.Laws.{VerifyEnd, complete_mfa-VerifyEnd}
use choschmous_v.Auth.LoginForm.{Form, shown_error, after_mfa, submit_mfa, no_challenge}

abbrev pub blank : Form
blank = record { challenge = none; login_error = none; mfa_error = none }

-- After a login: signed in with the role that is returned, and no error on display; or a challenge,
-- and no error on display; or no challenge, and an error on display, unless the server's answer has a
-- detail that is no text, of which nothing is displayed.
abbrev pub Seen : (User → Type 0) → Option UserRole × Form → AuthState → Type 0
Seen P (some r, f) s = IsSignedIn P r s × (f.challenge ≡ none) × (shown_error f s.error ≡ none)
Seen P (none, f) s =
    (((c : MfaRequired) × (f.challenge ≡ some c)) × (shown_error f s.error ≡ none))
    ⊎ ((f.challenge ≡ none) × ((t : Text) × (shown_error f s.error ≡ some t)))
    ⊎ ((f.challenge ≡ none)
        × ((n : ℕ) × (m : Text) × (f.login_error ≡ some (http n m detail_object)))
        × (shown_error f s.error ≡ none))

module _ (b : Backend) (P : User → Type 0)
    (vouch : (n : b.Net) (u : User) → (b.me n).0 ≡ ok u → P (with_org_id u)) where
  -- After a second factor: signed in and the challenge dropped, or the challenge kept.
  abbrev pub Verified : Option MfaRequired → Option UserRole × Form → AuthState → Type 0
  Verified c (some r, f) s = IsSignedIn P r s × (f.challenge ≡ none)
  Verified c (none, f) s = (f.challenge ≡ c) × Vouched P s × (s.is_loading ≡ false)

  verified :
      (f : Form) (r : Result UserRole) (s : AuthState)
      → VerifyEnd b P vouch r s
      → Verified f.challenge (after_mfa f r) s
  verified f (ok r) s h = (h, refl)
  verified f (err e) s h = (refl, h.0, h.1)

  -- With a challenge pending, a second factor signs the visitor in and drops the challenge, or is
  -- rejected and leaves it for another attempt; without one the server is not asked.
  pub submit_mfa-Verified :
      (w : W b) (f : Form) (c : MfaRequired) (method : MfaMethod) (code : Text)
      → Vouched P w.auth
      → Verified
          (some c)
          (submit_mfa b (record f { challenge = some c }) method code w).0
          (submit_mfa b (record f { challenge = some c }) method code w).1.auth
        × (submit_mfa b (record f { challenge = none }) method code w
            ≡ ((none, record f { challenge = none; mfa_error = some no_challenge }), w))
  unfolding submit_mfa
  submit_mfa-Verified w f c method code h = (
    verified (record f { challenge = some c }) (complete_mfa b c.token method code w).0
        (complete_mfa b c.token method code w).1.auth
        (complete_mfa-VerifyEnd b P vouch w c.token method code h),
    refl,
  )
