-- ===== src/Auth/LoginForm.antt =====
-- The login form (core/auth/hooks/useLogin.ts): its two mutations and the challenge between them, over
-- the provider's callbacks of `Auth.Flows`.
pub mod Laws
use choschmous_v.Base.{
  ℕ, Bool, true, false, Option, none, some, if◌then◌else◌, Text, codes, is_empty,
}
use choschmous_v.Auth.Role.{UserRole}
use choschmous_v.Auth.Mfa.{MfaMethod, MfaRequired}
use choschmous_v.Auth.State.{clear_error}
use choschmous_v.Api.World.{
  ErrorDetail, no_detail, detail_text, detail_object, Failure, http, network, flat, flat_detail,
  required, plain, Result, ok, err, Backend,
}
use choschmous_v.Api.Client.{W}
use choschmous_v.Auth.Flows.{login, complete_mfa, dispatch}

-- `mfaChallenge` and the errors of the two mutations.
pub record Form : Type 0 where
  pub challenge : Option MfaRequired
  pub login_error : Option Failure
  pub mfa_error : Option Failure

abbrev pub mfa_message : Text
mfa_message = codes "Multi-factor authentication required"

-- `err.response?.data?.detail || err.message`
abbrev pub detail_or : ErrorDetail → Text → ErrorDetail
detail_or no_detail m = detail_text m
detail_or (detail_text t) m = detail_text (if is_empty t then m else t)
detail_or detail_object m = detail_object

-- `axiosDetail`, where `null` is no detail.
unfoldable pub axios_detail : Option Failure → ErrorDetail
axios_detail none = no_detail
axios_detail (some (http status m t)) = detail_or t m
axios_detail (some (network m)) = detail_text m
axios_detail (some (required c)) = detail_text mfa_message
axios_detail (some (plain m)) = detail_text m
axios_detail (some (flat status)) = no_detail
axios_detail (some (flat_detail t)) = no_detail

-- `typeof rawError === 'string' ? rawError : null`
abbrev pub if_text : ErrorDetail → Option Text
if_text no_detail = none
if_text (detail_text t) = some t
if_text detail_object = none

-- `rawError ?? contextError`, and what is shown of it.
abbrev pub or_context : ErrorDetail → Option Text → Option Text
or_context no_detail context_error = context_error
or_context (detail_text t) context_error = some t
or_context detail_object context_error = none

-- `err instanceof MfaRequiredError`
abbrev pub is_required : Option Failure → Bool
is_required (some (required c)) = true
is_required _ = false

-- The `error` that the form shows; a challenge is never shown as one.
unfoldable pub shown_error : Form → (context_error : Option Text) → Option Text
unfolding axios_detail
shown_error f context_error = elim f.challenge [
  | some c ↦ if_text (axios_detail f.mfa_error)
  | none ↦
      if is_required f.login_error
      then none
      else or_context (axios_detail f.login_error) context_error
]

abbrev pub status_of : Option Failure → Option ℕ
status_of (some (http status m t)) = some status
status_of _ = none

unfoldable pub shown_status : Form → Option ℕ
shown_status f = elim f.challenge [
  | some c ↦ status_of f.mfa_error
  | none ↦ status_of f.login_error
]

-- What becomes of the form when the first mutation is settled, and the role that `login` returns.
abbrev pub after_login : Form → Result UserRole → Option UserRole × Form
after_login f (ok r) = (some r, record f { login_error = none; challenge = none })
after_login f (err (required c)) =
    (none, record f { login_error = some (required c); challenge = some c })
after_login f (err e) = (none, record f { login_error = some e })

abbrev pub after_mfa : Form → Result UserRole → Option UserRole × Form
after_mfa f (ok r) = (some r, record f { mfa_error = none; challenge = none })
after_mfa f (err e) = (none, record f { mfa_error = some e })

abbrev pub no_challenge : Failure
no_challenge = plain (codes "No active MFA challenge")

module _ (b : Backend) where
  abbrev pub settle_with :
      (Result UserRole → Option UserRole × Form)
      → Result UserRole × W b
      → (Option UserRole × Form) × W b
  settle_with f (r, w) = (f r, w)

  unfoldable pub submit_login :
      Form → (username password : Text) → W b → (Option UserRole × Form) × W b
  submit_login f u p w = settle_with (after_login f) (login b u p w)

  unfoldable pub submit_mfa :
      Form → MfaMethod → (code : Text) → W b → (Option UserRole × Form) × W b
  submit_mfa f method code w = elim f.challenge [
    | none ↦ (after_mfa f (err no_challenge), w)
    | some c ↦ settle_with (after_mfa f) (complete_mfa b c.token method code w)
  ]

  unfoldable pub cancel_mfa : Form → W b → Form × W b
  cancel_mfa f w = (record f { challenge = none; mfa_error = none }, (dispatch b clear_error w).1)
