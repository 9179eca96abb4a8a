-- ===== src/Auth/Mfa.antt =====
-- The second factor of a login (core/auth/mfa.ts).
use choschmous_v.Base.{Bool, false, Option, List, [], nat_eq, or_else, Text, text_eq}
use choschmous_v.Auth.Expiry.{Reported}

pub data MfaMethod : Type 0 where
  totp recovery webauthn : MfaMethod

-- The challenge as the server sends it; the two last fields may be missing.
pub record MfaLoginChallenge : Type 0 where
  pub mfa_token : Text
  pub methods : Option (List MfaMethod)
  pub mfa_enrollment_required : Option Bool

-- A body of `/auth/login`: a challenge, which `isMfaChallenge` tells by `mfa_required`, or a session.
pub data LoginBody : Type 0 where
  challenge : MfaLoginChallenge → LoginBody
  session : Reported → LoginBody

-- `MfaRequiredError`
pub record MfaRequired : Type 0 where
  pub token : Text
  pub methods : List MfaMethod
  pub enrollment_required : Bool

unfoldable pub mfa_required : MfaLoginChallenge → MfaRequired
mfa_required c = record {
  token = c.mfa_token;
  methods = or_else c.methods [];
  enrollment_required = or_else c.mfa_enrollment_required false;
}
