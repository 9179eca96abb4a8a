-- ===== src/Auth/State.antt =====
-- The session state and its reducer (core/auth/types/index.ts, core/auth/context/AuthContext.tsx).
pub mod Laws
use choschmous_v.Base.{ℕ, ◌≡◌, Bool, true, false, Option, none, some, Text}
use choschmous_v.Auth.Role.{UserRole, normalize_role}

-- `User`; the role is the string that the server sent.
pub record User : Type 0 where
  pub id : Text
  pub username : Text
  pub email : Text
  pub kh_family_name : Option Text
  pub kh_given_name : Option Text
  pub en_family_name : Option Text
  pub en_given_name : Option Text
  pub khmer_name : Option Text
  pub english_name : Option Text
  pub role : Text
  pub is_active : Bool
  pub is_superuser : Bool
  pub photo_path : Option Text
  pub org_id : Option ℕ
  pub organization_id : Option ℕ
  pub sport_id : Option ℕ
  pub created_at : Text
  pub updated_at : Text

pub record AuthState : Type 0 where
  pub user : Option User
  pub role : Option UserRole
  pub is_authenticated : Bool
  pub is_loading : Bool
  pub error : Option Text

pub data Action : Type 0 where
  loading : Action
  set_user : User → UserRole → Action
  set_error : Text → Action
  clear_error : Action
  stop_loading : Action
  logout : Action

-- `EMPTY`
abbrev pub empty : AuthState
empty = record {
  user = none;
  role = none;
  is_authenticated = false;
  is_loading = false;
  error = none;
}

-- The state in which the provider starts.
abbrev pub initial : AuthState
initial = record empty { is_loading = true }

unfoldable pub reducer : AuthState → Action → AuthState
reducer s loading = record s { is_loading = true; error = none }
reducer s (set_user u r) = record empty { is_authenticated = true; user = some u; role = some r }
reducer s (set_error e) = record s { is_loading = false; error = some e }
reducer s clear_error = record s { error = none }
reducer s stop_loading = record s { is_loading = false; error = none }
reducer s logout = empty

-- The three fields that say who is signed in.
abbrev pub Identity : Option User → Option UserRole → Bool → Type 0
Identity (some u) (some r) true = r ≡ normalize_role u.role
Identity none none false = Unit
Identity _ _ _ = ⊥

-- They agree: a user, its role as `normalizeRole` reads it and the flag, or none of the three.
abbrev pub IsCoherent : AuthState → Type 0
IsCoherent s = Identity s.user s.role s.is_authenticated

-- The actions that the provider dispatches: a user always with its own role.
abbrev pub IsProper : Action → Type 0
IsProper (set_user u r) = r ≡ normalize_role u.role
IsProper _ = Unit
