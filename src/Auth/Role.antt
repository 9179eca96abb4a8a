-- ===== src/Auth/Role.antt =====
-- User roles (core/auth/types/index.ts, and `normalizeRole` of core/auth/context/AuthContext.tsx).
use choschmous_v.Base.{
  ℕ, ◌≡◌, ◌↔◌, Bool, true, List, [], ◌∷◌, arith, if◌then◌else◌, Eq, ◌==◌, nat_eq, Text, codes,
  text_eq,
}

pub data UserRole : Type 0 where
  super_admin admin organization federation guest : UserRole

-- The strings that the enum's members stand for.
unfoldable pub role_value : UserRole → Text
role_value super_admin = codes "super_admin"
role_value admin = codes "admin"
role_value organization = codes "organization"
role_value federation = codes "federation"
role_value guest = codes "GUEST"

abbrev role_index : UserRole → ℕ
role_index super_admin = 0
role_index admin = 1
role_index organization = 2
role_index federation = 3
role_index guest = 4

abbrev pub role_beq : UserRole → UserRole → Bool
role_beq a b = role_index a == role_index b

pub role_beq_iff : (a b : UserRole) → (role_beq a b ≡ true) ↔ (a ≡ b)
role_beq_iff super_admin b = ground arith
role_beq_iff admin b = ground arith
role_beq_iff organization b = ground arith
role_beq_iff federation b = ground arith
role_beq_iff guest b = ground arith

instance abbrev pub role_eq : Eq UserRole
role_eq = record { beq = role_beq; beq_iff = role_beq_iff }

-- `Object.values(UserRole)`
abbrev pub all_roles : List UserRole
all_roles = super_admin ∷ admin ∷ organization ∷ federation ∷ guest ∷ []

find_role : Text → List UserRole → UserRole
unfolding role_value
find_role raw [] = guest
find_role raw (r ∷ rs) = if raw == role_value r then r else find_role raw rs

-- A string that no member stands for becomes `GUEST`.
unfoldable pub normalize_role : Text → UserRole
unfolding find_role
normalize_role raw = find_role raw all_roles
