-- ===== src/Users.antt =====
-- The form of a user (frontend/src/modules/users): its schema (schema/users.schema.ts) and what is sent
-- of it (mappers/users.mapper.ts). `Number(s)`, the check of an e-mail address, and the numbers of
-- integers are parameters.
pub mod Laws
mod Tests
use choschmous_v.Base.{
  ℕ, Bool, false, not, ◌&&◌, Option, none, some, List, [], ◌∷◌, leb, if◌then◌else◌, ◌==◌, nat_eq,
  or_else, length, Text, codes, text_eq, is_empty,
}
use choschmous_v.Auth.Role.{UserRole, super_admin, admin, organization, federation, guest, role_eq}

pub record Runtime : Type 1 where
  pub Num : Type 0
  pub number_of : Text → Num
  pub of_integer : ℕ → Num
  pub is_email : Text → Bool

-- The value of a choice: missing or `null`, a number, or a text.
pub data Chosen : Type 0 where
  missing : Chosen
  number : ℕ → Chosen
  text : Text → Chosen

-- `!!value`
unfoldable pub is_chosen : Chosen → Bool
is_chosen missing = false
is_chosen (number n) = not (n == 0)
is_chosen (text t) = not (is_empty t)

-- `UserFormValues`
pub record Values : Type 0 where
  pub username : Text
  pub email : Text
  pub password : Option Text
  pub kh_family_name : Text
  pub kh_given_name : Text
  pub en_family_name : Text
  pub en_given_name : Text
  pub role : UserRole
  pub organization_id : Chosen
  pub sport_id : Chosen

-- `z.string().min(low).max(high)`
abbrev pub sized : ℕ → ℕ → Text → Bool
sized low high t = leb low (length t) && leb (length t) high

-- `a || b` of the password, and the password unless it is empty.
abbrev pub filled_or : Option Text → Text → Text
filled_or none b = b
filled_or (some a) b = if is_empty a then b else a

abbrev pub filled : Option Text → Option Text
filled none = none
filled (some a) = if is_empty a then none else some a

module _ (js : Runtime) where
  -- The checks of `userFormSchema`.
  unfoldable pub checks : Values → List Bool
  unfolding is_chosen
  checks v =
      sized 3 50 v.username
      ∷ (js.is_email v.email && leb (length v.email) 120)
      ∷ leb (length (or_else v.password [])) 128
      ∷ sized 1 100 v.kh_family_name
      ∷ sized 1 100 v.kh_given_name
      ∷ sized 1 100 v.en_family_name
      ∷ sized 1 100 v.en_given_name
      ∷ not (v.role == federation && not (is_chosen v.sport_id))
      ∷ not (v.role == organization && not (is_chosen v.organization_id))
      ∷ []

  -- `raw ? Number(raw) : null`
  unfoldable pub number_or_null : Chosen → Option js.Num
  number_or_null missing = none
  number_or_null (number n) = if n == 0 then none else some (js.of_integer n)
  number_or_null (text t) = if is_empty t then none else some (js.number_of t)

  -- `resolveBindings`
  unfoldable pub resolve_bindings : UserRole → Chosen → Chosen → Option js.Num × Option js.Num
  unfolding number_or_null
  resolve_bindings federation sport org = (number_or_null sport, none)
  resolve_bindings organization sport org = (none, number_or_null org)
  resolve_bindings super_admin sport org = (none, none)
  resolve_bindings admin sport org = (none, none)
  resolve_bindings guest sport org = (none, none)

  -- `UserCreate`, and `UserUpdate` without its id, where no password is sent if it is `none`.
  pub record Dto : Type 0 where
    pub username : Text
    pub email : Text
    pub password : Option Text
    pub kh_family_name : Text
    pub kh_given_name : Text
    pub en_family_name : Text
    pub en_given_name : Text
    pub role : UserRole
    pub sport_id : Option js.Num
    pub organization_id : Option js.Num

  unfoldable pub form_data_to_create_dto : Values → Dto
  unfolding resolve_bindings
  form_data_to_create_dto v =
      let bound = resolve_bindings v.role v.sport_id v.organization_id in
      record {
        username = v.username;
        email = v.email;
        password = some (filled_or v.password (codes "password123"));
        kh_family_name = v.kh_family_name;
        kh_given_name = v.kh_given_name;
        en_family_name = v.en_family_name;
        en_given_name = v.en_given_name;
        role = v.role;
        sport_id = bound.0;
        organization_id = bound.1;
      }

  unfoldable pub form_data_to_update_dto : Values → Dto
  unfolding resolve_bindings
  form_data_to_update_dto v =
      let bound = resolve_bindings v.role v.sport_id v.organization_id in
      record {
        username = v.username;
        email = v.email;
        password = filled v.password;
        kh_family_name = v.kh_family_name;
        kh_given_name = v.kh_given_name;
        en_family_name = v.en_family_name;
        en_given_name = v.en_given_name;
        role = v.role;
        sport_id = bound.0;
        organization_id = bound.1;
      }
