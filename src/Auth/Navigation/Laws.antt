-- ===== src/Auth/Navigation/Laws.antt =====
-- No link of the menu leads to a page that turns the user away.
use choschmous_v.Base.{
  ◌≡◌, refl, ◌⊎◌, inl, inr, Bool, true, false, ◌&&◌, Option, some, List, [], ◌∷◌, arith, nat_eq,
  All, text_eq,
}
use choschmous_v.Base.Assoc.{get}
use choschmous_v.Auth.Role.{UserRole, super_admin, admin, organization, federation, guest, role_eq}
use choschmous_v.Auth.Access.{feature_access, has_role, Route, stay, to_unauthorized, require_role}
use choschmous_v.Auth.Navigation.{
  MenuItem, menu_sections, visible_sections, page_guards, visit, role_default_route,
}

abbrev pub is_open : Option Route → Bool
is_open (some stay) = true
is_open _ = false

abbrev every {ℓ} : {A : Type ℓ} → (A → Bool) → List A → Bool
every p [] = true
every p (x ∷ xs) = p x && every p xs

every-All {ℓ} :
    {A : Type ℓ} (p : A → Bool) (xs : List A) → every p xs ≡ true → All (λ x. p x ≡ true) xs
every-All p [] h = tt
every-All p (x ∷ xs) h = (ground arith, every-All p xs (ground arith))

every-All_nested {ℓ} :
    {A : Type ℓ} (p : A → Bool) (xss : List (List A))
    → every (every p) xss ≡ true
    → All (All (λ x. p x ≡ true)) xss
every-All_nested p [] h = tt
every-All_nested p (xs ∷ xss) h =
    (every-All p xs (ground arith), every-All_nested p xss (ground arith))

-- Whether every link that a role sees is open to it.
abbrev open_to : UserRole → MenuItem → Bool
open_to r i = is_open (visit (some r) i.0)

-- Every link that the menu shows to a role leads to a page of the portal that lets that role stay. The
-- page after the login does so for every role but the guest's, who is turned away there.
pub visible_sections-IsOpen :
    (r : UserRole)
    → All (All (λ i. is_open (visit (some r) i.0) ≡ true)) (visible_sections (some r))
      × ((r ≡ guest) ⊎ (is_open (visit (some r) (role_default_route r)) ≡ true))
      × (visit (some guest) (role_default_route guest) ≡ some to_unauthorized)
unfolding visible_sections menu_sections feature_access visit page_guards get require_role has_role
    role_default_route
visible_sections-IsOpen super_admin = (
  every-All_nested (open_to super_admin) (visible_sections (some super_admin)) refl,
  inr refl,
  refl,
)
visible_sections-IsOpen admin =
    (every-All_nested (open_to admin) (visible_sections (some admin)) refl, inr refl, refl)
visible_sections-IsOpen organization = (
  every-All_nested (open_to organization) (visible_sections (some organization)) refl,
  inr refl,
  refl,
)
visible_sections-IsOpen federation = (
  every-All_nested (open_to federation) (visible_sections (some federation)) refl,
  inr refl,
  refl,
)
visible_sections-IsOpen guest = (tt, inl refl, refl)
