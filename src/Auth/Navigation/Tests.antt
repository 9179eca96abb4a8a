-- ===== src/Auth/Navigation/Tests.antt =====
-- The menu of a federation's account.
use choschmous_v.Base.{◌≡◌, ◌⊎◌, true, some, All}
use choschmous_v.Auth.Role.{federation, guest}
use choschmous_v.Auth.Access.{to_unauthorized}
use choschmous_v.Auth.Navigation.{visible_sections, visit, role_default_route}
use choschmous_v.Auth.Navigation.Laws.{is_open, visible_sections-IsOpen}

visible_sections-IsOpen_example :
    All
      (All (λ i. is_open (visit (some federation) i.0) ≡ true))
      (visible_sections (some federation))
    × ((federation ≡ guest)
        ⊎ (is_open (visit (some federation) (role_default_route federation)) ≡ true))
    × (visit (some guest) (role_default_route guest) ≡ some to_unauthorized)
visible_sections-IsOpen_example = visible_sections-IsOpen federation
