-- ===== src/Proxy.antt =====
-- The check ahead of a page (frontend/src/proxy.ts), which looks at the session's cookie only.
pub mod Laws
mod Tests
use choschmous_v.Base.{
  Bool, false, not, ◌&&◌, Option, none, some, List, [], ◌∷◌, if◌then◌else◌, any, Text, codes,
  is_empty, starts_with,
}

-- `PORTAL_ROUTES`
abbrev pub portal_routes : List Text
portal_routes =
    codes "/dashboard"
    ∷ codes "/events"
    ∷ codes "/sports"
    ∷ codes "/organizations"
    ∷ codes "/users"
    ∷ codes "/cards"
    ∷ codes "/reports"
    ∷ codes "/participation"
    ∷ codes "/register"
    ∷ codes "/by-number"
    ∷ codes "/by-category"
    ∷ codes "/by-sport"
    ∷ codes "/leader-registration"
    ∷ codes "/registrations"
    ∷ []

abbrev pub login_path : Text
login_path = codes "/login"

abbrev pub dashboard_path : Text
dashboard_path = codes "/dashboard"

-- What becomes of a request: it goes on, or is redirected.
pub data Reply : Type 0 where
  next : Reply
  to_login : (return_url : Text) → Reply
  to_dashboard : Reply

unfoldable pub is_portal_route : Text → Bool
is_portal_route pathname = any (λ route. starts_with pathname route) portal_routes

unfoldable pub is_auth_route : Text → Bool
is_auth_route pathname = starts_with pathname login_path

-- A missing cookie and an empty one are no token.
abbrev pub has_token : Option Text → Bool
has_token none = false
has_token (some token) = not (is_empty token)

unfoldable pub proxy : (pathname : Text) → (token : Option Text) → Reply
proxy pathname token =
    if is_portal_route pathname && not (has_token token)
    then to_login pathname
    else if is_auth_route pathname && has_token token
    then to_dashboard
    else next

-- The path that a reply leads to.
abbrev pub target : Text → Reply → Text
target pathname next = pathname
target pathname (to_login return_url) = login_path
target pathname to_dashboard = dashboard_path
