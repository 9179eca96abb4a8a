-- ===== src/Trail.antt =====
-- The trail of crumbs above a page (frontend/src/shared/layout/TopBar.tsx). The names that a page of
-- details has put into the query cache are a parameter, in place of the key under which they stand, and
-- so are the translations: a crumb has the key of its label, or a name.
mod Tests
use choschmous_v.Base.Splitting.{split}
use choschmous_v.Base.Padding.{pad_start}
use choschmous_v.Base.{
  ℕ, Bool, true, false, not, ◌&&◌, ◌||◌, Option, none, some, List, [], ◌∷◌, ◌++◌, leb,
  if◌then◌else◌, ◌==◌, nat_eq, filter, includes, Text, codes, text_eq, is_empty, starts_with,
}
use choschmous_v.Auth.Role.{UserRole, organization}

-- `SECTION_LABELS`
abbrev pub section_labels : List (Text × Text)
section_labels =
    (codes "/dashboard", codes "dashboard")
    ∷ (codes "/events", codes "events")
    ∷ (codes "/sports", codes "sports")
    ∷ (codes "/organizations", codes "organizations")
    ∷ (codes "/users", codes "users")
    ∷ (codes "/register", codes "athleteRegistration")
    ∷ (codes "/leader-registration", codes "leaderRegistration")
    ∷ (codes "/organizer-registration", codes "organizerRegistration")
    ∷ (codes "/organizer-roles", codes "organizerRoles")
    ∷ (codes "/by-sport", codes "bysport")
    ∷ (codes "/by-number", codes "bynumber")
    ∷ (codes "/by-category", codes "bycategory")
    ∷ (codes "/open-survey", codes "openSurvey")
    ∷ (codes "/participation", codes "submissions")
    ∷ (codes "/sport-submissions", codes "sportSubmissions")
    ∷ (codes "/category-submissions", codes "categorySubmissions")
    ∷ (codes "/registrations", codes "registrations")
    ∷ (codes "/reports", codes "reports")
    ∷ (codes "/cards", codes "cards")
    ∷ []

abbrev pub detail_bases : List Text
detail_bases =
    codes "/events" ∷ codes "/sports" ∷ codes "/organizations" ∷ codes "/registrations" ∷ []

pub record DetailRoute : Type 0 where
  pub base : Text
  pub id : Text

abbrev pub slash : ℕ
slash = 47

-- `pathname.split("/").filter(Boolean)`
unfoldable pub segments : Text → List Text
unfolding split
segments path = filter (λ s. not (is_empty s)) (split slash path)

abbrev pub is_digit : ℕ → Bool
is_digit c = leb 48 c && leb c 57

abbrev pub all_digits : Text → Bool
all_digits [] = true
all_digits (c ∷ s) = is_digit c && all_digits s

-- `/^\d+$/.test(s)`
abbrev pub is_number : Text → Bool
is_number s = not (is_empty s) && all_digits s

-- `parseDetailRoute`, on the segments of the path.
unfoldable pub parse_detail_route : List Text → Option DetailRoute
parse_detail_route [] = none
parse_detail_route (a ∷ []) = none
parse_detail_route (a ∷ b ∷ rest) =
    if not (includes detail_bases (slash ∷ a))
    then none
    else if not (is_number b)
    then none
    else some (record { base = slash ∷ a; id = b })

-- The two names of a cached record, the empty text for one that is not a text.
pub record Names : Type 0 where
  pub kh : Text
  pub en : Text

abbrev pub or_text : Text → Text → Text
or_text [] t = t
or_text (c ∷ s) t = c ∷ s

abbrev pub text_or_null : Text → Option Text
text_or_null [] = none
text_or_null (c ∷ s) = some (c ∷ s)

abbrev pub pick_name : (locale_is_kh : Bool) → Names → Text
pick_name locale_is_kh n = if locale_is_kh then or_text n.kh n.en else or_text n.en n.kh

unfoldable pub extract_name : Option Names → (locale_is_kh : Bool) → Option Text
extract_name none locale_is_kh = none
extract_name (some n) locale_is_kh = text_or_null (pick_name locale_is_kh n)

pub data Label : Type 0 where
  nav : Text → Label
  name : Text → Label

pub record Crumb : Type 0 where
  pub label : Label
  pub href : Option Text

-- `segments[0]`, as it is written in a text.
abbrev pub first_segment : List Text → Text
first_segment [] = codes "undefined"
first_segment (a ∷ rest) = a

abbrev pub find_section : Text → List (Text × Text) → Option Text
find_section top [] = none
find_section top (item ∷ items) =
    let rest = find_section top items in
    if top == item.0 || starts_with top (item.0 ++ slash ∷ []) then some item.1 else rest

abbrev pub is_organization : Option UserRole → Bool
is_organization (some organization) = true
is_organization _ = false

-- The key of the section's label.
unfoldable pub section_key : Option UserRole → Text → Option Text
section_key role top =
    let found = find_section top section_labels in
    if top == codes "/participation" && is_organization role
    then some (codes "leaderRegistration")
    else found

-- The crumbs below the one of the dashboard.
abbrev pub section_crumbs : Text → Option Text → Option Text → List Crumb
section_crumbs top none detail_name = []
section_crumbs top (some key) none = record { label = nav key; href = none } ∷ []
section_crumbs top (some key) (some n) = record { label = nav key; href = some top } ∷ []

abbrev pub name_crumbs : Option Text → List Crumb
name_crumbs none = []
name_crumbs (some n) = record { label = name n; href = none } ∷ []

abbrev pub dashboard_crumb : Option Text → Crumb
dashboard_crumb href = record { label = nav (codes "dashboard"); href = href }

abbrev pub on_dashboard : Text → Bool
on_dashboard path = path == codes "/dashboard" || path == codes "/"

module _ (cached : DetailRoute → Option Names) (locale_is_kh : Bool) where
  unfoldable pub detail_name : Option DetailRoute → Option Text
  detail_name none = none
  detail_name (some d) =
      if d.base == codes "/registrations"
      then some (codes "REG-" ++ pad_start 6 d.id)
      else extract_name (cached d) locale_is_kh

  unfoldable pub crumbs : Option UserRole → Text → List Crumb
  crumbs role path =
      if on_dashboard path
      then dashboard_crumb none ∷ []
      else (let parts = segments path in
          let n = detail_name (parse_detail_route parts) in
          let top : Text = slash ∷ first_segment parts in
          dashboard_crumb (some (codes "/dashboard")) ∷ section_crumbs top (section_key role top) n
          ++ name_crumbs n)

-- What is rendered: the last crumb is never a link.
pub record Shown : Type 0 where
  pub label : Label
  pub link : Option Text

unfoldable pub render : List Crumb → List Shown
render [] = []
render (c ∷ []) = record { label = c.label; link = none } ∷ []
render (c ∷ d ∷ cs) = record { label = c.label; link = c.href } ∷ render (d ∷ cs)
