-- ===== src/Trail/Tests.antt =====
-- Trails of an event, of a registration, and of the import, which has no section.
use choschmous_v.Base.{◌≡◌, refl, true, Option, some, List, [], ◌∷◌, map, Text, codes}
use choschmous_v.Base.Splitting.{split}
use choschmous_v.Auth.Role.{organization}
use choschmous_v.Trail.{
  DetailRoute, Names, Label, nav, name, Shown, segments, parse_detail_route, detail_name,
  section_key, extract_name, crumbs, render,
}

abbrev cached : DetailRoute → Option Names
cached d = some (record { kh = []; en = codes "Games" })

abbrev event_page : Text
event_page = codes "/events/12/edit"

abbrev labels : Text → List Label
labels path = map (λ (s : Shown). s.label) (render (crumbs cached true (some organization) path))

event_trail :
    labels event_page ≡ nav (codes "dashboard") ∷ nav (codes "events") ∷ name (codes "Games") ∷ []
unfolding render crumbs segments split parse_detail_route detail_name section_key extract_name
event_trail = refl

new_trail : labels (codes "/events/new") ≡ nav (codes "dashboard") ∷ nav (codes "events") ∷ []
unfolding render crumbs segments split parse_detail_route detail_name section_key
new_trail = refl

leader_trail :
    labels (codes "/participation/4")
    ≡ nav (codes "dashboard") ∷ nav (codes "leaderRegistration") ∷ []
unfolding render crumbs segments split parse_detail_route detail_name section_key
leader_trail = refl

-- The page of the import is taken for the dashboard.
import_trail : labels (codes "/import") ≡ nav (codes "dashboard") ∷ []
unfolding render crumbs segments split parse_detail_route detail_name section_key
import_trail = refl
