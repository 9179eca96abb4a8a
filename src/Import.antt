-- ===== src/Import.antt =====
-- The import of participants from a file (frontend/src/modules/import/components/ImportPage.tsx): the
-- choice of the event, the sport and the category, the file, and the two requests. What is offered in
-- the selects, and what the server answers, are parameters. A file
-- stands as a text, and so does a report, which the page only shows.
pub mod Laws
mod Tests
use choschmous_v.Base.Decimal.{show}
use choschmous_v.Base.{
  ℕ, Bool, true, false, not, ◌&&◌, Option, none, some, List, [], ◌∷◌, ◌++◌, if◌then◌else◌, nat_eq,
  is_some, includes, Text, codes, text_eq,
}

-- `ImportContext`
pub record Context : Type 0 where
  pub event_id : ℕ
  pub organization_id : Option ℕ
  pub sport_id : ℕ
  pub category_id : ℕ
  pub force : Bool

pub data RequestKind : Type 0 where
  validate : RequestKind
  commit : RequestKind

-- The ids that the selects list; the categories are those of an event and a sport.
pub record Offers : Type 0 where
  pub events : List ℕ
  pub organizations : List ℕ
  pub sports : List ℕ
  pub categories : (event_id sport_id : ℕ) → List ℕ

abbrev pub organization_field : Option ℕ → List (Text × Text)
organization_field none = []
organization_field (some n) = (codes "organizationId", show n) ∷ []

-- `toFormData`: the fields of the request, the file's content as its text.
unfoldable pub to_form_data : Text → Context → List (Text × Text)
to_form_data file c =
    (codes "file", file) ∷ (codes "eventId", show c.event_id) ∷ organization_field c.organization_id
    ++ (codes "sportId", show c.sport_id)
      ∷ (codes "categoryId", show c.category_id)
      ∷ (codes "force", if c.force then codes "true" else codes "false")
      ∷ []

-- A request that was sent: its kind, its file and its context.
abbrev pub Request : Type 0
Request = RequestKind × Text × Context

pub record State : Type 0 where
  pub event_id : Option ℕ
  pub organization_id : Option ℕ
  pub sport_id : Option ℕ
  pub category_id : Option ℕ
  pub force : Bool
  pub file : Option Text
  pub report : Option Text
  pub is_busy : Bool
  pub sent : List Request

abbrev pub initial : State
initial = record {
  event_id = none;
  organization_id = none;
  sport_id = none;
  category_id = none;
  force = false;
  file = none;
  report = none;
  is_busy = false;
  sent = [];
}

abbrev pub context_of : (event sport category organization : Option ℕ) → Bool → Option Context
context_of (some e) (some sp) (some c) organization force = some (record {
  event_id = e;
  organization_id = organization;
  sport_id = sp;
  category_id = c;
  force = force;
})
context_of _ _ _ organization force = none

-- `ctx()`, if `ctxReady`.
unfoldable pub context : State → Option Context
context s = context_of s.event_id s.sport_id s.category_id s.organization_id s.force

abbrev pub requested : RequestKind → Option Text → Option Context → State → State
requested kind none c s = s
requested kind (some f) none s = s
requested kind (some f) (some c) s = record s { is_busy = true; sent = (kind, f, c) ∷ s.sent }

-- `runValidate` and `runImport`
unfoldable pub run_request : RequestKind → State → State
unfolding context
run_request kind s = requested kind s.file (context s) s

-- What the user does, and the answer to the request that is pending: a report, or a failure.
pub data Event : Type 0 where
  choose_event choose_organization choose_sport choose_category : ℕ → Event
  set_force : Bool → Event
  choose_file : Option Text → Event
  press : RequestKind → Event
  answered : Option Text → Event

abbrev pub is_chosen : Option ℕ → Bool
is_chosen o = is_some o

abbrev pub offered_categories : Offers → Option ℕ → Option ℕ → List ℕ
offered_categories o (some e) (some s) = o.categories e s
offered_categories o _ _ = []

-- The controls that are not disabled, and the options that they list.
unfoldable pub is_enabled : Offers → State → Event → Bool
unfolding context
is_enabled o s (choose_event e) = includes o.events e
is_enabled o s (choose_organization n) = includes o.organizations n
is_enabled o s (choose_sport n) = is_chosen s.event_id && includes o.sports n
is_enabled o s (choose_category c) =
    is_chosen s.sport_id && includes (offered_categories o s.event_id s.sport_id) c
is_enabled o s (set_force b) = true
is_enabled o s (choose_file f) = true
is_enabled o s (press kind) = is_some (context s) && is_some s.file && not s.is_busy
is_enabled o s (answered r) = s.is_busy

unfoldable pub handle : Event → State → State
unfolding run_request
handle (choose_event e) s = record s { event_id = some e; sport_id = none; category_id = none }
handle (choose_organization n) s = record s { organization_id = some n }
handle (choose_sport n) s = record s { sport_id = some n; category_id = none }
handle (choose_category c) s = record s { category_id = some c }
handle (set_force b) s = record s { force = b }
handle (choose_file f) s = record s { file = f; report = none }
handle (press kind) s = run_request kind s
handle (answered none) s = record s { is_busy = false }
handle (answered (some r)) s = record s { is_busy = false; report = some r }

-- The page after events, of which those that are not possible do nothing.
unfoldable pub run : Offers → List Event → State → State
unfolding is_enabled handle
run o [] s = s
run o (e ∷ es) s = run o es (if is_enabled o s e then handle e s else s)
