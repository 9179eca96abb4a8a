-- ===== src/OpenSurvey/Reorder.antt =====
-- Moving a field up or down (`handleMove` of components/OpenSurveyFieldBuilder.tsx), and the order of
-- a new field. The server's fields are a parameter, with the order in which it lists them.
pub mod Moved
pub mod Updates
pub mod Laws
mod Tests
use choschmous_v.Base.{
  ℕ, zero, suc, ◌≡◌, Bool, true, false, not, ◌&&◌, ◌||◌, Option, none, some, List, [], ◌∷◌, map,
  ltb, if◌then◌else◌, ◌==◌, nat_eq, length, filter, includes, text_eq,
}
use choschmous_v.Base.Sorting.{sort}
use choschmous_v.OpenSurvey.Builder.{FieldDef}

-- `OpenSurveyFieldReorderItem`
pub record ReorderItem : Type 0 where
  pub field_id : ℕ
  pub sort_order : ℕ

-- The direction of a move: -1 and 1.
pub data Direction : Type 0 where
  up : Direction
  down : Direction

-- `index + direction`, unless it is out of range.
unfoldable pub target : Direction → ℕ → ℕ → Option ℕ
target up zero count = none
target up (suc index) count = if ltb index count then some index else none
target down index count = if ltb (suc index) count then some (suc index) else none

module _ {ℓ} {A : Type ℓ} where
  -- `xs[i]`
  unfoldable pub get_elem? : List A → ℕ → Option A
  get_elem? [] i = none
  get_elem? (x ∷ xs) zero = some x
  get_elem? (x ∷ xs) (suc i) = get_elem? xs i

  -- `xs[i] = a` of an index in range.
  unfoldable pub set : List A → ℕ → A → List A
  set [] i a = []
  set (x ∷ xs) zero a = a ∷ xs
  set (x ∷ xs) (suc i) a = x ∷ set xs i a

  abbrev pub set_both : List A → ℕ → ℕ → Option A → Option A → List A
  set_both xs i j (some x) (some y) = set (set xs i y) j x
  set_both xs i j _ _ = xs

  -- `[xs[i], xs[j]] = [xs[j], xs[i]]` of indices in range.
  unfoldable pub exchange : ℕ → ℕ → List A → List A
  exchange i j xs = set_both xs i j (get_elem? xs i) (get_elem? xs j)

-- `.map((field, i) => ({ fieldId: field.id, sortOrder: i }))`, from `n` on.
unfoldable pub numbered : ℕ → List FieldDef → List ReorderItem
numbered n [] = []
numbered n (f ∷ fs) = record { field_id = f.id; sort_order = n } ∷ numbered (suc n) fs

-- `fields.find((field) => field.id === id)`
unfoldable pub find_field : ℕ → List FieldDef → Option FieldDef
find_field id [] = none
find_field id (f ∷ fs) = let rest = find_field id fs in if f.id == id then some f else rest

abbrev pub differs : Option FieldDef → ReorderItem → Bool
differs none item = false
differs (some original) item = not (original.sort_order == item.sort_order)

abbrev pub is_changed : List FieldDef → ReorderItem → Bool
is_changed fields item = differs (find_field item.field_id fields) item

abbrev pub changed_items : ℕ → List FieldDef → Option ℕ → List ReorderItem
changed_items index fields none = []
changed_items index fields (some t) =
    filter (is_changed fields) (numbered 0 (exchange index t fields))

-- `handleMove`: what is sent, where nothing is sent if there is no item.
unfoldable pub handle_move : ℕ → Direction → List FieldDef → List ReorderItem
handle_move index d fields = changed_items index fields (target d index (length fields))

-- `Math.max(...orders)` of at least one.
abbrev pub greatest : ℕ → List FieldDef → ℕ
greatest n [] = n
greatest n (f ∷ fs) = greatest (if ltb n f.sort_order then f.sort_order else n) fs

unfoldable pub next_sort_order : List FieldDef → ℕ
next_sort_order [] = 0
next_sort_order (f ∷ fs) = suc (greatest f.sort_order fs)

-- The server's order of fields: by their sort order, and by their id.
abbrev pub before : FieldDef → FieldDef → Bool
before a b = ltb a.sort_order b.sort_order || (a.sort_order == b.sort_order && ltb a.id b.id)

-- A field after the updates that are sent together, one of a field at most.
unfoldable pub updated : List ReorderItem → FieldDef → FieldDef
updated [] f = f
updated (item ∷ items) f =
    let rest = updated items f in
    if item.field_id == f.id then record f { sort_order = item.sort_order } else rest

abbrev pub distinct : List ℕ → Bool
distinct [] = true
distinct (x ∷ xs) = not (includes xs x) && distinct xs

-- The server's fields of an event: its list is ordered, and updates that are sent together, of
-- different fields, change their fields and nothing else.
pub record FieldStore : Type 1 where
  pub Store : Type 0
  pub list_fields : Store → List FieldDef
  pub reorder_fields : List ReorderItem → Store → Store
  pub list_ordered : (s : Store) → sort before (list_fields s) ≡ list_fields s
  pub list_reordered :
      (items : List ReorderItem) (s : Store)
      → distinct (map (λ i. i.field_id) items) ≡ true
      → list_fields (reorder_fields items s) ≡ sort before (map (updated items) (list_fields s))

module _ (server : FieldStore) where
  abbrev pub send : List ReorderItem → server.Store → server.Store
  send [] s = s
  send (item ∷ items) s = server.reorder_fields (item ∷ items) s

  -- A move, and a sequence of moves, each on the list that is read after the one before.
  unfoldable pub move : ℕ × Direction → server.Store → server.Store
  unfolding handle_move
  move (index, d) s = send (handle_move index d (server.list_fields s)) s

  unfoldable pub move_all : List (ℕ × Direction) → server.Store → server.Store
  unfolding move
  move_all [] s = s
  move_all (m ∷ ms) s = move_all ms (move m s)
