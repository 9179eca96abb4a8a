-- ===== src/Registration/Deletion.antt =====
-- The deletion of a registration (hooks/useRegistrations.ts): the row disappears from every cached list
-- at once, and a rejected deletion puts the lists back. `matches` says which keys, as texts, are those
-- of lists of registrations; the cache is the query client's, whose cancelling and refetching are not
-- part of the model. The fields that the code does not read stand as one text.
pub mod Laws
use choschmous_v.Base.{
  ℕ, Bool, true, not, Option, none, some, List, [], ◌∷◌, if◌then◌else◌, ◌==◌, nat_eq, filter, Text,
  text_eq,
}
use choschmous_v.Base.Assoc.{get, put}

-- A row as the code reads it: `enroll_id` is none in a row without that field. The schema of the
-- list is strict and names the field `id`, so its rows have none.
pub record Row : Type 0 where
  pub enroll_id : Option ℕ
  pub fields : Text

-- What the cache holds for a query: nothing yet, a page of rows with its other fields, or another value.
pub data Cached : Type 0 where
  undefined : Cached
  page : Text → List Row → Cached
  other : Text → Cached

abbrev pub QueryCache : Type 0
QueryCache = List (Text × Cached)

-- `item.enroll_id !== enrollId`
abbrev pub is_kept : ℕ → Option ℕ → Bool
is_kept id none = true
is_kept id (some n) = not (n == id)

unfoldable pub without : ℕ → Cached → Cached
without id undefined = undefined
without id (page rest rows) = page rest (filter (λ r. is_kept id r.enroll_id) rows)
without id (other x) = other x

-- `queryClient.setQueryData`: `undefined` changes nothing.
unfoldable pub set_query_data : Text → Cached → QueryCache → QueryCache
unfolding put
set_query_data k undefined c = c
set_query_data k (page rest rows) c = put k (page rest rows) c
set_query_data k (other x) c = put k (other x) c

-- `onError`
unfoldable pub on_error : QueryCache → QueryCache → QueryCache
unfolding set_query_data
on_error [] c = c
on_error ((k, d) ∷ previous) c = on_error previous (set_query_data k d c)

module _ (matches : Text → Bool) where
  -- `queryClient.getQueriesData`
  unfoldable pub queries_data : QueryCache → QueryCache
  queries_data [] = []
  queries_data ((k, d) ∷ c) = let rest = queries_data c in if matches k then (k, d) ∷ rest else rest

  -- `queryClient.setQueriesData`
  unfoldable pub set_queries_data : (Cached → Cached) → QueryCache → QueryCache
  set_queries_data f [] = []
  set_queries_data f ((k, d) ∷ c) =
      let rest = set_queries_data f c in (k, if matches k then f d else d) ∷ rest

  -- `onMutate`: the new cache, and the data to put back.
  unfoldable pub on_mutate : ℕ → QueryCache → QueryCache × QueryCache
  unfolding queries_data set_queries_data without
  on_mutate id c = (set_queries_data (without id) c, queries_data c)
