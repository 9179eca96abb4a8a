-- ===== src/Survey/Cache.antt =====
-- The cache of the reads, with five minutes to live (`getCached` and `setCached` of
-- survey/adapters/surveyHttpAdapter.ts; those of bynumberHttpAdapter.ts are the same).
pub mod Laws
pub mod Refinement
use choschmous_v.Base.{
  ℕ, ◌+◌, Option, none, some, List, [], ltb, if◌then◌else◌, nat_eq, Text, text_eq,
}
use choschmous_v.Base.Assoc.{get, put, remove}
use choschmous_v.Survey.Schema.{Stored, Body, Server}

abbrev pub cache_duration : ℕ
cache_duration = 300000

pub record Entry : Type 0 where
  pub value : Stored
  pub timestamp : ℕ

abbrev pub Cache : Type 0
Cache = List (Text × Entry)

-- The caches of both modules, and the bodies of the requests that were posted, the latest first.
pub record World (Net : Type 0) : Type 0 where
  pub net : Net
  pub cache : Cache
  pub bynumber_cache : Cache
  pub posted : List Body

-- `getCached`: an entry that is too old is deleted.
unfoldable pub get_cached : Text → (now : ℕ) → Cache → Option Stored × Cache
get_cached key now cache = elim (get key cache) [
  | none ↦ (none, cache)
  | some e ↦
      if ltb (e.timestamp + cache_duration) now
      then (none, remove key cache)
      else (some e.value, cache)
]

unfoldable pub set_cached : Text → Stored → (now : ℕ) → Cache → Cache
set_cached key value now cache = put key (record { value = value; timestamp = now }) cache

module _ (s : Server) where
  abbrev pub W : Type 0
  W = World s.Net

  module _ {A : Type 0} (wrap : List A → Stored) (read : Stored → List A) where
    abbrev pub store_answer : Text → Option (List A) × W → List A × W
    store_answer key (none, w) = ([], w)
    store_answer key (some a, w) =
        (a, record w { cache = set_cached key (wrap a) (s.clock w.net) w.cache })

    abbrev pub answer_from :
        Text → (W → Option (List A) × W) → W → Option Stored × Cache → List A × W
    answer_from key load w (some v, cache) = (read v, record w { cache = cache })
    answer_from key load w (none, cache) = store_answer key (load (record w { cache = cache }))

    -- The shape that the reads share: the cache, or else the server, whose answer is stored; a
    -- failure is an empty list and is not stored.
    unfoldable pub cached_fetch : Text → (W → Option (List A) × W) → W → List A × W
    cached_fetch key load w = answer_from key load w (get_cached key (s.clock w.net) w.cache)
