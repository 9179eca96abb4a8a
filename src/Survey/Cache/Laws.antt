-- ===== src/Survey/Cache/Laws.antt =====
-- How long an answer is served.
use choschmous_v.Base.{
  ℕ, ◌+◌, ◌≤◌, ◌≡◌, refl, sym, ap, ◌∙◌, subst, false, Option, none, some, List, arith, ltb,
  if◌then◌else◌, nat_eq, Text, text_beq_iff, text_eq,
}
use choschmous_v.Base.Assoc.{get, put, remove, get-put}
use choschmous_v.Survey.Schema.{Stored, Server}
use choschmous_v.Survey.Cache.{
  cache_duration, Entry, Cache, get_cached, set_cached, W, store_answer, answer_from, cached_fetch,
}

get-put_same : (k : Text) (e : Entry) (m : Cache) → get k (put k e m) ≡ some e
get-put_same k e m = get-put k k e m ∙ rw ((text_beq_iff k k).1 refl) refl

pub by_entry :
    (key : Text) (now : ℕ) (cache : Cache) (e : Entry)
    → get key cache ≡ some e
    → get_cached key now cache ≡ (
        if ltb (e.timestamp + cache_duration) now
        then (none, remove key cache)
        else (some e.value, cache))
unfolding get_cached
by_entry key now cache e h = rw (h, get_cached) refl

-- What was stored at a time is found until five minutes later, and is deleted after that.
pub get_cached-set_cached :
    (key : Text) (value : Stored) (stored now : ℕ) (cache : Cache)
    → get_cached key now (set_cached key value stored cache) ≡ (
        if ltb (stored + cache_duration) now
        then (none, remove key (set_cached key value stored cache))
        else (some value, set_cached key value stored cache))
unfolding get_cached set_cached
get_cached-set_cached key value stored now cache =
    by_entry key now (put key (record { value = value; timestamp = stored }) cache)
      (record { value = value; timestamp = stored })
      (get-put_same key (record { value = value; timestamp = stored }) cache)

module _ (s : Server) {A : Type 0} (wrap : List A → Stored) (read : Stored → List A)
    (round_trip : (a : List A) → read (wrap a) ≡ a) where
  missed :
      (key : Text) (load : W s → Option (List A) × W s) (w : W s) (x : Option Stored × Cache)
      → x.0 ≡ none
      → answer_from s wrap read key load w x
        ≡ store_answer s wrap read key (load (record w { cache = x.1 }))
  missed key load w (none, c) h = refl
  missed key load w (some v, c) h = absurd (cc h)

  -- An answer that was fetched is served again, without asking the server, until five minutes after
  -- it was stored, whatever the server would answer then.
  pub cached_fetch_again :
      (key : Text) (load later_load : W s → Option (List A) × W s) (w v : W s) (a : List A)
      (net : s.Net)
      → (get_cached key (s.clock w.net) w.cache).0 ≡ none
      → load (record w { cache = (get_cached key (s.clock w.net) w.cache).1 }) ≡ (some a, v)
      → s.clock net ≤ s.clock v.net + cache_duration
      → ((cached_fetch s wrap read key load w).0 ≡ a)
        × (cached_fetch s wrap read key later_load
              (record (cached_fetch s wrap read key load w).1 { net = net })
            ≡ (a, record (cached_fetch s wrap read key load w).1 { net = net }))
  unfolding cached_fetch
  cached_fetch_again key load later_load w v a net miss loaded soon =
      let stored : W s = record v { cache = set_cached key (wrap a) (s.clock v.net) v.cache } in
      let first : cached_fetch s wrap read key load w ≡ (a, stored) =
        missed key load w (get_cached key (s.clock w.net) w.cache) miss
        ∙ ap (store_answer s wrap read key) loaded in
      let in_time : ltb (s.clock v.net + cache_duration) (s.clock net) ≡ false = ground arith in
      let hit : get_cached key (s.clock net) stored.cache ≡ (some (wrap a), stored.cache) =
        get_cached-set_cached key (wrap a) (s.clock v.net) (s.clock net) v.cache
        ∙ rw in_time refl in
      let again : cached_fetch s wrap read key later_load (record stored { net = net })
          ≡ (a, record stored { net = net }) =
        ap (answer_from s wrap read key later_load (record stored { net = net })) hit
        ∙ ap (λ x. (x, record stored { net = net })) (round_trip a) in
      subst
        (λ r.
          (r.0 ≡ a)
          × (cached_fetch s wrap read key later_load (record r.1 { net = net })
              ≡ (a, record r.1 { net = net })))
        (sym first) (refl, again)
