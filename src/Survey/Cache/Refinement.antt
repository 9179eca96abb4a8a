-- ===== src/Survey/Cache/Refinement.antt =====
-- What a client of the cache can observe: the latest entry of a key, as long as it is not too old.
use choschmous_v.Base.{
  ℕ, ◌+◌, ◌≡◌, refl, sym, ap, ◌∙◌, ◌⊎◌, inl, inr, Bool, true, Option, none, some, List, [], ◌∷◌,
  arith, ltb, if◌then◌else◌, Bool-cases, Option-cases, ◌==◌, nat_eq, Text, text_beq_iff, text_eq,
}
use choschmous_v.Base.Assoc.{get, remove, get-put, get-remove}
use choschmous_v.Survey.Schema.{Stored}
use choschmous_v.Survey.Cache.{cache_duration, Entry, Cache, get_cached, set_cached}
use choschmous_v.Survey.Cache.Laws.{by_entry}

-- A call of `getCached` or of `setCached`.
pub data Op : Type 0 where
  lookup : Text → Op
  store : Text → Stored → Op

-- The answers to calls, each with the time that passed since the one before, and the cache at the end.
unfoldable pub run : List (ℕ × Op) → (now : ℕ) → Cache → List (Option Stored) × Cache
run [] now c = ([], c)
run ((t, lookup k) ∷ ops) now c =
    let (a, d) = get_cached k (now + t) c in
    let (answers, e) = run ops (now + t) d in (a ∷ answers, e)
run ((t, store k v) ∷ ops) now c = run ops (now + t) (set_cached k v (now + t) c)

-- A memory that forgets nothing.
abbrev pub Memory : Type 0
Memory = Text → Option Entry

abbrev pub update : Memory → Text → Entry → Memory
update m k e j = if k == j then some e else m j

-- `e` was stored more than five minutes ago.
abbrev pub is_old : ℕ → Entry → Bool
is_old now e = ltb (e.timestamp + cache_duration) now

abbrev pub fresh : ℕ → Option Entry → Option Stored
fresh now none = none
fresh now (some e) = if is_old now e then none else some e.value

-- The same calls, on a memory.
unfoldable pub replay : List (ℕ × Op) → (now : ℕ) → Memory → List (Option Stored)
replay [] now m = []
replay ((t, lookup k) ∷ ops) now m = fresh (now + t) (m k) ∷ replay ops (now + t) m
replay ((t, store k v) ∷ ops) now m =
    replay ops (now + t) (update m k (record { value = v; timestamp = now + t }))

-- What the cache has of a key: the memory's entry, or nothing where that is too old.
IsKept : ℕ → Option Entry → Option Entry → Type 0
IsKept now x y = (x ≡ y) ⊎ ((x ≡ none) × ((e : Entry) × (y ≡ some e) × (is_old now e ≡ true)))

Agrees : ℕ → Cache → Memory → Type 0
Agrees now c m = (k : Text) → IsKept now (get k c) (m k)

stays-IsKept : (now t : ℕ) (x y : Option Entry) → IsKept now x y → IsKept (now + t) x y
unfolding IsKept
stays-IsKept now t x y (inl p) = inl p
stays-IsKept now t x y (inr (p, (e, q, h))) = inr (p, (e, q, ground arith))

get_cached-none : (k : Text) (now : ℕ) (c : Cache) → get k c ≡ none → get_cached k now c ≡ (none, c)
unfolding get_cached
get_cached-none k now c h = rw (h, get_cached) refl

Agrees_at :
    (k : Text) (now : ℕ) (c : Cache) (m : Memory) → Agrees now c m → IsKept now (get k c) (m k)
unfolding Agrees
Agrees_at k now c m h = h k

-- A key that the cache does not have is not answered by the memory.
kept_none : (now : ℕ) (x y : Option Entry) → IsKept now x y → x ≡ none → none ≡ fresh now y
unfolding IsKept
kept_none now x y (inl p) q = ap (fresh now) (sym q ∙ p)
kept_none now x y (inr (p, (e, r, h))) q = rw (r, h) refl

kept_some : (now : ℕ) (x y : Option Entry) (e : Entry) → IsKept now x y → x ≡ some e → y ≡ some e
unfolding IsKept
kept_some now x y e (inl p) q = sym p ∙ q
kept_some now x y e (inr (p, _)) q = absurd (cc (p, q))

removed_old :
    (k : Text) (now : ℕ) (c : Cache) (m : Memory) (e : Entry)
    → Agrees now c m
    → m k ≡ some e
    → is_old now e ≡ true
    → Agrees now (remove k c) m
unfolding IsKept Agrees
removed_old k now c m e h p old j = rw (get-remove k j c) (elim (Bool-cases (k == j)) [
  | inl b ↦ rw b (inr (refl, (e, ap m (sym ((text_beq_iff k j).0 b)) ∙ p, old)))
  | inr b ↦ rw b (h j)
])

looked_up :
    (k : Text) (now : ℕ) (c : Cache) (m : Memory)
    → Agrees now c m
    → ((get_cached k now c).0 ≡ fresh now (m k)) × Agrees now (get_cached k now c).1 m
looked_up k now c m h = elim (Option-cases (get k c)) [
  | inl p ↦
      rw (get_cached-none k now c p) (kept_none now (get k c) (m k) (Agrees_at k now c m h) p, h)
  | inr (e, p) ↦
      let q = kept_some now (get k c) (m k) e (Agrees_at k now c m h) p in
      rw (by_entry k now c e p, q)
        (elim (Bool-cases (is_old now e)) [
          | inl old ↦ rw old (refl, removed_old k now c m e h q old)
          | inr young ↦ rw young (refl, h)
        ])
]

stored :
    (k : Text) (v : Stored) (now : ℕ) (c : Cache) (m : Memory)
    → Agrees now c m
    → Agrees now (set_cached k v now c) (update m k (record { value = v; timestamp = now }))
unfolding IsKept Agrees set_cached
stored k v now c m h j =
    rw (get-put k j (record { value = v; timestamp = now }) c)
      (elim (Bool-cases (k == j)) [ inl b ↦ rw b (inl refl) | inr b ↦ rw b (h j) ])

later : (now t : ℕ) (c : Cache) (m : Memory) → Agrees now c m → Agrees (now + t) c m
unfolding Agrees
later now t c m h k = stays-IsKept now t (get k c) (m k) (h k)

run-replay :
    (ops : List (ℕ × Op)) (now : ℕ) (c : Cache) (m : Memory)
    → Agrees now c m
    → (run ops now c).0 ≡ replay ops now m
unfolding run replay
run-replay [] now c m h = refl
run-replay ((t, lookup k) ∷ ops) now c m h =
    let (p, q) = looked_up k (now + t) c m (later now t c m h) in
    rw (p, run-replay ops (now + t) (get_cached k (now + t) c).1 m q) refl
run-replay ((t, store k v) ∷ ops) now c m h =
    run-replay ops (now + t) (set_cached k v (now + t) c)
      (update m k (record { value = v; timestamp = now + t }))
      (stored k v (now + t) c m (later now t c m h))

-- Over any calls of `getCached` and `setCached`, the cache of a module, which deletes an entry when it
-- is read too late, answers what a memory answers that forgets nothing and gives out the latest entry
-- of a key unless it was stored more than five minutes before: deleting is not observable. The clock
-- does not go back.
pub run_refines : (ops : List (ℕ × Op)) (now : ℕ) → (run ops now []).0 ≡ replay ops now (λ k. none)
unfolding Agrees IsKept get
run_refines ops now = run-replay ops now [] (λ k. none) (λ k. inl refl)
