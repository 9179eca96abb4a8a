-- ===== src/Survey/Reads/Laws.antt =====
-- Which sports of an event are offered.
use choschmous_v.Base.{
  ℕ, ◌≡◌, ap, inl, inr, false, some, List, [], ◌∷◌, Bool-cases, Option-cases, ◌==◌, nat_eq, All,
  Any, Text, text_beq_iff, text_eq,
}
use choschmous_v.Survey.Schema.{SportEntry, SportsEvent}
use choschmous_v.Survey.Reads.{find_sport, matched, match_sports}

-- A listed sport has the name and the id.
abbrev pub IsListed : List SportEntry → Text → ℕ → Type 0
IsListed all name id = Any (λ e. (e.name_kh ≡ name) × (e.id ≡ id)) all

found :
    (name : Text) (all : List SportEntry) (s : SportEntry)
    → find_sport (some name) all ≡ some s
    → IsListed all name s.id
found name [] s h = absurd (cc h)
found name (e ∷ all) s h = elim (Bool-cases (e.name_kh == name)) [
  | inl b ↦ inl ((text_beq_iff e.name_kh name).0 b, ap (λ x. x.id) (the (rw b at h)))
  | inr b ↦ inr (found name all s (rw b at h))
]
  where
    the : {x y : SportEntry} → some x ≡ some y → x ≡ y
    the k = cc k

matched-IsListed :
    (all : List SportEntry) (raw : SportsEvent)
    → ((matched all raw).sports_id == 0) ≡ false
    → IsListed all (matched all raw).name_kh (matched all raw).sports_id
matched-IsListed all raw h = elim (Option-cases raw.sport_name) [
  | inl none_named ↦ absurd (cc (rw none_named at h))
  | inr (name, named) ↦ elim (Option-cases (find_sport (some name) all)) [
    | inl missing ↦ absurd (cc (rw (named, missing, matched) at h))
    | inr (s, is_s) ↦ rw (named, is_s, matched) (found name all s is_s)
  ]
]

-- Every sport that is offered for an event stands in the list of all sports, with its name and the id
-- that it is submitted under, and that id is not 0.
pub match_sports-IsListed :
    (all : List SportEntry) (raw : List SportsEvent)
    → All
        (λ s. IsListed all s.name_kh s.sports_id × ((s.sports_id == 0) ≡ false))
        (match_sports all raw)
unfolding match_sports
match_sports-IsListed all [] = tt
match_sports-IsListed all (r ∷ raw) = elim (Bool-cases ((matched all r).sports_id == 0)) [
  | inl b ↦ rw b (match_sports-IsListed all raw)
  | inr b ↦ rw b ((matched-IsListed all r b, b), match_sports-IsListed all raw)
]
