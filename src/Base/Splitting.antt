-- ===== src/Base/Splitting.antt =====
-- `split`, `join` and `trim` of JavaScript strings.
pub mod Laws
use choschmous_v.Base.{ℕ, List, [], ◌∷◌, ◌++◌, if◌then◌else◌, ◌==◌, nat_eq, Text, text_eq}

unfoldable pub push : ℕ → List Text → List Text
push c [] = (c ∷ []) ∷ []
push c (p ∷ ps) = (c ∷ p) ∷ ps

-- `s.split(d)` for a separator of one code unit.
unfoldable pub split : ℕ → Text → List Text
unfolding push
split d [] = [] ∷ []
split d (c ∷ s) = let rest = split d s in if c == d then [] ∷ rest else push c rest

-- `parts.join(d)`
unfoldable pub join : ℕ → List Text → Text
join d [] = []
join d (p ∷ []) = p
join d (p ∷ q ∷ ps) = p ++ d ∷ join d (q ∷ ps)
