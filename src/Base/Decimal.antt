-- ===== src/Base/Decimal.antt =====
-- `String(n)` for a natural number: its decimal digits.
use choschmous_v.Base.{
  ◌≤◌, ℕ, zero, suc, ◌+◌, ◌-◌, ◌*◌, ◌/◌, ◌%◌, ◌<◌, ◌≡◌, refl, ap, sym, ◌∙◌, [], ◌∷◌, ◌++◌, Text,
  codes, ltb, if◌then◌else◌, Bool-cases, inl, inr, arith,
}

abbrev digit : ℕ → ℕ
digit d = 48 + d

show_from : ℕ → ℕ → Text
show_from zero n = []
show_from (suc f) n =
    let rest = show_from f (n / 10) in
    if ltb n 10 then digit n ∷ [] else rest ++ digit (n % 10) ∷ []

-- A number below 10 ^ k has at most k digits, so n + 1 rounds are enough.
unfoldable pub show : ℕ → Text
unfolding show_from
show n = show_from (suc n) n

read_from : ℕ → Text → ℕ
read_from acc [] = acc
read_from acc (c ∷ s) = read_from (acc * 10 + (c - 48)) s

read_from-append : (acc : ℕ) (s t : Text) → read_from acc (s ++ t) ≡ read_from (read_from acc s) t
unfolding read_from
read_from-append acc [] t = refl
read_from-append acc (c ∷ s) t = read_from-append (acc * 10 + (c - 48)) s t

read_from-show_from : (f n : ℕ) → n < f → read_from 0 (show_from f n) ≡ n
unfolding show_from read_from
read_from-show_from zero n h = absurd (omega arith)
read_from-show_from (suc f) n h = elim (Bool-cases (ltb n 10)) [
  | inl b ↦ rw b (ground arith)
  | inr b ↦ rw (b, read_from-append) (ground (arith, read_from-show_from f (n / 10)))
]

-- Different numbers have different decimal texts.
pub show-injective : (m n : ℕ) → show m ≡ show n → m ≡ n
unfolding show
show-injective m n e =
    sym (read_from-show_from (suc m) m (omega arith))
    ∙ ap (read_from 0) e
    ∙ read_from-show_from (suc n) n (omega arith)

-- The text of a number begins with a digit.
abbrev pub StartsWithDigit : Text → Type 0
StartsWithDigit [] = ⊥
StartsWithDigit (c ∷ s) = (48 ≤ c) × (c ≤ 57)

StartsWithDigit-append : (s t : Text) → StartsWithDigit s → StartsWithDigit (s ++ t)
StartsWithDigit-append [] t h = absurd h
StartsWithDigit-append (c ∷ s) t h = h

show_from-StartsWithDigit : (f n : ℕ) → StartsWithDigit (show_from (suc f) n)
unfolding show_from
show_from-StartsWithDigit zero n = elim (Bool-cases (ltb n 10)) [
  | inl b ↦ rw b (ground arith)
  | inr b ↦ rw b (omega arith)
]
show_from-StartsWithDigit (suc f) n = elim (Bool-cases (ltb n 10)) [
  | inl b ↦ rw b (ground arith)
  | inr b ↦ rw b (
      StartsWithDigit-append (show_from (suc f) (n / 10)) (digit (n % 10) ∷ [])
        (show_from-StartsWithDigit f (n / 10)))
]

pub show-StartsWithDigit : (n : ℕ) → StartsWithDigit (show n)
unfolding show
show-StartsWithDigit n = show_from-StartsWithDigit n n

show_test : show 1207 ≡ codes "1207"
unfolding show
show_test = refl

-- `Number(s)` of a decimal text.
unfoldable pub read : Text → ℕ
unfolding read_from
read s = read_from 0 s

pub read-show : (n : ℕ) → read (show n) ≡ n
unfolding show read
read-show n = read_from-show_from (suc n) n (omega arith)
