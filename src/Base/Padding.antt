-- ===== src/Base/Padding.antt =====
-- `s.padStart(width, "0")`.
use choschmous_v.Base.{ℕ, zero, suc, ◌-◌, [], ◌∷◌, ◌++◌, nat_eq, length, Text, text_eq}

-- `"0".repeat(n)`
unfoldable pub zeros : ℕ → Text
zeros zero = []
zeros (suc n) = b'0' ∷ zeros n

unfoldable pub pad_start : ℕ → Text → Text
unfolding zeros
pad_start width s = zeros (width - length s) ++ s
