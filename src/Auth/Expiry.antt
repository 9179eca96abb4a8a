-- ===== src/Auth/Expiry.antt =====
-- The access-token expiry hint (core/auth/tokenExpiry.ts). Numbers are counted in thousandths, so
-- that `Date.now() / 1000` and a fractional number are exact.
pub mod Laws
use choschmous_v.Base.{ℕ, ◌+◌, ◌*◌, ◌/◌, Bool, false, ◌&&◌, Option, none, some, leb, if◌then◌else◌}

-- What the backend reports as `access_token_expires_at`.
pub data Reported : Type 0 where
  absent : Reported
  not_finite : Reported
  finite : (thousandths : ℕ) → Reported

-- A stored text, as `Number` reads it.
pub data Hint : Type 0 where
  not_a_number : Hint
  number : (thousandths : ℕ) → Hint

-- `localStorage`: whether it can be reached, whether a read or a write throws, and the hint's item.
pub record Store : Type 0 where
  pub reachable : Bool
  pub readable : Bool
  pub writable : Bool
  pub item : Option Hint

abbrev pub expiry_buffer_seconds : ℕ
expiry_buffer_seconds = 60

-- A write to the item; one that throws is ignored.
unfoldable pub write : Option Hint → Store → Store
write value s = if s.reachable && s.writable then record s { item = value } else s

-- `Math.floor`, in thousandths.
abbrev pub floor : ℕ → ℕ
floor t = t / 1000 * 1000

unfoldable pub record_access_token_expiry : Reported → Store → Store
unfolding write
record_access_token_expiry (finite t) s = write (some (number (floor t))) s
record_access_token_expiry absent s = write none s
record_access_token_expiry not_finite s = write none s

unfoldable pub clear_access_token_expiry : Store → Store
unfolding write
clear_access_token_expiry s = write none s

-- `nowSeconds >= exp - EXPIRY_BUFFER_SECONDS`
abbrev pub due : ℕ → Option Hint → Bool
due now none = false
due now (some not_a_number) = false
due now (some (number t)) = leb t (now + expiry_buffer_seconds * 1000)

unfoldable pub is_access_token_expired : (now : ℕ) → Store → Bool
is_access_token_expired now s = if s.reachable && s.readable then due now s.item else false
