-- ===== src/Auth/Expiry/Laws.antt =====
-- When a request is preceded by a refresh.
use choschmous_v.Base.{
  ℕ, ◌+◌, ◌≤◌, ◌≡◌, refl, Bool, true, false, Option, none, some, arith, leb, nat_eq, text_eq,
}
use choschmous_v.Auth.Expiry.{
  Reported, absent, not_finite, finite, Hint, not_a_number, number, Store,
  record_access_token_expiry, clear_access_token_expiry, is_access_token_expired, floor,
}

-- The hint a recorded expiry leaves behind.
abbrev pub is_due : Reported → ℕ → Bool
is_due (finite t) now = leb (floor t) (now + 60000)
is_due absent now = false
is_due not_finite now = false

-- With a storage that works, a recorded expiry is found expired exactly from 60 seconds before its
-- whole second on, and a missing or invalid one never; a cleared hint is never expired.
pub is_access_token_expired-record :
    (r : Reported) (now : ℕ) (s : Store)
    → s.reachable ≡ true
    → s.readable ≡ true
    → s.writable ≡ true
    → (is_access_token_expired now (record_access_token_expiry r s) ≡ is_due r now)
      × (is_access_token_expired now (clear_access_token_expiry s) ≡ false)
unfolding is_access_token_expired record_access_token_expiry clear_access_token_expiry
is_access_token_expired-record (finite t) now s a b c = ground arith
is_access_token_expired-record absent now s a b c = ground arith
is_access_token_expired-record not_finite now s a b c = ground arith

-- A refresh is forced only by a stored number within 60 seconds of the present: never by a missing
-- or unreadable item, nor by one that is no number.
pub is_access_token_expired_needs :
    (now : ℕ) (s : Store)
    → is_access_token_expired now s ≡ true
    → (t : ℕ) × (s.item ≡ some (number t)) × (t ≤ now + 60000)
unfolding is_access_token_expired
is_access_token_expired_needs now s h = by_item s.item refl
  where
    by_item :
        (o : Option Hint) → s.item ≡ o → (t : ℕ) × (s.item ≡ some (number t)) × (t ≤ now + 60000)
    by_item none e = absurd (ground arith)
    by_item (some not_a_number) e = absurd (ground arith)
    by_item (some (number t)) e = (t, e, ground arith)
