-- ===== src/Review/Grouping/Keys.antt =====
-- Which submissions share a group.
use choschmous_v.Base.{
  ℕ, ◌≡◌, sym, subst, Option, none, some, [], ◌∷◌, ◌++◌, arith, nat_eq, or_else, Text, text_eq,
}
use choschmous_v.Base.Decimal.{show, show-injective, show-StartsWithDigit, StartsWithDigit}
use choschmous_v.Review.Grouping.{Reading, key, name_prefix}

module _ {R : Type 0} (reading : Reading R) where
  -- The same id; or no id, and the same name, a missing name counting as an empty one.
  abbrev pub Owned : Option ℕ → Option ℕ → Text → Text → Type 0
  Owned (some m) (some n) a b = m ≡ n
  Owned none none a b = a ≡ b
  Owned _ _ a b = ⊥

  abbrev pub SameOwner : R → R → Type 0
  SameOwner r s =
      Owned (reading.id_of r) (reading.id_of s) (or_else (reading.name_of r) [])
        (or_else (reading.name_of s) [])

  drop_prefix : (p a b : Text) → p ++ a ≡ p ++ b → a ≡ b
  drop_prefix [] a b h = h
  drop_prefix (c ∷ p) a b h = drop_prefix p a b (cc h)

  number_is_no_name : (n : ℕ) (a : Text) → show n ≡ name_prefix ++ a → ⊥
  number_is_no_name n a e = omega (arith, subst StartsWithDigit e (show-StartsWithDigit n))

  by_ids :
      (i j : Option ℕ) (a b : Text)
      → elim i [ some n ↦ show n | none ↦ name_prefix ++ a ]
        ≡ elim j [ some n ↦ show n | none ↦ name_prefix ++ b ]
      → Owned i j a b
  by_ids (some m) (some n) a b h = show-injective m n h
  by_ids none none a b h = drop_prefix name_prefix a b h
  by_ids (some m) none a b h = number_is_no_name m b h
  by_ids none (some n) a b h = number_is_no_name n a (sym h)

  -- Submissions have the same key only if they have the same owner.
  pub key-SameOwner : (r s : R) → key reading r ≡ key reading s → SameOwner r s
  key-SameOwner r s h = by_ids (reading.id_of r) (reading.id_of s) _ _ h
