-- ===== src/Base/Options.antt =====
-- Steps that may give nothing, one after the other.
use choschmous_v.Base.{
  ◌≡◌, refl, sym, ap, Bool, true, false, Option, none, some, if◌then◌else◌, or_else,
}

infixl 5 ◌>>=◌
abbrev pub ◌>>=◌ {ℓ κ} : {A : Type ℓ} {B : Type κ} → Option A → (A → Option B) → Option B
none >>= f = none
some a >>= f = f a

-- The inversion of a step that is taken.
pub bind_some {ℓ κ} :
    {A : Type ℓ} {B : Type κ} (m : Option A) (f : A → Option B) {b : B}
    → (m >>= f) ≡ some b
    → (a : A) × (m ≡ some a) × (f a ≡ some b)
bind_some none f h = absurd (cc h)
bind_some (some a) f h = (a, refl, h)

pub some_eq {ℓ} : {A : Type ℓ} {a b : A} → some a ≡ some b → b ≡ a
some_eq {a = a} h = ap (λ o. or_else o a) (sym h)

pub bind_go {ℓ κ} :
    {A : Type ℓ} {B : Type κ} (m : Option A) (f : A → Option B) {a : A} {o : Option B}
    → m ≡ some a
    → f a ≡ o
    → (m >>= f) ≡ o
bind_go m f q k = rw q k

-- The inversion of a guarded result.
pub guard_some {ℓ} :
    {A : Type ℓ} (b : Bool) (m : Option A) {a : A}
    → (if b then m else none) ≡ some a
    → (b ≡ true) × (m ≡ some a)
guard_some true m h = (refl, h)
guard_some false m h = absurd (cc h)

-- What holds after a step that is taken only if a test holds.
pub if_holds {ℓ κ} :
    {A : Type ℓ} (P : A → Type κ) (b : Bool) (x y : A)
    → (b ≡ true → P x)
    → P y
    → P (if b then x else y)
if_holds P true x y h k = h refl
if_holds P false x y h k = k

-- What holds after a step that does nothing where it cannot be taken.
pub step_holds {ℓ κ} :
    {A : Type ℓ} (P : A → Type κ) (m : Option A) (x : A)
    → ((y : A) → m ≡ some y → P y)
    → P x
    → P (or_else m x)
step_holds P none x h k = k
step_holds P (some y) x h k = h y refl
