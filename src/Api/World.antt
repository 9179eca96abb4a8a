-- ===== src/Api/World.antt =====
-- What the client's code reads and writes, and the actions over it. The server is a parameter.
use choschmous_v.Base.{
  ◌≡◌, refl, ◌⊎◌, inl, inr, ℕ, ◌≡◌, refl, ◌⊎◌, inl, inr, List, nat_eq, Text, text_eq,
}
use choschmous_v.Auth.Expiry.{Reported, Store}
use choschmous_v.Auth.Mfa.{MfaMethod, LoginBody, MfaRequired}
use choschmous_v.Auth.State.{User, AuthState}

-- The `detail` of a response's body: missing (or `null`, 0 or `false`), a text, or another value, such as
-- the list of a validation error.
pub data ErrorDetail : Type 0 where
  no_detail : ErrorDetail
  detail_text : Text → ErrorDetail
  detail_object : ErrorDetail

-- What a promise is rejected with. `http` and `network` are Axios errors, with a response or
-- without; the flat forms are the unauthenticated client's; `plain` is any other `Error`.
pub data Failure : Type 0 where
  http : (status : ℕ) → (message : Text) → (detail : ErrorDetail) → Failure
  network : (message : Text) → Failure
  flat : (status : ℕ) → Failure
  flat_detail : (detail : Text) → Failure
  required : MfaRequired → Failure
  plain : (message : Text) → Failure

pub data Result {ℓ} (A : Type ℓ) : Type ℓ where
  ok : A → Result A
  err : Failure → Result A

-- The server and the network: an unknown state, its clock in thousandths of a second, and the
-- answer to each request.
pub record Backend : Type 1 where
  pub Net : Type 0
  pub clock : Net → ℕ
  pub login : (username password : Text) → Net → Result LoginBody × Net
  pub verify : (mfa_token : Text) → MfaMethod → (code : Text) → Net → Result Reported × Net
  pub refresh : Net → Result Reported × Net
  pub me : Net → Result User × Net
  pub logout : Net → Result (Unit {0}) × Net

-- `sent` lists the paths of the requests that were put on the wire, the newest first; `cache` holds
-- the keys of the query cache.
pub record World (Net : Type 0) : Type 0 where
  pub net : Net
  pub sent : List Text
  pub store : Store
  pub auth : AuthState
  pub cache : List Text

abbrev pub Exec : Type 0 → Type 0 → Type 0
Exec W A = W → Result A × W

abbrev pub modify : {W : Type 0} → (W → W) → Exec W (Unit {0})
modify f w = (ok tt, f w)

module _ {W A : Type 0} where
  abbrev pub pure : A → Exec W A
  pure a w = (ok a, w)

  abbrev pub raise : Failure → Exec W A
  raise e w = (err e, w)

module _ {W A B : Type 0} where
  -- `then` with both continuations: what an `await` in a `try` leads to.
  abbrev pub settle : Result A × W → (A → Exec W B) → (Failure → Exec W B) → Result B × W
  settle (ok a, w) f g = f a w
  settle (err e, w) f g = g e w

  abbrev pub try : Exec W A → (A → Exec W B) → (Failure → Exec W B) → Exec W B
  try m f g w = settle (m w) f g

  infixl 10 ◌>>=◌ ◌>>◌
  abbrev pub ◌>>=◌ : Exec W A → (A → Exec W B) → Exec W B
  m >>= f = try m f (λ e w. (err e, w))

  abbrev pub ◌>>◌ : Exec W A → Exec W B → Exec W B
  m >> n = m >>= λ _. n

module _ {W A B : Type 0} (m : Result A × W) (f : A → Exec W B) (g : Failure → Exec W B) where
  pub settle-ok : {a : A} → m.0 ≡ ok a → settle m f g ≡ f a m.1
  settle-ok e = rw e

  pub settle-err : {e : Failure} → m.0 ≡ err e → settle m f g ≡ g e m.1
  settle-err e = rw e

pub Result-cases {ℓ} :
    {A : Type ℓ} (r : Result A) → ((a : A) × (r ≡ ok a)) ⊎ ((e : Failure) × (r ≡ err e))
Result-cases (ok a) = inl (a, refl)
Result-cases (err e) = inr (e, refl)
