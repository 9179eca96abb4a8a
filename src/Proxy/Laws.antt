-- ===== src/Proxy/Laws.antt =====
-- No redirect is followed by another, and no portal page is reached without a token.
use choschmous_v.Base.{
  ℕ, ◌≡◌, refl, ap, ◌∙◌, ◌↔◌, ◌⊎◌, inl, inr, Bool, true, false, ◌&&◌, Option, none, some, List, [],
  ◌∷◌, ◌++◌, arith, if◌then◌else◌, Bool-cases, Any, any, Text, codes, starts_with,
}
use choschmous_v.Proxy.{
  login_path, dashboard_path, Reply, next, to_login, to_dashboard, is_portal_route, is_auth_route,
  has_token, proxy, target,
}

login_is_open : is_portal_route login_path ≡ false
unfolding is_portal_route
login_is_open = refl

dashboard_is_no_login : is_auth_route dashboard_path ≡ false
unfolding is_auth_route
dashboard_is_no_login = refl

-- What the request does where its reply leads.
settles :
    (pathname : Text) (token : Option Text)
    → proxy (target pathname (proxy pathname token)) token ≡ next
unfolding proxy
settles pathname token = elim (Bool-cases (has_token token)) [
  | inl t ↦ elim (Bool-cases (is_auth_route pathname)) [
    | inl a ↦ ground (arith, dashboard_is_no_login)
    | inr a ↦ ground arith
  ]
  | inr t ↦ elim (Bool-cases (is_portal_route pathname)) [
    | inl p ↦ ground (arith, login_is_open)
    | inr p ↦ ground arith
  ]
]

-- The path of a page, or one that begins with it.
abbrev pub BeginsWith : Text → Text → Type 0
BeginsWith path page = (rest : Text) × (path ≡ page ++ rest)

-- The pages that ask for a session.
abbrev guarded_pages : List Text
guarded_pages =
    codes "/dashboard"
    ∷ codes "/events"
    ∷ codes "/sports"
    ∷ codes "/organizations"
    ∷ codes "/users"
    ∷ codes "/cards"
    ∷ codes "/reports"
    ∷ codes "/participation"
    ∷ codes "/register"
    ∷ codes "/by-number"
    ∷ codes "/by-category"
    ∷ codes "/by-sport"
    ∷ codes "/leader-registration"
    ∷ codes "/registrations"
    ∷ []

abbrev pub IsGuarded : Text → Type 0
IsGuarded path = Any (BeginsWith path) guarded_pages

-- A missing cookie, or an empty one.
abbrev pub IsMissing : Option Text → Type 0
IsMissing token = (token ≡ none) ⊎ (token ≡ some [])

abbrev pub IsPresent : Option Text → Type 0
IsPresent token = (c : ℕ) × (t : Text) × (token ≡ some (c ∷ t))

-- Without a session a guarded page leads to the login, with itself to come back to; with one the login
-- leads to the dashboard; everything else goes on.
abbrev pub IsReply : Text → Option Text → Reply → Type 0
IsReply path token reply =
    (IsMissing token × IsGuarded path × (reply ≡ to_login path))
    ⊎ (IsMissing token × (¬ (IsGuarded path)) × (reply ≡ next))
    ⊎ (IsPresent token × BeginsWith path (codes "/login") × (reply ≡ to_dashboard))
    ⊎ (IsPresent token × (¬ (BeginsWith path (codes "/login"))) × (reply ≡ next))

starts_with_iff : (s p : Text) → (starts_with s p ≡ true) ↔ BeginsWith s p
starts_with_iff s [] = (λ h. (s, refl), λ h. refl)
starts_with_iff [] (c ∷ p) = (λ h. absurd (cc h), λ h. absurd (cc (h.1)))
starts_with_iff (d ∷ s) (c ∷ p) = (
  λ h.
      let (rest, q) = (starts_with_iff s p).0 (ground arith) in
      let e : d ≡ c = ground arith in (rest, ap (◌∷◌ d) q ∙ ap (λ x. x ∷ p ++ rest) e),
  λ (rest, q).
      let e : d ≡ c = cc q in
      let k : s ≡ p ++ rest = cc q in
      let m = (starts_with_iff s p).1 (rest, k) in ground (arith, e, m),
)

any_iff :
    (path : Text) (pages : List Text)
    → (any (λ page. starts_with path page) pages ≡ true) ↔ Any (BeginsWith path) pages
any_iff path [] = (λ h. absurd (cc h), λ h. absurd h)
any_iff path (page ∷ pages) = (
  λ h. elim (Bool-cases (starts_with path page)) [
    | inl q ↦ inl ((starts_with_iff path page).0 q)
    | inr q ↦ inr ((any_iff path pages).0 (ground arith))
  ],
  λ h. elim h [
    | inl q ↦ let k = (starts_with_iff path page).1 q in ground arith
    | inr q ↦ let k = (any_iff path pages).1 q in ground arith
  ],
)

without_token : (path : Text) (a : Bool) → (if a && false then to_dashboard else next) ≡ next
without_token path true = refl
without_token path false = refl

with_token :
    (path : Text) (p a : Bool)
    → (if p && false then to_login path else (if a && true then to_dashboard else next))
      ≡ (if a then to_dashboard else next)
with_token path true true = refl
with_token path true false = refl
with_token path false true = refl
with_token path false false = refl

missing-IsReply :
    (path : Text) (token : Option Text)
    → IsMissing token
    → has_token token ≡ false
    → IsReply path token (proxy path token)
unfolding proxy is_portal_route
missing-IsReply path token m t =
    elim (Bool-cases (any (λ page. starts_with path page) guarded_pages)) [
      | inl q ↦ inl (m, (any_iff path guarded_pages).0 q, rw (q, t) refl)
      | inr q ↦ inr (
          inl (
            m,
            λ h. cc (q, (any_iff path guarded_pages).1 h),
            rw (q, t) (without_token path (is_auth_route path)),
          ))
    ]

present-IsReply :
    (path : Text) (token : Option Text)
    → IsPresent token
    → has_token token ≡ true
    → IsReply path token (proxy path token)
unfolding proxy is_portal_route is_auth_route
present-IsReply path token m t = elim (Bool-cases (starts_with path (codes "/login"))) [
  | inl q ↦ inr (
      inr (
        inl (
          m,
          (starts_with_iff path (codes "/login")).0 q,
          rw t (with_token path (is_portal_route path) (is_auth_route path) ∙ rw q refl),
        )))
  | inr q ↦ inr (
      inr (
        inr (
          m,
          λ h. cc (q, (starts_with_iff path (codes "/login")).1 h),
          rw t (with_token path (is_portal_route path) (is_auth_route path) ∙ rw q refl),
        )))
]

-- A page of the proxy's list, or below one, leads without a token to the login, with its path to come
-- back to, and any other page goes on; with a token the login leads to the dashboard, and any other page
-- goes on; and where a redirect leads the request goes on, so that no redirect follows another. Pages of
-- the portal that are not in the list are among the others.
pub proxy_settles :
    (pathname : Text) (token : Option Text)
    → IsReply pathname token (proxy pathname token)
      × (proxy (target pathname (proxy pathname token)) token ≡ next)
proxy_settles pathname none = (missing-IsReply pathname none (inl refl) refl, settles pathname none)
proxy_settles pathname (some []) =
    (missing-IsReply pathname (some []) (inr refl) refl, settles pathname (some []))
proxy_settles pathname (some (c ∷ t)) =
    (present-IsReply pathname (some (c ∷ t)) (c, t, refl) refl, settles pathname (some (c ∷ t)))
