-- ===== src/Api/Headers/Laws.antt =====
-- What the headers of a request say.
use choschmous_v.Base.{
  ℕ, ◌≡◌, refl, sym, ap, ◌∙◌, subst, ◌↔◌, ◌⊎◌, inl, inr, Bool, true, false, not, ◌&&◌, ◌||◌, Option,
  none, some, List, [], arith, if◌then◌else◌, Bool-cases, ◌==◌, nat_eq, or_else, includes, Text,
  codes, text_beq_iff, text_eq, is_empty, to_upper, to_lower,
}
use choschmous_v.Base.Assoc.{get, put, get-put}
use choschmous_v.Api.Trace.{create_trace_context}
use choschmous_v.Api.Headers.{
  correlation_id_header, traceparent_header, csrf_header_name, mutating_methods, method_name,
  Headers, get_header, with_token, attach_headers,
}

-- The names as keys.
abbrev csrf : Text
csrf = to_lower csrf_header_name

abbrev trace_key : Text
trace_key = to_lower traceparent_header

abbrev id_key : Text
id_key = to_lower correlation_id_header

-- The token that is sent.
abbrev sent_token : Option Text → Option Text → Option Text
sent_token method none = none
sent_token method (some t) =
    if includes mutating_methods (method_name method) && not (is_empty t) then some t else none

-- `a ?? b` of texts that may be missing.
abbrev pub first_of : Option Text → Option Text → Option Text
first_of (some a) b = some a
first_of none b = b

get-with_token :
    (method cookie : Option Text) (h : Headers) (k : Text)
    → get k (with_token method cookie h)
      ≡ (if csrf == k then first_of (sent_token method cookie) (get k h) else get k h)
unfolding with_token
get-with_token method none h k = ground arith
get-with_token method (some t) h k =
    elim (Bool-cases (includes mutating_methods (method_name method) && not (is_empty t))) [
      | inl s ↦ rw s (get-put csrf k t h ∙ same (csrf == k))
      | inr s ↦ rw s (unchanged (csrf == k))
    ]
  where
    same : (b : Bool) → (if b then some t else get k h) ≡ (if b then some t else get k h)
    same b = refl

    unchanged : (b : Bool) → get k h ≡ (if b then get k h else get k h)
    unchanged true = refl
    unchanged false = refl

first_of-none : (o : Option Text) → first_of o none ≡ o
first_of-none none = refl
first_of-none (some t) = refl

-- The two headers that every request gets.
get-always :
    (id trace : Text) (h : Headers) (k : Text)
    → get k (put trace_key trace (put id_key id h))
      ≡ (if trace_key == k then some trace else if id_key == k then some id else get k h)
get-always id trace h k =
    get-put trace_key k trace (put id_key id h)
    ∙ ap (λ o. if trace_key == k then some trace else o) (get-put id_key k id h)

no_token :
    (id trace : Text) (h : Headers)
    → get csrf h ≡ none
    → get csrf (put trace_key trace (put id_key id h)) ≡ none
no_token id trace h n = get-always id trace h csrf ∙ n

attached :
    (method cookie : Option Text) (id trace : Text) (h : Headers) (k : Text)
    → get csrf h ≡ none
    → get k (with_token method cookie (put trace_key trace (put id_key id h))) ≡ (
        if csrf == k
        then sent_token method cookie
        else if trace_key == k
        then some trace
        else if id_key == k
        then some id
        else get k h)
attached method cookie id trace h k n = elim (Bool-cases (csrf == k)) [
  | inl c ↦
      get-with_token method cookie _ k
      ∙ rw c (
          ap (first_of (sent_token method cookie)) (
            subst (λ j. get j (put trace_key trace (put id_key id h)) ≡ none)
              ((text_beq_iff csrf k).0 c) (no_token id trace h n))
          ∙ first_of-none (sent_token method cookie))
  | inr c ↦ get-with_token method cookie _ k ∙ rw c (get-always id trace h k)
]

-- The method of a request that changes something.
abbrev pub IsMethod : Text → Type 0
IsMethod m =
    (to_upper m ≡ codes "POST")
    ⊎ (to_upper m ≡ codes "PUT")
    ⊎ (to_upper m ≡ codes "PATCH")
    ⊎ (to_upper m ≡ codes "DELETE")

abbrev pub IsMutating : Option Text → Type 0
IsMutating method = (m : Text) × (method ≡ some m) × IsMethod m

-- The token is the cookie's, on such a method with a cookie that is not empty; else there is none.
abbrev pub IsSent : Option Text → Option Text → Option Text → Type 0
IsSent method cookie (some t) = IsMutating method × (cookie ≡ some t) × (is_empty t ≡ false)
IsSent method cookie none =
    ¬ ((t : Text) × IsMutating method × (cookie ≡ some t) × (is_empty t ≡ false))

or_iff : (a b : Bool) (A B : Type 0) → (a ≡ true) ↔ A → (b ≡ true) ↔ B → (a || b ≡ true) ↔ (A ⊎ B)
or_iff true b A B (f, f') (g, g') = (λ q. inl (f refl), λ q. refl)
or_iff false b A B (f, f') (g, g') =
    (λ q. inr (g q), λ q. elim q [ inl x ↦ absurd (cc (f' x)) | inr y ↦ g' y ])

last_iff : (a : Bool) (A : Type 0) → (a ≡ true) ↔ A → (a || false ≡ true) ↔ A
last_iff true A h = h
last_iff false A h = h

flipped_iff : (x y : Text) → ((x == y) ≡ true) ↔ (y ≡ x)
flipped_iff x y = (λ q. sym ((text_beq_iff x y).0 q), λ q. (text_beq_iff x y).1 (sym q))

mutating_iff :
    (x : Text)
    → (includes mutating_methods x ≡ true)
      ↔ ((x ≡ codes "POST") ⊎ (x ≡ codes "PUT") ⊎ (x ≡ codes "PATCH") ⊎ (x ≡ codes "DELETE"))
mutating_iff x = or_iff _ _ _ _ (flipped_iff (codes "POST") x) (
    or_iff _ _ _ _ (flipped_iff (codes "PUT") x) (
      or_iff _ _ _ _ (flipped_iff (codes "PATCH") x)
        (last_iff _ _ (flipped_iff (codes "DELETE") x))))

with_cookie :
    (m t : Text) (b e : Bool)
    → (includes mutating_methods (to_upper m) ≡ b)
    → is_empty t ≡ e
    → IsSent (some m) (some t) (if b && not e then some t else none)
with_cookie m t true false h e = ((m, refl, (mutating_iff (to_upper m)).0 h), refl, e)
with_cookie m t true true h e =
    λ (u, w, c, n). absurd (ground (arith, e, n, ap (λ o. or_else o []) c))
with_cookie m t false e h q = λ (u, (k, c, r), w, n). absurd (
    ground
      (arith, (mutating_iff (to_upper m)).1 (subst (λ o. IsMethod (or_else o [])) (sym c) r), h))

sent_token-IsSent : (method cookie : Option Text) → IsSent method cookie (sent_token method cookie)
sent_token-IsSent method none = λ (t, m, c, e). absurd (cc c)
sent_token-IsSent none (some t) = λ (u, (m, q, r), c, e). absurd (cc q)
sent_token-IsSent (some m) (some t) = with_cookie m t _ _ refl refl

-- Of a request that has no token of its own: whatever the case of the method, the header for the token
-- holds the cookie's token if the method is POST, PUT, PATCH or DELETE and the token is not empty, and
-- is missing otherwise; the request carries the correlation id and the trace that is current from then
-- on; and its other headers, whose names ignore the case, are as they were.
pub attach_headers_lem :
    (method : Option Text) (id : Text) (ts ss : List ℕ) (cookie : Option Text) (h : Headers)
    → get_header csrf_header_name h ≡ none
    → let (r, trace) = attach_headers method id ts ss cookie h in
      IsSent method cookie (get_header csrf_header_name r)
      × (get_header traceparent_header r ≡ some trace.traceparent)
      × (get_header correlation_id_header r ≡ some id)
      × ((name : Text)
          → (to_lower csrf_header_name == to_lower name) ≡ false
          → (to_lower traceparent_header == to_lower name) ≡ false
          → (to_lower correlation_id_header == to_lower name) ≡ false
          → get_header name r ≡ get_header name h)
unfolding attach_headers
attach_headers_lem method id ts ss cookie h n =
    let at =
      λ (k : Text). attached method cookie id (create_trace_context ts ss).traceparent h k n in
    (
      subst (IsSent method cookie) (sym (at csrf)) (sent_token-IsSent method cookie),
      at trace_key,
      at id_key,
      λ name p q r. at (to_lower name) ∙ rw (p, q, r) refl,
    )
