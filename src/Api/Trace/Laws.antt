-- ===== src/Api/Trace/Laws.antt =====
-- The form of a trace context.
use choschmous_v.Base.{
  ℕ, ◌+◌, ◌-◌, ◌*◌, ◌/◌, ◌%◌, ◌≤◌, ◌<◌, ◌≡◌, refl, ap, ◌⊎◌, inl, inr, List, [], ◌∷◌, ◌++◌, arith,
  ltb, if◌then◌else◌, Bool-cases, All, length, length-append, Text, codes,
}
use choschmous_v.Base.Padding.{pad_start}
use choschmous_v.Api.Trace.{hex_digit, to_string_16, random_hex, create_trace_context}

-- A lower-case digit to the base 16.
abbrev pub IsHexDigit : ℕ → Type 0
IsHexDigit c = ((48 ≤ c) × (c ≤ 57)) ⊎ ((97 ≤ c) × (c ≤ 102))

abbrev pub IsByte : ℕ → Type 0
IsByte b = b < 256

-- The value of a digit, and the bytes of a text of digits.
pub hex_value : ℕ → ℕ
hex_value c = if ltb c 58 then c - 48 else c - 87

pub bytes_of : Text → List ℕ
bytes_of (c ∷ d ∷ s) = (hex_value c * 16 + hex_value d) ∷ bytes_of s
bytes_of (c ∷ []) = []
bytes_of [] = []

-- The two digits of a byte.
two_digits : (b : ℕ) → pad_start 2 (to_string_16 b) ≡ hex_digit (b / 16) ∷ hex_digit (b % 16) ∷ []
unfolding pad_start to_string_16
two_digits b = elim (Bool-cases (ltb b 16)) [
  | inl c ↦
      let q : b / 16 ≡ 0 = ground arith in let r : b % 16 ≡ b = ground arith in rw (c, q, r) refl
  | inr c ↦ rw c refl
]

hex_digit-IsHexDigit : (n : ℕ) → n < 16 → IsHexDigit (hex_digit n)
hex_digit-IsHexDigit n h = ground arith

hex_value-hex_digit : (n : ℕ) → n < 16 → hex_value (hex_digit n) ≡ n
unfolding hex_value
hex_value-hex_digit n h = ground arith

-- What the bytes are written as.
record IsHexOf (bs : List ℕ) (s : Text) : Type 0 where
  pub size : length s ≡ 2 * length bs
  pub digits : All IsHexDigit s
  pub value : bytes_of s ≡ bs

random_hex-IsHexOf : (bs : List ℕ) → All IsByte bs → IsHexOf bs (random_hex bs)
unfolding random_hex bytes_of
random_hex-IsHexOf [] h = record { size = refl; digits = tt; value = refl }
random_hex-IsHexOf (b ∷ bs) (lt, h) =
    let w = random_hex-IsHexOf bs h in
    let high : b / 16 < 16 = omega arith in
    let low : b % 16 < 16 = omega arith in
    rw (two_digits b) (record {
      size = omega (arith, w.size);
      digits = (hex_digit-IsHexDigit (b / 16) high, (hex_digit-IsHexDigit (b % 16) low, w.digits));
      value =
          rw (hex_value-hex_digit (b / 16) high, hex_value-hex_digit (b % 16) low, w.value)
            (ap (λ x. x ∷ bs) (omega arith));
    })

-- Of sixteen and eight bytes, the trace id has 32 and the span id 16 lower-case digits to the base
-- 16, which stand for those bytes, and the header's value has 55 characters.
pub create_trace_context_form :
    (ts ss : List ℕ)
    → length ts ≡ 16
    → length ss ≡ 8
    → All IsByte ts
    → All IsByte ss
    → ((length (create_trace_context ts ss).trace_id ≡ 32)
        × All IsHexDigit (create_trace_context ts ss).trace_id
        × (bytes_of (create_trace_context ts ss).trace_id ≡ ts))
      × ((length (create_trace_context ts ss).span_id ≡ 16)
          × All IsHexDigit (create_trace_context ts ss).span_id
          × (bytes_of (create_trace_context ts ss).span_id ≡ ss))
      × (length (create_trace_context ts ss).traceparent ≡ 55)
unfolding create_trace_context
create_trace_context_form ts ss t s ht hs =
    let v = random_hex-IsHexOf ts ht in
    let w = random_hex-IsHexOf ss hs in
    (
      (omega (arith, v.size), v.digits, v.value),
      (omega (arith, w.size), w.digits, w.value),
      omega (
        arith,
        v.size,
        w.size,
        length-append (random_hex ts) (codes "-" ++ (random_hex ss ++ codes "-01")),
        length-append (random_hex ss) (codes "-01"),
      ),
    )
