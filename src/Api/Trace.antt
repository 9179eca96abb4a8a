-- ===== src/Api/Trace.antt =====
-- The trace context of a request (core/lib/logger/traceContext.ts). The random bytes are arguments.
pub mod Laws
use choschmous_v.Base.{ℕ, ◌+◌, ◌/◌, ◌%◌, List, [], ◌∷◌, ◌++◌, ltb, if◌then◌else◌, Text, codes}
use choschmous_v.Base.Padding.{pad_start}

-- A digit to the base 16.
abbrev pub hex_digit : ℕ → ℕ
hex_digit n = if ltb n 10 then 48 + n else 87 + n

-- `b.toString(16)` of a byte.
unfoldable pub to_string_16 : ℕ → Text
to_string_16 b = if ltb b 16 then hex_digit b ∷ [] else hex_digit (b / 16) ∷ hex_digit (b % 16) ∷ []

unfoldable pub random_hex : List ℕ → Text
unfolding to_string_16 pad_start
random_hex [] = []
random_hex (b ∷ bs) = pad_start 2 (to_string_16 b) ++ random_hex bs

pub record TraceContext : Type 0 where
  pub trace_id : Text
  pub span_id : Text
  pub traceparent : Text

-- `createTraceContext`, with the sixteen and the eight bytes that it draws.
unfoldable pub create_trace_context : List ℕ → List ℕ → TraceContext
unfolding random_hex
create_trace_context trace_bytes span_bytes =
    let trace_id = random_hex trace_bytes in
    let span_id = random_hex span_bytes in
    record {
      trace_id = trace_id;
      span_id = span_id;
      traceparent = codes "00-" ++ (trace_id ++ (codes "-" ++ (span_id ++ codes "-01")));
    }
