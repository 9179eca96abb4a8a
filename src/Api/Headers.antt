-- ===== src/Api/Headers.antt =====
-- The headers that every request gets (core/api/headers.ts, core/api/constants.ts). The correlation id,
-- the random bytes and the decoded cookie for the CSRF token are arguments.
pub mod Laws
use choschmous_v.Base.{
  ℕ, not, ◌&&◌, Option, none, some, List, [], ◌∷◌, if◌then◌else◌, nat_eq, or_else, includes, Text,
  codes, text_eq, is_empty, to_upper, to_lower,
}
use choschmous_v.Base.Assoc.{get, put}
use choschmous_v.Api.Trace.{TraceContext, create_trace_context}

abbrev pub correlation_id_header : Text
correlation_id_header = codes "X-Correlation-ID"

abbrev pub traceparent_header : Text
traceparent_header = codes "traceparent"

abbrev pub csrf_header_name : Text
csrf_header_name = codes "X-CSRF-Token"

abbrev pub mutating_methods : List Text
mutating_methods = codes "POST" ∷ codes "PUT" ∷ codes "PATCH" ∷ codes "DELETE" ∷ []

-- `(config.method ?? "get").toUpperCase()`
abbrev pub method_name : Option Text → Text
method_name m = to_upper (or_else m (codes "get"))

-- The headers by their names in lower case, since the names of `AxiosHeaders` ignore the case.
abbrev pub Headers : Type 0
Headers = List (Text × Text)

-- `headers.set` and `headers.get`
abbrev pub set_header : Text → Text → Headers → Headers
set_header name value h = put (to_lower name) value h

abbrev pub get_header : Text → Headers → Option Text
get_header name h = get (to_lower name) h

-- The token is sent on a mutating method, if the cookie is there and not empty.
unfoldable pub with_token : Option Text → Option Text → Headers → Headers
unfolding put
with_token method none h = h
with_token method (some t) h =
    if includes mutating_methods (method_name method) && not (is_empty t)
    then set_header csrf_header_name t h
    else h

-- `attachCrossCuttingHeaders`: the headers, and the trace that is current from then on.
unfoldable pub attach_headers :
    (method : Option Text) (correlation_id : Text) (trace_bytes span_bytes : List ℕ)
    (cookie : Option Text)
    → Headers
    → Headers × TraceContext
unfolding put create_trace_context with_token
attach_headers method correlation_id trace_bytes span_bytes cookie h =
    let trace = create_trace_context trace_bytes span_bytes in
    (
      with_token method cookie (
          set_header traceparent_header trace.traceparent
            (set_header correlation_id_header correlation_id h)),
      trace,
    )
