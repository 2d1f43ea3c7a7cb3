-- ===== src/Tracing/RequestId.antt =====
-- internal/tracing/request_id.go. A text is the list of its bytes, a header map an association
-- list under canonical names, as Get and Set write them. What rand.Read does is given: the bytes
-- it fills the slice with, or none for an error; so is the formatted time.
use load_balancer.Base.{
  ℕ, ◌%◌, Option, none, some, String, List, [], ◌∷◌, ◌++◌, map, ◌==◌, if◌then◌else◌, length,
  get_elem?, bytes,
}
use load_balancer.Base.Dict.{lookup, insert}
use load_balancer.Tracing.Hex.{encode}

-- context.Context as the values laid around the background; a key is a contextKey. A value that
-- is no string is `other`.
pub data Value : Type 0 where
  a_string : List ℕ → Value
  other : Value

pub data Context : Type 0 where
  background : Context
  with_value : Context → ℕ → Value → Context

abbrev pub request_id_key : ℕ
request_id_key = 0

unfoldable pub value : Context → ℕ → Option Value
value background key = none
value (with_value ctx k v) key = let outer = value ctx key in if k == key then some v else outer

unfoldable pub set_request_id : Context → List ℕ → Context
set_request_id ctx id = with_value ctx request_id_key (a_string id)

unfoldable pub get_request_id : Context → List ℕ
get_request_id ctx = elim (value ctx request_id_key) [ some (a_string id) ↦ id | _ ↦ [] ]

abbrev pub Draw : Type 0
Draw = Option (List ℕ)

abbrev pub charset : List ℕ
charset = bytes "abcdefghijklmnopqrstuvwxyzABCDEFGHIJKLMNOPQRSTUVWXYZ0123456789"

abbrev pub or_zero : Option ℕ → ℕ
or_zero (some c) = c
or_zero none = 0

-- `charset[int(b[i])%len(charset)]`; the index is in range, so `or_zero` never takes its zero.
unfoldable pub char_at : ℕ → ℕ
char_at b = or_zero (get_elem? charset (b % length charset))

unfoldable pub random_string : Draw → List ℕ → List ℕ
unfolding char_at
random_string none now = bytes "req-" ++ now
random_string (some bs) now = map char_at bs

-- The first draw has 16 bytes, and the second, for `randomString(8)`, has eight.
unfoldable pub generate_request_id : Draw → Draw → List ℕ → List ℕ
unfolding random_string encode
generate_request_id none again now = bytes "req-" ++ random_string again now
generate_request_id (some bs) again now = encode bs

unfoldable pub generate_fast_request_id : Draw → List ℕ → List ℕ
unfolding encode
generate_fast_request_id none now = bytes "req-" ++ now
generate_fast_request_id (some bs) now = encode bs

abbrev pub Headers : Type 0
Headers = List (String × List ℕ)

abbrev pub id_header : String
id_header = "X-Request-Id"

-- For fasthttp, whose server is made with DisableHeaderNamesNormalizing: the name as it is written.
abbrev pub fast_id_header : String
fast_id_header = "X-Request-ID"

abbrev pub or_empty : Option (List ℕ) → List ℕ
or_empty (some v) = v
or_empty none = []

-- Header.Get, and Peek: the empty text for a header that is not there.
unfoldable pub header : String → Headers → List ℕ
unfolding lookup
header name h = or_empty (lookup name h)

-- `if requestID == "" { requestID = generated }`.
abbrev pub or_generated : List ℕ → List ℕ → List ℕ
or_generated [] generated = generated
or_generated (c ∷ cs) generated = c ∷ cs

module _ {A : Type 0} where
  -- RequestIDMiddleware around a handler that takes the response's headers, the request's headers
  -- and the context.
  unfoldable pub request_id_middleware :
      List ℕ → (Headers → Headers → Context → A) → Headers → Headers → Context → A
  unfolding header set_request_id insert
  request_id_middleware generated next out request ctx =
      let id = or_generated (header id_header request) generated in
      next (insert id_header id out) request (set_request_id ctx id)

  -- FastRequestID around a handler that takes the response's headers, the request's headers and
  -- the user values.
  unfoldable pub fast_request_id :
      List ℕ → (Headers → Headers → Headers → A) → Headers → Headers → Headers → A
  unfolding header insert
  fast_request_id generated next out request values =
      let id = or_generated (header fast_id_header request) generated in
      next (insert fast_id_header id out) request (insert "request_id" id values)

-- The identifier that a handler sees: the response's header and what the context holds.
abbrev pub seen : Headers → Headers → Context → List ℕ × List ℕ
seen out request ctx = (header id_header out, get_request_id ctx)

abbrev pub seen_fast : Headers → Headers → Headers → List ℕ × List ℕ
seen_fast out request values = (header fast_id_header out, header "request_id" values)
