-- ===== src/Tracing/Identified.antt =====
-- What internal/tracing/request_id.go makes of a request's identifier: the one of the client if
-- it sent one, else one of plain characters, and the same for the handler and in the response.
use load_balancer.Base.{
  All-append, All-get_elem?, ℕ, ◌/◌, ◌%◌, ◌<◌, ◌≡◌, refl, ap, Bool, true, ◌&&◌, ◌||◌, none, some,
  String, List, [], ◌∷◌, map, arith, leb, ◌==◌, &&_true_iff, get_elem?, All, bytes,
}
use load_balancer.Base.Dict.{insert, lookup-insert_same}
use load_balancer.Tracing.Hex.{hex_char, encode, IsByte}
use load_balancer.Tracing.RequestId.{
  Context, value, set_request_id, get_request_id, Draw, charset, or_empty, or_zero, char_at,
  random_string, generate_request_id, generate_fast_request_id, Headers, id_header, fast_id_header,
  header, or_generated, request_id_middleware, fast_request_id, seen, seen_fast,
}

pub header-insert : (name : String) (v : List ℕ) (h : Headers) → header name (insert name v h) ≡ v
unfolding header
header-insert name v h = ap or_empty (lookup-insert_same name v h)

get_request_id-set_request_id :
    (ctx : Context) (id : List ℕ) → get_request_id (set_request_id ctx id) ≡ id
unfolding get_request_id set_request_id value
get_request_id-set_request_id ctx id = refl

-- Around either server's handler, the identifier in the response's headers and the one that the
-- handler finds are the client's, if it sent one that is not empty, and else the generated one.
pub one_identifier :
    (generated : List ℕ) (out request values : Headers) (ctx : Context)
    → let id = or_generated (header id_header request) generated in
      let fast_id = or_generated (header fast_id_header request) generated in
      (request_id_middleware generated seen out request ctx ≡ (id, id))
      × (fast_request_id generated seen_fast out request values ≡ (fast_id, fast_id))
unfolding request_id_middleware fast_request_id
one_identifier generated out request values ctx =
    let id = or_generated (header id_header request) generated in
    let fast_id = or_generated (header fast_id_header request) generated in
    (
      rw (header-insert id_header id out, get_request_id-set_request_id ctx id) refl,
      rw (header-insert fast_id_header fast_id out, header-insert "request_id" fast_id values) refl,
    )

-- The characters of an identifier: letters, digits and the dash.
abbrev pub is_plain : ℕ → Bool
is_plain c =
    (leb 97 c && leb c 122) || (leb 65 c && leb c 90) || (leb 48 c && leb c 57) || (c == 45)

abbrev pub IsPlain : ℕ → Type 0
IsPlain c = is_plain c ≡ true

hex_char-IsPlain : (d : ℕ) → d < 16 → IsPlain (hex_char d)
hex_char-IsPlain d small = ground arith

encode-IsPlain : (bs : List ℕ) → All IsByte bs → All IsPlain (encode bs)
unfolding encode
encode-IsPlain [] are = tt
encode-IsPlain (b ∷ bs) (is, are) = (
  hex_char-IsPlain (b / 16) (omega arith),
  (hex_char-IsPlain (b % 16) (omega arith), encode-IsPlain bs are),
)

-- A test that holds for every element, by evaluation.
abbrev every : (ℕ → Bool) → List ℕ → Bool
every p [] = true
every p (x ∷ xs) = p x && every p xs

every-All : (p : ℕ → Bool) (xs : List ℕ) → every p xs ≡ true → All (λ x. p x ≡ true) xs
every-All p [] h = tt
every-All p (x ∷ xs) h =
    let (holds, rest) = (&&_true_iff (p x) (every p xs)).0 h in (holds, every-All p xs rest)

tag-IsPlain : All IsPlain (bytes "req-")
tag-IsPlain = every-All is_plain (bytes "req-") refl

charset-All : All IsPlain charset
charset-All = every-All is_plain charset refl

char_at-IsPlain : (b : ℕ) → IsPlain (char_at b)
unfolding char_at
char_at-IsPlain b =
    let (c, found, plain) = All-get_elem? IsPlain charset (b % 62) charset-All (omega arith) in
    let picked : or_zero (get_elem? charset (b % 62)) ≡ c = ap or_zero found in rw picked plain

map-char_at-IsPlain : (bs : List ℕ) → All IsPlain (map char_at bs)
map-char_at-IsPlain [] = tt
map-char_at-IsPlain (b ∷ bs) = (char_at-IsPlain b, map-char_at-IsPlain bs)

random_string-IsPlain :
    (draw : Draw) (now : List ℕ) → All IsPlain now → All IsPlain (random_string draw now)
unfolding random_string
random_string-IsPlain none now plain = All-append IsPlain (bytes "req-") now tag-IsPlain plain
random_string-IsPlain (some bs) now plain = map-char_at-IsPlain bs

-- Whatever rand.Read does, an identifier generated by either server has only letters, digits and
-- dashes, where the bytes drawn are bytes and the formatted time has only such characters.
pub generated-IsPlain :
    (first again : Draw) (now : List ℕ)
    → ((bs : List ℕ) → first ≡ some bs → All IsByte bs)
    → All IsPlain now
    → All IsPlain (generate_request_id first again now)
      × All IsPlain (generate_fast_request_id first now)
unfolding generate_request_id generate_fast_request_id
generated-IsPlain none again now are plain = (
  All-append IsPlain (bytes "req-") (random_string again now) tag-IsPlain
      (random_string-IsPlain again now plain),
  All-append IsPlain (bytes "req-") now tag-IsPlain plain,
)
generated-IsPlain (some bs) again now are plain = let h = encode-IsPlain bs (are bs refl) in (h, h)
