-- ===== src/Middleware/Security.antt =====
-- internal/middleware/security.go. A header map is an association list, and Set writes a key; the
-- names are the canonical ones of the source. MaxAge is an int bit pattern.
use load_balancer.Base.{
  ℕ, ◌≡◌, refl, sym, ◌∙◌, ◌↔◌, ◌⊎◌, inl, inr, Bool, true, false, ◌&&◌, ◌||◌, none, some, String,
  List, [], ◌∷◌, arith, str_eq, str_eq_iff, if◌then◌else◌, Bool-cases, &&_true_iff, In, is_nonpos,
  show_nat, text_append,
}
use load_balancer.Base.Dict.{lookup, insert, lookup-insert, lookup-insert_same}

pub record Config : Type 0 where
  pub enable_cors : Bool
  pub allowed_origins : List String
  pub allowed_methods : List String
  pub allowed_headers : List String
  pub expose_headers : List String
  pub allow_credentials : Bool
  pub max_age : ℕ
  pub enable_security_headers : Bool

abbrev pub Headers : Type 0
Headers = List (String × String)

abbrev pub allow_origin : String
allow_origin = "Access-Control-Allow-Origin"

-- strings.Join(_, ", ").
abbrev join : List String → String
join [] = ""
join (s ∷ []) = s
join (s ∷ t ∷ ss) = text_append s (text_append ", " (join (t ∷ ss)))

unfoldable pub security_headers : Headers → Headers
security_headers h = insert "Permissions-Policy" "geolocation=(), microphone=(), camera=()" (
    insert "Referrer-Policy" "strict-origin-when-cross-origin" (
      insert "Strict-Transport-Security" "max-age=31536000; includeSubDomains" (
        insert "X-XSS-Protection" "1; mode=block"
          (insert "X-Frame-Options" "DENY" (insert "X-Content-Type-Options" "nosniff" h)))))

-- The loop over the allowed origins.
unfoldable pub is_allowed : String → List String → Bool
is_allowed origin [] = false
is_allowed origin (o ∷ os) =
    let rest = is_allowed origin os in if str_eq o "*" || str_eq o origin then true else rest

-- The value for an allowed origin.
abbrev pub origin_value : List String → String → String
origin_value [] origin = origin
origin_value (o ∷ []) origin = if str_eq o "*" then "*" else origin
origin_value (o ∷ p ∷ os) origin = origin

abbrev is_none : List String → Bool
is_none [] = true
is_none (_ ∷ _) = false

unfoldable pub cors_headers : Config → String → Headers → Headers
unfolding show_nat
cors_headers c origin h =
    let h1 = insert allow_origin (origin_value c.allowed_origins origin) h in
    let h2 = insert "Access-Control-Allow-Methods" (join c.allowed_methods) h1 in
    let h3 = insert "Access-Control-Allow-Headers" (join c.allowed_headers) h2 in
    let h4 =
      if is_none c.expose_headers
      then h3
      else insert "Access-Control-Expose-Headers" (join c.expose_headers) h3 in
    let h5 =
      if c.allow_credentials then insert "Access-Control-Allow-Credentials" "true" h4 else h4 in
    if is_nonpos c.max_age then h5 else insert "Access-Control-Max-Age" (show_nat c.max_age) h5

-- What the handler does: the headers that it sets, and whether it answers 204 itself or calls the
-- next handler.
pub data Next : Type 0 where
  no_content calls_next : Next

unfoldable pub secure : Config → String → String → Headers → Headers × Next
unfolding security_headers cors_headers is_allowed
secure c method origin h =
    let h1 = if c.enable_security_headers then security_headers h else h in
    let h2 = if is_allowed origin c.allowed_origins then cors_headers c origin h1 else h1 in
    if c.enable_cors
    then (h2, if str_eq method "OPTIONS" then no_content else calls_next)
    else (h1, calls_next)

other_key :
    (k j v : String) (h : Headers) → str_eq k j ≡ false → lookup j (insert k v h) ≡ lookup j h
other_key k j v h e = lookup-insert k j v h ∙ rw e refl

security_headers-lookup :
    (h : Headers) → lookup allow_origin (security_headers h) ≡ lookup allow_origin h
unfolding security_headers
security_headers-lookup h = simp (lookup-insert)

unless_key :
    (t : Bool) (k j v : String) (h : Headers)
    → str_eq k j ≡ false
    → lookup j (if t then h else insert k v h) ≡ lookup j h
unless_key true k j v h e = refl
unless_key false k j v h e = other_key k j v h e

when_key :
    (t : Bool) (k j v : String) (h : Headers)
    → str_eq k j ≡ false
    → lookup j (if t then insert k v h else h) ≡ lookup j h
when_key true k j v h e = other_key k j v h e
when_key false k j v h e = refl

cors_headers-lookup :
    (c : Config) (origin : String) (h : Headers)
    → lookup allow_origin (cors_headers c origin h) ≡ some (origin_value c.allowed_origins origin)
unfolding cors_headers
cors_headers-lookup c origin h =
    unless_key (is_nonpos c.max_age) "Access-Control-Max-Age" allow_origin _ _ refl
    ∙ when_key c.allow_credentials "Access-Control-Allow-Credentials" allow_origin _ _ refl
    ∙ unless_key (is_none c.expose_headers) "Access-Control-Expose-Headers" allow_origin _ _ refl
    ∙ other_key "Access-Control-Allow-Headers" allow_origin _ _ refl
    ∙ other_key "Access-Control-Allow-Methods" allow_origin _ _ refl
    ∙ lookup-insert_same allow_origin _ h

is_allowed_iff :
    (origin : String) (os : List String)
    → (is_allowed origin os ≡ true) ↔ (In "*" os ⊎ In origin os)
unfolding is_allowed
is_allowed_iff origin [] = (λ h. cc, λ h. elim h [ inl x ↦ elim x [ ] | inr x ↦ elim x [ ] ])
is_allowed_iff origin (o ∷ os) = (
  λ h. ground (arith, str_eq_iff o "*", str_eq_iff o origin, is_allowed_iff origin os, h),
  λ h. ground (arith, str_eq_iff o "*", str_eq_iff o origin, is_allowed_iff origin os, h),
)

first_headers-lookup :
    (t : Bool) (h : Headers)
    → lookup allow_origin h ≡ none
    → lookup allow_origin (if t then security_headers h else h) ≡ none
first_headers-lookup true h e = security_headers-lookup h ∙ e
first_headers-lookup false h e = e

pub secure-lookup :
    (c : Config) (method origin : String) (h : Headers)
    → lookup allow_origin h ≡ none
    → lookup allow_origin (secure c method origin h).0 ≡ (
        if c.enable_cors && is_allowed origin c.allowed_origins
        then some (origin_value c.allowed_origins origin)
        else none)
unfolding secure
secure-lookup c method origin h fresh =
    let h1 = if c.enable_security_headers then security_headers h else h in
    let base = first_headers-lookup c.enable_security_headers h fresh in
    elim (Bool-cases c.enable_cors) [
      | inr off ↦ rw off base
      | inl on ↦ elim (Bool-cases (is_allowed origin c.allowed_origins)) [
        | inr shut ↦ rw (on, shut) base
        | inl free ↦ rw (on, free) (cors_headers-lookup c origin h1)
      ]
    ]

-- A response whose headers name no allowed origin yet gets one exactly if CORS is enabled and the
-- allowed origins have the star or the origin of the request.
pub secure-allow_origin :
    (c : Config) (method origin : String) (h : Headers)
    → lookup allow_origin h ≡ none
    → ((v : String) × (lookup allow_origin (secure c method origin h).0 ≡ some v))
      ↔ ((c.enable_cors ≡ true) × (In "*" c.allowed_origins ⊎ In origin c.allowed_origins))
secure-allow_origin c method origin h fresh =
    let eq = secure-lookup c method origin h fresh in
    let allowed = is_allowed_iff origin c.allowed_origins in
    (
      λ (v, e). elim (Bool-cases (c.enable_cors && is_allowed origin c.allowed_origins)) [
        | inl t ↦
            let both = (&&_true_iff c.enable_cors (is_allowed origin c.allowed_origins)).0 t in
            (both.0, allowed.0 both.1)
        | inr t ↦ let clash = rw t at (sym e ∙ eq) in cc
      ],
      λ (on, names). (origin_value c.allowed_origins origin, eq ∙ rw (on, allowed.1 names) refl),
    )
