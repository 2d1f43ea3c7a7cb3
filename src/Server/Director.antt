-- ===== src/Server/Director.antt =====
-- internal/server/proxy.go, director: the request that goes to the selected backend. A header map is
-- an association list under canonical names, with the values of the lines of a name in order.
use load_balancer.Base.{
  ◌≡◌, refl, sym, ◌∙◌, inl, inr, Bool, true, false, ◌||◌, Option, none, some, String, List, [], ◌∷◌,
  str_eq, if◌then◌else◌, Bool-cases, text_append,
}
use load_balancer.Balancer.Backend.{Url}
use load_balancer.Base.Dict.{lookup, insert, delete, lookup-insert, lookup-delete}

-- What the director reads and writes of the request.
pub record Outgoing : Type 0 where
  pub scheme : String
  pub url_host : String
  pub host : String
  pub remote_addr : String
  pub headers : List (String × List String)

abbrev pub forwarded_for : String
forwarded_for = "X-Forwarded-For"

abbrev pub real_ip : String
real_ip = "X-Real-Ip"

-- The names that the loop deletes.
abbrev pub hop_by_hop : List String
hop_by_hop =
    "Connection" ∷ "Keep-Alive" ∷ "Proxy-Authenticate" ∷ "Proxy-Authorization" ∷ "Te" ∷ "Trailers"
    ∷ "Transfer-Encoding" ∷ "Upgrade" ∷ []

unfoldable pub delete_all : List String → List (String × List String) → List (String × List String)
delete_all [] h = h
delete_all (name ∷ names) h = delete_all names (delete name h)

-- Header.Get: the first value, or the empty text.
abbrev pub get : Option (List String) → String
get none = ""
get (some []) = ""
get (some (v ∷ vs)) = v

-- The value set for X-Forwarded-For.
abbrev pub chain_of : String → String → String
chain_of xff client_ip =
    if str_eq xff "" then client_ip else text_append xff (text_append ", " client_ip)

-- The director, with the URL of the backend that the context holds, if it holds one.
unfoldable pub director : Option Url → Outgoing → Outgoing
director none req = req
director (some u) req =
    let xff = get (lookup forwarded_for req.headers) in
    let h = insert forwarded_for (chain_of xff req.remote_addr ∷ []) req.headers in
    record req {
      scheme = u.scheme;
      url_host = u.host;
      host = u.host;
      headers = delete_all hop_by_hop (insert real_ip (req.remote_addr ∷ []) h);
    }

-- The name stands in the list.
abbrev pub is_listed : String → List String → Bool
is_listed name [] = false
is_listed name (n ∷ ns) = str_eq n name || is_listed name ns

abbrev no_value : Option (List String)
no_value = none

both_none : (b : Bool) → (if b then none else none) ≡ no_value
both_none true = refl
both_none false = refl

lookup-delete_all :
    (name : String) (names : List String) (h : List (String × List String))
    → lookup name (delete_all names h) ≡ (if is_listed name names then none else lookup name h)
unfolding delete_all
lookup-delete_all name [] h = refl
lookup-delete_all name (n ∷ ns) h =
    let rest = lookup-delete_all name ns (delete n h) in
    let here = lookup-delete n name h in
    elim (Bool-cases (str_eq n name)) [
      | inl e ↦ rest ∙ rw (here, e) (both_none (is_listed name ns))
      | inr e ↦ rest ∙ rw (here, e) refl
    ]

-- What the backend is told of the way of the request: the client's address, after the first of the
-- values that were there if that is not empty.
abbrev pub way : Option (List String) → String → String
way none client = client
way (some []) client = client
way (some (v ∷ vs)) client = if str_eq v "" then client else text_append v (text_append ", " client)

way-chain_of : (o : Option (List String)) (client : String) → chain_of (get o) client ≡ way o client
way-chain_of none client = refl
way-chain_of (some []) client = refl
way-chain_of (some (v ∷ vs)) client = refl

-- The names whose headers change.
abbrev pub touched : List String
touched =
    "X-Real-Ip" ∷ "X-Forwarded-For" ∷ "Connection" ∷ "Keep-Alive" ∷ "Proxy-Authenticate"
    ∷ "Proxy-Authorization" ∷ "Te" ∷ "Trailers" ∷ "Transfer-Encoding" ∷ "Upgrade" ∷ []

or_false : (a b : Bool) → (a || b) ≡ false → (a ≡ false) × (b ≡ false)
or_false true b e = cc
or_false false b e = (refl, e)

-- The lines that the backend gets under a name, whatever they were.
out_lookup :
    (u : Url) (req : Outgoing) (name : String)
    → lookup name (director (some u) req).headers ≡ (
        if is_listed name hop_by_hop
        then none
        else if str_eq real_ip name
        then some (req.remote_addr ∷ [])
        else if str_eq forwarded_for name
        then some (way (lookup forwarded_for req.headers) req.remote_addr ∷ [])
        else lookup name req.headers)
unfolding director
out_lookup u req name =
    let xff = chain_of (get (lookup forwarded_for req.headers)) req.remote_addr ∷ [] in
    let h = insert forwarded_for xff req.headers in
    let gone = lookup-delete_all name hop_by_hop (insert real_ip (req.remote_addr ∷ []) h) in
    let real = lookup-insert real_ip name (req.remote_addr ∷ []) h in
    let chained = lookup-insert forwarded_for name xff req.headers in
    rw (sym (way-chain_of (lookup forwarded_for req.headers) req.remote_addr))
      (gone ∙ rw (real, chained) refl)

-- With a backend selected, the director sends the request to its scheme and host: without the
-- headers of the eight hop-by-hop names, with the client's address alone under X-Real-Ip, with one
-- line under X-Forwarded-For, which has the client's address after the first value that was there,
-- so that further lines are dropped, and with every other header as it was.
pub director-headers :
    (u : Url) (req : Outgoing) (name : String)
    → is_listed name touched ≡ false
    → let out = director (some u) req in
      let client = req.remote_addr in
      (out.scheme ≡ u.scheme)
      × (out.url_host ≡ u.host)
      × (out.host ≡ u.host)
      × (lookup "Connection" out.headers ≡ none)
      × (lookup "Keep-Alive" out.headers ≡ none)
      × (lookup "Proxy-Authenticate" out.headers ≡ none)
      × (lookup "Proxy-Authorization" out.headers ≡ none)
      × (lookup "Te" out.headers ≡ none)
      × (lookup "Trailers" out.headers ≡ none)
      × (lookup "Transfer-Encoding" out.headers ≡ none)
      × (lookup "Upgrade" out.headers ≡ none)
      × (lookup "X-Real-Ip" out.headers ≡ some (client ∷ []))
      × (lookup "X-Forwarded-For" out.headers
          ≡ some (way (lookup "X-Forwarded-For" req.headers) client ∷ []))
      × (lookup name out.headers ≡ lookup name req.headers)
unfolding director
director-headers u req name other =
    let (not_real, rest) = or_false (str_eq real_ip name) _ other in
    let (not_forwarded, not_hop) = or_false (str_eq forwarded_for name) _ rest in
    (
      refl,
      refl,
      refl,
      out_lookup u req "Connection",
      out_lookup u req "Keep-Alive",
      out_lookup u req "Proxy-Authenticate",
      out_lookup u req "Proxy-Authorization",
      out_lookup u req "Te",
      out_lookup u req "Trailers",
      out_lookup u req "Transfer-Encoding",
      out_lookup u req "Upgrade",
      out_lookup u req "X-Real-Ip",
      out_lookup u req "X-Forwarded-For",
      out_lookup u req name ∙ rw (not_hop, not_real, not_forwarded) refl,
    )
