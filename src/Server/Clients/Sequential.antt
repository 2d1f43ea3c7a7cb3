-- ===== src/Server/Clients/Sequential.antt =====
-- getClient called by one goroutine at a time.
use load_balancer.Base.{
  ℕ, ◌<◌, ◌≡◌, refl, sym, ◌∙◌, inl, inr, true, false, none, some, String, List, [], ◌∷◌, arith,
  str_eq, str_eq_iff, ◌==◌, ==_iff, if◌then◌else◌, Bool-cases, Option-cases,
}
use load_balancer.Base.Dict.{insert, lookup, lookup-insert, lookup-insert_same}
use load_balancer.Server.Clients.{Clients, new_client, make_client, put_client, get_client}

-- Each address in the map has a client made for it.
pub record IsKept (s : Clients) : Type 0 where
  pub made : (addr : String) (a : ℕ) → lookup addr s.clients ≡ some a → a < s.next
  pub own : (addr : String) (a : ℕ) → lookup addr s.clients ≡ some a → (s.cell a).addr ≡ addr

module _ (addr : String) (s : Clients) where
  get_client_found : (a : ℕ) → lookup addr s.clients ≡ some a → get_client addr s ≡ (s, a)
  unfolding get_client
  get_client_found a found = rw (found, get_client) refl

  get_client_fresh :
      lookup addr s.clients ≡ none
      → get_client addr s ≡ (put_client addr s.next (make_client addr s), s.next)
  unfolding get_client
  get_client_fresh missing = rw (missing, get_client) refl

  fresh-IsKept : IsKept s → IsKept (put_client addr s.next (make_client addr s))
  unfolding put_client make_client new_client
  fresh-IsKept h = record {
    made = λ j a e. elim (Bool-cases (str_eq addr j)) [
      | inl same ↦
          let there : some s.next ≡ some a = rw same at (read j a e) in
          let eq : s.next ≡ a = cc in omega arith
      | inr other ↦ let old = h.made j a (rw other at (read j a e)) in omega arith
    ];
    own = λ j a e. elim (Bool-cases (str_eq addr j)) [
      | inl same ↦
          let there : some s.next ≡ some a = rw same at (read j a e) in
          let eq : a ≡ s.next = cc in
          let here : (a == s.next) ≡ true = (==_iff a s.next).1 eq in
          rw here ((str_eq_iff addr j).0 same)
      | inr other ↦
          let old = rw other at (read j a e) in
          let below = h.made j a old in
          let elsewhere : (a == s.next) ≡ false = ground arith in rw elsewhere (h.own j a old)
    ];
  }
    where
      read :
          (j : String) (a : ℕ)
          → lookup j (insert addr s.next s.clients) ≡ some a
          → (if str_eq addr j then some s.next else lookup j s.clients) ≡ some a
      read j a e = sym (lookup-insert addr j s.next s.clients) ∙ e

  get_client-IsKept : IsKept s → IsKept (get_client addr s).0
  get_client-IsKept h = elim (Option-cases (lookup addr s.clients)) [
    | inl missing ↦ rw (get_client_fresh missing) (fresh-IsKept h)
    | inr (a, found) ↦ rw (get_client_found a found) h
  ]

  get_client-lookup : lookup addr (get_client addr s).0.clients ≡ some (get_client addr s).1
  unfolding put_client make_client
  get_client-lookup = elim (Option-cases (lookup addr s.clients)) [
    | inl missing ↦ rw (get_client_fresh missing) (lookup-insert_same addr s.next s.clients)
    | inr (a, found) ↦ rw (get_client_found a found) found
  ]

  -- A client in the map stays there.
  lookup-get_client :
      (j : String) (a : ℕ)
      → lookup j s.clients ≡ some a
      → lookup j (get_client addr s).0.clients ≡ some a
  unfolding put_client make_client
  lookup-get_client j a there = elim (Option-cases (lookup addr s.clients)) [
    | inr (b, found) ↦ rw (get_client_found b found) there
    | inl missing ↦ elim (Bool-cases (str_eq addr j)) [
      | inl same ↦
          let eq : addr ≡ j = (str_eq_iff addr j).0 same in
          let clash : lookup addr s.clients ≡ some a = rw (sym eq) at there in cc
      | inr other ↦
          rw (get_client_fresh missing) (lookup-insert addr j s.next s.clients ∙ rw other there)
    ]
  ]

-- The calls of one request after the other.
unfoldable pub get_clients : List String → Clients → Clients
get_clients [] s = s
get_clients (addr ∷ addrs) s = get_clients addrs (get_client addr s).0

get_clients-IsKept : (addrs : List String) (s : Clients) → IsKept s → IsKept (get_clients addrs s)
unfolding get_clients
get_clients-IsKept [] s h = h
get_clients-IsKept (addr ∷ addrs) s h =
    get_clients-IsKept addrs (get_client addr s).0 (get_client-IsKept addr s h)

lookup-get_clients :
    (addrs : List String) (s : Clients) (j : String) (a : ℕ)
    → lookup j s.clients ≡ some a
    → lookup j (get_clients addrs s).clients ≡ some a
unfolding get_clients
lookup-get_clients [] s j a there = there
lookup-get_clients (addr ∷ addrs) s j a there =
    lookup-get_clients addrs (get_client addr s).0 j a (lookup-get_client addr s j a there)

-- Where every address in the map has a client made for it, and one goroutine calls at a time: the
-- client that getClient gives for an address is for that address, and after any further calls it
-- gives the same one and changes nothing.
pub same_client :
    (s : Clients) (addr : String) (addrs : List String)
    → IsKept s
    → let (s1, a) = get_client addr s in
      let s2 = get_clients addrs s1 in (get_client addr s2 ≡ (s2, a)) × ((s2.cell a).addr ≡ addr)
same_client s addr addrs h =
    let (s1, a) = get_client addr s in
    let s2 = get_clients addrs s1 in
    let kept = get_clients-IsKept addrs s1 (get_client-IsKept addr s h) in
    let there = lookup-get_clients addrs s1 addr a (get_client-lookup addr s) in
    (get_client_found addr s2 a there, kept.own addr a there)
