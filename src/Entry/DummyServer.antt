-- ===== src/Entry/DummyServer.antt =====
-- cmd/server/dummy_server.go: the statuses of its two handlers, and which servers main starts. A
-- query parameter is given as its text, the empty one where it is missing; `atoi` is strconv.Atoi,
-- with an int bit pattern, and `none` for its error. The sleep and the bodies are left out.
use load_balancer.Base.{
  ℕ, ◌≤◌, ◌<◌, ◌≡◌, inl, inr, Bool, not, ◌&&◌, ◌||◌, Option, none, some, String, List, [], ◌∷◌,
  arith, str_eq, if◌then◌else◌, Bool-cases, Option-cases, u64_mod, slt, text_append,
}

-- /health.
abbrev pub health_status : ℕ
health_status = 200

abbrev simulated : Option ℕ → ℕ
simulated none = 200
simulated (some code) = if not (slt code 100) && slt code 600 then code else 200

-- "/": a status asked for, if it is one, and else 200.
unfoldable pub root_status : (String → Option ℕ) → String → ℕ
root_status atoi asked = if str_eq asked "" then 200 else simulated (atoi asked)

abbrev pub all_servers : List (String × String)
all_servers =
    ("8082", "backend-1")
    ∷ ("8083", "backend-2")
    ∷ ("8084", "backend-3")
    ∷ ("8085", "backend-4")
    ∷ ("8086", "backend-5")
    ∷ []

-- The ports and identifiers of the servers that main starts: `port` and `all` are the flags,
-- `env_port` and `sid` the environment's.
unfoldable pub servers : String → Bool → String → String → List (String × String)
servers port all env_port sid =
    let own = if str_eq port "" then env_port else port in
    let name = if str_eq sid "" then text_append "backend-" own else sid in
    if all || (str_eq port "" && str_eq env_port "") then all_servers else (own, name) ∷ []

in_range : (n : ℕ) → n < u64_mod → (100 ≤ simulated (some n)) × (simulated (some n) < 600)
in_range n small = ground arith

-- Whatever is asked for, where Atoi gives an int, the root handler answers with a status from 100
-- to 599, so that net/http does not panic.
pub root_status-bounded :
    (atoi : String → Option ℕ) (asked : String)
    → ((n : ℕ) → atoi asked ≡ some n → n < u64_mod)
    → (100 ≤ root_status atoi asked) × (root_status atoi asked < 600)
unfolding root_status
root_status-bounded atoi asked ints = elim (Bool-cases (str_eq asked "")) [
  | inl e ↦ rw e (omega arith, omega arith)
  | inr e ↦ elim (Option-cases (atoi asked)) [
    | inl f ↦ rw (e, f) (omega arith, omega arith)
    | inr (n, f) ↦ let small = ints n f in rw (e, f) (in_range n small)
  ]
]
