-- ===== src/Entry/Started.antt =====
-- What main in cmd/proxy/main.go has built when the servers start, and when it ends before that.
use load_balancer.Base.{
  append_nil, append_assoc, keep-All, ℕ, zero, suc, ◌+◌, ◌<◌, ◌≡◌, refl, sym, ap, ◌∙◌, ◌≢◌, ◌↔◌,
  inl, inr, Bool, true, Option, none, some, String, List, [], ◌∷◌, ◌++◌, map, arith, str_eq, ==_iff,
  Bool-cases, Option-cases, length, In, All,
}
use load_balancer.Balancer.Backend.{Backend, Heap, Ref, Url, new_backend, is_alive}
use load_balancer.Balancer.Pool.{Pool, new_pool, add_backend, healthy_backends, all_backends}
use load_balancer.Balancer.Total.{IsServed, every_strategy_serves}
use load_balancer.Balancer.Weighted.{new_weighted}
use load_balancer.Balancer.ConsistentHash.{new_consistent_hash}
use load_balancer.Config.{Config, BackendConfig}
use load_balancer.Config.BackendPart.{BackendOk}
use load_balancer.Config.Valid.{IsValid}
use load_balancer.Entry.Startup.{choose_strategy, serve, allocate, add_backends, Running, start}

-- The addresses from `next` on.
abbrev pub addresses : Ref → ℕ → List Ref
addresses next zero = []
addresses next (suc n) = next ∷ addresses (next + 1) n

module _ (parse : String → Option Url) where
  -- The backend that NewBackend makes for an entry of the configuration.
  abbrev pub configured : BackendConfig → Option Backend
  configured bc = new_backend parse bc.url bc.weight

  -- The loop leaves alone what was there, and puts the configured backends, alive, at the addresses
  -- from `next` on, which it appends to the pool.
  record IsAdded (next : Ref) (h : Heap) (p : Pool) (bcs : List BackendConfig) (h' : Heap)
      (p' : Pool) : Type 0 where
    pub pooled : p'.backends ≡ p.backends ++ addresses next (length bcs)
    pub kept : (r : Ref) → r < next → h' r ≡ h r
    pub built : map (λ r. some (h' r)) (addresses next (length bcs)) ≡ map configured bcs
    pub alive : All (λ r. is_alive (h' r) ≡ true) (addresses next (length bcs))

  new_backend-alive :
      (bc : BackendConfig) (u : Url)
      → parse bc.url ≡ some u
      → (b : Backend) × (configured bc ≡ some b) × (is_alive b ≡ true)
  unfolding new_backend is_alive
  new_backend-alive bc u e = rw (e, new_backend) (_, refl, refl)

  other : (next r : Ref) (b : Backend) (h : Heap) → r < next → allocate next b h r ≡ h r
  other next r b h below = ground (arith, below)

  add_backends-IsAdded :
      (bcs : List BackendConfig) (next : Ref) (h : Heap) (p : Pool)
      → All (BackendOk parse) bcs
      → (h' : Heap) × (p' : Pool) × (add_backends parse bcs next h p ≡ some (h', p'))
        × IsAdded next h p bcs h' p'
  unfolding add_backends add_backend
  add_backends-IsAdded [] next h p ok = (
    h,
    p,
    refl,
    record { pooled = append_nil p.backends; kept = λ r below. refl; built = refl; alive = tt },
  )
  add_backends-IsAdded (bc ∷ bcs) next h p ((filled, (u, parsed, scheme, host), weight), ok) =
      let (b, made, lives) = new_backend-alive bc u parsed in
      let (h', p', done, added) =
        add_backends-IsAdded bcs (next + 1) (allocate next b h) (add_backend next p) ok in
      let here : h' next ≡ b =
        added.kept next (omega arith) ∙ rw ((==_iff next next).1 refl) refl in
      (
        h',
        p',
        rw (made, add_backends) done,
        record {
          pooled =
              added.pooled
              ∙ append_assoc p.backends (next ∷ []) (addresses (next + 1) (length bcs));
          kept = λ r below. added.kept r (omega arith) ∙ other next r b h below;
          built = rw (here, made, added.built) refl;
          alive = (rw here lives, added.alive);
        },
      )

length-addresses : (next : Ref) (n : ℕ) → length (addresses next n) ≡ n
length-addresses next zero = refl
length-addresses next (suc n) = ap suc (length-addresses (next + 1) n)

some_pos : {A : Type 0} → (xs : List A) → xs ≢ [] → 0 < length xs
some_pos [] filled = absurd (filled refl)
some_pos (x ∷ xs) filled = omega arith

serve-IsServed :
    (name key : String) (h : Heap) (p : Pool)
    → 0 < length (healthy_backends h p)
    → IsServed h p (serve (choose_strategy name) key h p).1
unfolding serve choose_strategy
serve-IsServed name key h p pos =
    let (by_robin, by_least, by_weight, by_hash) =
      every_strategy_serves (record { next = 0 }) new_weighted (new_consistent_hash 150) h p key pos
        (unfold new_weighted in omega arith) (unfold new_consistent_hash in omega arith)
        (unfold new_consistent_hash in inl refl) in
    elim (Bool-cases (str_eq name "least_conn")) [
      | inl e ↦ rw e by_least
      | inr e ↦ elim (Bool-cases (str_eq name "consistent_hash")) [
        | inl e2 ↦ rw (e, e2) by_hash
        | inr e2 ↦ elim (Bool-cases (str_eq name "weighted_round_robin")) [
          | inl e3 ↦ rw (e, e2, e3) by_weight
          | inr e3 ↦ rw (e, e2, e3) by_robin
        ]
      ]
    ]

-- What runs from a configuration: a backend for each entry, as NewBackend makes it, all of them
-- healthy, in the order of the entries.
abbrev pub IsRunning : (String → Option Url) → Config → Running → Type 0
IsRunning parse c run =
    (all_backends run.pool ≡ addresses 0 (length c.backends))
    × (healthy_backends run.heap run.pool ≡ all_backends run.pool)
    × (map (λ r. some (run.heap r)) (all_backends run.pool) ≡ map (configured parse) c.backends)

-- With a valid configuration main comes to the servers, with a healthy backend for each entry, in
-- order and as NewBackend makes it, and the strategy chosen by name answers the first request,
-- whatever its key, with one of them.
pub started :
    (parse : String → Option Url) (exists : String → Bool) (h : Heap) (c : Config) (key : String)
    → IsValid parse exists c
    → (run : Running) × (start parse h c ≡ some run)
      × IsRunning parse c run
      × IsServed run.heap run.pool (serve run.strategy key run.heap run.pool).1
unfolding start all_backends healthy_backends new_pool
started parse exists h c key valid =
    let (h', p, done, added) = add_backends-IsAdded parse c.backends 0 h new_pool valid.backends in
    let alive = keep-All (λ r. is_alive (h' r)) (addresses 0 (length c.backends)) added.alive in
    let all_of : healthy_backends h' p ≡ p.backends = rw (added.pooled) alive in
    let some_one : 0 < length (healthy_backends h' p) =
      rw (all_of, added.pooled, length-addresses 0 (length c.backends))
        (some_pos c.backends valid.some_backend) in
    (
      record { heap = h'; pool = p; strategy = choose_strategy c.strategy },
      rw (done, start) refl,
      (added.pooled, all_of, rw added.pooled added.built),
      serve-IsServed c.strategy key h' p some_one,
    )

some-none : {A : Type 0} → (x : A) → ¬ (some x ≡ none)
some-none x h = cc

new_backend-none_iff :
    (parse : String → Option Url) (bc : BackendConfig)
    → (configured parse bc ≡ none) ↔ (parse bc.url ≡ none)
unfolding new_backend
new_backend-none_iff parse bc = elim (Option-cases (parse bc.url)) [
  | inl e ↦ (λ h. e, λ h. rw (e, new_backend) refl)
  | inr (u, e) ↦ (λ h. absurd (some-none _ (rw (e, new_backend) at h)), λ h. cc)
]

-- An entry of the list whose URL does not parse.
abbrev pub HasBadUrl : (String → Option Url) → List BackendConfig → Type 0
HasBadUrl parse bcs = (bc : BackendConfig) × In bc bcs × (parse bc.url ≡ none)

later_bad :
    (parse : String → Option Url) (bc : BackendConfig) (bcs : List BackendConfig) (b : Backend)
    → configured parse bc ≡ some b
    → HasBadUrl parse (bc ∷ bcs)
    → HasBadUrl parse bcs
later_bad parse bc bcs b made (bad, inr later, fails) = (bad, later, fails)
later_bad parse bc bcs b made (bad, inl same, fails) =
    let failed = (new_backend-none_iff parse bc).1 (rw same at fails) in
    absurd (some-none b (sym made ∙ failed))

add_backends-none_iff :
    (parse : String → Option Url) (bcs : List BackendConfig) (next : Ref) (h : Heap) (p : Pool)
    → (add_backends parse bcs next h p ≡ none) ↔ HasBadUrl parse bcs
unfolding add_backends
add_backends-none_iff parse [] next h p = (λ e. cc, λ (bc, none_in, bad). elim none_in [ ])
add_backends-none_iff parse (bc ∷ bcs) next h p = elim (Option-cases (configured parse bc)) [
  | inl failed ↦ (
    λ e. (bc, inl refl, (new_backend-none_iff parse bc).0 failed),
    λ e. rw (failed, add_backends) refl,
  )
  | inr (b, made) ↦
      let rest =
        add_backends-none_iff parse bcs (next + 1) (allocate next b h) (add_backend next p) in
      (
        λ e.
            let (bad, place, fails) = rest.0 (rw (made, add_backends) at e) in
            (bad, inr place, fails),
        λ q. rw (made, add_backends) (rest.1 (later_bad parse bc bcs b made q)),
      )
]

-- main ends with "bad backend url" exactly if the URL of some entry does not parse.
pub start-none_iff :
    (parse : String → Option Url) (h : Heap) (c : Config)
    → (start parse h c ≡ none) ↔ HasBadUrl parse c.backends
unfolding start
start-none_iff parse h c = elim (Option-cases (add_backends parse c.backends 0 h new_pool)) [
  | inl e ↦
      (λ q. (add_backends-none_iff parse c.backends 0 h new_pool).0 e, λ q. rw (e, start) refl)
  | inr ((h', p), e) ↦ (
    λ q. absurd (some-none _ (rw (e, start) at q)),
    λ q. absurd (some-none _ (sym e ∙ (add_backends-none_iff parse c.backends 0 h new_pool).1 q)),
  )
]
