-- ===== src/Server/Clients/Race.antt =====
-- getClient called by several goroutines at once, as fasthttp does: the read of the map, the new
-- client, and the write of the map are steps of their own, and between the last two the goroutine is
-- in the write. The Go runtime ends the process when it sees two goroutines in writes of one map.
use load_balancer.Base.{ℕ, suc, ◌≡◌, ◌≢◌, none, some, String, arith, ◌==◌, if◌then◌else◌}
use load_balancer.Base.Dict.{lookup}
use load_balancer.Server.Clients.{Clients, make_client, put_client}

-- Where a goroutine stands.
pub data Phase : Type 0 where
  outside : Phase
  missed : String → Phase
  writing : String → ℕ → Phase
  holding : String → ℕ → Phase

pub record Shared : Type 0 where
  pub clients : Clients
  pub phase : ℕ → Phase

unfoldable pub move : ℕ → Phase → Clients → Shared → Shared
move t ph cs s = record { clients = cs; phase = λ u. if u == t then ph else s.phase u }

pub data Step : Shared → Shared → Type 0 where
  hits :
      (s : Shared) (t : ℕ) (addr : String) (a : ℕ)
      → s.phase t ≡ outside
      → lookup addr s.clients.clients ≡ some a
      → Step s (move t (holding addr a) s.clients s)
  misses :
      (s : Shared) (t : ℕ) (addr : String)
      → s.phase t ≡ outside
      → lookup addr s.clients.clients ≡ none
      → Step s (move t (missed addr) s.clients s)
  makes :
      (s : Shared) (t : ℕ) (addr : String)
      → s.phase t ≡ missed addr
      → Step s (move t (writing addr s.clients.next) (make_client addr s.clients) s)
  writes :
      (s : Shared) (t : ℕ) (addr : String) (a : ℕ)
      → s.phase t ≡ writing addr a
      → Step s (move t (holding addr a) (put_client addr a s.clients) s)
  goes :
      (s : Shared) (t : ℕ) (addr : String) (a : ℕ)
      → s.phase t ≡ holding addr a
      → Step s (move t outside s.clients s)

pub data Reach : Shared → Shared → Type 0 where
  stays : (s : Shared) → Reach s s
  then_step : (s m e : Shared) → Reach s m → Step m e → Reach s e

-- Two goroutines that ask for addresses without a client, the same one or two, may be in the write
-- of the map at once; if the runtime does not see it, both hold clients, which are two even for
-- one address.
pub writes_clash :
    (s : Shared) (t u : ℕ) (x y : String)
    → t ≢ u
    → s.phase t ≡ outside
    → s.phase u ≡ outside
    → lookup x s.clients.clients ≡ none
    → lookup y s.clients.clients ≡ none
    → (c e : Shared) × (a b : ℕ) × Reach s c
      × Reach c e
      × (c.phase t ≡ writing x a)
      × (c.phase u ≡ writing y b)
      × (e.phase t ≡ holding x a)
      × (e.phase u ≡ holding y b)
      × (a ≢ b)
unfolding move make_client
writes_clash s t u x y apart t_out u_out no_x no_y =
    let n = s.clients.next in
    let s1 = move t (missed x) s.clients s in
    let s2 = move u (missed y) s.clients s1 in
    let c1 = make_client x s.clients in
    let s3 = move t (writing x n) c1 s2 in
    let c2 = make_client y c1 in
    let s4 = move u (writing y (suc n)) c2 s3 in
    let c3 = put_client x n c2 in
    let s5 = move t (holding x n) c3 s4 in
    let s6 = move u (holding y (suc n)) (put_client y (suc n) c3) s5 in
    let way =
      then_step s s3 s4
        (then_step s s2 s3
          (then_step s s1 s2 (then_step s s s1 (stays s) (misses s t x t_out no_x))
            (misses s1 u y (ground arith) no_y))
          (makes s2 t x (ground arith)))
        (makes s3 u y (ground arith)) in
    let rest =
      then_step s4 s5 s6 (then_step s4 s4 s5 (stays s4) (writes s4 t x n (ground arith)))
        (writes s5 u y (suc n) (ground arith)) in
    (
      s4,
      s6,
      n,
      suc n,
      way,
      rest,
      ground arith,
      ground arith,
      ground arith,
      ground arith,
      λ (e : n ≡ suc n). omega arith,
    )
