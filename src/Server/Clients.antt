-- ===== src/Server/Clients.antt =====
-- internal/server/fastproxy.go, getClient: one HostClient for each address, in a map without a lock.
-- The clients stand in an arena, behind the pointers that the map holds. What a client does belongs
-- to fasthttp.
pub mod Sequential
pub mod Race
use load_balancer.Base.{
  ℕ, suc, ◌+◌, ◌*◌, ◌≡◌, ◌≢◌, Bool, true, Option, none, some, String, List, [], ◌==◌, if◌then◌else◌,
}
use load_balancer.Base.Dict.{insert, lookup}

-- What getClient sets in a client; the durations are in seconds.
pub record HostClient : Type 0 where
  pub addr : String
  pub max_conns : ℕ
  pub max_idle_conn_duration : ℕ
  pub read_timeout : ℕ
  pub write_timeout : ℕ
  pub max_conn_duration : ℕ
  pub disable_header_names_normalizing : Bool
  pub disable_path_normalizing : Bool

unfoldable pub new_client : String → HostClient
new_client addr = record {
  addr = addr;
  max_conns = 10000;
  max_idle_conn_duration = 90;
  read_timeout = 10;
  write_timeout = 10;
  max_conn_duration = 300;
  disable_header_names_normalizing = true;
  disable_path_normalizing = true;
}

pub record Clients : Type 0 where
  pub clients : List (String × ℕ)
  pub cell : ℕ → HostClient
  pub next : ℕ

-- `c := &fasthttp.HostClient{...}`: the client stands at the next address of the arena.
unfoldable pub make_client : String → Clients → Clients
unfolding new_client
make_client addr s = record s {
  cell = λ a. if a == s.next then new_client addr else s.cell a;
  next = suc s.next;
}

-- `p.clients[addr] = c`.
unfoldable pub put_client : String → ℕ → Clients → Clients
put_client addr a s = record s { clients = insert addr a s.clients }

-- getClient, with nobody else in it.
unfoldable pub get_client : String → Clients → Clients × ℕ
unfolding make_client put_client
get_client addr s = elim (lookup addr s.clients) [
  | some a ↦ (s, a)
  | none ↦ (put_client addr s.next (make_client addr s), s.next)
]
