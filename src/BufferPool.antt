-- ===== src/BufferPool.antt =====
-- internal/pool/buffer_pool.go. A bytes.Buffer is its unread bytes and its capacity, which is that of
-- a new one after Reset. Buffers stand behind pointers, and sync.Pool may hand out any pointer that
-- was put, or drop it: a Get is given which it takes, and makes a new buffer where there is none.
pub mod Exclusive
use load_balancer.Base.{
  ℕ, zero, suc, ◌+◌, Option, none, some, List, [], ◌∷◌, ltb, ◌==◌, if◌then◌else◌, get_elem?,
}

pub record Buffer : Type 0 where
  pub contents : List ℕ
  pub cap : ℕ

-- `kept` are the pointers in the pool; those from `next` on are free.
pub record State : Type 0 where
  pub buffers : ℕ → Buffer
  pub next : ℕ
  pub kept : List ℕ

unfoldable pub new_buffer_pool : (ℕ → Buffer) → ℕ → State
new_buffer_pool buffers next = record { buffers = buffers; next = next; kept = [] }

abbrev pub set : ℕ → Buffer → (ℕ → Buffer) → ℕ → Buffer
set a b buffers x = if x == a then b else buffers x

-- buf.Reset().
abbrev pub reset : Buffer → Buffer
reset b = record b { contents = [] }

abbrev pub take_or_new : State → Option ℕ → State × ℕ
take_or_new s (some a) = (s, a)
take_or_new s none = (
  record s {
    buffers = set s.next (record { contents = []; cap = 0 }) s.buffers;
    next = s.next + 1;
  },
  s.next,
)

-- The pointers but the one at a place.
abbrev pub without : ℕ → List ℕ → List ℕ
without i [] = []
without zero (a ∷ rest) = rest
without (suc i) (a ∷ rest) = a ∷ without i rest

-- Get; a pointer that the pool hands out is in it no more.
unfoldable pub get : ℕ → State → State × ℕ
get i s =
    let (s', a) = take_or_new (record s { kept = without i s.kept }) (get_elem? s.kept i) in
    (record s' { buffers = set a (reset (s'.buffers a)) s'.buffers }, a)

-- Put: 1 << 20 is the limit.
unfoldable pub put : ℕ → State → State
put a s = record s { kept = if ltb (s.buffers a).cap 1048576 then a ∷ s.kept else s.kept }

-- What a holder may do to its buffer.
unfoldable pub fill : ℕ → Buffer → State → State
fill a b s = record s { buffers = set a b s.buffers }

-- Each use: a Get; a Put of a pointer; a holder's write.
pub data Use : Type 0 where
  gets puts : ℕ → Use
  fills : ℕ → Buffer → Use

unfoldable pub use_pool : Use → State → State
use_pool (gets i) s = (get i s).0
use_pool (puts a) s = put a s
use_pool (fills a b) s = fill a b s

unfoldable pub use_all : List Use → State → State
use_all [] s = s
use_all (u ∷ us) s = use_all us (use_pool u s)
