-- ===== src/Entry/Shutdown.antt =====
-- cmd/proxy/net.go and cmd/proxy/fasthttp.go, from the start of the servers on: main waits in
-- ListenAndServe of the first server, and a goroutine of its own for each other server; one more
-- waits for a signal, calls Shutdown of the servers in order and cancels the context. net.go has one
-- server; fasthttp.go has two, the second for the admin routes. The servers belong to net/http and
-- fasthttp and are parameters.
pub mod Ends
use load_balancer.Base.{
  ℕ, suc, ◌+◌, ◌<◌, ◌≡◌, refl, sym, ◌∙◌, ◌≢◌, ◌⊎◌, inl, inr, Bool, true, false, ◌||◌, arith, ◌==◌,
  if◌then◌else◌, Bool-cases,
}

-- How ListenAndServe returns: because of a Shutdown (ErrServerClosed, or nil in fasthttp), or with
-- an error that the code hands to logger.Fatal.
pub data End : Type 0 where
  server_closed failed : End

-- A server as the program sees it: `Works` is what it does by itself, `Ends` how ListenAndServe may
-- return now, `IsDrained` that Shutdown may return, which includes the end of its time.
pub record Server : Type 1 where
  pub State : Type 0
  pub Works : State → State → Type 0
  pub Ends : State → End → Type 0
  pub IsDrained : State → Type 0
  pub shutdown : State → State
  pub active : State → ℕ
  pub was_shut : State → Bool

-- What is documented of it: after the call of Shutdown ListenAndServe returns at once, it does so
-- in that way only after the call, and Shutdown interrupts no active connection.
pub record IsDocumented (srv : Server) : Type 0 where
  pub ends_at_once : (s : srv.State) → srv.Ends (srv.shutdown s) server_closed
  pub ends_closed : (s : srv.State) → srv.Ends s server_closed → srv.was_shut s ≡ true
  pub works_shut : (s t : srv.State) → srv.Works s t → srv.was_shut t ≡ srv.was_shut s
  pub keeps_active : (s : srv.State) → srv.active (srv.shutdown s) ≡ srv.active s

pub data Main : Type 0 where
  serving exited fatal : Main

-- The goroutine that waits for the signal: `stopping i` is in Shutdown of server i.
pub data Closer : Type 0 where
  waiting complete : Closer
  stopping : ℕ → Closer

module _ (srv : Server) where
  pub record Process : Type 0 where
    pub main : Main
    pub closer : Closer
    pub servers : ℕ → srv.State
    pub cancelled : Bool

  abbrev pub set_server : ℕ → srv.State → (ℕ → srv.State) → ℕ → srv.State
  set_server i s servers j = if j == i then s else servers j

  -- `<-sigCh`, and the call of the first Shutdown.
  unfoldable pub receive : Process → Process
  receive p = record p {
    closer = stopping 0;
    servers = set_server 0 (srv.shutdown (p.servers 0)) p.servers;
  }

  -- Shutdown of server i returns: the next one is called, or the context is cancelled.
  unfoldable pub proceed : ℕ → ℕ → Process → Process
  proceed count i p =
      if suc i == count then record p { closer = complete; cancelled = true } else record p {
        closer = stopping (suc i);
        servers = set_server (suc i) (srv.shutdown (p.servers (suc i))) p.servers;
      }

  -- ListenAndServe of the first server returns, and with it runNetHttp or runFasthttp and main,
  -- whose deferred call cancels the context: the process ends.
  unfoldable pub leave : Process → Process
  leave p = record p { main = exited; cancelled = true }

  -- One step of the process, which has `count` servers. Nothing happens once main is at its end.
  pub data Step (count : ℕ) : Process → Process → Type 0 where
    works :
        (p : Process) (i : ℕ) (t : srv.State)
        → p.main ≡ serving
        → i < count
        → srv.Works (p.servers i) t
        → Step count p (record p { servers = set_server i t p.servers })
    receives : (p : Process) → p.main ≡ serving → p.closer ≡ waiting → Step count p (receive p)
    proceeds :
        (p : Process) (i : ℕ)
        → p.main ≡ serving
        → p.closer ≡ stopping i
        → srv.IsDrained (p.servers i)
        → Step count p (proceed count i p)
    leaves :
        (p : Process)
        → p.main ≡ serving
        → srv.Ends (p.servers 0) server_closed
        → Step count p (leave p)
    fails :
        (p : Process) (i : ℕ)
        → p.main ≡ serving
        → i < count
        → srv.Ends (p.servers i) failed
        → Step count p (record p { main = fatal })

  pub data Reach (count : ℕ) : Process → Process → Type 0 where
    stays : (p : Process) → Reach count p p
    then_step : (p q r : Process) → Reach count p q → Step count q r → Reach count p r

-- The number of servers of runNetHttp, and of runFasthttp.
abbrev pub net_count : ℕ
net_count = 1

abbrev pub fast_count : ℕ
fast_count = 2
