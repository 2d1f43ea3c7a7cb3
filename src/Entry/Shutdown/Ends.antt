-- ===== src/Entry/Shutdown/Ends.antt =====
-- How a process of cmd/proxy comes to its end.
use load_balancer.Base.{
  ℕ, suc, ◌≡◌, refl, sym, ap, ◌∙◌, ◌≢◌, ◌⊎◌, inl, inr, true, false, arith, ◌==◌, ==_iff, Bool-cases,
}
use load_balancer.Entry.Shutdown.{
  Server, IsDocumented, serving, exited, waiting, stopping, Process, set_server, receive, proceed,
  leave, Step, works, receives, proceeds, leaves, fails, Reach, stays, then_step,
}

module _ (srv : Server) (doc : IsDocumented srv) (count : ℕ) where
  -- Whatever a server has active when the signal comes, the process may end at once with all of it
  -- still active: main returns as soon as ListenAndServe does, while Shutdown still waits.
  pub leaves_undrained :
      (p : Process srv)
      → p.main ≡ serving
      → p.closer ≡ waiting
      → (q : Process srv) × Reach srv count p q
        × (q.main ≡ exited)
        × (q.closer ≡ stopping 0)
        × (srv.active (q.servers 0) ≡ srv.active (p.servers 0))
  unfolding receive leave
  leaves_undrained p up idle = (
    leave srv (receive srv p),
    then_step p (receive srv p) (leave srv (receive srv p))
        (then_step p p (receive srv p) (stays p) (receives p up idle))
        (leaves (receive srv p) up (doc.ends_at_once (p.servers 0))),
    refl,
    refl,
    doc.keeps_active (p.servers 0),
  )

  shut_lem : (s : srv.State) → srv.was_shut (srv.shutdown s) ≡ true
  shut_lem s = doc.ends_closed (srv.shutdown s) (doc.ends_at_once s)

  -- Before the signal nothing is shut and nothing cancelled, and main has not returned; after it
  -- the first server is shut.
  record IsOrdered (p : Process srv) : Type 0 where
    pub unshut : p.closer ≡ waiting → srv.was_shut (p.servers 0) ≡ false
    pub kept : p.closer ≡ waiting → p.cancelled ≡ false
    pub inside : p.closer ≡ waiting → p.main ≢ exited
    pub shut : p.closer ≢ waiting → srv.was_shut (p.servers 0) ≡ true

  works-was_shut :
      (p : Process srv) (i : ℕ) (t : srv.State)
      → srv.Works (p.servers i) t
      → srv.was_shut (set_server srv i t p.servers 0) ≡ srv.was_shut (p.servers 0)
  works-was_shut p i t w = elim (Bool-cases (0 == i)) [
    | inl e ↦
        let same : 0 ≡ i = (==_iff 0 i).0 e in
        rw e (doc.works_shut (p.servers i) t w ∙ ap (λ j. srv.was_shut (p.servers j)) (sym same))
    | inr e ↦ rw e
  ]

  proceed-IsOrdered :
      (p : Process srv) (i : ℕ)
      → p.closer ≡ stopping i
      → IsOrdered p
      → IsOrdered (proceed srv count i p)
  unfolding proceed
  proceed-IsOrdered p i stop h =
      let before : srv.was_shut (p.servers 0) ≡ true = h.shut (λ e. cc) in
      elim (Bool-cases (suc i == count)) [
        | inl e ↦
            rw e (record { unshut = λ q. cc; kept = λ q. cc; inside = λ q. cc; shut = λ q. before })
        | inr e ↦
            let other : (0 == suc i) ≡ false = ground arith in
            rw e (record {
              unshut = λ q. cc;
              kept = λ q. cc;
              inside = λ q. cc;
              shut = λ q. rw other before;
            })
      ]

  Step-IsOrdered : (p q : Process srv) → Step srv count p q → IsOrdered p → IsOrdered q
  unfolding receive leave
  Step-IsOrdered p _ (works _ i t up lt w) h = record {
    unshut = λ idle. works-was_shut p i t w ∙ h.unshut idle;
    kept = h.kept;
    inside = h.inside;
    shut = λ busy. works-was_shut p i t w ∙ h.shut busy;
  }
  Step-IsOrdered p _ (receives _ up idle) h = record {
    unshut = λ e. cc;
    kept = λ e. cc;
    inside = λ e. cc;
    shut = λ e. shut_lem (p.servers 0);
  }
  Step-IsOrdered p _ (proceeds _ i up stop drained) h = proceed-IsOrdered p i stop h
  Step-IsOrdered p _ (leaves _ up ends) h =
      let closed = doc.ends_closed (p.servers 0) ends in
      record {
        unshut = h.unshut;
        kept = λ idle. let clash = h.unshut idle in cc;
        inside = λ idle. let clash = h.unshut idle in cc;
        shut = λ busy. closed;
      }
  Step-IsOrdered p _ (fails _ i up lt ends) h = record {
    unshut = h.unshut;
    kept = h.kept;
    inside = λ e f. cc;
    shut = h.shut;
  }

  Reach-IsOrdered : (p q : Process srv) → Reach srv count p q → IsOrdered p → IsOrdered q
  Reach-IsOrdered p _ (stays _) h = h
  Reach-IsOrdered p _ (then_step _ m q before last) h =
      Step-IsOrdered m q last (Reach-IsOrdered p m before h)

  -- main returns, and the context of the checker and the watcher is cancelled, only after the
  -- signal and the call of Shutdown of the first server.
  pub ends_after_signal :
      (p q : Process srv)
      → p.main ≡ serving
      → p.closer ≡ waiting
      → p.cancelled ≡ false
      → srv.was_shut (p.servers 0) ≡ false
      → Reach srv count p q
      → (q.main ≡ exited) ⊎ (q.cancelled ≡ true)
      → (q.closer ≢ waiting) × (srv.was_shut (q.servers 0) ≡ true)
  ends_after_signal p q up idle kept fresh way ended =
      let start : IsOrdered p = record {
        unshut = λ e. fresh;
        kept = λ e. kept;
        inside = λ e f. cc;
        shut = λ busy. absurd (busy idle);
      } in
      let h = Reach-IsOrdered p q way start in
      let busy : q.closer ≢ waiting =
        λ e. elim ended [ inl out ↦ h.inside e out | inr gone ↦ let clash = h.kept e in cc ] in
      (busy, h.shut busy)
