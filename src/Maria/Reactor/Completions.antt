-- ===== src/Maria/Reactor/Completions.antt =====
-- Which handlers are called, when composed operations of one connection interleave.
use amy.Prelude.{ℕ, zero, suc, ◌+◌, ◌≡◌, refl, Option, none, some, List, [], ◌∷◌, ◌++◌, arith}
use amy.Errors.{ErrorCode}
use amy.Client.{ClientLib}
use amy.Async.Completions.{tick}
use amy.Maria.{
  NonBlocking, MariaConn, read, write, timeout, nothing, Next, invokes, waits, event_status,
}
use amy.Maria.Reactor.Asks.{
  AsksEvents, Resumable, event_status-Asks, query_resume-Resumable, async_query-Resumable,
  connect_resume-Resumable, async_connect-Resumable,
}
use amy.Maria.Reactor.Asks.Results.{
  store_resume-Resumable, async_store_result-Resumable, result_resume-Resumable,
  async_query_result-Resumable,
}
use amy.Maria.Reactor.{
  Operation, connecting, querying, storing, reading, Pending, Called, Reactor, Happening, connects,
  queries, stores, queries_result, cancels, closes, happens, beside, taken, settle, resume,
  happened, step, run, new_reactor,
}

-- How often the event issues the handler h.
abbrev pub issues : ℕ → Happening → ℕ
issues h (connects endpoint auth database flags handler) = tick handler h
issues h (queries stmt handler) = tick handler h
issues h (stores handler) = tick handler h
issues h (queries_result stmt handler) = tick handler h
issues h _ = 0

abbrev pub issued : ℕ → List Happening → ℕ
issued h [] = 0
issued h (a ∷ rest) = issues h a + issued h rest

-- How often the handler h was called, and is held by an operation that waits for an event.
abbrev pub called_count : ℕ → List Called → ℕ
called_count h [] = 0
called_count h (k ∷ ks) = tick k.handler h + called_count h ks

abbrev pub pending_count : (L : ClientLib) → ℕ → List (Pending L) → ℕ
pending_count L h [] = 0
pending_count L h (p ∷ ps) = tick p.handler h + pending_count L h ps

called_count-append :
    (h : ℕ) (xs ys : List Called)
    → called_count h (xs ++ ys) ≡ called_count h xs + called_count h ys
called_count-append h [] ys = omega arith
called_count-append h (x ∷ xs) ys = omega (arith, called_count-append h xs ys)

module _ (L : ClientLib) where
  pending_count-append :
      (h : ℕ) (xs ys : List (Pending L))
      → pending_count L h (xs ++ ys) ≡ pending_count L h xs + pending_count L h ys
  pending_count-append h [] ys = omega arith
  pending_count-append h (x ∷ xs) ys = omega (arith, pending_count-append h xs ys)

  -- All that the handler h has or will have.
  abbrev pub count : ℕ → Reactor L → ℕ
  count h s = called_count h s.called + pending_count L h s.pending

  pending_count-taken :
      (h : ℕ) (xs : List (Pending L)) (i : ℕ) (p : Pending L) (rest : List (Pending L))
      → taken xs i ≡ some (p, rest)
      → pending_count L h xs ≡ tick p.handler h + pending_count L h rest
  pending_count-taken h [] i p rest e = absurd (ground arith)
  pending_count-taken h (x ∷ xs) zero p rest e = ground arith
  pending_count-taken h (x ∷ xs) (suc i) p rest e =
      by_rest (taken xs i) (λ q more. pending_count-taken h xs i q more) e
    where
      by_rest :
          (o : Option (Pending L × List (Pending L)))
          → ((q : Pending L) (more : List (Pending L))
              → o ≡ some (q, more)
              → pending_count L h xs ≡ tick q.handler h + pending_count L h more)
          → beside x o ≡ some (p, rest)
          → pending_count L h (x ∷ xs) ≡ tick p.handler h + pending_count L h rest
      by_rest none ih e = absurd (ground arith)
      by_rest (some (y, r)) ih e = ground (arith, ih y r refl)

module _ (L : ClientLib) (N : NonBlocking L) (operation_aborted : ErrorCode) (nonblock : ℕ) where
  settle-count :
      {S : Type 0} (h : ℕ) (operation : S → Operation L) (handler : ℕ) (n : Next L S)
      (s : Reactor L)
      → Resumable L N n
      → count L h (settle L N operation_aborted nonblock operation handler n s)
        ≡ tick handler h + count L h s
  unfolding settle
  settle-count h operation handler (invokes ec rs c) s resumable = omega (
    arith,
    called_count-append h s.called (record { handler = handler; ec = ec; result = rs } ∷ []),
  )
  settle-count h operation handler (waits nothing op c) s resumable = absurd (resumable refl)
  settle-count h operation handler (waits read op c) s resumable = omega (
    arith,
    pending_count-append L h s.pending
        (record { handler = handler; wait = read; operation = operation op } ∷ []),
  )
  settle-count h operation handler (waits write op c) s resumable = omega (
    arith,
    pending_count-append L h s.pending
        (record { handler = handler; wait = write; operation = operation op } ∷ []),
  )
  settle-count h operation handler (waits timeout op c) s resumable = omega (
    arith,
    pending_count-append L h s.pending
        (record { handler = handler; wait = timeout; operation = operation op } ∷ []),
  )

  module _ (events : AsksEvents L N) where
    resume-count :
        (h : ℕ) (operation : Operation L) (p : Pending L) (ec : ErrorCode) (s : Reactor L)
        → p.operation ≡ operation
        → count L h (resume L N operation_aborted nonblock p ec s) ≡ tick p.handler h + count L h s
    unfolding resume
    resume-count h (connecting op) p ec s e = rw e (
        settle-count h connecting p.handler _ s
          (connect_resume-Resumable L N operation_aborted nonblock events op ec _ s.conn))
    resume-count h (querying op) p ec s e = rw e (
        settle-count h querying p.handler _ s
          (query_resume-Resumable L N operation_aborted events op ec _ s.conn))
    resume-count h (storing op) p ec s e = rw e (
        settle-count h storing p.handler _ s (
          store_resume-Resumable L N operation_aborted events op ec (event_status L N p.wait) s.conn
            (event_status-Asks L N p.wait events)))
    resume-count h (reading op) p ec s e = rw e (
        settle-count h reading p.handler _ s (
          result_resume-Resumable L N operation_aborted events op ec (event_status L N p.wait)
            s.conn (event_status-Asks L N p.wait events)))

    happened-count :
        (h : ℕ) (o : Option (Pending L × List (Pending L))) (i : ℕ) (ec : ErrorCode) (s : Reactor L)
        → taken s.pending i ≡ o
        → count L h (happened L N operation_aborted nonblock o ec s) ≡ count L h s
    unfolding happened
    happened-count h none i ec s e = refl
    happened-count h (some (p, rest)) i ec s e = omega (
      arith,
      resume-count h p.operation p ec (record s { pending = rest }) refl,
      pending_count-taken L h s.pending i p rest e,
    )

    step-count :
        (h : ℕ) (s : Reactor L) (a : Happening)
        → count L h (step L N operation_aborted nonblock s a) ≡ issues h a + count L h s
    unfolding step
    step-count h s (connects endpoint auth database flags handler) =
        settle-count h connecting handler _ s (
          async_connect-Resumable L N operation_aborted nonblock events endpoint auth database flags
            s.conn)
    step-count h s (queries stmt handler) =
        settle-count h querying handler _ s
          (async_query-Resumable L N operation_aborted events stmt s.conn)
    step-count h s (stores handler) =
        settle-count h storing handler _ s
          (async_store_result-Resumable L N operation_aborted events s.conn)
    step-count h s (queries_result stmt handler) =
        settle-count h reading handler _ s
          (async_query_result-Resumable L N operation_aborted events stmt s.conn)
    step-count h s cancels = omega arith
    step-count h s closes = omega arith
    step-count h s (happens i ec) = omega (arith, happened-count h (taken s.pending i) i ec s refl)

    run-count :
        (h : ℕ) (s : Reactor L) (hs : List Happening)
        → count L h (run L N operation_aborted nonblock s hs) ≡ issued h hs + count L h s
    unfolding run
    run-count h s [] = omega arith
    run-count h s (a ∷ hs) =
        omega (arith, step-count h s a, run-count h (step L N operation_aborted nonblock s a) hs)

  -- However calls, cancelations, closes and the events that the composed operations of a connection
  -- wait for interleave, every handler was called as often as it was issued, less the operations that
  -- still wait with it for a read, a write or a timeout: none is lost, and none is called twice. The
  -- client library asks for one of these three whenever it suspends a call; where it does not, the
  -- operation is destroyed with its handler.
  pub called_count-run :
      (h : ℕ) (c : MariaConn L) (hs : List Happening)
      → AsksEvents L N
      → let s = run L N operation_aborted nonblock (new_reactor L c) hs in
        called_count h s.called + pending_count L h s.pending ≡ issued h hs
  called_count-run h c hs events = omega (arith, run-count events h (new_reactor L c) hs)
