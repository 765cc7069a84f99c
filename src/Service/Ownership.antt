-- ===== src/Service/Ownership.antt =====
-- Which results of the client library are allocated, and which result sets have expired.
use amy.Prelude.{
  ℕ, ◌≡◌, ◌<◌, refl, Bool, true, false, not, Option, none, some, List, [], ◌∷◌, arith, ◌==◌,
  if◌then◌else◌, ==_iff,
}
use amy.Errors.{ErrorCode, is_error}
use amy.Client.{ClientLib, Bytes, OptionData}
use amy.Auth.{AuthInfo, Endpoint}
use amy.Results.{empty_set, new_result_set, assign_result}
use amy.Service.Allocation.{kept, reset_result-allocate}
use amy.Service.{
  Conn, has_more_results, new_conn, free_result, allocate, reset_result, cancel, end_session,
  close_impl, close, destroy, open_conn, connect_open, connect, run_query, query, advance,
  assign_last, retrieve, store_result, autocommit, commit, rollback, set_option,
}

module _ (L : ClientLib) where
  -- The results that the library has allocated are exactly the one that `last_result` owns.
  pub data IsOwned (c : Conn L) : Type 0 where
    idle : c.last_result ≡ none → ((a : ℕ) → c.results a ≡ none) → IsOwned c
    holds :
        (p : ℕ) (r : L.Res)
        → c.last_result ≡ some p
        → p < c.next_result
        → ((a : ℕ) → c.results a ≡ (if a == p then some r else none))
        → IsOwned c

  -- What a call leaves alone if it does not touch results.
  abbrev pub SameResults : Conn L → Conn L → Type 0
  SameResults c c' =
      (c'.last_result ≡ c.last_result) × (c'.results ≡ c.results) × (c'.next_result ≡ c.next_result)

  pub SameResults-IsOwned : {c c' : Conn L} → SameResults c c' → IsOwned c → IsOwned c'
  SameResults-IsOwned {c} {c'} (l, r, n) (idle e h) = idle (ground arith) (λ a. ground (arith, h a))
  SameResults-IsOwned {c} {c'} (l, r, n) (holds p x e b h) =
      holds p x (ground arith) (ground arith) (λ a. ground (arith, h a))

  either-IsOwned :
      (b : Bool) (x y : ErrorCode × Conn L)
      → IsOwned x.1
      → IsOwned y.1
      → IsOwned (if b then x else y).1
  either-IsOwned true x y p q = p
  either-IsOwned false x y p q = q

  -- After `free_result` nothing is allocated.
  pub free_result-empty :
      (c : Conn L)
      → IsOwned c
      → ((free_result L c).last_result ≡ none) × ((a : ℕ) → (free_result L c).results a ≡ none)
  unfolding free_result
  free_result-empty c (idle e h) = (ground arith, λ a. ground (arith, h a))
  free_result-empty c (holds p r e b h) = (ground arith, λ a. ground (arith, h a))

  pub free_result-IsOwned : (c : Conn L) → IsOwned c → IsOwned (free_result L c)
  free_result-IsOwned c o = idle (free_result-empty c o).0 (free_result-empty c o).1

  kept-IsOwned : (r : Option L.Res) (c : Conn L) → IsOwned c → IsOwned (kept L r c)
  kept-IsOwned none c o = free_result-IsOwned c o
  kept-IsOwned (some r) c o =
      holds c.next_result r refl (omega arith) (λ a. ground (arith, (free_result-empty c o).1 a))

  -- The library allocates a result, and the connection takes it over.
  pub reset_result-IsOwned :
      (r : Option L.Res) (c : Conn L)
      → IsOwned c
      → IsOwned (reset_result L (allocate L r c).0 (allocate L r c).1)
  reset_result-IsOwned r c o = rw (reset_result-allocate L r c) (kept-IsOwned r c o)

  pub assign_last-IsOwned :
      (ec : ErrorCode) (c : Conn L) → IsOwned c → IsOwned (assign_last L ec c).2
  unfolding assign_last
  assign_last-IsOwned ec c (idle e h) = rw (e, assign_last) (idle e h)
  assign_last-IsOwned ec c (holds p r e b h) =
      let hp : c.results p ≡ some r = ground (arith, h p, ==_iff p p) in
      let (_, _, r') = assign_result L c.mysql p r new_result_set ec in
      holds p r' (ground arith) (ground arith) (λ a. ground (arith, h a))

  pub retrieve-IsOwned : (c : Conn L) → IsOwned c → IsOwned (retrieve L c).2
  unfolding retrieve
  retrieve-IsOwned c o =
      let m : L.Handle = (L.store_result c.mysql).1 in
      assign_last-IsOwned _ _ (
        reset_result-IsOwned (L.store_result c.mysql).0 (record c { mysql = m })
          (SameResults-IsOwned {c = c} (refl, refl, refl) o))

  pub advance-IsOwned : (ec : ErrorCode) (c : Conn L) → IsOwned c → IsOwned (advance L ec c).1
  unfolding advance
  advance-IsOwned ec c o =
      let f = free_result-IsOwned c o in
      either-IsOwned (not c.first_result_stored) _ _
        (SameResults-IsOwned {c = c} (refl, refl, refl) o)
        (either-IsOwned (has_more_results L (free_result L c)) _ _
          (SameResults-IsOwned {c = free_result L c} (refl, refl, refl) f) f)

  store_result-IsOwned : (ec : ErrorCode) (c : Conn L) → IsOwned c → IsOwned (store_result L ec c).2
  unfolding store_result
  store_result-IsOwned ec c o = by_error (is_error (advance L ec c).0)
    where
      a : IsOwned (advance L ec c).1
      a = advance-IsOwned ec c o

      by_error :
          (b : Bool)
          → IsOwned
              (if b
                then (empty_set, (advance L ec c).0, (advance L ec c).1)
                else retrieve L (advance L ec c).1).2
      by_error true = a
      by_error false = retrieve-IsOwned _ a

  pub end_session-IsOwned : (c : Conn L) → IsOwned c → IsOwned (end_session L c)
  unfolding end_session
  end_session-IsOwned c = SameResults-IsOwned {c = c} (refl, refl, refl)

  pub cancel-IsOwned : (c : Conn L) → IsOwned c → IsOwned (cancel L c)
  unfolding cancel
  cancel-IsOwned c = SameResults-IsOwned {c = c} (refl, refl, refl)

  close_impl-IsOwned : (c : Conn L) → IsOwned c → IsOwned (close_impl L c)
  unfolding close_impl
  close_impl-IsOwned c o =
      cancel-IsOwned _ (free_result-IsOwned (end_session L c) (end_session-IsOwned c o))

  pub close-IsOwned : (c : Conn L) → IsOwned c → IsOwned (close L c)
  unfolding close
  close-IsOwned c o = choose c.initialized
    where
      choose : (b : Bool) → IsOwned (if b then close_impl L c else c)
      choose true = close_impl-IsOwned c o
      choose false = o

  -- The destructor leaves no result of the connection allocated.
  pub destroy-empty : (c : Conn L) → IsOwned c → (a : ℕ) → (destroy L c).results a ≡ none
  unfolding destroy cancel
  destroy-empty c o =
      (free_result-empty (end_session L (close L c))
        (end_session-IsOwned (close L c) (close-IsOwned c o))).1

  pub run_query-IsOwned : (stmt : Bytes) (c : Conn L) → IsOwned c → IsOwned (run_query L stmt c).1
  unfolding run_query
  run_query-IsOwned stmt c o =
      SameResults-IsOwned {c = free_result L c} (refl, refl, refl) (free_result-IsOwned c o)

  query-IsOwned : (stmt : Bytes) (c : Conn L) → IsOwned c → IsOwned (query L stmt c).1
  unfolding query
  query-IsOwned stmt c o = either-IsOwned c.initialized _ _ (run_query-IsOwned stmt c o) o

  pub open_conn-IsOwned : (c : Conn L) → IsOwned c → IsOwned (open_conn L c).1
  unfolding open_conn
  open_conn-IsOwned c o =
      either-IsOwned c.initialized _ _ o (SameResults-IsOwned {c = c} (refl, refl, refl) o)

  pub connect_open-IsOwned :
      (e : Endpoint) (a : AuthInfo) (database : Bytes) (flags : ℕ) (c : Conn L)
      → IsOwned c
      → IsOwned (connect_open L e a database flags c).1
  unfolding connect_open
  connect_open-IsOwned e a database flags c = SameResults-IsOwned {c = c} (refl, refl, refl)

  connect-IsOwned :
      (e : Endpoint) (a : AuthInfo) (database : Bytes) (flags : ℕ) (c : Conn L)
      → IsOwned c
      → IsOwned (connect L e a database flags c).1
  unfolding connect
  connect-IsOwned e a database flags c o =
      let opened = open_conn-IsOwned c o in
      either-IsOwned c.initialized _ _ (connect_open-IsOwned e a database flags c o) (
        either-IsOwned (is_error (open_conn L c).0) _ _ opened
          (connect_open-IsOwned e a database flags (open_conn L c).1 opened))

  -- The blocking calls on a connection.
  pub data Call : Type 0 where
    opens : Call
    closes : Call
    cancels : Call
    connects : Endpoint → AuthInfo → Bytes → ℕ → Call
    queries : Bytes → Call
    stores : ErrorCode → Call
    sets_autocommit : Bool → Call
    commits : Call
    rolls_back : Call
    sets_option : ℕ → OptionData → Call

  pub step : Conn L → Call → Conn L
  step c opens = (open_conn L c).1
  step c closes = close L c
  step c cancels = cancel L c
  step c (connects e a database flags) = (connect L e a database flags c).1
  step c (queries stmt) = (query L stmt c).1
  step c (stores ec) = (store_result L ec c).2
  step c (sets_autocommit mode) = (autocommit L mode c).1
  step c commits = (commit L c).1
  step c rolls_back = (rollback L c).1
  step c (sets_option option arg) = (set_option L option arg c).1

  pub run : Conn L → List Call → Conn L
  run c [] = c
  run c (k ∷ ks) = run (step c k) ks

  step-IsOwned : (c : Conn L) (k : Call) → IsOwned c → IsOwned (step c k)
  unfolding step autocommit commit rollback set_option
  step-IsOwned c opens o = open_conn-IsOwned c o
  step-IsOwned c closes o = close-IsOwned c o
  step-IsOwned c cancels o = cancel-IsOwned c o
  step-IsOwned c (connects e a database flags) o = connect-IsOwned e a database flags c o
  step-IsOwned c (queries stmt) o = query-IsOwned stmt c o
  step-IsOwned c (stores ec) o = store_result-IsOwned ec c o
  step-IsOwned c (sets_autocommit mode) o = SameResults-IsOwned {c = c} (refl, refl, refl) o
  step-IsOwned c commits o =
      either-IsOwned c.initialized _ _ (SameResults-IsOwned {c = c} (refl, refl, refl) o) o
  step-IsOwned c rolls_back o =
      either-IsOwned c.initialized _ _ (SameResults-IsOwned {c = c} (refl, refl, refl) o) o
  step-IsOwned c (sets_option option arg) o = SameResults-IsOwned {c = c} (refl, refl, refl) o

  run-IsOwned : (c : Conn L) (ks : List Call) → IsOwned c → IsOwned (run c ks)
  unfolding run
  run-IsOwned c [] o = o
  run-IsOwned c (k ∷ ks) o = run-IsOwned (step c k) ks (step-IsOwned c k o)

  pub new_conn-IsOwned : IsOwned (new_conn L)
  unfolding new_conn
  new_conn-IsOwned = idle refl (λ a. refl)

  -- After any blocking calls on a new connection, whatever the library answers, the results that it has
  -- allocated, from the call that returns one, and that are not freed are exactly the one that
  -- `last_result` owns: each result is kept or freed, and none is freed while it is owned.
  pub run-new_conn-IsOwned : (ks : List Call) → IsOwned (run (new_conn L) ks)
  run-new_conn-IsOwned ks = run-IsOwned (new_conn L) ks new_conn-IsOwned

  -- And the destructor after any such calls leaves nothing allocated.
  pub destroy-run : (ks : List Call) (a : ℕ) → (destroy L (run (new_conn L) ks)).results a ≡ none
  destroy-run ks = destroy-empty _ (run-new_conn-IsOwned ks)
