-- ===== src/Service/Allocation.antt =====
-- A result that the client library has just returned, once the connection has taken it over.
use amy.Prelude.{ℕ, suc, ◌≡◌, refl, ap, fun_ext, Option, none, some, arith, ==_iff}
use amy.Client.{ClientLib}
use amy.Ops.{mysql_store_result}
use amy.Results.{ResultSet}
use amy.Errors.{ErrorCode}
use amy.Service.{Conn, update, free_result, allocate, reset_result, assign_last, retrieve}

-- Whether the address is that of the new result, of the old one, or of another.
update-reset :
    {R : Type 0} (f : ℕ → Option R) (new old : ℕ) (r : R)
    → update (update (update f new (some r)) old none) new (update f new (some r) new)
      ≡ update (update f old none) new (some r)
update-reset f new old r = fun_ext (λ b. ground (arith, ==_iff new new))

update-twice :
    {R : Type 0} (f : ℕ → Option R) (new : ℕ) (r : R)
    → update (update f new (some r)) new (update f new (some r) new) ≡ update f new (some r)
update-twice f new r = fun_ext (λ b. ground (arith, ==_iff new new))

module _ (L : ClientLib) where
  -- The old result is freed, and the new one stands at the next address.
  abbrev pub kept : Option L.Res → Conn L → Conn L
  kept none c = free_result L c
  kept (some r) c =
      let freed : Conn L = free_result L c in
      record freed {
        last_result = some c.next_result;
        results = update freed.results c.next_result (some r);
        next_result = suc c.next_result;
      }

  pub reset_result-allocate :
      (r : Option L.Res) (c : Conn L)
      → reset_result L (allocate L r c).0 (allocate L r c).1 ≡ kept r c
  unfolding reset_result allocate free_result
  reset_result-allocate none c = refl
  reset_result-allocate (some r) c = by_last c.last_result refl
    where
      by_last :
          (last : Option ℕ)
          → c.last_result ≡ last
          → reset_result L (allocate L (some r) c).0 (allocate L (some r) c).1 ≡ kept (some r) c
      by_last none e = rw e (
          ap
            (λ f. record c {
              last_result = some c.next_result;
              results = f;
              next_result = suc c.next_result;
            })
            (update-twice c.results c.next_result r))
      by_last (some old) e = rw e (
          ap
            (λ f. record c {
              last_result = some c.next_result;
              results = f;
              next_result = suc c.next_result;
            })
            (update-reset c.results c.next_result old r))

  -- `retrieve` reads the result that it has kept.
  unfoldable pub retrieve_kept : Conn L → ResultSet × ErrorCode × Conn L
  unfolding assign_last mysql_store_result
  retrieve_kept c =
      let (r, ec, m) = mysql_store_result L c.mysql in
      assign_last L ec (kept r (record c { mysql = m }))

  pub retrieve-kept : (c : Conn L) → retrieve L c ≡ retrieve_kept c
  unfolding retrieve retrieve_kept
  retrieve-kept c =
      let (r, ec, m) = mysql_store_result L c.mysql in
      ap (assign_last L ec) (reset_result-allocate r (record c { mysql = m }))
