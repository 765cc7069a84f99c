-- ===== src/Connector/Transaction.antt =====
-- include/amy/basic_scoped_transaction.hpp
use amy.Prelude.{◌≡◌, Bool, true, false, arith, if◌then◌else◌}
use amy.Errors.{ErrorCode, is_error, Outcome, returned, thrown, throw_error}
use amy.Client.{ClientLib}
use amy.Service
use amy.Service.{Conn}
use amy.Connector.{throwing, autocommit, commit, rollback}

pub record Transaction : Type 0 where
  pub committed : Bool

-- How a destructor ends: an exception that leaves it ends the program.
pub data Ending (L : ClientLib) : Type 0 where
  ended : Conn L → Ending L
  terminated : Ending L

module _ (L : ClientLib) where
  -- The constructor.
  unfoldable pub begin : Conn L → Outcome Transaction × Conn L
  unfolding autocommit
  begin c =
      let (done, c') = autocommit L false c in
      elim done [
        | returned _ ↦ (returned (record { committed = false }), c')
        | thrown ec text ↦ (thrown ec text, c')
      ]

  -- `commit()`; a transaction is as it was when this throws.
  unfoldable pub commit_tx : Transaction → Conn L → Outcome (Unit {0}) × Transaction × Conn L
  unfolding commit
  commit_tx tx c =
      let (done, c') = commit L c in
      elim done [
        | returned _ ↦ (returned tt, record tx { committed = true }, c')
        | thrown ec text ↦ (thrown ec text, tx, c')
      ]

  -- `commit(ec)`, where `committed_ = !!connector_.commit(ec)`.
  unfoldable pub commit_ec : Transaction → Conn L → ErrorCode × Transaction × Conn L
  commit_ec tx c =
      let (ec, c') = Service.commit L c in (ec, record tx { committed = is_error ec }, c')

  -- `rollback()` and `rollback(ec)` pass the call on.
  unfoldable pub rollback_tx : Transaction → Conn L → Outcome (Unit {0}) × Conn L
  unfolding rollback
  rollback_tx tx c = rollback L c

  unfoldable pub rollback_ec : Transaction → Conn L → ErrorCode × Conn L
  rollback_ec tx c = Service.rollback L c

  -- The end of the destructor: `connector_.autocommit(true)`, which throws on an error.
  unfoldable pub restore_autocommit : Conn L → Ending L
  unfolding autocommit throwing throw_error
  restore_autocommit c =
      let (done, c') = autocommit L true c in
      elim done [ returned _ ↦ ended c' | thrown ec text ↦ terminated ]

  -- The destructor.
  unfoldable pub destroy : Transaction → Conn L → Ending L
  destroy tx c = restore_autocommit (if tx.committed then c else (Service.rollback L c).1)

  -- After `commit()` the destructor rolls back exactly when the commit threw.
  pub destroy-commit_tx :
      (tx : Transaction) (c : Conn L)
      → tx.committed ≡ false
      → let (_, tx', _) = commit_tx tx c in
        let (ec, c') = Service.commit L c in
        destroy tx' c' ≡ restore_autocommit (if is_error ec then (Service.rollback L c').1 else c')
  unfolding destroy commit_tx commit throwing throw_error
  destroy-commit_tx tx c fresh = ground arith

  -- After `commit(ec)` it is the other way round: the destructor rolls back after a commit that
  -- succeeded, and does not after one that failed.
  pub destroy-commit_ec :
      (tx : Transaction) (c : Conn L)
      → let (ec, tx', c') = commit_ec tx c in
        destroy tx' c' ≡ restore_autocommit (if is_error ec then c' else (Service.rollback L c').1)
  unfolding destroy commit_ec
  destroy-commit_ec tx c = ground arith
