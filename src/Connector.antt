-- ===== src/Connector.antt =====
-- include/amy/basic_connector.hpp over `mysql_service`: each call passed on to the service, and the
-- overloads that throw. A name that ends in _ec is the overload with an error code.
pub mod Iterator
pub mod Transaction
pub mod Execute
pub mod AsyncExecute
pub mod Asynchronous
pub mod Cells
use amy.Prelude.{
  ℕ, String, ◌≡◌, refl, Bool, true, false, Option, none, some, arith, if◌then◌else◌, inl, inr,
  Bool-cases,
}
use amy.Errors.{ErrorCode, success, is_error, Outcome, returned, thrown, throw_error}
use amy.Client.{ClientLib, Bytes, OptionData}
use amy.Auth.{AuthInfo, Endpoint}
use amy.Results.{ResultSet, empty_set}
use amy.Service
use amy.Service.{Conn}

module _ (L : ClientLib) where
  abbrev pub is_open : Conn L → Bool
  is_open = Service.is_open L

  unfoldable pub error_message : Conn L → ErrorCode → Option String
  error_message = Service.error_message L

  unfoldable pub close : Conn L → Conn L
  close = Service.close L

  unfoldable pub cancel : Conn L → Conn L
  cancel = Service.cancel L

  unfoldable pub has_more_results : Conn L → Bool
  has_more_results = Service.has_more_results L

  unfoldable pub affected_rows : Conn L → ℕ
  affected_rows = Service.affected_rows L

  abbrev pub open_conn_ec : Conn L → ErrorCode × Conn L
  open_conn_ec = Service.open_conn L

  abbrev pub set_option_ec : ℕ → OptionData → Conn L → ErrorCode × Conn L
  set_option_ec = Service.set_option L

  abbrev pub connect_ec : Endpoint → AuthInfo → Bytes → ℕ → Conn L → ErrorCode × Conn L
  connect_ec = Service.connect L

  abbrev pub query_ec : Bytes → Conn L → ErrorCode × Conn L
  query_ec = Service.query L

  abbrev pub store_result_ec : ErrorCode → Conn L → ResultSet × ErrorCode × Conn L
  store_result_ec = Service.store_result L

  abbrev pub autocommit_ec : Bool → Conn L → ErrorCode × Conn L
  autocommit_ec = Service.autocommit L

  abbrev pub commit_ec : Conn L → ErrorCode × Conn L
  commit_ec = Service.commit L

  abbrev pub rollback_ec : Conn L → ErrorCode × Conn L
  rollback_ec = Service.rollback L

  -- A call that reports an error code, made by an overload that throws.
  unfoldable pub throwing : ErrorCode × Conn L → Outcome (Unit {0}) × Conn L
  unfolding throw_error
  throwing (ec, c) = (throw_error ec (L.error c.mysql) tt, c)

  unfoldable pub open_conn : Conn L → Outcome (Unit {0}) × Conn L
  open_conn c = throwing (open_conn_ec c)

  unfoldable pub set_option : ℕ → OptionData → Conn L → Outcome (Unit {0}) × Conn L
  set_option option arg c = throwing (set_option_ec option arg c)

  unfoldable pub connect : Endpoint → AuthInfo → Bytes → ℕ → Conn L → Outcome (Unit {0}) × Conn L
  connect endpoint auth database flags c = throwing (connect_ec endpoint auth database flags c)

  unfoldable pub query : Bytes → Conn L → Outcome (Unit {0}) × Conn L
  query stmt c = throwing (query_ec stmt c)

  unfoldable pub autocommit : Bool → Conn L → Outcome (Unit {0}) × Conn L
  autocommit mode c = throwing (autocommit_ec mode c)

  unfoldable pub commit : Conn L → Outcome (Unit {0}) × Conn L
  commit c = throwing (commit_ec c)

  unfoldable pub rollback : Conn L → Outcome (Unit {0}) × Conn L
  rollback c = throwing (rollback_ec c)

  unfoldable pub store_result : Conn L → Outcome ResultSet × Conn L
  unfolding throw_error
  store_result c =
      let (rs, ec, c') = store_result_ec success c in (throw_error ec (L.error c'.mysql) rs, c')

  -- `query_result(stmt)`.
  unfoldable pub query_result : Bytes → Conn L → Outcome ResultSet × Conn L
  unfolding query throwing store_result
  query_result stmt c =
      let (done, c') = query stmt c in
      elim done [ returned _ ↦ store_result c' | thrown ec text ↦ (thrown ec text, c') ]

  -- `query_result(stmt, ec)`.
  unfoldable pub query_result_ec : Bytes → Conn L → ResultSet × ErrorCode × Conn L
  query_result_ec stmt c =
      let (ec, c') = query_ec stmt c in
      if is_error ec then (empty_set, ec, c') else store_result_ec ec c'

  pub store_result_clean :
      (ec : ErrorCode) (c : Conn L)
      → c.first_result_stored ≡ false
      → is_error ec ≡ false
      → Service.store_result L ec c ≡ Service.retrieve L (record c { first_result_stored = true })
  unfolding Service.store_result Service.advance
  store_result_clean ec c first clean = ground arith

  pub query_first :
      (stmt : Bytes) (c : Conn L)
      → is_error (Service.query L stmt c).0 ≡ false
      → (Service.query L stmt c).1.first_result_stored ≡ false
  unfolding Service.query Service.run_query
  query_first stmt c clean = ground arith

  -- The two overloads of `query_result` do the same: the one throws exactly the error that the other
  -- reports, and otherwise both return the same set; the connection ends up the same.
  pub query_result-query_result_ec :
      (stmt : Bytes) (c : Conn L)
      → let (rs, ec, c') = query_result_ec stmt c in
        query_result stmt c ≡ (throw_error ec (L.error c'.mysql) rs, c')
  unfolding query_result query_result_ec
  query_result-query_result_ec stmt c = elim (Bool-cases (is_error (Service.query L stmt c).0)) [
    | inl failed ↦ ground arith
    | inr clean ↦
        let (ec, c') = Service.query L stmt c in
        let first = query_first stmt c clean in
        ground
          (arith, store_result_clean ec c' first clean, store_result_clean success c' first refl)
  ]
