-- ===== src/Service/Typed.antt =====
-- Programs over the blocking functions whose types say where the connection is known to be open.
pub mod Calls
use amy.Prelude.{
  ℕ, ◌≡◌, ◌≢◌, refl, ◌∙◌, Bool, true, false, Option, none, some, zero, suc, List, [], ◌∷◌, arith,
  if◌then◌else◌, inl, inr, Bool-cases,
}
use amy.Errors.{ErrorCode, success, is_error, misc_error, client_error, not_initialized}
use amy.Client.{ClientLib, Bytes, OptionData, FieldDef}
use amy.Auth.{AuthInfo, Endpoint}
use amy.Ops.{mysql_init, mysql_options, mysql_store_result}
use amy.Results.{new_result_set, fetch_fields, fetch_rows, assign_result}
use amy.Service.{
  Conn, free_result, reset_result, open_conn, connect, connect_open, query, run_query,
  has_more_results, advance, retrieve, assign_last, store_result, autocommit, commit, rollback,
  set_option, cancel, close,
}
use amy.Service.Typed.Calls.{
  open_conn-opened, connect-opened, query-opened, commit-opened, rollback-opened, autocommit-opened,
  set_option-opened, store_result-opened, cancel-opened,
}

-- `Program true` may be run on an open connection, and `Program false` on any. `open` and `connect`
-- go on with the one or the other, after a success or a failure.
pub data Program : Bool → Type 0 where
  ends : {known : Bool} → Program known
  opens : {known : Bool} → Program true → Program false → Program known
  connects :
      {known : Bool}
      → Endpoint
      → AuthInfo
      → Bytes
      → ℕ
      → Program true
      → Program false
      → Program known
  queries : Bytes → Program true → Program true
  stores : Program true → Program true
  commits : Program true → Program true
  rolls_back : Program true → Program true
  autocommits : {known : Bool} → Bool → Program known → Program known
  sets_option : {known : Bool} → ℕ → OptionData → Program known → Program known
  asks_more : {known : Bool} → Program known → Program known → Program known
  cancels : {known : Bool} → Program known → Program known
  closes : {known : Bool} → Program false → Program known

module _ (L : ClientLib) where
  -- The codes that the calls of a program report, each with an `ec` that is clear before the call.
  unfoldable pub codes : {known : Bool} → Program known → Conn L → List ErrorCode
  codes ends c = []
  codes (opens p q) c =
      let (ec, c') = open_conn L c in
      let failed = codes q c' in
      let opened = codes p c' in ec ∷ (if is_error ec then failed else opened)
  codes (connects endpoint auth database flags p q) c =
      let (ec, c') = connect L endpoint auth database flags c in
      let failed = codes q c' in
      let opened = codes p c' in ec ∷ (if is_error ec then failed else opened)
  codes (queries stmt p) c = let (ec, c') = query L stmt c in ec ∷ codes p c'
  codes (stores p) c = let (_, ec, c') = store_result L success c in ec ∷ codes p c'
  codes (commits p) c = let (ec, c') = commit L c in ec ∷ codes p c'
  codes (rolls_back p) c = let (ec, c') = rollback L c in ec ∷ codes p c'
  codes (autocommits mode p) c = let (ec, c') = autocommit L mode c in ec ∷ codes p c'
  codes (sets_option option arg p) c = let (ec, c') = set_option L option arg c in ec ∷ codes p c'
  codes (asks_more p q) c =
      let yes = codes p c in let no = codes q c in if has_more_results L c then yes else no
  codes (cancels p) c = codes p (cancel L c)
  codes (closes p) c = codes p (close L c)

  -- None of the codes is `not_initialized`.
  abbrev pub FindsOpen : List ErrorCode → Type 0
  FindsOpen [] = Unit
  FindsOpen (ec ∷ ecs) = (ec ≢ misc_error not_initialized) × FindsOpen ecs

  -- Where the program relies on it, the connection is open.
  abbrev Known : Bool → Conn L → Type 0
  Known known c = known ≡ true → c.initialized ≡ true

  -- A program whose type says that it may be run on the connection, a `Program true` where that is open
  -- and a `Program false` on any, never gets `not_initialized` from one of its calls, whatever the
  -- client library answers.
  pub codes-FindsOpen :
      {known : Bool} (p : Program known) (c : Conn L) → Known known c → FindsOpen (codes p c)
  unfolding codes
  codes-FindsOpen ends c h = tt
  codes-FindsOpen (opens p q) c h =
      let (ec, c') = open_conn L c in
      let (fine, opened) = open_conn-opened L c in
      (
        fine,
        elim (Bool-cases (is_error ec)) [
          | inl e ↦ rw e (codes-FindsOpen q c' (λ k. absurd (ground arith)))
          | inr clean ↦ rw clean (codes-FindsOpen p c' (λ _. opened clean))
        ],
      )
  codes-FindsOpen (connects endpoint auth database flags p q) c h =
      let (ec, c') = connect L endpoint auth database flags c in
      let (fine, opened) = connect-opened L endpoint auth database flags c in
      (
        fine,
        elim (Bool-cases (is_error ec)) [
          | inl e ↦ rw e (codes-FindsOpen q c' (λ k. absurd (ground arith)))
          | inr clean ↦ rw clean (codes-FindsOpen p c' (λ _. opened clean))
        ],
      )
  codes-FindsOpen (queries stmt p) c h =
      let (fine, opened) = query-opened L stmt c (h refl) in
      (fine, codes-FindsOpen p (query L stmt c).1 (λ _. opened))
  codes-FindsOpen (stores p) c h =
      let (fine, same) = store_result-opened L c in
      (fine, codes-FindsOpen p (store_result L success c).2 (λ k. same ∙ h k))
  codes-FindsOpen (commits p) c h =
      let (fine, opened) = commit-opened L c (h refl) in
      (fine, codes-FindsOpen p (commit L c).1 (λ _. opened))
  codes-FindsOpen (rolls_back p) c h =
      let (fine, opened) = rollback-opened L c (h refl) in
      (fine, codes-FindsOpen p (rollback L c).1 (λ _. opened))
  codes-FindsOpen (autocommits mode p) c h =
      let (fine, same) = autocommit-opened L mode c in
      (fine, codes-FindsOpen p (autocommit L mode c).1 (λ k. same ∙ h k))
  codes-FindsOpen (sets_option option arg p) c h =
      let (fine, same) = set_option-opened L option arg c in
      (fine, codes-FindsOpen p (set_option L option arg c).1 (λ k. same ∙ h k))
  codes-FindsOpen (asks_more p q) c h = elim (Bool-cases (has_more_results L c)) [
    | inl more ↦ rw more (codes-FindsOpen p c h)
    | inr over ↦ rw over (codes-FindsOpen q c h)
  ]
  codes-FindsOpen (cancels p) c h = codes-FindsOpen p (cancel L c) (λ k. cancel-opened L c ∙ h k)
  codes-FindsOpen (closes p) c h = codes-FindsOpen p (close L c) (λ k. absurd (ground arith))
