-- ===== src/Example/Agreement.antt =====
-- The programs that wait for handlers against those that wait for each call.
pub mod Calls
pub mod Start
pub mod Multi
pub mod Single
use amy.Prelude.{ℕ, zero, suc, ◌≡◌, ◌≢◌, refl, true, false, Option, none, some, List, [], arith}
use amy.Client.{ClientLib}
use amy.Errors.{ErrorCode, is_error, returned}
use amy.Connector
use amy.Results.{ResultSet}
use amy.Service.{Conn}
use amy.Connector.Iterator.{Iterator, increment}
use amy.Example.{Line, failed, Ran, prepend, printed, without_text, Printed}
use amy.Example.Blocking.{try, visit}

abbrev pub twice : ℕ → ℕ
twice zero = zero
twice (suc n) = suc (suc (twice n))

module _ (L : ClientLib) where
  pub prepend-nil : (r : Ran L) → prepend L [] r ≡ r
  prepend-nil none = refl
  prepend-nil (some x) = refl

  pub prepend-agrees :
      (ls : List Line) (r r' : Ran L)
      → without_text L r ≡ without_text L r'
      → without_text L (prepend L ls r) ≡ without_text L (prepend L ls r')
  prepend-agrees ls none none e = refl
  prepend-agrees ls none (some x) e = cc
  prepend-agrees ls (some x) none e = cc
  prepend-agrees ls (some x) (some y) e = ground arith

  -- Where the one run has ended, the other has printed the same, has ended in the same way but for the
  -- text of an exception, and has left the connection the same.
  abbrev pub Matches : Ran L → Ran L → Type 0
  Matches none r = Unit
  Matches (some x) r = without_text L (some x) ≡ without_text L r

  pub same-Matches : (r r' : Ran L) → without_text L r ≡ without_text L r' → Matches r r'
  same-Matches none r' e = tt
  same-Matches (some x) r' e = e

  pub Matches-same : (r r' : Ran L) → r ≢ none → Matches r r' → without_text L r ≡ without_text L r'
  Matches-same none r' ends e = absurd (ends refl)
  Matches-same (some x) r' ends e = e

  pub prepend-Matches :
      (ls : List Line) (r r' : Ran L) → Matches r r' → Matches (prepend L ls r) (prepend L ls r')
  prepend-Matches ls none r' e = tt
  prepend-Matches ls (some x) r' e = prepend-agrees ls (some x) r' e

  -- A round of the loop over the results.
  pub visit_step :
      (print : Conn L → ResultSet → Printed) (fuel : ℕ) (it : Iterator) (c : Conn L)
      → it.end ≡ false
      → visit L print (suc fuel) (returned it, c)
        ≡ printed L (print c it.result_set) c (visit L print fuel (increment L it c))
  unfolding visit
  visit_step print fuel it c live = rw live refl

  pub try_failed :
      (ec : ErrorCode) (c : Conn L) (next : Conn L → Ran L)
      → is_error ec ≡ true
      → without_text L (try L (Connector.throwing L (ec, c)) (λ _ c'. next c'))
        ≡ some ([], failed ec none, c)
  unfolding Connector.throwing
  try_failed ec c next e = ground arith

  pub try_returned :
      (ec : ErrorCode) (c : Conn L) (next : Conn L → Ran L)
      → is_error ec ≡ false
      → try L (Connector.throwing L (ec, c)) (λ _ c'. next c') ≡ next c
  unfolding Connector.throwing
  try_returned ec c next e = ground arith
