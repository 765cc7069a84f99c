-- ===== src/Example.antt =====
-- The programs of example/: what they print and how they end. A program's run is `none` where the fuel
-- of its loop ran out.
pub mod CommandLine
pub mod Print
pub mod Text
pub mod Blocking
pub mod Async
pub mod Agreement
pub mod Results
pub mod Output
pub mod Maria
use amy.Prelude.{ℕ, String, Option, none, some, List, [], ◌∷◌, ◌++◌}
use amy.Prelude.Int.{ℤ}
use amy.Errors.{ErrorCode}
use amy.Client.{ClientLib, Bytes}
use amy.Results.Access.{Access, got, out_of_range, undefined}
use amy.Service.{Conn}

-- A line on the standard output, without the words between the values: "Affected rows: ", "field
-- count: " and "result set size: " with their numbers; a row; the two columns of the single query with
-- their names; the affected rows alone; "Connected."
pub data Line : Type 0 where
  counts : ℕ → ℕ → ℕ → Line
  row_line : Bytes → Line
  pairs : Bytes → Bytes → Bytes → ℤ → Line
  affected : ℕ → Line
  connected_line : Line

-- How the program ends: as it should, with a `system_error` whose code and `what()` are reported, with
-- another exception, with an exception that `main` does not catch, or not at all well. `what()` is
-- empty for `none`.
pub data Ending : Type 0 where
  finished : Ending
  failed : ErrorCode → Option String → Ending
  range_error : Ending
  uncaught : Ending
  undefined_behaviour : Ending

-- What a piece of a program has printed, and how it ended unless it goes on.
abbrev pub Printed : Type 0
Printed = List Line × Option Ending

abbrev pub followed : Printed → Printed → Printed
followed (ls, none) (ls', e) = (ls ++ ls', e)
followed (ls, some e) p = (ls, some e)

-- A line whose value may not be there. What was printed of it before is left out.
abbrev pub line : {A : Type 0} → (A → Line) → Access A → Printed
line f (got a) = (f a ∷ [], none)
line f out_of_range = ([], some range_error)
line f undefined = ([], some undefined_behaviour)

abbrev pub Ran : ClientLib → Type 0
Ran L = Option (List Line × Ending × Conn L)

module _ (L : ClientLib) where
  abbrev pub prepend : List Line → Ran L → Ran L
  prepend ls none = none
  prepend ls (some (ls', e, c)) = some (ls ++ ls', e, c)

  -- A run that prints first, on the connection `c`.
  abbrev pub printed : Printed → Conn L → Ran L → Ran L
  printed (ls, none) c rest = prepend ls rest
  printed (ls, some e) c rest = some (ls, e, c)

  abbrev drop_text : Ending → Ending
  drop_text finished = finished
  drop_text (failed ec text) = failed ec none
  drop_text range_error = range_error
  drop_text uncaught = uncaught
  drop_text undefined_behaviour = undefined_behaviour

  -- A run but for the text of the exception.
  abbrev pub without_text : Ran L → Ran L
  without_text none = none
  without_text (some (ls, e, c)) = some (ls, drop_text e, c)
