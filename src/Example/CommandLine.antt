-- ===== src/Example/CommandLine.antt =====
-- example/utils.hpp and utils.cpp: the options of the programs, and what they read. The calls of
-- `getopt_long` up to its -1 are given as the list of their results, each with `optarg`; `atoi`,
-- `address_v4::loopback()` and `address::from_string`, which may throw, are parameters.
use amy.Prelude.{
  ℕ, suc, ◌+◌, ◌≡◌, ◌==◌, ◌^◌, ◌%◌, refl, Option, none, some, List, [], ◌∷◌, ◌++◌, arith, ap, sym,
  ◌∙◌, Bool, true, false, leb, ◌||◌, ◌&&◌, inl, inr, Bool-cases, if◌then◌else◌,
}
use amy.Prelude.Int.{ℤ, uint_of_int}
use amy.Errors.{Outcome, returned, thrown}
use amy.Client.{Bytes}
use amy.Auth.{AuthInfo, Endpoint, tcp, with_password}
use amy.Example.Blocking.{Options}

-- `global_options`, and its value before the command line is read.
pub record GlobalOptions : Type 0 where
  pub host : Bytes
  pub port : ℕ
  pub user : Bytes
  pub password : Bytes
  pub schema : Bytes

abbrev pub defaults : GlobalOptions
defaults = record {
  host = b'1' ∷ b'2' ∷ b'7' ∷ b'.' ∷ b'0' ∷ b'.' ∷ b'0' ∷ b'.' ∷ b'1' ∷ [];
  port = 3306;
  user = b'a' ∷ b'm' ∷ b'y' ∷ [];
  password = b'a' ∷ b'm' ∷ b'y' ∷ [];
  schema = b't' ∷ b'e' ∷ b's' ∷ b't' ∷ b'_' ∷ b'a' ∷ b'm' ∷ b'y' ∷ [];
}

-- The program shows its usage and exits with success, or goes on with its options, having shown the
-- usage below a complaint so many times.
pub data Parsed : Type 0 where
  exits : Parsed
  goes_on : ℕ → GlobalOptions → Parsed

abbrev pub complained : Parsed → Parsed
complained exits = exits
complained (goes_on n o) = goes_on (suc n) o

module _ (atoi : Bytes → ℤ) where
  -- A case of the switch that sets an option; none is for the others.
  abbrev pub set_by : ℕ → Bytes → GlobalOptions → Option GlobalOptions
  set_by ch optarg o =
      if ch == b'H'
      then some (record o { host = optarg })
      else if ch == b'P'
      then some (record o { port = uint_of_int (atoi optarg) })
      else if ch == b'u'
      then some (record o { user = optarg })
      else if ch == b'p'
      then some (record o { password = optarg })
      else if ch == b's'
      then some (record o { schema = optarg })
      else none

  unfoldable pub parse_command_line_options : List (ℕ × Bytes) → GlobalOptions → Parsed
  parse_command_line_options [] o = goes_on 0 o
  parse_command_line_options ((ch, optarg) ∷ rest) o =
      if ch == b'h' then exits else elim (set_by ch optarg o) [
        | some o' ↦ parse_command_line_options rest o'
        | none ↦ complained (parse_command_line_options rest o)
      ]

  abbrev resumed : Parsed → List (ℕ × Bytes) → Parsed
  resumed exits more = exits
  resumed (goes_on n o) more = elim (parse_command_line_options more o) [
    | exits ↦ exits
    | goes_on k o' ↦ goes_on (n + k) o'
  ]

  resumed-complained :
      (p : Parsed) (more : List (ℕ × Bytes))
      → resumed (complained p) more ≡ complained (resumed p more)
  resumed-complained exits more = refl
  resumed-complained (goes_on n o) more = ground arith

  -- A command line is read from the left: a `-h` in its first part ends the program, and otherwise the
  -- second part is read with the options that the first has left.
  parse-append :
      (xs ys : List (ℕ × Bytes)) (o : GlobalOptions)
      → parse_command_line_options (xs ++ ys) o ≡ resumed (parse_command_line_options xs o) ys
  unfolding parse_command_line_options
  parse-append [] ys o = ground arith
  parse-append ((ch, optarg) ∷ xs) ys o = elim (Bool-cases (ch == b'h')) [
    | inl help ↦ rw help refl
    | inr other ↦ rw other (by_case (λ o'. parse-append xs ys o') (set_by ch optarg o))
  ]
    where
      by_case :
          ((o' : GlobalOptions)
            → parse_command_line_options (xs ++ ys) o'
              ≡ resumed (parse_command_line_options xs o') ys)
          → (r : Option GlobalOptions)
          → elim r [
            | some o' ↦ parse_command_line_options (xs ++ ys) o'
            | none ↦ complained (parse_command_line_options (xs ++ ys) o)
          ]
            ≡ resumed
                (elim r [
                  | some o' ↦ parse_command_line_options xs o'
                  | none ↦ complained (parse_command_line_options xs o)
                ])
                ys
      by_case later (some o') = later o'
      by_case later none =
          ap complained (later o) ∙ sym (resumed-complained (parse_command_line_options xs o) ys)

module _ (loopback : Bytes) (from_string : Bytes → Outcome Bytes) where
  -- `global_options::tcp_endpoint()`; the constructor of the endpoint takes an `unsigned short`.
  unfoldable pub tcp_endpoint : GlobalOptions → Outcome Endpoint
  tcp_endpoint o = elim o.host [
    | [] ↦ returned (tcp loopback (o.port % 2 ^ 16))
    | _ ∷ _ ↦ elim (from_string o.host) [
      | returned address ↦ returned (tcp address (o.port % 2 ^ 16))
      | thrown ec text ↦ thrown ec text
    ]
  ]

  -- `global_options::auth_info()`.
  abbrev pub auth_info : GlobalOptions → AuthInfo
  auth_info o = with_password o.user o.password

  -- What the programs connect with.
  unfoldable pub connect_options : GlobalOptions → Outcome Options
  unfolding tcp_endpoint
  connect_options o = elim (tcp_endpoint o) [
    | returned endpoint ↦
        returned (record { tcp_endpoint = endpoint; auth_info = auth_info o; schema = o.schema })
    | thrown ec text ↦ thrown ec text
  ]

-- What `isspace` holds of.
abbrev pub is_space : ℕ → Bool
is_space c = c == b' ' || (leb 9 c && leb c 13)

abbrev pub skip_spaces : Bytes → Bytes
skip_spaces [] = []
skip_spaces (c ∷ s) = if is_space c then skip_spaces s else c ∷ s

-- `read_from_stdin()` on what stands on the standard input: the iterator has read its first character,
-- with the white space before it skipped, when `skipws` is unset.
unfoldable pub read_from_stdin : Bytes → Bytes
read_from_stdin input = elim (skip_spaces input) [ [] ↦ [] | c ∷ rest ↦ c ∷ rest ]

abbrev AllSpaces : Bytes → Type 0
AllSpaces [] = Unit
AllSpaces (c ∷ s) = (is_space c ≡ true) × AllSpaces s

skip_spaces-append :
    (spaces : Bytes) (c : ℕ) (rest : Bytes)
    → AllSpaces spaces
    → is_space c ≡ false
    → skip_spaces (spaces ++ (c ∷ rest)) ≡ c ∷ rest
skip_spaces-append [] c rest _ h = ground (arith, h)
skip_spaces-append (x ∷ xs) c rest (space, spaces) h =
    ground (arith, space, skip_spaces-append xs c rest spaces h)

-- White space before the first other character is lost, and nothing else.
read_from_stdin-append :
    (spaces : Bytes) (c : ℕ) (rest : Bytes)
    → AllSpaces spaces
    → is_space c ≡ false
    → read_from_stdin (spaces ++ (c ∷ rest)) ≡ c ∷ rest
unfolding read_from_stdin
read_from_stdin-append spaces c rest all h = ground (arith, skip_spaces-append spaces c rest all h)
