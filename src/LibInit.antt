-- ===== src/LibInit.antt =====
-- include/amy/detail/mysql_lib_init.hpp: each service holds a `mysql_lib_init`, and the first one made
-- initialises the client library for the process.
use amy.Prelude.{ℕ, suc, ◌≡◌, refl, not, Option, none, some, List, [], ◌∷◌, if◌then◌else◌, arith}
use amy.Prelude.Int.{ℤ, pos, ==ℤ}
use amy.Errors.{system, Outcome, returned, thrown}

-- The function-local static `init` of `do_init::instance`, with its `result_` once it is constructed,
-- and how often `mysql_library_init` was called. The static itself keeps the object alive.
pub record Process : Type 0 where
  pub init : Option ℤ
  pub library_inits : ℕ

abbrev pub new_process : Process
new_process = record { init = none; library_inits = 0 }

-- The initialisation of the static, which runs `do_init`'s constructor the first time: the value of
-- `result()`. `library_init` is what `mysql_library_init` returns if it is called.
unfoldable pub init_static : ℤ → Process → ℤ × Process
init_static library_init p = elim p.init [
  | none ↦ (library_init, record { init = some library_init; library_inits = suc p.library_inits })
  | some result ↦ (result, p)
]

-- `do_init::instance()`.
unfoldable pub instance_of : ℤ → Process → Outcome (Unit {0}) × Process
unfolding init_static
instance_of library_init p =
    let (result, p') = init_static library_init p in
    if not (==ℤ result (pos 0))
    then (thrown (record { value = result; category = system }) (some "mysql_library_init()"), p')
    else (returned tt, p')

-- `mysql_lib_init`'s constructor, once for each entry: what each call of `mysql_library_init` would
-- return.
unfoldable pub construct_all : List ℤ → Process → List (Outcome (Unit {0})) × Process
unfolding instance_of
construct_all [] p = ([], p)
construct_all (v ∷ vs) p =
    let (done, p') = instance_of v p in let (rest, p'') = construct_all vs p' in (done ∷ rest, p'')

construct_all-initialised :
    (vs : List ℤ) (p : Process) (result : ℤ) → p.init ≡ some result → (construct_all vs p).1 ≡ p
unfolding construct_all instance_of init_static
construct_all-initialised [] p result e = refl
construct_all-initialised (v ∷ vs) p result e =
    let same : (instance_of v p).1 ≡ p = ground arith in
    ground (arith, same, construct_all-initialised vs (instance_of v p).1 result (ground arith))

-- However many services a process makes, `mysql_library_init` is called once, and its result is kept.
pub library_inits-construct_all :
    (v : ℤ) (vs : List ℤ)
    → (construct_all (v ∷ vs) new_process).1 ≡ record { init = some v; library_inits = 1 }
unfolding construct_all instance_of init_static
library_inits-construct_all v vs =
    let p = (instance_of v new_process).1 in
    ground (arith, construct_all-initialised vs p v (ground arith))
