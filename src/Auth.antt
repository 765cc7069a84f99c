-- ===== src/Auth.antt =====
-- include/amy/auth_info.hpp and include/amy/endpoint_traits.hpp: what a connection is opened with.
use amy.Prelude.{ℕ, zero, suc, ◌≡◌, refl, ap, Option, none, some, [], ◌∷◌, arith}
use amy.Client.{Bytes, ConnectArgs}

-- The C string at `s.c_str()`: the bytes up to the first 0.
unfoldable pub c_str : Bytes → Bytes
c_str [] = []
c_str (zero ∷ s) = []
c_str (suc b ∷ s) = suc b ∷ c_str s

pub record AuthInfo : Type 0 where
  pub user_ : Bytes
  pub password_ : Option Bytes

-- The three constructors from values.
abbrev pub anonymous : AuthInfo
anonymous = record { user_ = []; password_ = none }

abbrev pub with_user : Bytes → AuthInfo
with_user user = record { user_ = user; password_ = none }

abbrev pub with_password : Bytes → Bytes → AuthInfo
with_password user password = record { user_ = user; password_ = some password }

-- The getters.
unfoldable pub user : AuthInfo → Bytes
user a = c_str a.user_

unfoldable pub password : AuthInfo → Option Bytes
password a = elim a.password_ [ none ↦ none | some p ↦ some (c_str p) ]

-- The setters.
unfoldable pub set_user : Bytes → AuthInfo → AuthInfo
set_user u a = record a { user_ = u }

unfoldable pub set_password : Bytes → AuthInfo → AuthInfo
set_password p a = record a { password_ = some p }

unfoldable pub clear_password : AuthInfo → AuthInfo
clear_password a = record a { password_ = none }

-- The copy constructor, which goes through the getters.
unfoldable pub copy : AuthInfo → AuthInfo
copy that = record {
  user_ = user that;
  password_ = elim (password that) [ none ↦ none | some p ↦ some p ];
}

-- An endpoint: `null_endpoint`, `ip::tcp::endpoint` (the address already printed) or
-- `local::stream_protocol::endpoint`.
pub data Endpoint : Type 0 where
  null_endpoint : Endpoint
  tcp : Bytes → ℕ → Endpoint
  local : Bytes → Endpoint

-- The three functions of `endpoint_traits`.
abbrev pub host : Endpoint → Option Bytes
host null_endpoint = none
host (tcp address port) = some (c_str address)
host (local path) = none

abbrev pub port : Endpoint → ℕ
port null_endpoint = 0
port (tcp address number) = number
port (local path) = 0

abbrev pub unix_socket : Endpoint → Option Bytes
unix_socket null_endpoint = none
unix_socket (tcp address port) = none
unix_socket (local path) = some (c_str path)

-- The arguments that `connect` and its handlers pass to `mysql_real_connect`.
unfoldable pub connect_args : Endpoint → AuthInfo → Bytes → ℕ → ConnectArgs
connect_args endpoint auth database flags = record {
  host = host endpoint;
  user = user auth;
  password = password auth;
  database = c_str database;
  port = port endpoint;
  unix_socket = unix_socket endpoint;
  client_flag = flags;
}

c_str-c_str : (s : Bytes) → c_str (c_str s) ≡ c_str s
unfolding c_str
c_str-c_str [] = refl
c_str-c_str (zero ∷ s) = refl
c_str-c_str (suc b ∷ s) = ap (◌∷◌ (suc b)) (c_str-c_str s)

-- A copy, which every asynchronous connect makes, opens a connection with the same arguments,
-- whatever the endpoint, database and flags; so a user without a password stays one, and an empty
-- password stays an empty password.
pub connect_args-copy :
    (a : AuthInfo) (e : Endpoint) (database : Bytes) (flags : ℕ)
    → connect_args e (copy a) database flags ≡ connect_args e a database flags
unfolding connect_args copy user password
connect_args-copy a e database flags = ground (arith, c_str-c_str a.user_, by_password a.password_)
  where
    by_password :
        (p : Option Bytes)
        → elim p [ none ↦ none | some q ↦ some (c_str (c_str q)) ]
          ≡ elim p [ none ↦ none | some q ↦ some (c_str q) ]
    by_password none = refl
    by_password (some q) = ap {B = Option Bytes} some (c_str-c_str q)
