-- ===== src/Resp/Server.antt =====
-- crates/node/src/resp/server.rs: the commands, over the store of the node. A panic is `none`.
use self_healing_distributed.Prelude.{ℕ, ◌+◌, Bool, Option, none, some, ◌++◌, if◌then◌else◌, ite}
use self_healing_distributed.Types.{
  Bytes, Bytes-discrete, codes, Instant, Duration, from_secs, from_millis, as_secs,
}
use self_healing_distributed.Cache.Store.{CacheStore}
use self_healing_distributed.Cache.Store
use self_healing_distributed.Resp.Text.{pos, negsuc, is_utf8, parse_u64, to_uppercase}
use self_healing_distributed.Resp.Parser.{
  RespValue, RespValues, simple_string, error, integer, bulk_string, null, array, end, item,
}
use self_healing_distributed.Resp.Encoder.{
  encode_simple_string, encode_error, encode_integer, encode_bulk_string, encode_null,
}

unfoldable pub extract_str : RespValue → Option Bytes
extract_str (simple_string s) = some s
extract_str (error e) = none
extract_str (integer n) = none
extract_str (bulk_string data_bytes) = if is_utf8 data_bytes then some data_bytes else none
extract_str null = none
extract_str (array items) = none

unfoldable pub extract_bytes : RespValue → Option Bytes
extract_bytes (simple_string s) = some s
extract_bytes (error e) = none
extract_bytes (integer n) = none
extract_bytes (bulk_string data_bytes) = some data_bytes
extract_bytes null = none
extract_bytes (array items) = none

-- `extract_str(v).and_then(|s| s.parse::<u64>().ok())`.
abbrev extract_u64 : RespValue → Option ℕ
extract_u64 v = elim (extract_str v) [ none ↦ none | some s ↦ parse_u64 s ]

abbrev wrong_number : Bytes → Bytes
wrong_number command =
    encode_error (codes "ERR wrong number of arguments for '" ++ command ++ codes "' command")

abbrev not_an_integer : Bytes
not_an_integer = encode_error (codes "ERR value is not an integer or out of range")

abbrev echoed : Option Bytes → Bytes
echoed none = encode_error (codes "ERR invalid argument")
echoed (some data_bytes) = encode_bulk_string data_bytes

-- A command is given the arguments behind its name.
unfoldable pub cmd_ping : RespValues → Bytes
cmd_ping end = encode_simple_string (codes "PONG")
cmd_ping (item v end) = echoed (extract_bytes v)
cmd_ping (item v (item w vs)) = wrong_number (codes "ping")

unfoldable pub cmd_echo : RespValues → Bytes
cmd_echo end = wrong_number (codes "echo")
cmd_echo (item v end) = echoed (extract_bytes v)
cmd_echo (item v (item w vs)) = wrong_number (codes "echo")

-- What the options of `SET` come to: a time to live, or the error that is answered.
pub data SetOptions : Type 0 where
  lives : Option Duration → SetOptions
  refused : Bytes → SetOptions

-- `EX` and `PX`, the unit that they give, or a syntax error.
pub data SetOption : Type 0 where
  seconds milliseconds unknown : SetOption

unfoldable pub set_option : Bytes → SetOption
set_option opt =
    ite (Bytes-discrete (to_uppercase opt) (codes "EX")) seconds
      (ite (Bytes-discrete (to_uppercase opt) (codes "PX")) milliseconds unknown)

-- The loop of `cmd_set` over the options.
unfoldable pub set_options : RespValues → Option Duration → SetOptions
set_options end ttl = lives ttl
set_options (item v end) ttl = elim (extract_str v) [
  | none ↦ refused (encode_error (codes "ERR invalid option"))
  | some opt ↦ elim (set_option opt) [
    | seconds ↦ refused (wrong_number (codes "set"))
    | milliseconds ↦ refused (wrong_number (codes "set"))
    | unknown ↦ refused (encode_error (codes "ERR syntax error"))
  ]
]
set_options (item v (item w vs)) ttl = elim (extract_str v) [
  | none ↦ refused (encode_error (codes "ERR invalid option"))
  | some opt ↦ elim (set_option opt) [
    | unknown ↦ refused (encode_error (codes "ERR syntax error"))
    | seconds ↦ elim (extract_u64 w) [
      | none ↦ refused not_an_integer
      | some n ↦ set_options vs (some (from_secs n))
    ]
    | milliseconds ↦ elim (extract_u64 w) [
      | none ↦ refused not_an_integer
      | some n ↦ set_options vs (some (from_millis n))
    ]
  ]
]

-- The store, and the bytes of the answer.
abbrev pub Answer : Type 0
Answer = Option (CacheStore × Bytes)

abbrev stored : Option CacheStore → Answer
stored none = none
stored (some s) = some (s, encode_simple_string (codes "OK"))

abbrev set_with : Instant → Bytes → Bytes → CacheStore → SetOptions → Answer
set_with now key value s (refused message) = some (s, message)
set_with now key value s (lives ttl) = stored (Store.set now key value ttl s)

unfoldable pub cmd_set : Instant → RespValues → CacheStore → Answer
cmd_set now end s = some (s, wrong_number (codes "set"))
cmd_set now (item k end) s = some (s, wrong_number (codes "set"))
cmd_set now (item k (item v options)) s = elim (extract_str k) [
  | none ↦ some (s, encode_error (codes "ERR invalid key"))
  | some key ↦ elim (extract_bytes v) [
    | none ↦ some (s, encode_error (codes "ERR invalid value"))
    | some value ↦ set_with now key value s (set_options options none)
  ]
]

-- The commands with one argument, a key: `run key`.
abbrev with_key :
    Bytes → (Bytes → CacheStore → CacheStore × Bytes) → RespValues → CacheStore → CacheStore × Bytes
with_key name run end s = (s, wrong_number name)
with_key name run (item k end) s = elim (extract_str k) [
  | none ↦ (s, encode_error (codes "ERR invalid key"))
  | some key ↦ run key s
]
with_key name run (item k (item w vs)) s = (s, wrong_number name)

abbrev pub found_value : Option Bytes → Bytes
found_value none = encode_null
found_value (some value) = encode_bulk_string value

unfoldable pub cmd_get : Instant → RespValues → CacheStore → CacheStore × Bytes
cmd_get now =
    with_key (codes "get") (λ key s. let (s', v) = Store.get now key s in (s', found_value v))

unfoldable pub delete_keys : RespValues → ℕ → CacheStore → CacheStore × Bytes
delete_keys end deleted s = (s, encode_integer (pos deleted))
delete_keys (item v vs) deleted s = elim (extract_str v) [
  | none ↦ delete_keys vs deleted s
  | some key ↦
      let (s', gone) = Store.delete key s in
      delete_keys vs (if gone then deleted + 1 else deleted) s'
]

unfoldable pub cmd_del : RespValues → CacheStore → CacheStore × Bytes
unfolding delete_keys
cmd_del end s = (s, wrong_number (codes "del"))
cmd_del (item v vs) s = delete_keys (item v vs) 0 s

abbrev as_bit : Bool → Bytes
as_bit b = encode_integer (pos (if b then 1 else 0))

unfoldable pub cmd_exists : Instant → RespValues → CacheStore → CacheStore × Bytes
cmd_exists now =
    with_key (codes "exists") (λ key s. let (s', b) = Store.exists now key s in (s', as_bit b))

abbrev time_left : Option Duration → Bytes
time_left none = encode_integer (negsuc 0)
time_left (some d) = encode_integer (pos (as_secs d))

unfoldable pub cmd_ttl : Instant → RespValues → CacheStore → CacheStore × Bytes
cmd_ttl now = with_key (codes "ttl") (λ key s.
    let (s', b) = Store.exists now key s in
    if b then (s', time_left (Store.ttl now key s')) else (s', encode_integer (negsuc 1)))

abbrev expired_at : Option (CacheStore × Bool) → Answer
expired_at none = none
expired_at (some (s, b)) = some (s, as_bit b)

unfoldable pub cmd_expire : Instant → RespValues → CacheStore → Answer
cmd_expire now (item k (item v end)) s = elim (extract_str k) [
  | none ↦ some (s, encode_error (codes "ERR invalid key"))
  | some key ↦ elim (extract_u64 v) [
    | none ↦ some (s, not_an_integer)
    | some secs ↦ expired_at (Store.expire now key (from_secs secs) s)
  ]
]
cmd_expire now end s = some (s, wrong_number (codes "expire"))
cmd_expire now (item k end) s = some (s, wrong_number (codes "expire"))
cmd_expire now (item k (item v (item w vs))) s = some (s, wrong_number (codes "expire"))

-- The `match cmd.as_str()`.
unfoldable dispatch : Instant → Bytes → RespValues → CacheStore → Answer
dispatch now cmd args s = ite (Bytes-discrete cmd (codes "PING")) (some (s, cmd_ping args)) (
    ite (Bytes-discrete cmd (codes "ECHO")) (some (s, cmd_echo args)) (
      ite (Bytes-discrete cmd (codes "SET")) (cmd_set now args s) (
        ite (Bytes-discrete cmd (codes "GET")) (some (cmd_get now args s)) (
          ite (Bytes-discrete cmd (codes "DEL")) (some (cmd_del args s)) (
            ite (Bytes-discrete cmd (codes "EXISTS")) (some (cmd_exists now args s)) (
              ite (Bytes-discrete cmd (codes "TTL")) (some (cmd_ttl now args s)) (
                ite (Bytes-discrete cmd (codes "EXPIRE")) (cmd_expire now args s)
                  (some (s, encode_error (codes "ERR unknown command"))))))))))

abbrev handle_args : Instant → RespValues → CacheStore → Answer
handle_args now end s = some (s, encode_error (codes "ERR empty command"))
handle_args now (item v args) s = elim (extract_str v) [
  | none ↦ some (s, encode_error (codes "ERR invalid command"))
  | some name ↦ dispatch now (to_uppercase name) args s
]

abbrev not_an_array : Bytes
not_an_array = encode_error (codes "ERR expected array (RESP command)")

unfoldable pub handle_command : Instant → RespValue → CacheStore → Answer
unfolding dispatch
handle_command now (array args) s = handle_args now args s
handle_command now (simple_string t) s = some (s, not_an_array)
handle_command now (error e) s = some (s, not_an_array)
handle_command now (integer n) s = some (s, not_an_array)
handle_command now (bulk_string data_bytes) s = some (s, not_an_array)
handle_command now null s = some (s, not_an_array)
