-- ===== src/Tests/Repository/Server.antt =====
-- The unit tests of crates/node/src/resp/server.rs. The first command of a test is handled at the
-- instant 0, and each other one nanosecond after the last.
use self_healing_distributed.Prelude.{
  ℕ_discrete, suc, ◌≡◌, refl, none, some, List, [], ◌∷◌, ◌++◌, take, drop,
}
use self_healing_distributed.Prelude.Map
use self_healing_distributed.Types.{Bytes, Bytes-discrete, Instant, codes}
use self_healing_distributed.Decimal
use self_healing_distributed.Cache.Store
use self_healing_distributed.Cache.Store.{CacheStore}
use self_healing_distributed.Resp.Text
use self_healing_distributed.Resp.Parser.{RespValues, bulk_string, array, end, item}
use self_healing_distributed.Resp.Encoder
use self_healing_distributed.Resp.Encoder.{crlf}
use self_healing_distributed.Resp.Server
use self_healing_distributed.Resp.Server.{handle_command}

abbrev parts : List Bytes → RespValues
parts [] = end
parts (b ∷ bs) = item (bulk_string b) (parts bs)

-- The answers to commands that are handled one after the other.
abbrev handle_all : Instant → List (List Bytes) → CacheStore → List Bytes
handle_all now [] s = []
handle_all now (c ∷ cs) s = elim (handle_command now (array (parts c)) s) [
  | none ↦ []
  | some (s', answer) ↦ answer ∷ handle_all (suc now) cs s'
]

abbrev answers : List (List Bytes) → List Bytes
answers cs = handle_all 0 cs (record { data_map = []; epoch = 0 })

-- The first byte of each answer.
abbrev tags : List Bytes → List Bytes
tags [] = []
tags (b ∷ bs) = take 1 b ∷ tags bs

abbrev line : Bytes → Bytes
line b = b ++ crlf

abbrev ok : Bytes
ok = line (codes "+OK")

abbrev set_k : List Bytes
set_k = codes "SET" ∷ codes "k" ∷ codes "v" ∷ []

abbrev TestPing : Type 0
TestPing = answers ((codes "PING" ∷ []) ∷ []) ≡ line (codes "+PONG") ∷ []

abbrev TestPingWithMessage : Type 0
TestPingWithMessage =
    answers ((codes "PING" ∷ codes "hello" ∷ []) ∷ [])
    ≡ (line (codes "$5") ++ line (codes "hello")) ∷ []

abbrev TestSetAndGet : Type 0
TestSetAndGet =
    answers (
      (codes "SET" ∷ codes "mykey" ∷ codes "myvalue" ∷ [])
      ∷ (codes "GET" ∷ codes "mykey" ∷ [])
      ∷ [])
    ≡ ok ∷ (line (codes "$7") ++ line (codes "myvalue")) ∷ []

abbrev TestSetWithEx : Type 0
TestSetWithEx =
    let replies =
      answers ((set_k ++ codes "EX" ∷ codes "10" ∷ []) ∷ (codes "TTL" ∷ codes "k" ∷ []) ∷ []) in
    (take 1 replies ≡ ok ∷ []) × (tags (drop 1 replies) ≡ codes ":" ∷ [])

abbrev TestSetWithPx : Type 0
TestSetWithPx = answers ((set_k ++ codes "PX" ∷ codes "5000" ∷ []) ∷ []) ≡ ok ∷ []

abbrev TestGetMissing : Type 0
TestGetMissing = answers ((codes "GET" ∷ codes "nokey" ∷ []) ∷ []) ≡ line (codes "$-1") ∷ []

abbrev TestDelExisting : Type 0
TestDelExisting =
    drop 1 (answers (set_k ∷ (codes "DEL" ∷ codes "k" ∷ []) ∷ (codes "GET" ∷ codes "k" ∷ []) ∷ []))
    ≡ line (codes ":1") ∷ line (codes "$-1") ∷ []

abbrev TestDelMissing : Type 0
TestDelMissing = answers ((codes "DEL" ∷ codes "nokey" ∷ []) ∷ []) ≡ line (codes ":0") ∷ []

abbrev TestExists : Type 0
TestExists =
    drop 1 (
      answers
        (set_k ∷ (codes "EXISTS" ∷ codes "k" ∷ []) ∷ (codes "EXISTS" ∷ codes "nokey" ∷ []) ∷ []))
    ≡ line (codes ":1") ∷ line (codes ":0") ∷ []

abbrev TestTtlNoKey : Type 0
TestTtlNoKey = answers ((codes "TTL" ∷ codes "nokey" ∷ []) ∷ []) ≡ line (codes ":-2") ∷ []

abbrev TestTtlNoExpiry : Type 0
TestTtlNoExpiry =
    drop 1 (answers (set_k ∷ (codes "TTL" ∷ codes "k" ∷ []) ∷ [])) ≡ line (codes ":-1") ∷ []

abbrev TestExpire : Type 0
TestExpire =
    let replies = drop 1 (
      answers (
        set_k
        ∷ (codes "EXPIRE" ∷ codes "k" ∷ codes "60" ∷ [])
        ∷ (codes "TTL" ∷ codes "k" ∷ [])
        ∷ [])) in
    (take 1 replies ≡ line (codes ":1") ∷ []) × (tags (drop 1 replies) ≡ codes ":" ∷ [])

abbrev TestExpireMissingKey : Type 0
TestExpireMissingKey =
    answers ((codes "EXPIRE" ∷ codes "nokey" ∷ codes "60" ∷ []) ∷ []) ≡ line (codes ":0") ∷ []

abbrev TestUnknownCommand : Type 0
TestUnknownCommand = answers ((codes "FOOBAR" ∷ []) ∷ []) ≡ line (codes "-ERR unknown command") ∷ []

abbrev TestCaseInsensitive : Type 0
TestCaseInsensitive =
    drop 1
      (answers ((codes "set" ∷ codes "k" ∷ codes "v" ∷ []) ∷ (codes "get" ∷ codes "k" ∷ []) ∷ []))
    ≡ (line (codes "$1") ++ line (codes "v")) ∷ []

-- The whole answer, of which the test asserts that it contains `wrong number of arguments`.
abbrev TestWrongArgCount : Type 0
TestWrongArgCount =
    answers ((codes "SET" ∷ codes "only_key" ∷ []) ∷ [])
    ≡ line (codes "-ERR wrong number of arguments for 'set' command") ∷ []

abbrev TestEcho : Type 0
TestEcho =
    answers ((codes "ECHO" ∷ codes "hello" ∷ []) ∷ [])
    ≡ (line (codes "$5") ++ line (codes "hello")) ∷ []

server_tests_pass :
    (TestPing × TestPingWithMessage × TestSetAndGet × TestSetWithEx × TestSetWithPx)
    × (TestGetMissing × TestDelExisting × TestDelMissing × TestExists × TestTtlNoKey)
    × (TestTtlNoExpiry × TestExpire × TestExpireMissingKey × TestUnknownCommand)
    × (TestCaseInsensitive × TestWrongArgCount × TestEcho)
unfolding handle_command Server.cmd_ping Server.cmd_echo Server.cmd_set Server.cmd_get
    Server.cmd_del Server.cmd_exists Server.cmd_ttl Server.cmd_expire Server.set_options
    Server.set_option Server.extract_str Server.extract_bytes Text.is_utf8 Text.parse_u64
    Text.to_uppercase Store.set Store.get Store.delete Store.exists Store.ttl Store.expire
    Store.deadline Map.get Map.insert Map.remove Bytes-discrete ℕ_discrete
    Encoder.encode_simple_string Encoder.encode_error Encoder.encode_integer
    Encoder.encode_bulk_string Encoder.encode_null Decimal.to_decimal
server_tests_pass = (
  (refl, refl, refl, (refl, refl), refl),
  (refl, refl, refl, refl, refl),
  (refl, (refl, refl), refl, refl),
  (refl, refl, refl),
)
