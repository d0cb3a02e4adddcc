-- ===== src/Tests/Resp.antt =====
-- The theorems on the RESP front end at a `GET` of the key, sent twice with its last byte missing.
use self_healing_distributed.Prelude.{
  ℕ_discrete, ◌≤◌, ◌<◌, ◌≡◌, ◌↔◌, refl, none, some, List, [], ◌∷◌, ◌++◌, arith, length, ◌-◌,
}
use self_healing_distributed.Prelude.Map
use self_healing_distributed.Types.{Bytes, Bytes-discrete, codes}
use self_healing_distributed.Decimal
use self_healing_distributed.Cache.Store
use self_healing_distributed.Cache.Store.{CacheStore}
use self_healing_distributed.Cache.Visible.{lasting, visible}
use self_healing_distributed.Resp.Text
use self_healing_distributed.Resp.Parser
use self_healing_distributed.Resp.Parser.{
  RespValue, simple_string, integer, null, bulk_string, array, end, item, complete, incomplete,
  panicked, parse_resp, parse_nested,
}
use self_healing_distributed.Resp.Encoder
use self_healing_distributed.Resp.Encoder.{crlf, encode_integer, encode_simple_string, encode_value}
use self_healing_distributed.Resp.Server
use self_healing_distributed.Resp.Server.{cmd_get, cmd_set, cmd_del, found_value}
use self_healing_distributed.Resp.Deletion
use self_healing_distributed.Resp.Connection
use self_healing_distributed.Resp.Connection.{Connection, process_buffer, handle_connection}
use self_healing_distributed.Resp.Bounds
use self_healing_distributed.Resp.Depth
use self_healing_distributed.Resp.Progress
use self_healing_distributed.Resp.Overflow
use self_healing_distributed.Resp.Commands
use self_healing_distributed.Resp.Commands.{TtlOption, ex, px, sent, meant}
use self_healing_distributed.Resp.RoundTrip
use self_healing_distributed.Resp.Scalars
use self_healing_distributed.Resp.Stable
use self_healing_distributed.Resp.Pipeline
use self_healing_distributed.Resp.Pipeline.{encode_all, answer_all}
use self_healing_distributed.Resp.Lines
use self_healing_distributed.Tests.Data.{key, value, old_store}

abbrev get_key : Bytes
get_key =
    codes "*2"
    ++ crlf
    ++ codes "$3"
    ++ crlf
    ++ codes "GET"
    ++ crlf
    ++ codes "$1"
    ++ crlf
    ++ codes "k"
    ++ crlf

abbrev get_command : RespValue
get_command = array (item (bulk_string (codes "GET")) (item (bulk_string key) end))

abbrev half_command : Bytes
half_command = codes "*2" ++ crlf ++ codes "$3" ++ crlf

abbrev connection : Connection
connection = record { store = old_store; written = []; buf = get_key ++ half_command }

-- The store after the key was set for ever.
abbrev set_store : CacheStore
set_store = record old_store { data_map = (key, record { value = value; expires_at = none }) ∷ [] }

consumed-le_example : (0 < 20) × (20 ≤ length get_key)
unfolding parse_resp Parser.read_line Text.is_utf8 Text.parse_i64
consumed-le_example = Bounds.consumed-le 1000 get_key get_command 20 refl

parse_nested-eq-parse_resp_example :
    (parse_nested 1000 panicked 50 get_key ≡ parse_resp 1000 get_key)
    × (parse_resp 1000 get_key ≡ Parser.parse_tagged 1000 (parse_resp 1000) get_key)
parse_nested-eq-parse_resp_example =
    Depth.parse_nested-eq-parse_resp 1000 panicked 50 get_key (omega arith)

process_buffer-incomplete_example : parse_resp 1000 half_command ≡ incomplete
unfolding process_buffer Connection.round_of Server.handle_command Server.cmd_get Server.extract_str
    parse_resp Parser.read_line Text.is_utf8 Text.parse_i64 Text.to_uppercase Store.get Map.get
    Map.remove Bytes-discrete ℕ_discrete Encoder.encode_null
process_buffer-incomplete_example =
    Progress.process_buffer-incomplete 1000 (λ b. []) 9 connection
      (record {
        store = record { data_map = []; epoch = 0 };
        written = codes "$-1" ++ crlf;
        buf = half_command;
      })
      refl

-- `SET k v PX 90000 EX 3`.
abbrev options : List TtlOption
options = px 90000 ∷ ex 3 ∷ []

cmd_get-cmd_set_example :
    (s' : CacheStore) × (cmd_set 9
        (item (bulk_string key) (item (bulk_string value) (sent options)))
        old_store
      ≡ some (s', encode_simple_string (codes "OK")))
    × ((cmd_get 3000000008 (item (bulk_string key) end) s').1
        ≡ found_value (lasting 9 key old_store 3000000008 value (meant options none)))
unfolding Text.is_utf8
cmd_get-cmd_set_example =
    Commands.cmd_get-cmd_set 9 3000000008 key value options old_store refl
      (omega arith, (omega arith, tt)) (omega arith)

-- `SET k v EX 10000000000000000000`, in two reads.
abbrev too_long : List TtlOption
too_long = ex 10000000000000000000 ∷ []

abbrev two_reads : List Bytes
two_reads =
    (codes "*5" ++ crlf ++ codes "$3" ++ crlf ++ codes "SET" ++ crlf ++ codes "$1" ++ crlf)
    ∷ (key
        ++ crlf
        ++ codes "$1"
        ++ crlf
        ++ value
        ++ crlf
        ++ codes "$2"
        ++ crlf
        ++ codes "EX"
        ++ crlf
        ++ codes "$20"
        ++ crlf
        ++ codes "10000000000000000000"
        ++ crlf)
    ∷ []

handle_connection-set_command_example :
    (handle_connection 1000
        (λ b. [])
        (record { store = old_store; written = []; buf = [] })
        (Pipeline.at 1000 (λ b. []) 9 two_reads)
      ≡ none)
    ↔ (¬ Commands.IsInTime 9 (meant too_long none))
unfolding Text.is_utf8 Scalars.IsSendable Encoder.encode_value Encoder.encode_bulk_string
    Decimal.to_decimal
handle_connection-set_command_example =
    Overflow.handle_connection-set_command 1000 (λ b. []) 9 key value too_long two_reads old_store
      refl (omega arith, tt)
      (
        omega arith,
        omega arith,
        (omega arith, (omega arith, (omega arith, (omega arith, (omega arith, tt))))),
      )
      (omega arith, (omega arith, tt)) refl

-- The key is named twice.
visible-cmd_del_example :
    let (s', answer) = cmd_del (item (bulk_string key) (item (bulk_string key) end)) old_store in
    (visible 9 s' key ≡ none)
    × (length s'.data_map ≤ length old_store.data_map)
    × (answer ≡ encode_integer (Text.pos (length old_store.data_map - length s'.data_map)))
unfolding Deletion.named Server.extract_str Text.is_utf8 Bytes-discrete ℕ_discrete Map.get
visible-cmd_del_example =
    Deletion.visible-cmd_del (bulk_string key) (item (bulk_string key) end) old_store 9 key
      (refl, tt)

-- A nested array with a negative number, a text and nothing.
abbrev reply : RespValue
reply = array (
    item (integer (Text.negsuc 41)) (
      item (array (item (simple_string (codes "OK")) (item null end)))
        (item (bulk_string value) end)))

parse_resp-encode_value_example :
    parse_resp 1000 (encode_value reply ++ half_command)
    ≡ complete reply (length (encode_value reply))
unfolding Scalars.IsSendable Lines.HasNoCrlf Text.is_utf8
parse_resp-encode_value_example = RoundTrip.parse_resp-encode_value 1000 reply half_command (
  omega arith,
  omega arith,
  (
    omega arith,
    (
      (omega arith, omega arith, ((refl, ((λ (cr, lf). omega arith), tt)), (tt, tt))),
      (omega arith, tt),
    ),
  ),
)

parse_resp-append_example : parse_resp 1000 (get_key ++ half_command) ≡ parse_resp 1000 get_key
unfolding parse_resp Parser.read_line Text.is_utf8 Text.parse_i64
parse_resp-append_example = Stable.parse_resp-append 1000 get_key half_command (λ e. ground arith)

-- `PING` and `GET` in three reads that no command's end divides.
abbrev commands : List RespValue
commands = array (item (bulk_string (codes "PING")) end) ∷ get_command ∷ []

abbrev three_reads : List Bytes
three_reads =
    (codes "*1" ++ crlf ++ codes "$4" ++ crlf ++ codes "PI")
    ∷ (codes "NG" ++ crlf ++ codes "*2")
    ∷ (crlf ++ codes "$3" ++ crlf ++ codes "GET" ++ crlf ++ codes "$1" ++ crlf ++ key ++ crlf)
    ∷ []

handle_connection-encode_all_example :
    handle_connection 1000
      (λ b. [])
      (record { store = old_store; written = []; buf = [] })
      (Pipeline.at 1000 (λ b. []) 9 three_reads)
    ≡ answer_all 9 commands old_store []
unfolding Scalars.IsSendable Encoder.encode_value Encoder.encode_bulk_string Decimal.to_decimal
handle_connection-encode_all_example =
    Pipeline.handle_connection-encode_all 1000 (λ b. []) 9 commands three_reads old_store []
      (
        (omega arith, omega arith, (omega arith, tt)),
        ((omega arith, omega arith, (omega arith, (omega arith, tt))), tt),
      )
      (omega arith, (omega arith, (omega arith, tt))) refl
