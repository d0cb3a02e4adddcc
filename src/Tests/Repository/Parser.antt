-- ===== src/Tests/Repository/Parser.antt =====
-- The unit tests of crates/node/src/resp/parser.rs. The capacity that can be reserved is 1000.
use self_healing_distributed.Prelude.{◌≡◌, refl, Option, none, some, List, [], ◌∷◌, ◌++◌, drop}
use self_healing_distributed.Types.{Bytes, codes}
use self_healing_distributed.Resp.Text
use self_healing_distributed.Resp.Text.{pos, negsuc}
use self_healing_distributed.Resp.Parser
use self_healing_distributed.Resp.Parser.{
  RespValue, ParseResult, simple_string, error, integer, bulk_string, null, array, end, item,
  complete, incomplete, invalid, panicked, parse_resp,
}
use self_healing_distributed.Resp.Encoder.{crlf}

abbrev parse : Bytes → ParseResult
parse = parse_resp 1000

-- The value, where a test does not look at how many bytes it took.
abbrev value_of : ParseResult → Option RespValue
value_of (complete v consumed) = some v
value_of incomplete = none
value_of invalid = none
value_of panicked = none

-- The lines, each with its end.
abbrev lines : List Bytes → Bytes
lines [] = []
lines (l ∷ ls) = l ++ crlf ++ lines ls

abbrev TestParseSimpleString : Type 0
TestParseSimpleString = parse (lines (codes "+OK" ∷ [])) ≡ complete (simple_string (codes "OK")) 5

abbrev TestParseError : Type 0
TestParseError = parse (lines (codes "-ERR test" ∷ [])) ≡ complete (error (codes "ERR test")) 11

abbrev TestParseInteger : Type 0
TestParseInteger = parse (lines (codes ":42" ∷ [])) ≡ complete (integer (pos 42)) 5

abbrev TestParseNegativeInteger : Type 0
TestParseNegativeInteger = value_of (parse (lines (codes ":-1" ∷ []))) ≡ some (integer (negsuc 0))

abbrev TestParseBulkString : Type 0
TestParseBulkString =
    parse (lines (codes "$5" ∷ codes "hello" ∷ [])) ≡ complete (bulk_string (codes "hello")) 11

abbrev TestParseEmptyBulkString : Type 0
TestParseEmptyBulkString = parse (lines (codes "$0" ∷ [] ∷ [])) ≡ complete (bulk_string []) 6

abbrev TestParseNullBulk : Type 0
TestParseNullBulk = parse (lines (codes "$-1" ∷ [])) ≡ complete null 5

abbrev TestParseNullArray : Type 0
TestParseNullArray = parse (lines (codes "*-1" ∷ [])) ≡ complete null 5

abbrev TestParseEmptyArray : Type 0
TestParseEmptyArray = parse (lines (codes "*0" ∷ [])) ≡ complete (array end) 4

abbrev TestParseGetCommand : Type 0
TestParseGetCommand =
    value_of (parse (lines (codes "*2" ∷ codes "$3" ∷ codes "GET" ∷ codes "$3" ∷ codes "foo" ∷ [])))
    ≡ some (array (item (bulk_string (codes "GET")) (item (bulk_string (codes "foo")) end)))

abbrev set_command_with_ex : Bytes
set_command_with_ex = lines (
    codes "*5"
    ∷ codes "$3"
    ∷ codes "SET"
    ∷ codes "$3"
    ∷ codes "foo"
    ∷ codes "$3"
    ∷ codes "bar"
    ∷ codes "$2"
    ∷ codes "EX"
    ∷ codes "$2"
    ∷ codes "60"
    ∷ [])

abbrev TestParseSetCommandWithEx : Type 0
TestParseSetCommandWithEx =
    value_of (parse set_command_with_ex)
    ≡ some (
        array (
          item (bulk_string (codes "SET")) (
            item (bulk_string (codes "foo")) (
              item (bulk_string (codes "bar"))
                (item (bulk_string (codes "EX")) (item (bulk_string (codes "60")) end))))))

abbrev TestParseIncompleteSimpleString : Type 0
TestParseIncompleteSimpleString = parse (codes "+OK") ≡ incomplete

abbrev TestParseIncompleteBulkString : Type 0
TestParseIncompleteBulkString = parse (lines (codes "$5" ∷ []) ++ codes "hel") ≡ incomplete

abbrev TestParseIncompleteArray : Type 0
TestParseIncompleteArray = parse (lines (codes "*2" ∷ codes "$3" ∷ codes "GET" ∷ [])) ≡ incomplete

abbrev TestParseEmptyBuffer : Type 0
TestParseEmptyBuffer = parse [] ≡ incomplete

abbrev TestParseMixedTypesArray : Type 0
TestParseMixedTypesArray =
    value_of (parse (lines (codes "*2" ∷ codes "$3" ∷ codes "foo" ∷ codes ":100" ∷ [])))
    ≡ some (array (item (bulk_string (codes "foo")) (item (integer (pos 100)) end)))

abbrev TestBytesConsumedExact : Type 0
TestBytesConsumedExact =
    let input = lines (codes "+OK" ∷ codes "+NO" ∷ []) in
    (parse input ≡ complete (simple_string (codes "OK")) 5)
    × (value_of (parse (drop 5 input)) ≡ some (simple_string (codes "NO")))

parser_tests_pass :
    (TestParseSimpleString × TestParseError × TestParseInteger × TestParseNegativeInteger)
    × (TestParseBulkString × TestParseEmptyBulkString × TestParseNullBulk)
    × (TestParseNullArray × TestParseEmptyArray × TestParseGetCommand)
    × (TestParseSetCommandWithEx × TestParseMixedTypesArray × TestBytesConsumedExact)
    × (TestParseIncompleteSimpleString × TestParseIncompleteBulkString)
    × (TestParseIncompleteArray × TestParseEmptyBuffer)
unfolding Parser.parse_resp Parser.read_line Text.is_utf8 Text.parse_i64
parser_tests_pass = (
  (refl, refl, refl, refl),
  (refl, refl, refl),
  (refl, refl, refl),
  (refl, refl, (refl, refl)),
  (refl, refl),
  (refl, refl),
)
