-- ===== src/Tests/Repository/Encoder.antt =====
-- The unit tests of crates/node/src/resp/encoder.rs.
use self_healing_distributed.Prelude.{◌≡◌, refl, [], ◌++◌}
use self_healing_distributed.Types.{codes}
use self_healing_distributed.Decimal
use self_healing_distributed.Resp.Text.{pos, negsuc}
use self_healing_distributed.Resp.Parser.{bulk_string, end, item}
use self_healing_distributed.Resp.Encoder
use self_healing_distributed.Resp.Encoder.{
  crlf, encode_simple_string, encode_error, encode_integer, encode_bulk_string, encode_null,
  encode_array,
}

abbrev TestEncodeSimpleString : Type 0
TestEncodeSimpleString = encode_simple_string (codes "OK") ≡ codes "+OK" ++ crlf

abbrev TestEncodeError : Type 0
TestEncodeError = encode_error (codes "ERR something") ≡ codes "-ERR something" ++ crlf

abbrev TestEncodeInteger : Type 0
TestEncodeInteger =
    (encode_integer (pos 42) ≡ codes ":42" ++ crlf)
    × (encode_integer (negsuc 0) ≡ codes ":-1" ++ crlf)
    × (encode_integer (pos 0) ≡ codes ":0" ++ crlf)

abbrev TestEncodeBulkString : Type 0
TestEncodeBulkString =
    (encode_bulk_string (codes "hello") ≡ codes "$5" ++ crlf ++ codes "hello" ++ crlf)
    × (encode_bulk_string [] ≡ codes "$0" ++ crlf ++ crlf)

abbrev TestEncodeNull : Type 0
TestEncodeNull = encode_null ≡ codes "$-1" ++ crlf

abbrev TestEncodeArray : Type 0
TestEncodeArray =
    encode_array (item (bulk_string (codes "GET")) (item (bulk_string (codes "foo")) end))
    ≡ codes "*2"
      ++ crlf
      ++ codes "$3"
      ++ crlf
      ++ codes "GET"
      ++ crlf
      ++ codes "$3"
      ++ crlf
      ++ codes "foo"
      ++ crlf

abbrev TestEncodeEmptyArray : Type 0
TestEncodeEmptyArray = encode_array end ≡ codes "*0" ++ crlf

encoder_tests_pass :
    TestEncodeSimpleString × TestEncodeError × TestEncodeInteger × TestEncodeBulkString
    × TestEncodeNull × TestEncodeArray × TestEncodeEmptyArray
unfolding Encoder.encode_simple_string Encoder.encode_error Encoder.encode_integer
    Encoder.encode_bulk_string Encoder.encode_null Encoder.encode_array Encoder.encode_value
    Decimal.to_decimal
encoder_tests_pass = (refl, refl, (refl, refl, refl), (refl, refl), refl, refl, refl)
