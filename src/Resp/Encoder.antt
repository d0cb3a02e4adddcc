-- ===== src/Resp/Encoder.antt =====
-- crates/node/src/resp/encoder.rs.
use self_healing_distributed.Prelude.{ℕ, suc, ◌+◌, [], ◌∷◌, ◌++◌, length}
use self_healing_distributed.Types.{Bytes, codes}
use self_healing_distributed.Decimal.{to_decimal}
use self_healing_distributed.Resp.Text.{ℤ, pos, negsuc}
use self_healing_distributed.Resp.Parser.{
  RespValue, RespValues, simple_string, error, integer, bulk_string, null, array, end, item,
}

abbrev pub crlf : Bytes
crlf = b'\r' ∷ b'\n' ∷ []

unfoldable pub encode_simple_string : Bytes → Bytes
encode_simple_string s = b'+' ∷ s ++ crlf

unfoldable pub encode_error : Bytes → Bytes
encode_error msg = b'-' ∷ msg ++ crlf

-- `i64::to_string`.
unfoldable pub int_to_string : ℤ → Bytes
unfolding to_decimal
int_to_string (pos n) = to_decimal n
int_to_string (negsuc n) = b'-' ∷ to_decimal (n + 1)

unfoldable pub encode_integer : ℤ → Bytes
unfolding int_to_string
encode_integer n = b':' ∷ int_to_string n ++ crlf

unfoldable pub encode_bulk_string : Bytes → Bytes
encode_bulk_string data_bytes = b'$' ∷ to_decimal (length data_bytes) ++ crlf ++ data_bytes ++ crlf

unfoldable pub encode_null : Bytes
encode_null = codes "$-1" ++ crlf

abbrev pub count_items : RespValues → ℕ
count_items end = 0
count_items (item v vs) = suc (count_items vs)

unfoldable mutual
  pub encode_value : RespValue → Bytes
  encode_value (simple_string s) = encode_simple_string s
  encode_value (error e) = encode_error e
  encode_value (integer n) = encode_integer n
  encode_value (bulk_string d) = encode_bulk_string d
  encode_value null = encode_null
  encode_value (array items) = b'*' ∷ to_decimal (count_items items) ++ crlf ++ encode_items items

  pub encode_items : RespValues → Bytes
  encode_items end = []
  encode_items (item v vs) = encode_value v ++ encode_items vs

unfoldable pub encode_array : RespValues → Bytes
encode_array items = encode_value (array items)
