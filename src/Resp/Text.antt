-- ===== src/Resp/Text.antt =====
-- What the RESP front end uses of Rust's standard library on text: `str::from_utf8`, which accepts
-- well-formed UTF-8, and `str::parse` at `i64` and `u64`.
use self_healing_distributed.Prelude.{
  ℕ, zero, suc, ◌+◌, ◌-◌, ◌*◌, ◌^◌, Bool, true, false, ◌&&◌, ◌||◌, ◌++◌, Option, none, some, List,
  [], ◌∷◌, ltb, leb, ◌==◌, if◌then◌else◌,
}
use self_healing_distributed.Types.{Bytes}

-- An `i64`.
pub data ℤ : Type 0 where
  pos negsuc : ℕ → ℤ

-- The ranges that the bytes after a leading byte must lie in, if it may lead.
abbrev Ranges : Type 0
Ranges = List (ℕ × ℕ)

abbrev tail_byte : ℕ × ℕ
tail_byte = (128, 191)

abbrev pub follow : ℕ → Option Ranges
follow b =
    if ltb b 128
    then some []
    else if leb 194 b && leb b 223
    then some (tail_byte ∷ [])
    else if b == 224
    then some ((160, 191) ∷ tail_byte ∷ [])
    else if b == 237
    then some ((128, 159) ∷ tail_byte ∷ [])
    else if leb 225 b && leb b 239
    then some (tail_byte ∷ tail_byte ∷ [])
    else if b == 240
    then some ((144, 191) ∷ tail_byte ∷ tail_byte ∷ [])
    else if leb 241 b && leb b 243
    then some (tail_byte ∷ tail_byte ∷ tail_byte ∷ [])
    else if b == 244
    then some ((128, 143) ∷ tail_byte ∷ tail_byte ∷ [])
    else none

unfoldable pub is_utf8_from : Ranges → Bytes → Bool
is_utf8_from [] [] = true
is_utf8_from (r ∷ rs) [] = false
is_utf8_from ((low, high) ∷ rs) (b ∷ bs) = (leb low b && leb b high) && is_utf8_from rs bs
is_utf8_from [] (b ∷ bs) = elim (follow b) [ none ↦ false | some rs ↦ is_utf8_from rs bs ]

unfoldable pub is_utf8 : Bytes → Bool
unfolding is_utf8_from
is_utf8 b = is_utf8_from [] b

-- The number that the digits spell after `n`.
unfoldable pub parse_digits : ℕ → Bytes → Option ℕ
parse_digits n [] = some n
parse_digits n (b ∷ bs) =
    let rest = parse_digits (10 * n + (b - 48)) bs in if leb 48 b && leb b 57 then rest else none

-- At least one digit.
unfoldable pub parse_unsigned : Bytes → Option ℕ
unfolding parse_digits
parse_unsigned [] = none
parse_unsigned (b ∷ bs) = parse_digits 0 (b ∷ bs)

abbrev within : ℕ → Option ℕ → Option ℕ
within bound none = none
within bound (some n) = if ltb n bound then some n else none

abbrev negated : Option ℕ → Option ℤ
negated none = none
negated (some zero) = some (pos zero)
negated (some (suc n)) = some (negsuc n)

abbrev positive : Option ℕ → Option ℤ
positive none = none
positive (some n) = some (pos n)

-- `parse::<i64>()`: a sign may stand before the digits.
unfoldable pub parse_i64 : Bytes → Option ℤ
unfolding parse_unsigned
parse_i64 [] = none
parse_i64 (b ∷ bs) =
    if b == b'-'
    then negated (within (2 ^ 63 + 1) (parse_unsigned bs))
    else if b == b'+'
    then positive (within (2 ^ 63) (parse_unsigned bs))
    else positive (within (2 ^ 63) (parse_unsigned (b ∷ bs)))

-- `parse::<u64>()`: a plus sign may stand before the digits.
unfoldable pub parse_u64 : Bytes → Option ℕ
unfolding parse_unsigned
parse_u64 [] = none
parse_u64 (b ∷ bs) =
    if b == b'+'
    then within (2 ^ 64) (parse_unsigned bs)
    else within (2 ^ 64) (parse_unsigned (b ∷ bs))

-- The characters of two and three bytes whose capitals are ASCII.
abbrev capital_of_two : ℕ → ℕ → Option Bytes
capital_of_two b c =
    if (b == 196) && (c == 177)
    then some (b'I' ∷ [])
    else if (b == 197) && (c == 191)
    then some (b'S' ∷ [])
    else if (b == 195) && (c == 159)
    then some (b'S' ∷ b'S' ∷ [])
    else none

abbrev ligature : ℕ → Option Bytes
ligature d =
    if d == 128
    then some (b'F' ∷ b'F' ∷ [])
    else if d == 129
    then some (b'F' ∷ b'I' ∷ [])
    else if d == 130
    then some (b'F' ∷ b'L' ∷ [])
    else if d == 131
    then some (b'F' ∷ b'F' ∷ b'I' ∷ [])
    else if d == 132
    then some (b'F' ∷ b'F' ∷ b'L' ∷ [])
    else if (d == 133) || (d == 134)
    then some (b'S' ∷ b'T' ∷ [])
    else none

abbrev capital_of_three : ℕ → ℕ → ℕ → Option Bytes
capital_of_three b c d = if (b == 239) && (c == 172) then ligature d else none

abbrev capital : ℕ → ℕ
capital b = if leb b'a' b && leb b b'z' then b - 32 else b

-- `to_uppercase`, as far as it gives ASCII: a character whose capitals are not all ASCII stays as it
-- is here, which makes no difference to a comparison with an ASCII word.
unfoldable pub to_uppercase : Bytes → Bytes
to_uppercase [] = []
to_uppercase (b ∷ []) = capital b ∷ []
to_uppercase (b ∷ c ∷ []) = elim (capital_of_two b c) [
  | some cs ↦ cs
  | none ↦ capital b ∷ to_uppercase (c ∷ [])
]
to_uppercase (b ∷ c ∷ d ∷ bs) = elim (capital_of_three b c d) [
  | some cs ↦ cs ++ to_uppercase bs
  | none ↦ elim (capital_of_two b c) [
    | some cs ↦ cs ++ to_uppercase (d ∷ bs)
    | none ↦ capital b ∷ to_uppercase (c ∷ d ∷ bs)
  ]
]
