-- ===== src/Resp/Depth.antt =====
-- The fuel of the parser (crates/node/src/resp/parser.rs) is enough.
use self_healing_distributed.Prelude.{
  ℕ, zero, suc, ◌+◌, ◌<◌, ◌≡◌, refl, ap, [], ◌∷◌, arith, ltb, if◌then◌else◌, length, drop,
  Option-cases, Bool-cases, inl, inr,
}
use self_healing_distributed.Types.{Bytes}
use self_healing_distributed.Resp.Text.{ℤ, pos, negsuc, is_utf8, parse_i64}
use self_healing_distributed.Resp.Parser.{
  RespValue, ParseResult, complete, incomplete, invalid, panicked, read_line, parse_items, Items,
  array_items, parse_array, parse_tagged, parse_nested, parse_resp, item_or_stop, push, array_of,
}
use self_healing_distributed.Resp.Bounds.{length-drop, read_line-le}

item_or_stop-eq :
    (r : ParseResult) (go go' : RespValue → ℕ → Items)
    → ((v : RespValue) (n : ℕ) → go v n ≡ go' v n)
    → item_or_stop r go ≡ item_or_stop r go'
item_or_stop-eq (complete v n) go go' same = same v n
item_or_stop-eq incomplete go go' same = refl
item_or_stop-eq invalid go go' same = refl
item_or_stop-eq panicked go go' same = refl

-- Two parsers that agree on all shorter buffers parse the same items.
module _ (p q : Bytes → ParseResult) (buf : Bytes)
    (same : (b : Bytes) → length b < length buf → p b ≡ q b) where
  parse_items-eq :
      (n offset : ℕ)
      → 0 < offset
      → 0 < length buf
      → parse_items p n buf offset ≡ parse_items q n buf offset
  unfolding parse_items
  parse_items-eq zero offset started some_byte = refl
  parse_items-eq (suc n) offset started some_byte =
      rw (same (drop offset buf) (omega (arith, length-drop offset buf))) (
        item_or_stop-eq (q (drop offset buf)) _ _ (λ v consumed.
          ap (push v) (parse_items-eq n (offset + consumed) (omega arith) some_byte)))

  array_items-eq :
      (limit : ℕ) (n : ℤ) (next : ℕ)
      → 0 < next
      → 0 < length buf
      → array_items limit p buf n next ≡ array_items limit q buf n next
  unfolding array_items
  array_items-eq limit (negsuc n) next started some_byte = refl
  array_items-eq limit (pos count) next started some_byte =
      ap (λ r. if ltb limit count then panicked else array_of r)
        (parse_items-eq count next started some_byte)

  parse_array-eq : (limit : ℕ) → parse_array limit p buf ≡ parse_array limit q buf
  unfolding parse_array
  parse_array-eq limit = elim (Option-cases (read_line buf 1)) [
    | inl open_line ↦ rw open_line refl
    | inr ((line, next), found) ↦
        let (low, high) = read_line-le buf line next found in
        elim (Bool-cases (is_utf8 line)) [
          | inr bad ↦ rw (found, bad) refl
          | inl good ↦ elim (Option-cases (parse_i64 line)) [
            | inl no_number ↦ rw (found, good, no_number) refl
            | inr (n, number) ↦
                rw (found, good, number) (array_items-eq limit n next (omega arith) (omega arith))
          ]
        ]
  ]

parse_tagged-eq :
    (limit : ℕ) (p q : Bytes → ParseResult) (buf : Bytes)
    → ((b : Bytes) → length b < length buf → p b ≡ q b)
    → parse_tagged limit p buf ≡ parse_tagged limit q buf
unfolding parse_tagged
parse_tagged-eq limit p q [] same = refl
parse_tagged-eq limit p q (tag ∷ rest) same = rw (parse_array-eq p q (tag ∷ rest) same limit) refl

nested_enough :
    (limit : ℕ) (out other : ParseResult) (fuel more : ℕ) (buf : Bytes)
    → length buf < fuel
    → length buf < more
    → parse_nested limit out fuel buf ≡ parse_nested limit other more buf
unfolding parse_nested
nested_enough limit out other zero more buf h h' = ground arith
nested_enough limit out other (suc fuel) zero buf h h' = ground arith
nested_enough limit out other (suc fuel) (suc more) buf h h' =
    parse_tagged-eq limit (parse_nested limit out fuel) (parse_nested limit other more) buf
      (λ c shorter. nested_enough limit out other fuel more c (omega arith) (omega arith))

-- The recursion of the parser ends, at a depth of at most the length of the buffer: with more fuel
-- than that the result is that of `parse_resp`, whatever running out of fuel would give, so that it
-- never runs out. And `parse_resp` satisfies the equation of the source, in which the items of an
-- array are parsed by `parse_resp` itself, with no fuel.
pub parse_nested-eq-parse_resp :
    (limit : ℕ) (out : ParseResult) (fuel : ℕ) (buf : Bytes)
    → length buf < fuel
    → (parse_nested limit out fuel buf ≡ parse_resp limit buf)
      × (parse_resp limit buf ≡ parse_tagged limit (parse_resp limit) buf)
unfolding parse_resp parse_nested
parse_nested-eq-parse_resp limit out fuel buf h = (
  nested_enough limit out incomplete fuel (suc (length buf)) buf h (omega arith),
  parse_tagged-eq limit (parse_nested limit incomplete (length buf)) (parse_resp limit) buf
      (λ c shorter.
        nested_enough limit incomplete incomplete (length buf) (suc (length c)) c shorter
          (omega arith)),
)
