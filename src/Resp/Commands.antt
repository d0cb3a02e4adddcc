-- ===== src/Resp/Commands.antt =====
-- What the RESP commands `SET` and `GET` (crates/node/src/resp/server.rs) show of each other.
use self_healing_distributed.Prelude.{
  ℕ, ℕ_discrete, ◌∙◌, ◌+◌, ◌*◌, ◌^◌, ◌<◌, ◌≡◌, refl, true, Option, none, some, List, [], ◌∷◌, All,
  arith, Option-cases, inl, inr,
}
use self_healing_distributed.Types.{
  Bytes, Bytes-discrete, Instant, Duration, codes, from_secs, from_millis,
}
use self_healing_distributed.Decimal.{to_decimal}
use self_healing_distributed.Cache.Store.{CacheStore, end_of_time, deadline}
use self_healing_distributed.Cache.Store
use self_healing_distributed.Cache.Visible.{visible-set, get-eq-visible, lasting}
use self_healing_distributed.Resp.Text.{is_utf8, parse_u64, to_uppercase}
use self_healing_distributed.Resp.Numbers.{to_decimal-IsNumber, is_utf8-digits, parse_u64-digits}
use self_healing_distributed.Resp.Parser.{RespValue, RespValues, bulk_string, end, item}
use self_healing_distributed.Resp.Encoder.{encode_simple_string}
use self_healing_distributed.Resp.Server.{
  cmd_set, cmd_get, set_options, set_option, seconds, milliseconds, lives, found_value, extract_str,
  extract_bytes,
}

-- The options of a `SET`: `EX` with seconds, `PX` with milliseconds.
pub data TtlOption : Type 0 where
  ex px : ℕ → TtlOption

abbrev pub count_of : TtlOption → ℕ
count_of (ex n) = n
count_of (px n) = n

-- How a client sends them.
abbrev pub sent : List TtlOption → RespValues
sent [] = end
sent (ex n ∷ os) = item (bulk_string (codes "EX")) (item (bulk_string (to_decimal n)) (sent os))
sent (px n ∷ os) = item (bulk_string (codes "PX")) (item (bulk_string (to_decimal n)) (sent os))

-- The time to live that they mean, in nanoseconds: the last one counts.
abbrev pub meant : List TtlOption → Option Duration → Option Duration
meant [] d = d
meant (ex n ∷ os) d = meant os (some (n * 1000000000))
meant (px n ∷ os) d = meant os (some (n * 1000000))

-- The deadline can be named.
abbrev pub IsInTime : Instant → Option Duration → Type 0
IsInTime now none = Unit
IsInTime now (some d) = now + d < end_of_time

extract_str-to_decimal : (n : ℕ) → extract_str (bulk_string (to_decimal n)) ≡ some (to_decimal n)
unfolding extract_str
extract_str-to_decimal n =
    ground (arith, is_utf8-digits (to_decimal n) (to_decimal-IsNumber n).only)

extract_str-ascii :
    (extract_str (bulk_string (codes "EX")) ≡ some (codes "EX"))
    × (extract_str (bulk_string (codes "PX")) ≡ some (codes "PX"))
unfolding extract_str is_utf8
extract_str-ascii = (refl, refl)

set_option-words : (set_option (codes "EX") ≡ seconds) × (set_option (codes "PX") ≡ milliseconds)
unfolding set_option to_uppercase Bytes-discrete ℕ_discrete
set_option-words = (refl, refl)

-- What one option with its number does.
module _ (v w : RespValue) (vs : RespValues) (d : Option Duration) (opt ds : Bytes) (n : ℕ)
    (word : extract_str v ≡ some opt) (digits : extract_str w ≡ some ds)
    (number : parse_u64 ds ≡ some n) where
  set_options-seconds :
      set_option opt ≡ seconds
      → set_options (item v (item w vs)) d ≡ set_options vs (some (from_secs n))
  unfolding set_options
  set_options-seconds unit = ground arith

  set_options-milliseconds :
      set_option opt ≡ milliseconds
      → set_options (item v (item w vs)) d ≡ set_options vs (some (from_millis n))
  unfolding set_options
  set_options-milliseconds unit = ground arith

pub set_options-sent :
    (os : List TtlOption) (d : Option Duration)
    → All (λ o. count_of o < 2 ^ 64) os
    → set_options (sent os) d ≡ lives (meant os d)
set_options-sent [] d h = unfold set_options in refl
set_options-sent (ex n ∷ os) d (h, hs) =
    let number = parse_u64-digits n (to_decimal n) (to_decimal-IsNumber n) h in
    set_options-seconds (bulk_string (codes "EX")) (bulk_string (to_decimal n)) (sent os) d
      (codes "EX") (to_decimal n) n extract_str-ascii.0 (extract_str-to_decimal n) number
      set_option-words.0
    ∙ set_options-sent os (some (n * 1000000000)) hs
set_options-sent (px n ∷ os) d (h, hs) =
    let number = parse_u64-digits n (to_decimal n) (to_decimal-IsNumber n) h in
    set_options-milliseconds (bulk_string (codes "PX")) (bulk_string (to_decimal n)) (sent os) d
      (codes "PX") (to_decimal n) n extract_str-ascii.1 (extract_str-to_decimal n) number
      set_option-words.1
    ∙ set_options-sent os (some (n * 1000000)) hs

set-in_time :
    (now : Instant) (key value : Bytes) (ttl : Option Duration) (s : CacheStore)
    → IsInTime now ttl
    → (s' : CacheStore) × (Store.set now key value ttl s ≡ some s')
unfolding Store.set deadline
set-in_time now key value none s h = (_, refl)
set-in_time now key value (some d) s h = elim (Option-cases (Store.set now key value (some d) s)) [
  | inl panics ↦ ground arith
  | inr (s', done) ↦ (s', done)
]

-- A `SET` with any number of options `EX` and `PX`, each with a number below 2^64, is answered with
-- OK if its deadline can be named. A `GET` then answers with the value until the time to live has
-- passed that the last option gives, in seconds or in milliseconds, and with null from then on;
-- without an option it answers with the value for ever. The key is UTF-8, and no other command comes
-- in between.
pub cmd_get-cmd_set :
    (now later : Instant) (key value : Bytes) (os : List TtlOption) (s : CacheStore)
    → is_utf8 key ≡ true
    → All (λ o. count_of o < 2 ^ 64) os
    → IsInTime now (meant os none)
    → (s' : CacheStore) × (cmd_set now
          (item (bulk_string key) (item (bulk_string value) (sent os)))
          s
        ≡ some (s', encode_simple_string (codes "OK")))
      × ((cmd_get later (item (bulk_string key) end) s').1
          ≡ found_value (lasting now key s later value (meant os none)))
unfolding cmd_set cmd_get extract_str extract_bytes
cmd_get-cmd_set now later key value os s text numbers in_time =
    let (s', done) = set-in_time now key value (meant os none) s in_time in
    let options = set_options-sent os none numbers in
    (
      s',
      ground (arith, options, done),
      ground (
        arith,
        visible-set now key s value (meant os none) s' later key done,
        get-eq-visible later key s',
      ),
    )
