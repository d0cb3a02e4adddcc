-- ===== src/Resp/Overflow.antt =====
-- What a `SET` with a time to live that is too long does to a connection (`handle_connection` of
-- crates/node/src/resp/server.rs, `set` of crates/node/src/cache/store.rs).
use self_healing_distributed.Prelude.{
  ℕ, ℕ_discrete, ◌^◌, ◌<◌, ◌≡◌, ◌↔◌, refl, sym, ◌∙◌, true, Option, none, some, List, [], ◌∷◌, All,
  arith, length, Option-cases, inl, inr,
}
use self_healing_distributed.Types.{Bytes, Bytes-discrete, Instant, Duration, codes}
use self_healing_distributed.Cache.Store.{CacheStore, end_of_time, deadline}
use self_healing_distributed.Cache.Store
use self_healing_distributed.Resp.Text.{is_utf8, to_uppercase}
use self_healing_distributed.Resp.Parser.{RespValue, bulk_string, array, item}
use self_healing_distributed.Resp.Server.{cmd_set, handle_command, extract_str, extract_bytes}
use self_healing_distributed.Resp.Connection.{handle_connection}
use self_healing_distributed.Resp.Commands.{
  TtlOption, count_of, sent, meant, IsInTime, set_options-sent,
}
use self_healing_distributed.Resp.Scalars.{IsSendable}
use self_healing_distributed.Resp.Pipeline.{
  at, concat, encode_all, answer_all, handle_connection-encode_all,
}

-- `SET key value` with options.
abbrev pub set_command : Bytes → Bytes → List TtlOption → RespValue
set_command key value os =
    array (
      item (bulk_string (codes "SET"))
        (item (bulk_string key) (item (bulk_string value) (sent os))))

set-panics :
    (now : Instant) (key value : Bytes) (ttl : Option Duration) (s : CacheStore)
    → (Store.set now key value ttl s ≡ none) ↔ (¬ IsInTime now ttl)
unfolding Store.set deadline
set-panics now key value none s = ((λ e. ground arith), (λ h. elim (h tt) [ ]))
set-panics now key value (some d) s = ground arith

handle_command-set_command :
    (now : Instant) (key value : Bytes) (os : List TtlOption) (s : CacheStore)
    → handle_command now (set_command key value os) s
      ≡ cmd_set now (item (bulk_string key) (item (bulk_string value) (sent os))) s
unfolding handle_command extract_str is_utf8 to_uppercase Bytes-discrete ℕ_discrete
handle_command-set_command now key value os s = refl

cmd_set-panics :
    (now : Instant) (key value : Bytes) (os : List TtlOption) (s : CacheStore)
    → is_utf8 key ≡ true
    → All (λ o. count_of o < 2 ^ 64) os
    → (cmd_set now (item (bulk_string key) (item (bulk_string value) (sent os))) s ≡ none)
      ↔ (Store.set now key value (meant os none) s ≡ none)
unfolding cmd_set extract_str extract_bytes
cmd_set-panics now key value os s text numbers =
    let options = set_options-sent os none numbers in
    elim (Option-cases (Store.set now key value (meant os none) s)) [
      | inl panics ↦ ((λ h. panics), (λ h. ground (arith, options)))
      | inr (s', done) ↦ ((λ h. ground (arith, options)), (λ h. ground arith))
    ]

answer_all-panics :
    (now : Instant) (v : RespValue) (s : CacheStore)
    → (answer_all now (v ∷ []) s [] ≡ none) ↔ (handle_command now v s ≡ none)
answer_all-panics now v s = elim (Option-cases (handle_command now v s)) [
  | inl panics ↦ ((λ h. panics), (λ h. ground arith))
  | inr (r, done) ↦ ((λ h. ground arith), (λ h. ground arith))
]

-- A client chooses whether the task of its connection panics: a connection on which one `SET` comes,
-- with options `EX` and `PX` below 2^64, in whatever reads its bytes arrive, ends in a panic exactly
-- when the time to live that the last option gives, in seconds or in milliseconds, ends past the last
-- instant that the platform can name. The key is UTF-8, the command is a value that the wire format
-- can carry, and all reads come at one instant.
pub handle_connection-set_command :
    (limit : ℕ) (message : Bytes → Bytes) (now : Instant) (key value : Bytes) (os : List TtlOption)
    (chunks : List Bytes) (s : CacheStore)
    → is_utf8 key ≡ true
    → All (λ o. count_of o < 2 ^ 64) os
    → IsSendable limit (set_command key value os)
    → All (λ b. 0 < length b) chunks
    → concat chunks ≡ encode_all (set_command key value os ∷ [])
    → (handle_connection limit message
          (record { store = s; written = []; buf = [] })
          (at limit message now chunks)
        ≡ none)
      ↔ (¬ IsInTime now (meant os none))
handle_connection-set_command limit message now key value os chunks s text numbers ok nonempty
      same =
    let cmd = set_command key value os in
    let all =
      handle_connection-encode_all limit message now (cmd ∷ []) chunks s [] (ok, tt) nonempty
        same in
    let inner = handle_command-set_command now key value os s in
    let args = cmd_set-panics now key value os s text numbers in
    let store = set-panics now key value (meant os none) s in
    let one = answer_all-panics now cmd s in
    (
      (λ h. store.0 (args.0 (sym inner ∙ one.0 (sym all ∙ h)))),
      (λ h. all ∙ one.1 (inner ∙ args.1 (store.1 h))),
    )
