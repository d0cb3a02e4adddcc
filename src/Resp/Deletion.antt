-- ===== src/Resp/Deletion.antt =====
-- What the RESP command `DEL` (`cmd_del` of crates/node/src/resp/server.rs) does to the store.
use self_healing_distributed.Prelude.{
  ℕ, ◌+◌, ◌-◌, ◌≤◌, ◌≡◌, refl, ap, ◌∙◌, [], ◌∷◌, Bool, true, false, none, some, arith, length, ite,
  if◌then◌else◌, Option-cases, inl, inr,
}
use self_healing_distributed.Prelude.Map.{Map, get, remove, IsUnique, remove-IsUnique}
use self_healing_distributed.Types.{Bytes, Bytes-discrete, Instant}
use self_healing_distributed.Cache.Store.{CacheStore, is_some, delete}
use self_healing_distributed.Cache.Visible.{visible, visible-delete}
use self_healing_distributed.Resp.Text.{pos}
use self_healing_distributed.Resp.Parser.{RespValue, RespValues, end, item}
use self_healing_distributed.Resp.Encoder.{encode_integer}
use self_healing_distributed.Resp.Server.{cmd_del, delete_keys, extract_str}

-- Whether one of the arguments is the key.
unfoldable pub named : Bytes → RespValues → Bool
named j end = false
named j (item v vs) = elim (extract_str v) [
  | none ↦ named j vs
  | some key ↦ ite (Bytes-discrete key j) true (named j vs)
]

abbrev as_one : Bool → ℕ
as_one b = if b then 1 else 0

module _ {V : Type 0} where
  remove-absent :
      (k : Bytes) (m : Map Bytes V)
      → get Bytes-discrete k m ≡ none
      → length (remove Bytes-discrete k m) ≡ length m
  unfolding get remove
  remove-absent k [] h = refl
  remove-absent k ((j, v) ∷ m) h = ground (arith, remove-absent k m)

  length-remove :
      (k : Bytes) (m : Map Bytes V)
      → IsUnique Bytes-discrete m
      → length (remove Bytes-discrete k m) + as_one (is_some (get Bytes-discrete k m)) ≡ length m
  unfolding get remove
  length-remove k [] u = refl
  length-remove k ((j, v) ∷ m) (f, u) = ground (arith, length-remove k m u, remove-absent k m)

-- What a `DEL` comes to, when `deleted` keys were removed before.
record Deleted (vs : RespValues) (deleted : ℕ) (s : CacheStore) (after : CacheStore × Bytes)
    : Type 0 where
  shows :
      (later : Instant) (j : Bytes)
      → visible later after.0 j ≡ (if named j vs then none else visible later s j)
  fewer : length after.0.data_map ≤ length s.data_map
  answer : after.1 ≡ encode_integer (pos (deleted + (length s.data_map - length after.0.data_map)))

delete_keys-Deleted :
    (vs : RespValues) (deleted : ℕ) (s : CacheStore)
    → IsUnique Bytes-discrete s.data_map
    → Deleted vs deleted s (delete_keys vs deleted s)
unfolding delete_keys named delete
delete_keys-Deleted end deleted s u = record {
  shows = λ later j. refl;
  fewer = omega arith;
  answer = ap (λ n. encode_integer (pos n)) (omega arith);
}
delete_keys-Deleted (item v vs) deleted s u = elim (Option-cases (extract_str v)) [
  | inl no_key ↦
      let rest = delete_keys-Deleted vs deleted s u in
      record {
        shows = λ later j. ground (arith, rest.shows later j);
        fewer = ground (arith, rest.fewer);
        answer = ground (arith, rest.answer);
      }
  | inr (key, e) ↦
      let (s', gone) = delete key s in
      let rest =
        delete_keys-Deleted vs (if gone then deleted + 1 else deleted) s'
          (remove-IsUnique Bytes-discrete key s.data_map u) in
      let one = length-remove key s.data_map u in
      record {
        shows = λ later j. ground (arith, rest.shows later j, visible-delete later key s later j);
        fewer = ground (arith, rest.fewer, one);
        answer = ground (arith, rest.answer, rest.fewer, one);
      }
]

-- After a `DEL` with at least one argument, the keys that its arguments name show nothing, and every
-- other key shows what it did, then and later. The answer is the number of entries that have left the
-- store, with expired ones, and a key that is named twice counts once. No key stands twice in the
-- store.
pub visible-cmd_del :
    (v : RespValue) (vs : RespValues) (s : CacheStore) (later : Instant) (j : Bytes)
    → IsUnique Bytes-discrete s.data_map
    → let (s', answer) = cmd_del (item v vs) s in
      (visible later s' j ≡ (if named j (item v vs) then none else visible later s j))
      × (length s'.data_map ≤ length s.data_map)
      × (answer ≡ encode_integer (pos (length s.data_map - length s'.data_map)))
unfolding cmd_del
visible-cmd_del v vs s later j u =
    let all = delete_keys-Deleted (item v vs) 0 s u in
    (all.shows later j, all.fewer, all.answer ∙ ap (λ n. encode_integer (pos n)) (omega arith))
