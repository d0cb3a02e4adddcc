-- ===== src/Node/Started.antt =====
-- A node that `main` of crates/node/src/main.rs has started: the address that it tells of itself
-- (crates/node/src/gossip), and its rebalance (crates/node/src/rebalance/mod.rs).
use self_healing_distributed.Prelude.{
  ℕ, suc, ◌≤◌, ◌<◌, ◌≡◌, ◌≢◌, refl, ap, Option, none, some, List, [], ◌∷◌, arith, find, ◌==◌,
  Bool-cases, inl, inr, All, length, leb,
}
use self_healing_distributed.Types.{NodeId, NodeInfo, Bytes, Instant, UuidText}
use self_healing_distributed.Gossip.Table.{MembershipTable, new, add_seeds, self_info}
use self_healing_distributed.Gossip.Valid.{Call, run, run-new-IsValid}
use self_healing_distributed.Gossip.Address.{
  IsAddressed, store-IsAddressed, run-IsAddressed, SaysOwn, message-SaysOwn,
}
use self_healing_distributed.Gossip.Exchange.{build_gossip_message}
use self_healing_distributed.Node.Startup.{
  Args, Started, start, start_as, own_id, seed_infos, seed_addrs,
}

-- The seeds of a started node are other nodes.
abbrev pub Others : NodeId → List NodeInfo → Type 0
Others local seeds = All (λ n. n.id ≢ local) seeds

pub seed_infos-Others :
    (new_id : ℕ → NodeId) (local : NodeId) (i : ℕ) (addrs : List Bytes)
    → ((k : ℕ) → i ≤ k → new_id k ≢ local)
    → Others local (seed_infos new_id i addrs)
unfolding seed_infos
seed_infos-Others new_id local i [] fresh = tt
seed_infos-Others new_id local i (addr ∷ addrs) fresh = (
  fresh i (omega arith),
  seed_infos-Others new_id local (suc i) addrs (λ k h. fresh k (omega arith)),
)

find-Others :
    (local : NodeId) (seeds : List NodeInfo)
    → Others local seeds
    → find (λ n. n.id == local) seeds ≡ none
find-Others local [] h = refl
find-Others local (n ∷ ns) (h, hs) = ground (arith, find-Others local ns hs)

add_seeds-IsAddressed :
    (local : NodeId) (now : Instant) (seeds : List NodeInfo) (t : MembershipTable)
    → Others local seeds
    → IsAddressed local [] t
    → IsAddressed local [] (add_seeds now seeds t)
unfolding add_seeds
add_seeds-IsAddressed local now [] t h a = a
add_seeds-IsAddressed local now (n ∷ ns) t (h, hs) a = elim (Bool-cases (n.id == t.local_id)) [
  | inl own ↦ rw own (add_seeds-IsAddressed local now ns t hs a)
  | inr other ↦ rw other (
      add_seeds-IsAddressed local now ns _ hs
        (store-IsAddressed local [] n.id _ t (λ e. elim (h e) [ ]) a))
]

new-IsAddressed :
    (local : NodeId) (seeds : List NodeInfo) (now : Instant)
    → Others local seeds
    → IsAddressed local [] (new local seeds now)
unfolding new
new-IsAddressed local seeds now h = add_seeds-IsAddressed local now seeds _ h (record {
  own = refl;
  named = ((λ e. ap (λ o. (self_info local o).addr) (find-Others local seeds h)), tt);
})

-- The table of a started node.
pub start_lem :
    (new_id : ℕ → NodeId) (now : Instant) (args : Args) (st : Started) (o : Option NodeId)
    → start_as new_id now args o ≡ some st
    → let seeds = seed_infos new_id 1 (seed_addrs args.seed_nodes) in
      (st.node.table ≡ new st.node_id seeds now) × (st.is_joining ≡ leb 1 (length seeds))
start_lem new_id now args st none h = ground arith
start_lem new_id now args st (some id) h = (ground arith, ground arith)

-- A node that is started from the command line never tells the other nodes its address: every
-- message that it sends names the empty address for it, whatever calls its tasks make on its table.
-- The identities that `NodeId::new` draws for its seeds are not its own.
pub started_without_address :
    (uuid : UuidText) (new_id : ℕ → NodeId) (now later : Instant) (args : Args) (st : Started)
    (cs : List Call)
    → start uuid new_id now args ≡ some st
    → ((k : ℕ) → 0 < k → new_id k ≢ st.node_id)
    → All
        (SaysOwn uuid st.node_id [])
        (build_gossip_message uuid later (run cs st.node.table)).members
unfolding start
started_without_address uuid new_id now later args st cs started fresh =
    let (same, _) = start_lem new_id now args st (own_id uuid new_id args.id) started in
    let seeds = seed_infos new_id 1 (seed_addrs args.seed_nodes) in
    let others =
      seed_infos-Others new_id st.node_id 1 (seed_addrs args.seed_nodes)
        (λ k h. fresh k (omega arith)) in
    rw same (
      message-SaysOwn uuid st.node_id [] later (run cs (new st.node_id seeds now))
        (run-new-IsValid st.node_id seeds now cs)
        (run-IsAddressed st.node_id [] cs (new st.node_id seeds now)
          (new-IsAddressed st.node_id seeds now others)))
