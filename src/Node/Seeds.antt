-- ===== src/Node/Seeds.antt =====
-- The rebalance (crates/node/src/rebalance/mod.rs) of a node that `main` (crates/node/src/main.rs)
-- starts with seeds.
use self_healing_distributed.Prelude.{
  ℕ, suc, ◌<◌, ◌≡◌, ◌≢◌, refl, ap, ◌∙◌, Bool, true, false, not, ◌&&◌, Option, some, List, [], ◌∷◌,
  arith, ℕ_discrete, ◌==◌, Bool-cases, Option-cases, inl, inr, keep, map, length,
}
use self_healing_distributed.Prelude.Map
use self_healing_distributed.Prelude.Map.{Map, get-insert, get-cons_self}
use self_healing_distributed.Types.{NodeId, NodeInfo, Bytes, Instant, UuidText}
use self_healing_distributed.Cache.Store.{CacheStore}
use self_healing_distributed.Gossip.Table.{
  MembershipTable, MemberEntry, ◌=ˢ◌, alive, joining, lookup, store, new, add_seeds, routable_peers,
  is_self_joining,
}
use self_healing_distributed.Node.Service.{NodeState}
use self_healing_distributed.Node.Rebalancer.{Stream, wait_and_rebalance, no_peers, finished}
use self_healing_distributed.Node.Startup.{Args, Started, start, own_id, seed_infos, seed_addrs}
use self_healing_distributed.Node.Started.{Others, seed_infos-Others, start_lem}

-- A peer that counts as reachable.
record HasPeer (t : MembershipTable) : Type 0 where
  peer : NodeId
  entry : MemberEntry
  known : lookup t peer ≡ some entry
  up : entry.status ≡ alive
  foreign : peer ≢ t.local_id

length-map : {A B : Type 0} → (f : A → B) (xs : List A) → length (map f xs) ≡ length xs
length-map f [] = refl
length-map f (x ∷ xs) = ap (λ n. suc n) (length-map f xs)

keep-get :
    (p : NodeId × MemberEntry → Bool) (m : Map NodeId MemberEntry) (id : NodeId) (e : MemberEntry)
    → Map.get ℕ_discrete id m ≡ some e
    → p (id, e) ≡ true
    → 0 < length (keep p m)
unfolding Map.get
keep-get p [] id e h good = ground arith
keep-get p ((k, v) ∷ m) id e h good = elim (Bool-cases (p (k, v))) [
  | inl kept ↦ ground arith
  | inr dropped ↦ ground (arith, keep-get p m id e)
]

routable-HasPeer : (t : MembershipTable) → HasPeer t → 0 < length (routable_peers t)
unfolding routable_peers
routable-HasPeer t h =
    let p = λ (e : NodeId × MemberEntry). not (e.0 == t.local_id) && e.1.status =ˢ alive in
    let kept : 0 < length (keep p t.members) =
      keep-get p t.members h.peer h.entry h.known (ground (arith, h.foreign, h.up)) in
    omega (arith, length-map (λ (e : NodeId × MemberEntry). e.1) (keep p t.members))

store-HasPeer :
    (id : NodeId) (e : MemberEntry) (t : MembershipTable)
    → e.status ≡ alive
    → id ≢ t.local_id
    → HasPeer (store id e t)
store-HasPeer id e t up other = record {
  peer = id;
  entry = e;
  known = ground (arith, get-insert ℕ_discrete id id e t.members);
  up = up;
  foreign = other;
}

add_seeds-HasPeer :
    (now : Instant) (seeds : List NodeInfo) (t : MembershipTable)
    → HasPeer t
    → HasPeer (add_seeds now seeds t)
unfolding add_seeds
add_seeds-HasPeer now [] t h = h
add_seeds-HasPeer now (n ∷ ns) t h = elim (Bool-cases (n.id == t.local_id)) [
  | inl own ↦ rw own (add_seeds-HasPeer now ns t h)
  | inr other ↦
      rw other (add_seeds-HasPeer now ns _ (store-HasPeer n.id _ t refl (λ e. ground arith)))
]

joining-store :
    (id : NodeId) (e : MemberEntry) (t : MembershipTable)
    → id ≢ t.local_id
    → is_self_joining (store id e t) ≡ is_self_joining t
unfolding is_self_joining
joining-store id e t other = ground (arith, get-insert ℕ_discrete id t.local_id e t.members)

joining-add_seeds :
    (now : Instant) (seeds : List NodeInfo) (t : MembershipTable)
    → is_self_joining (add_seeds now seeds t) ≡ is_self_joining t
unfolding add_seeds
joining-add_seeds now [] t = refl
joining-add_seeds now (n ∷ ns) t = elim (Bool-cases (n.id == t.local_id)) [
  | inl own ↦ rw (add_seeds, own) (joining-add_seeds now ns t)
  | inr other ↦
      rw (add_seeds, other)
        (joining-add_seeds now ns _ ∙ joining-store n.id _ t (λ e. ground arith))
]

routable-add_seeds :
    (now : Instant) (n : NodeInfo) (ns : List NodeInfo) (t : MembershipTable)
    → n.id ≢ t.local_id
    → 0 < length (routable_peers (add_seeds now (n ∷ ns) t))
unfolding add_seeds
routable-add_seeds now n ns t other =
    let guard : (n.id == t.local_id) ≡ false = ground arith in
    rw (add_seeds, guard)
      (routable-HasPeer _ (add_seeds-HasPeer now ns _ (store-HasPeer n.id _ t refl other)))

joining_self :
    (local : NodeId) (e : MemberEntry)
    → e.status ≡ joining
    → is_self_joining (record { members = (local, e) ∷ []; local_id = local }) ≡ true
unfolding is_self_joining
joining_self local e h = ground (arith, get-cons_self {V = MemberEntry} ℕ_discrete local e [])

-- A table with seeds is that of a joining node, which counts the seeds as reachable peers.
new-HasPeer :
    (local : NodeId) (seeds : List NodeInfo) (now : Instant)
    → Others local seeds
    → 0 < length seeds
    → (is_self_joining (new local seeds now) ≡ true)
      × (0 < length (routable_peers (new local seeds now)))
unfolding new
new-HasPeer local [] now h some_seed = ground arith
new-HasPeer local (n ∷ ns) now (h, hs) some_seed = (
  joining-add_seeds now (n ∷ ns) _ ∙ joining_self local _ (ground arith),
  routable-add_seeds now n ns _ h,
)

polled :
    (n : NodeState) (peers : List MemberEntry) (then : Option (CacheStore × ℕ))
    (xxh3_64 : Bytes → ℕ) (uuid : UuidText)
    → 0 < length peers
    → elim peers [ [] ↦ no_peers | _ ∷ _ ↦ finished xxh3_64 uuid n then ] ≢ no_peers
polled n [] then xxh3_64 uuid h e = ground arith
polled n (p ∷ ps) then xxh3_64 uuid h e = elim (Option-cases then) [
  | inl panics ↦ ground arith
  | inr (r, ended) ↦ ground arith
]

-- A node that is started with seeds begins as joining, and its first poll for peers succeeds at once:
-- the entries that it made for the seeds, under identities of its own, count as reachable peers before
-- it has heard of any node. The identities that `NodeId::new` draws for its seeds are not its own.
pub started_never_waits :
    (xxh3_64 : Bytes → ℕ) (uuid : UuidText) (new_id : ℕ → NodeId) (now : Instant)
    (transfer : Bytes → Stream) (args : Args) (st : Started) (n : NodeState)
    → start uuid new_id now args ≡ some st
    → ((k : ℕ) → 0 < k → new_id k ≢ st.node_id)
    → st.is_joining ≡ true
    → (is_self_joining st.node.table ≡ true)
      × (wait_and_rebalance xxh3_64 uuid st.node_id transfer st.node.table n ≢ no_peers)
unfolding start wait_and_rebalance
started_never_waits xxh3_64 uuid new_id now transfer args st n started fresh joins =
    let seeds = seed_infos new_id 1 (seed_addrs args.seed_nodes) in
    let (same, flag) = start_lem new_id now args st (own_id uuid new_id args.id) started in
    let others =
      seed_infos-Others new_id st.node_id 1 (seed_addrs args.seed_nodes)
        (λ k h. fresh k (omega arith)) in
    let (self, peers) = new-HasPeer st.node_id seeds now others (ground arith) in
    (rw same self, polled n (routable_peers st.node.table) _ xxh3_64 uuid (rw same peers))
