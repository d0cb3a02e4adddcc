-- ===== src/Gossip/Address.antt =====
-- The address that a node tells of itself: what the calls on crates/node/src/gossip/state.rs and the
-- messages of crates/node/src/gossip/protocol.rs make of the one it started with.
use self_healing_distributed.Prelude.{
  ℕ, ◌≡◌, ◌≢◌, sym, ap, ◌∙◌, Option, none, some, List, [], ◌∷◌, arith, ℕ_discrete, ◌==◌, Bool-cases,
  inl, inr, All, map,
}
use self_healing_distributed.Prelude.Map.{Map, Each, Each-insert, Each-get}
use self_healing_distributed.Types.{NodeId, Bytes, Instant, Duration, UuidText}
use self_healing_distributed.Gossip.Table.{
  MemberStatus, alive, suspect, dead, joining, MemberEntry, MembershipTable, RemoteEntry, lookup,
  store, all_members, mark_suspect, mark_dead, mark_alive, merge_entry, refute, merge_peer,
  local_addr,
}
use self_healing_distributed.Gossip.Timeouts.{check_status, check_member, check_members}
use self_healing_distributed.Gossip.Table
use self_healing_distributed.Gossip.Timeouts
use self_healing_distributed.Gossip.Status.{as_suspect, as_dead, as_alive, apply_mark}
use self_healing_distributed.Gossip.Valid.{
  IsValid, IsKeyed, Call, mark, touch, mark_self_alive, merge, check_timeouts, perform, run,
}
use self_healing_distributed.Gossip.Exchange.{ProtoMemberEntry, build_gossip_message, encode_entry}

-- The table is that of the node `local`, whose entry names the address `addr`.
pub record IsAddressed (local : NodeId) (addr : Bytes) (t : MembershipTable) : Type 0 where
  pub own : t.local_id ≡ local
  pub named : Each (λ id e. id ≡ local → e.info.addr ≡ addr) t.members

module _ (local : NodeId) (addr : Bytes) where
  pub store-IsAddressed :
      (id : NodeId) (e : MemberEntry) (t : MembershipTable)
      → (id ≡ local → e.info.addr ≡ addr)
      → IsAddressed local addr t
      → IsAddressed local addr (store id e t)
  store-IsAddressed id e t h a = record {
    own = a.own;
    named = Each-insert ℕ_discrete _ id e t.members h a.named;
  }

  addressed-lookup :
      (t : MembershipTable) (id : NodeId) (e : MemberEntry)
      → IsAddressed local addr t
      → lookup t id ≡ some e
      → id ≡ local
      → e.info.addr ≡ addr
  addressed-lookup t id e a h = Each-get ℕ_discrete _ id e t.members a.named h

  -- An entry that changes in nothing but status, incarnation and time.
  update-IsAddressed :
      (id : NodeId) (e : MemberEntry) (s : MemberStatus) (n : ℕ) (seen : Instant)
      (t : MembershipTable)
      → IsAddressed local addr t
      → lookup t id ≡ some e
      → IsAddressed local addr
          (store id (record { info = e.info; status = s; incarnation = n; last_seen = seen }) t)
  update-IsAddressed id e s n seen t a h = store-IsAddressed id _ t (addressed-lookup t id e a h) a

  mark_suspect-IsAddressed :
      (id : NodeId) (t : MembershipTable)
      → IsAddressed local addr t
      → IsAddressed local addr (mark_suspect id t).0
  unfolding mark_suspect
  mark_suspect-IsAddressed id t a = grind (arith, update-IsAddressed)

  mark_dead-IsAddressed :
      (id : NodeId) (t : MembershipTable)
      → IsAddressed local addr t
      → IsAddressed local addr (mark_dead id t).0
  unfolding mark_dead
  mark_dead-IsAddressed id t a = grind (arith, update-IsAddressed)

  mark_alive-IsAddressed :
      (id : NodeId) (n : ℕ) (t : MembershipTable)
      → IsAddressed local addr t
      → IsAddressed local addr (mark_alive id n t).0
  unfolding mark_alive
  mark_alive-IsAddressed id n t a = grind (arith, update-IsAddressed)

  touch-IsAddressed :
      (id : NodeId) (now : Instant) (t : MembershipTable)
      → IsAddressed local addr t
      → IsAddressed local addr (Table.touch id now t)
  unfolding Table.touch
  touch-IsAddressed id now t a = grind (arith, update-IsAddressed)

  mark_self_alive-IsAddressed :
      (t : MembershipTable)
      → IsAddressed local addr t
      → IsAddressed local addr (Table.mark_self_alive t)
  unfolding Table.mark_self_alive
  mark_self_alive-IsAddressed t a = grind (arith, update-IsAddressed)

  refute-IsAddressed :
      (r : RemoteEntry) (t : MembershipTable)
      → IsAddressed local addr t
      → IsAddressed local addr (refute r t (lookup t t.local_id))
  unfolding refute
  refute-IsAddressed r t a = grind (arith, update-IsAddressed)

  merge_peer-IsAddressed :
      (now : Instant) (r : RemoteEntry) (t : MembershipTable) (o : Option MemberEntry)
      → r.id ≢ local
      → IsAddressed local addr t
      → IsAddressed local addr (merge_peer now r t o)
  unfolding merge_peer
  merge_peer-IsAddressed now r t none other a =
      store-IsAddressed r.id _ t (λ e. elim (other e) [ ]) a
  merge_peer-IsAddressed now r t (some l) other a = grind (arith, store-IsAddressed)

  merge_entry-IsAddressed :
      (now : Instant) (r : RemoteEntry) (t : MembershipTable)
      → IsAddressed local addr t
      → IsAddressed local addr (merge_entry now r t)
  unfolding merge_entry
  merge_entry-IsAddressed now r t a = elim (Bool-cases (r.id == t.local_id)) [
    | inl own ↦ rw own (refute-IsAddressed r t a)
    | inr other ↦
        rw other (merge_peer-IsAddressed now r t (lookup t r.id) (λ e. ground (arith, a.own)) a)
  ]

  merge-IsAddressed :
      (now : Instant) (rs : List RemoteEntry) (t : MembershipTable)
      → IsAddressed local addr t
      → IsAddressed local addr (Table.merge now rs t)
  unfolding Table.merge
  merge-IsAddressed now [] t a = a
  merge-IsAddressed now (r ∷ rs) t a =
      merge-IsAddressed now rs (merge_entry now r t) (merge_entry-IsAddressed now r t a)

  check_status-IsAddressed :
      (id : NodeId) (elapsed : Duration) (s : MemberStatus) (t : MembershipTable)
      → IsAddressed local addr t
      → IsAddressed local addr (check_status id elapsed s t)
  unfolding check_status
  check_status-IsAddressed id elapsed alive t a = grind (arith, mark_suspect-IsAddressed)
  check_status-IsAddressed id elapsed joining t a = grind (arith, mark_suspect-IsAddressed)
  check_status-IsAddressed id elapsed suspect t a = grind (arith, mark_dead-IsAddressed)
  check_status-IsAddressed id elapsed dead t a = a

  check_members-IsAddressed :
      (own : NodeId) (now : Instant) (ms : List MemberEntry) (t : MembershipTable)
      → IsAddressed local addr t
      → IsAddressed local addr (check_members own now ms t)
  unfolding check_members
  check_members-IsAddressed own now [] t a = a
  check_members-IsAddressed own now (m ∷ ms) t a =
      check_members-IsAddressed own now ms (check_member own now m t)
        (unfold check_member in grind (arith, check_status-IsAddressed))

  perform-IsAddressed :
      (c : Call) (t : MembershipTable)
      → IsAddressed local addr t
      → IsAddressed local addr (perform c t)
  unfolding perform apply_mark Timeouts.check_timeouts
  perform-IsAddressed (mark (as_suspect id)) t a = mark_suspect-IsAddressed id t a
  perform-IsAddressed (mark (as_dead id)) t a = mark_dead-IsAddressed id t a
  perform-IsAddressed (mark (as_alive id n)) t a = mark_alive-IsAddressed id n t a
  perform-IsAddressed (touch id now) t a = touch-IsAddressed id now t a
  perform-IsAddressed mark_self_alive t a = mark_self_alive-IsAddressed t a
  perform-IsAddressed (merge now rs) t a = merge-IsAddressed now rs t a
  perform-IsAddressed (check_timeouts own now) t a =
      check_members-IsAddressed own now (all_members t) t a

  -- No call changes the address that the node has of itself.
  pub run-IsAddressed :
      (cs : List Call) (t : MembershipTable)
      → IsAddressed local addr t
      → IsAddressed local addr (run cs t)
  unfolding run
  run-IsAddressed [] t a = a
  run-IsAddressed (c ∷ cs) t a = run-IsAddressed cs (perform c t) (perform-IsAddressed c t a)

module _ (uuid : UuidText) (local : NodeId) (addr : Bytes) where
  to_string-injective : (a b : NodeId) → uuid.to_string a ≡ uuid.to_string b → a ≡ b
  to_string-injective a b h =
      let p = uuid.parse_str-to_string a in
      let q = uuid.parse_str-to_string b in let r = ap uuid.parse_str h in cc

  -- What a message says of the node itself.
  abbrev pub SaysOwn : ProtoMemberEntry → Type 0
  SaysOwn m = m.node_id ≡ uuid.to_string local → m.addr ≡ addr

  members-SaysOwn :
      (now : Instant) (ms : Map NodeId MemberEntry)
      → IsKeyed ms
      → Each (λ id e. id ≡ local → e.info.addr ≡ addr) ms
      → All SaysOwn (map (encode_entry uuid now) (Table.entries ms))
  members-SaysOwn now [] k h = tt
  members-SaysOwn now ((id, e) ∷ ms) (k, ks) (h, hs) =
      ((λ said. h (sym k ∙ to_string-injective e.info.id local said)), members-SaysOwn now ms ks hs)

  pub message-SaysOwn :
      (now : Instant) (t : MembershipTable)
      → IsValid t
      → IsAddressed local addr t
      → All SaysOwn (build_gossip_message uuid now t).members
  unfolding build_gossip_message
  message-SaysOwn now t v a = members-SaysOwn now t.members v.keyed a.named
