-- ===== src/Node/Startup.antt =====
-- What `main` of crates/node/src/main.rs builds from the command line before it starts the tasks of
-- the node, and `NodeId::new` and `NodeId::parse` of crates/common/src/lib.rs.
use self_healing_distributed.Prelude.{
  ℕ, suc, Bool, true, false, not, Option, none, some, List, [], ◌∷◌, map, keep, length, leb,
}
use self_healing_distributed.Types.{NodeId, NodeInfo, Bytes, Instant, UuidText}
use self_healing_distributed.Strings.{split, trim}
use self_healing_distributed.Cache.Store
use self_healing_distributed.Gossip.Table
use self_healing_distributed.Node.Service.{NodeState}

pub record Args : Type 0 where
  pub addr : Bytes
  pub id : Option Bytes
  pub resp_addr : Bytes
  pub seed_nodes : Bytes

abbrev is_empty : Bytes → Bool
is_empty [] = true
is_empty (b ∷ bs) = false

unfoldable pub seed_addrs : Bytes → List Bytes
unfolding split trim
seed_addrs seed_nodes = map trim (keep (λ s. not (is_empty s)) (split b',' seed_nodes))

-- The seeds get identities of their own: the i-th call of `NodeId::new` gives `new_id i`.
unfoldable pub seed_infos : (ℕ → NodeId) → ℕ → List Bytes → List NodeInfo
seed_infos new_id i [] = []
seed_infos new_id i (addr ∷ addrs) =
    record { id = new_id i; addr = addr } ∷ seed_infos new_id (suc i) addrs

pub record Started : Type 0 where
  pub node_id : NodeId
  pub node : NodeState
  pub is_joining : Bool

-- The identity from the command line, if it parses, or a new one.
unfoldable pub own_id : UuidText → (ℕ → NodeId) → Option Bytes → Option NodeId
own_id uuid new_id none = some (new_id 0)
own_id uuid new_id (some id_str) = uuid.parse_str id_str

abbrev pub start_as : (ℕ → NodeId) → Instant → Args → Option NodeId → Option Started
start_as new_id now args none = none
start_as new_id now args (some id) =
    let seeds = seed_infos new_id 1 (seed_addrs args.seed_nodes) in
    some (record {
      node_id = id;
      node = record { store = Store.new now; table = Table.new id seeds now; tombstones = [] };
      is_joining = leb 1 (length seeds);
    })

-- `none` is an error in the identity that is given.
unfoldable pub start : UuidText → (ℕ → NodeId) → Instant → Args → Option Started
unfolding own_id seed_infos seed_addrs Store.new Table.new
start uuid new_id now args = start_as new_id now args (own_id uuid new_id args.id)
