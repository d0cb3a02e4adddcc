-- ===== src/Lib.antt =====
-- A self-healing distributed cache: nodes that hold keys and gossip about each other, and a router
-- that finds the nodes of a key, replicates to them, and steps around the ones that fail.
--
-- The parts, and the files that model them (paths are those of the repository):
--   * Types: identities and addresses, crates/common/src/lib.rs. A string is the list of its bytes,
--     an instant a number of nanoseconds. `Uuid::to_string` and `Uuid::parse_str` are a parameter,
--     a record with their round trip.
--   * Ring: `HashRing` of crates/common/src/hashring.rs (Ring/HashRing). The BTreeMap is the list of
--     its entries in order of their positions; xxh3_64 is a parameter, with 64-bit results where
--     that matters. `add_node`, `remove_node`, `get_node` and `get_preference_list` keep their names.
--   * Cache: `CacheStore` of crates/node/src/cache/store.rs and the sweep of
--     crates/node/src/cache/expiry.rs (Cache/Store). The clock is an argument; a panic is `none`.
--     `get` is also given as its two steps, between which the lock of the entry is free.
--   * Gossip: `MembershipTable` of crates/node/src/gossip/state.rs (Gossip/Table), the messages of
--     crates/node/src/gossip/protocol.rs and the handler of crates/node/src/gossip/server.rs
--     (Gossip/Exchange), and the timeouts of protocol.rs (Gossip/Timeouts). The specification is a
--     version per node, ordered by incarnation and then by status (Gossip/View). Gossip/Network is a
--     cluster of such nodes: a step relation over their tables and all messages that were ever sent,
--     any of which may be delivered at any time, again, or never. Gossip/Spread is one node that
--     exchanges with all others in turn.
--   * Node: the handlers of crates/node/src/grpc/service.rs (Node/Service) and the rebalance of
--     crates/node/src/rebalance/mod.rs (Node/Rebalancer), which share the store, the table and the
--     tombstones; Node/Joining interleaves them with gossip and the sweep, one step at a time, and
--     Node/Rebalanced is about a rebalance with none of them in between.
--     Node/Startup is what `main` of crates/node/src/main.rs builds from the command line, with what
--     it uses of Rust's text functions in Strings; the identities that are drawn are a parameter.
--   * Router: the health monitor of crates/router/src/health/mod.rs (Router/Health), the client pool
--     of crates/router/src/client.rs (Router/Client), the coordinator of
--     crates/router/src/replication (Router/Coordinator), the dispatch of crates/router/src/router.rs
--     and the service of crates/router/src/grpc/service.rs (Router/Dispatch), and the gossip observer
--     of crates/router/src/gossip/mod.rs (Router/Observer). Router/Cluster puts nodes behind the
--     router's connections, and Router/Calls says what a call over them comes to. Router/Startup is
--     what `main` of crates/router/src/main.rs builds from the configuration of
--     crates/router/src/membership/mod.rs.
--   * Resp: the RESP front end of a node, crates/node/src/resp: the parser of parser.rs (Resp/Parser)
--     with what it uses of Rust's text functions (Resp/Text), the encoders of encoder.rs
--     (Resp/Encoder), and the commands (Resp/Server) and the loops of a connection (Resp/Connection)
--     of server.rs. They use the store of the node directly.
--   * Demo: the load generator of tools/demo/src/main.rs, its metrics (Demo/Metrics) and its workers
--     (Demo/Workers), with their draws and the network as arguments.
--   * Tests: the theorems at concrete inputs, and, in Tests/Repository, what the unit tests of
--     hashring.rs, store.rs, state.rs, parser.rs, encoder.rs, server.rs and health/mod.rs assert.
--
-- Methods that hold a lock for their whole body are one step, and pass the state on. The network is
-- a parameter: a function from an address and a message to the answer, if there is one, or the record
-- `Transport`. A random draw is a parameter too. The loops run over finite lists and the retries
-- over their count, and need no fuel. The RESP parser has fuel for the nesting of arrays, and the
-- loop over a connection's buffer for its rounds: one more than the length of the buffer is enough
-- for the one, and the length for the other, since an item of an array is shorter than the array and
-- a command takes at least one byte. What comes of running out of fuel is an argument of the parser,
-- so that it cannot be taken for a result. The loops that run for ever are modelled by their rounds.
-- The end of a rebalance, which applies the tombstones, is one step. The replication factor is taken
-- to be below 2^64 - 2. Machine integers keep their width where the
-- program counts: incarnations modulo 2^64, failures modulo 2^32, milliseconds modulo 2^64.
--
-- Not modelled: the parsing of the command lines and the JSON of the configuration file, the starting
-- of the tasks, the sockets of the RESP server, the text of its parser's errors, the console output
-- and the chaos prompts of the load generator, logging, and the code that is generated from the proto
-- files, of which only the message types appear. Of the unit tests, three of the ring, which depend
-- on the hash function, and those of the rebalance, which start a server, are left out. Addresses
-- are taken to form URIs.
pub mod Prelude
pub mod Types
pub mod Gossip
pub mod Router
pub mod Decimal
pub mod Strings
pub mod Ring
pub mod Cache
pub mod Rpc
pub mod Node
pub mod Tests
pub mod Resp
pub mod Demo
