-- ===== src/Lib.antt =====
-- Verification of the Avail light client (a Rust crate), which follows the chain of a node that it
-- does not trust: it checks that blocks are final, samples cells of their data matrices from a
-- Kademlia network with a node as fallback, and verifies them.
--
-- The parts, the files that model them, and the sources:
--   Finality       src/finality.rs: the check of a GRANDPA justification. Its data stand in Chain,
--                  from src/types.rs, with the primitives of Substrate as a record of parameters.
--   Utils          src/utils.rs: the changes of the authorities in the digest of a header.
--   SyncFinality   src/sync_finality.rs: `sync`, which calls the check at every change of the
--                  authorities, from a checkpoint or from the validators of the genesis block.
--   Subscriptions  src/network/rpc/subscriptions.rs: the loop that pairs headers with justifications
--                  and sends what is final to the clients.
--   ClientState    src/types.rs: the block ranges and the state that the clients share.
--   Network        src/network.rs and src/proof.rs: the fetch of verified cells, from the DHT and from
--                  a node.
--   LightClient    src/light_client.rs: `process_block`, which samples a finalized block.
--   SyncClient     src/sync_client.rs: the loop that samples the blocks behind the latest one, and
--                  `BlockVerified` of src/types.rs, the message to the app client.
--   AppClient      src/app_client.rs: `process_block` and `run`, which fetch, verify, reconstruct and
--                  decode the rows of an application.
--   Shutdown       src/shutdown.rs and src/shutdown/: the state that the handles, tokens and futures
--                  of a shutdown share.
--   Kademlia       src/network/p2p/kad_mem_store.rs and kad_mem_providers.rs: the store of records
--                  and of provider records, and the pruning of expired records in
--                  src/network/p2p/client.rs.
--   FatClient      src/fat_client.rs: `process_block` and `run`, which fetch a part of the matrix from a
--                  node and insert its cells and rows into the DHT.
--   EventLoop      src/network/p2p/event_loop.rs, with src/network/p2p.rs: the task that owns the libp2p
--                  swarm; src/network/p2p/client.rs: the commands that it runs and the insertion of
--                  cells and rows; and `AgentVersion` of src/types.rs.
--   RpcClient      src/network/rpc.rs and src/network/rpc/client.rs: the nodes, the connection and its
--                  checks, and `with_retries`, which changes to another node, with the calls that go
--                  through it; src/consts.rs: the expected versions.
--   RandomCells    src/network/rpc.rs: `generate_random_cells`.
--   Api            src/api/v2/types.rs, src/api/v2/handlers.rs, src/api/v2/ws.rs and
--                  src/api/v1/handlers.rs: what the HTTP API answers of a block and of the node, and what
--                  it publishes to the clients on web sockets.
--   Database       src/data.rs and src/data/rocks_db.rs: the keys of the database, and what is put, read
--                  and deleted.
--   RocksdbStore   src/network/p2p/kad_rocksdb_store.rs: the Kademlia store on RocksDB.
--   Maintenance    src/maintenance.rs: what is done for each verified block.
--   CrawlClient    src/crawl_client.rs: what is fetched of each block to measure the DHT.
--   Config         src/types.rs, `block_matrix_partition_format`.
--   Prelude        the lists, options, results, maps and texts that they share.
--
-- A module has the functions of its source file under their names; its child modules have the
-- theorems, and `Tests` runs at concrete inputs. State is passed explicitly; a `Result` of the
-- model is a value, an error, or a panic. Machine integers are natural numbers with their
-- wrap-around written out. A call to the node, the database, libp2p or a cryptographic library is
-- a field of a record of parameters (`Primitives`, `GenesisNode`, `Client`, `Rpc`, `Kate`,
-- `Network`, `LightClient`, `SyncClient`, `App`, `FatClient`, `Handlers`, `Libp2p`, `Requests`,
-- `Stored`, `Rocks`, `Library`, `Socket`, `Crawler`), where `none` is a call that fails. Where a
-- function's result is an `Option` of the whole state, as in Subscriptions and EventLoop, `none`
-- is a panic. A HashMap is an association list with one entry for a key.
--
-- The loop of `sync` runs on fuel: one unit for each block up to the last one, and one more, is
-- enough. `confirm_ancestry` counts its own passes. The draw of random cells runs on fuel: as many
-- units as draws give enough different cells, and one more, are enough. All other loops run over a
-- list, or by the number of the blocks of a range. The event loop is run on the inputs that its
-- `select!` takes, in the order in which it takes them. The receivers of its answers are not
-- dropped.
--
-- Text is a list of bytes. Prelude/Text has `split`, `parse` and the decimal print of the standard
-- library.
--
-- Interleavings: a step of Shutdown/System is one method under the mutex, or one poll of a future;
-- what is reachable by steps in any order is what threads can do. RpcClient/Race runs the two
-- writes of each call in the order of a schedule. The answers of nodes, the retries and the random
-- order of nodes are functions of a world that each call changes.
--
-- Not modelled: logging and metrics; the routes of the HTTP API, its p2p handlers and its JSON;
-- the telemetry and the binaries, which are glue; the analyzer of packets; the commands of the p2p
-- network that only read the swarm, and its AutoNAT server; the stream of subscriptions of the RPC
-- client; random choice, which is a parameter. Floating point confidence is not computed.
pub mod Prelude
pub mod Api
pub mod AppClient
pub mod Chain
pub mod ClientState
pub mod Config
pub mod CrawlClient
pub mod Database
pub mod EventLoop
pub mod FatClient
pub mod Finality
pub mod Kademlia
pub mod LightClient
pub mod Maintenance
pub mod Network
pub mod RandomCells
pub mod RocksdbStore
pub mod RpcClient
pub mod Shutdown
pub mod Subscriptions
pub mod SyncClient
pub mod SyncFinality
pub mod Utils
