-- ===== src/Lib.antt =====
-- Hrux-DB (FastKV): a key-value store with expiring keys, a write-ahead log, named data structures
-- and message channels, written in Go under kv-distributed.
--
-- The parts and their files:
--
-- * Storage/Memory models the maps of kv-distributed/internal/storage/storage.go: 256 shards that a
--   key is sent to by FNV-1a (Storage/Hash), each a map from buckets to keys to values and a map of
--   expiries. `get`, `put_internal`, `delete_internal`, `list`, `scan_shard` and
--   `check_ttl_and_clean` are Get, putInternal, deleteInternal, List, ScanShard and CheckTTLAndClean.
-- * Storage/Wal models the bytes of kv-distributed/internal/storage/wal.go: `fill_buffer` is the
--   buffer of Append and writeOpToTemp, `read_record` and `replay` are Replay, whose callback is a
--   parameter.
-- * Storage/Engine models the struct Storage over its log and the files: `put`, `put_with_ttl`,
--   `delete`, `update`, `set_persistence_file`, `load_from_file` and `append` are Put, PutWithTTL,
--   Delete, Update, SetPersistenceFile, LoadFromFile and Append. Its children hold what a restart
--   reads back (Recovery, Writes, Sessions, Restarts), runs that are too short for a compaction to be
--   started (Threshold), requests that run at the same time (Halves,
--   Entries, Concurrent), the expiries and the counters by the numbers (Expiry, Counters), and where
--   the store falls short (Limits, TornWrites, Interleaving,
--   UpdateRace).
-- * Storage/Compaction models Compact and writeOpToTemp. Its children hold what a restart reads of a
--   compacted log: Snapshot, Rebuild, Live, Fits and Recovery of one compaction, Life, Rounds and Events
--   of any number of them between requests and restarts, Revival of a key that had expired.
-- * DataStructures models kv-distributed/internal/datastructures/service.go, and Indexing models
--   kv-distributed/internal/indexing/indexer.go.
-- * Service models kv-distributed/internal/service: KvService the methods that the service passes on
--   (kv_service.go), Cleaner its goroutine, Scan its ScanKeys, Queries its two queries, Transactions
--   transaction.go, and PubSub pubsub.go with the receive of the HTTP server's stream.
-- * Api models kv-distributed/internal/api/server.go and types.go: one handler for each method of the
--   RPC server, and the calls of the replicas as messages that are sent (`sent`). Dispatch has the
--   handlers and the wrappers by the names that `Start` registers, JsonBridge the wrappers for JSON, and
--   ReplicationManager models replication.go.
-- * Client models kv-distributed/client/client.go over a record `Rpc` of what package rpc does: Calls
--   and Session have its calls as data.
-- * Http models kv-distributed/cmd/http-server/main.go: `cors` and `auth` are its two guards, `handler`
--   its handlers by route; Open has the two routes without a key, Guards requests without a key, Counts a request on any route,
--   Durability what requests leave of the log, Stream the loop of the event stream.
-- * Programs models the programs of kv-distributed/cmd: ServerMain the start and the stop of the two
--   servers, Lifecycle the starts, requests, stops and crashes of a server as a step relation, of which
--   ServerLife and HttpLife are the two servers' instances, ClientMain the client's demonstration as a
--   script (Script) that may exit early.
-- * Base holds what they share: bytes, maps, maps of maps, machine words, results, lists.
-- * Tests holds runs on small inputs.
--
-- How they interact: the service calls the store, the data structures, the indexer and the channels,
-- and is their only client; the RPC server and the HTTP server call the service, and the client calls
-- the RPC server. The store writes
-- each operation to its log before it changes its memory; a restart replays the log; a compaction
-- replaces the log by a snapshot of the memory.
--
-- How the code is read:
--
-- * A string and a slice of bytes is a list of bytes. A map is an association list; a loop over a map
--   visits it in an order that is a parameter (`RangeOrder`): any order, each entry once.
-- * int64, uint64 and int are bit patterns below 2 ^ 64 with their wrap-around and their signed
--   comparison written out. The count of a log's operations is not bounded.
-- * time.Now().Unix() is an argument `now`, read once for an operation.
-- * A part of a method that holds a lock is one step, and a method of the store is its two steps, the
--   log's and the memory's, one after the other; Storage/Engine/Halves has them interleave.
--   A listing, which locks shard after shard, is one step. A compaction is the snapshot and the swap,
--   so that other operations can stand between them; the snapshot itself is taken as one step. Append
--   starts one in a goroutine when the log has grown: here that is counted (`compactions`), and it runs
--   where a statement has it run. A statement about a run of requests, their interleavings or a server's
--   life without compactions has the condition that none is started: the run is shorter than the
--   threshold of 100,000, or its steps leave the count as it is. Runs with compactions between their
--   requests are those of Storage/Compaction/Events.
-- * The files are a map from names to bytes. A write goes well or fails after a number of bytes
--   (`Io`), and a compaction's calls each go well or fail (`CompactIo`). A failed read of a file that
--   is open is not modelled, and a file is as it was last written: what a machine loses that has not
--   synced its files is not modelled.
-- * Where a client makes several calls (`scan_pages`), each has its own clock.
-- * A channel is a number that leads to its buffer; a panic sets a flag of the state.
-- * A connection of package rpc answers each call as the server's handler does, loses nothing, and is
--   shut down by an answer that its codec cannot encode, one with an error value inside, or cannot read
--   as a response, the map of a wrapper.
--
-- Fuel: `replay` takes as many rounds as the file has bytes, and each round takes a byte at least.
-- `scan_keys` takes as many rounds as there are shards from its signed cursor on. `scan_pages`, a
-- client's loop, is given 256 pages, as each page reads one shard at least. The other loops are
-- structural.
--
-- Not modelled: package rpc and the network, which are a parameter of the client; response headers;
-- log lines; the aliasing of slices that Get and SortedListGet return; Close of the log,
-- which nothing calls, and GetShards, which gives Compact the field of the shards; the browser application, the JavaScript client and the load tests, which call
-- the HTTP interface.
pub mod Base
pub mod Storage
pub mod DataStructures
pub mod Indexing
pub mod Service
pub mod Api
pub mod Client
pub mod Http
pub mod Programs
pub mod Tests
