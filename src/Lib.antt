-- ===== src/Lib.antt =====
-- Verification of the core of shanshui-cunji, a storage engine with transactions, document ids and a
-- cluster layer, whose code is in src/*.rs.
--
-- Parts and files:
-- * src/error.rs is Errors: the error type without message texts. A result is `ok`, `err` or `panic`;
--   `panic` stands for a failed slice, index or `unwrap`.
-- * Bytes holds byte strings, the little- and big-endian integers of Rust's standard library, and
--   the byte order. A byte string is a list of numbers below 256.
-- * src/keys.rs is Keys, each function under its own name. A `&mut Vec<u8>` is passed in and returned,
--   and so is the position in a buffer. Keys/Varlen, Keys/Composite, Keys/Varint and Keys/Zigzag hold the proofs.
-- * src/docid_alloc.rs is DocidAlloc. The atomic counters are numbers below 2^64 that wrap; calls are
--   in sequence. `ShardLocalAllocator::alloc` is `alloc_local`, `ShardLocalAllocator::new` is
--   `new_shard`.
-- * src/txn.rs is Txn: Txn/Batch has `WriteBatch` and `Op`, Txn/Transaction the transaction handle,
--   Txn/Locks the lock table. Methods that two types share carry the type's short name
--   (`WriteBatch::put` is `batch_put`, `Transaction::put` is `txn_put`). The maps of the lock table are
--   lists of pairs with one lookup, insertion and removal (Prelude/Assoc). `acquire` computes the
--   answer and the next table; its conflict branch is `refuse`. `LockState::exclusive` is
--   `is_exclusive`.
-- * SkipList is the ordered map of the package crossbeam_skiplist, which src/memtable.rs stands on, as
--   an interface: the calls made, and what its documentation says of them. SkipList.sorted_list is an
--   instance.
-- * src/memtable.rs is Memtable: a table over any such map from keys to version chains, and the
--   double buffer of two tables. Methods of `MemTableBuffer` that `MemTable` has too
--   start with `buffer_`. Memtable/Versions describes a table by the history of its writes.
-- * src/wal.rs is Wal. The writer of the append mode has its file as the list of the bytes written to
--   it, and a crash keeps some of the first ones. CRC-32 is written out. `decode_payload` calls Keys.
--   Wal/Frame is one record, Wal/Replay one round of the replay, Wal/Crash and Wal/Torn whole logs.
--   Wal/History sets the writer beside two lists, of the records kept and of those waiting for a sync,
--   over sequences of calls; a restart there drops the writer's buffer and opens the file again.
--   Wal/Ring is `RingWal` over a file of a fixed size; the loop of `sync` that places the records is
--   `plan`, with `place` for one record, and `commit` is what follows it. Wal/Backend is `WalBackend`,
--   whose methods start with `backend_`.
-- * src/value.rs is Value: the values of fields, and documents as bytes, on top of Keys. A float and a
--   signed number are their 64 bits, and a string is its bytes, with the UTF-8 test written out.
-- * src/saga.rs is Saga: transactions of several steps. A step acts on a world of any type. The state
--   files are one map, in memory and on disk alike, since `persist` changes both together; whether the
--   next writes succeed is in the coordinator's `writes`. The loops of `run` and `compensate` are
--   `run_loop` and `compensate_loop`, a round of each `run_round` and `compensate_round`.
-- * src/bloom.rs is Bloom: the bit array as a list of 64-bit words. The two hashes of a key and the
--   number of bits for a key are arguments. Bytes/SingleBit has the facts on one bit.
-- * src/sharding.rs is Sharding: the hashes, the ring of virtual points and the two levels of routing.
--   The sort and the binary search of Rust's slices are an interface (Sharding/Slice), since their
--   documentation leaves equal keys open; Sharding/Insertion is an instance. Sharding/Clockwise says
--   what the ring is for, Sharding/Names the same by names. src/reshard.rs is Sharding/Reshard.
-- * src/meta.rs is Meta: nodes in their order, with roles and addresses; Meta/Router routes over them.
-- * src/gateway.rs is Gateway, over the trait of its endpoints as an interface (Gateway/Endpoint), with
--   the endpoint in the process as an instance (Gateway/Local). The loops of `catch_up` are
--   `copy_nodes` and `copy_rows`. Gateway/Owners, Gateway/Registered and Gateway/Switch follow the routes
--   over a migration, Gateway/Writes, Gateway/Keeps and Gateway/CatchUp the documents; Gateway/Lossless
--   and Gateway/Batch put them together.
-- * src/scale_out.rs is ScaleOut: the coordinator's phases, with the state file as one value `disk`
--   that a successful write replaces. Whether a write succeeds is an argument of each call. It calls
--   Meta to route writes.
-- * src/raft_meta.rs is RaftMeta: the replicated metadata. A message and the answer to it are one
--   function, since `deliver` calls the handlers at once: `request_vote` delivers to `vote` and back to
--   `count_vote`, `send_append` to `append_entries` and back to `acknowledge`. RaftMeta/Steps and
--   RaftMeta/Group say what a message may change, RaftMeta/Ballots and RaftMeta/Election follow one
--   election, RaftMeta/Safety and RaftMeta/Calls the whole group, and RaftMeta/Commit a proposal at a
--   node that is cut off. It calls Meta to apply entries.
-- * src/replication.rs is Replication: the master's log, with its file as the entries last written to it,
--   the push to the slaves (`Replicator::record` is `record_write`) and the handler of a slave.
-- * Prelude has the list and map lemmas and the tests on numbers that all parts share; Tests has runs
--   on small inputs and the theorems applied at them.
--
-- Interaction: the engine (src/engine.rs) opens a transaction, buffers its writes in the handle, takes
-- locks from the lock table by transaction number, and releases them all at the end. Writes reach the
-- memtable with a global sequence number, under keys that Keys encodes. The scale-out coordinator
-- changes the node list that Meta keeps. The gateway routes by Meta, which builds a Sharding ring of its
-- nodes, and registers a new node there when a migration is committed.
--
-- Integers are natural numbers with their width written out as `% 2 ^ w` where the source wraps.
-- Lengths and positions (`usize`) do not wrap.
--
-- Fuel: `search_cycle` gets one round for each holder that can be pushed and two more, which the
-- proofs show to be enough for a complete search. `decode_fields` gets the length of the buffer, since
-- a round takes four bytes at least. `varint_bytes` gets ten rounds, which carry seventy bits.
-- `replay` gets the length of the file, since a round takes eight bytes at least, and `scan_loop` of the
-- ring log the tail for the same reason. `resize_loop` gets the
-- number of shards asked for.
--
-- Not modelled: failing file calls of the logs, the parallel run and the retries of sagas, sorted
-- tables, column families, the inverted index, the outbox, the remote calls of the metadata group,
-- and the gateway's broadcast search and term cache, which are core and stand on the parts above; and servers, foreign protocols, metrics, schedulers, timers and platform bindings, which
-- are input and output around the core.
-- Concurrency inside a table or an allocator is left out: calls are atomic and in sequence, which the
-- source gets from a mutex or one atomic instruction.
pub mod Prelude
pub mod Errors
pub mod Bytes
pub mod SkipList
pub mod Keys
pub mod DocidAlloc
pub mod Txn
pub mod Memtable
pub mod Meta
pub mod ScaleOut
pub mod Replication
pub mod Sharding
pub mod Gateway
pub mod Bloom
pub mod Wal
pub mod Saga
pub mod Value
pub mod RaftMeta
pub mod Tests
