-- ===== src/Lib.antt =====
-- DLR: a content-addressed session log that a client streams to a receiver, which keeps it in a
-- durable store and acknowledges it by a running digest.
--
-- The model follows the crates of the workspace, and a file is named for the module that it models.
--
-- crates/core
--   Core/Bytes       little-endian integers and slices, as the standard library has them
--   Core/Blake3      the `blake3` crate: a streaming digest, a parameter of everything that hashes
--   Core/Block       src/block.rs: blocks, their kinds and their ids
--   Core/Merkle      src/merkle.rs: `append_root`, `root_over`
--   Core/Canonical   src/canonical.rs: `canonical_bytes`, `from_canonical`, `from_canonical_owned`;
--                    Laws and Inverse have the proofs
--   Core/Frame       src/frame.rs: frames and `encode_frame`. Reader has the decoder's moving window,
--                    Decode the decoder itself, Capacity the buffer that the encoder reserves.
--                    Copied is an independent decoder, which copies where the code takes slices of
--                    the transport buffer, and Copy about the two; Window, Entries, RoundTrip, Prefix
--                    and Panics have the proofs
--   Core/Wal         src/wal.rs: the record writer. Replay has the reader and `Wal::open`; Records
--                    the records as data; Scan, Torn and Append have the proofs
--   Core/Store       src/store.rs: `ContentStore` and its operations. View has what each operation
--                    does to the two maps, Detached is about a store without a log; Durable and
--                    Recovery relate a live store to its log; Crash
--                    is about a log of which only a prefix survived
--   Core/Mmr         src/mmr.rs: the Mountain Range in its arena. Perfect has the trees as data, and
--                    what it means that an arena holds them; Refines is about appends, Arena
--                    about the indices into the arena, Hashed has the inputs of the digest in a
--                    range and in the check of a proof, Proof and Inclusion are about inclusion
--                    proofs
--   Core/Filter      src/filter.rs: the cuckoo filter. Mask has the index arithmetic, Width and Kicks
--                    what an insertion does to the table, Kept is about many insertions
--   Core/Session     src/session.rs: the shard of a session
--
-- crates/receiver
--   Receiver         src/lib.rs: `Receiver`, `SessionState`, `new`, `handle_append`. Sync has
--                    `handle_resync`, `handle_bulk` and `handle_frame`. Membership, Entries and
--                    Applied have what the steps do to sets, session states and logs; Atomic, Append,
--                    Replay, Complete, Bulk, Ack and Log have the proofs
--
--                    Current is about an APPEND from the session's own root
--
-- crates/compress
--   Compress         src/lib.rs: `Compressor` with the contexts that a thread caches. Cached compares
--                    it with one that caches nothing; Delta has src/delta.rs, Train
--                    `train_dictionary`
--
-- crates/shim
--   Shim             src/lib.rs: `SessionShim`, the sending end. Bulk has the BULK frames, Registry the
--                    coordinator `Shim`. Roots and Ack are about the roots and ACKs, Emit, Exchange
--                    and Pipelined about turns at a receiver, Coalesced about several turns in a
--                    frame, Chunks and Records about the records of a cold start; Packing makes the
--                    compressor of crates/compress the shim's and the receiver's
--
-- crates/prune
--   Prune            src/lib.rs: the baseline policy and the schedulers. Ranking and Importance are about
--                    the windows of the policy, Schedules about the schedulers
--   Prune/Incremental  src/incremental.rs: `IncrementalPruner`, whose `insert` is `insert_survivor`.
--                    Sorted has the survivors as one list; Placed, Refines, Evictions and Budgets
--                    relate the pruner to it
--
-- crates/transport
--   Transport/Flow   src/flow.rs: the credit window
--
-- crates/coding
--   Coding/Hash      src/fib_hash.rs: sessions to shards
--   Coding/Backoff   src/fib_backoff.rs: the backoff window
--   Coding/Gf256     src/gf256.rs: arithmetic and slices. Gauss has the elimination, Tables is about
--                    products and inverses
--   Coding/Fountain  src/fountain.rs: `FountainDecoder`. Encoder has `FountainEncoder` and its random
--                    numbers; Units and Systematic are about symbols with one source, Peeling about
--                    the loop over the queue, Retry about decoding twice
--   Coding/Bulk      src/bulk.rs: `encode`, and `fountain_codec`, the fountain decoder as the
--                    receiver's codec; Slices and Generation are about one chunk of a cold start.
--                    Machine has `encode` with its sizes in `usize`, Reassembly has `decode`
--                    (`bulk_decode`), Groups, Whole and Interleaved are about what it makes of the
--                    encoder's symbols
--
-- Prelude has the helpers: list lemmas over the native numbers, association lists for the hash maps,
-- `Result`. Tests has the concrete inputs, and Tests/Session a run of a receiver,
-- Tests/Turns one of a shim with a receiver, Tests/Packed one of a compressor, Tests/Coded one of the
-- fountain code, Tests/Indexes of the range and the filter,
-- Tests/Pruned a pruner, Tests/Window one of a credit window, Tests/Shards the rest.
--
-- How they interact: the store hashes blocks and roots, and hands each change of its maps to the
-- log's writer; opening a log runs the store's own operations again, with no log attached; frames
-- carry blocks and ids between the two ends. The receiver keeps for each session the ids that are not
-- stored yet and the fountain decoders in flight, and leaves logs and roots to the store: APPEND
-- extends a log, RESYNC replaces it by a manifest, BULK stores content without touching it. The shim
-- keeps the ids of a session, its root, and the root that the receiver acknowledged last; a turn
-- becomes an APPEND frame of compressed blocks and of references to what its store has, and the
-- receiver's answer comes back as an ACK. `Shim.Exchange.exchange` is that round trip.
--
-- State and effects. A store is a record of two association lists, the counters, the log's bytes and
-- the latched write error; a method is a function from the state to the state and its result. Locks,
-- shards and atomics are not modelled: one method is one step, and so is a compare-and-swap loop.
-- The counters of the store, the sizes and the clock of the incremental pruner, and the sizes in
-- `bulk.rs` wrap at 2 ^ 64; those of the Mountain Range, the filter, the fountain decoder and the
-- schedulers of jobs are not wrapped, as their files say. A reader of the frame decoder is a function
-- from the window to a value, an error or a panic.
--
-- Parameters. The digest is a streaming function with digests of 32 bytes; no theorem assumes that
-- it has no collisions. The disk is a function that returns the file's contents after a write and
-- the error if there was one; it is assumed that a write without an error appends exactly its bytes.
-- The fountain decoder and the compressor are an interface of the receiver, and the compressor and
-- the cuckoo filter one of the shim, of which nothing is assumed; where a theorem is about both ends,
-- it says for which blocks the one end unpacks what the other packed. Of the `zstd` crate it is
-- assumed that a frame carries its content size and that a decoder with the same dictionary gives the
-- content back; a context is a value, since each call makes a frame of its own. In the shim
-- the fountain encoder `bulk::encode` is a function from a chunk to wire symbols, which Coding/Bulk
-- then defines. The hash of the filter, the floating-point scores of the baseline prune (as numbers in
-- their order), the floating-point soliton distribution and the number of repair symbols are functions.
--
-- Fuel. `replay` takes one round more than the file has bytes, which is enough because each round
-- reads a header of 21 bytes at least. `parse_stream` takes one round for each byte, and a round
-- takes four.
--
-- An insertion into the pruner evicts at most as many survivors as there are.
--
-- `peel` takes one round for each symbol, which is enough because a symbol comes into the queue only
-- when its degree becomes 1, and leaves it with degree 0.
--
-- Not modelled: the file lock, seeking, errors of the operating system on reading, flushing as an
-- effect on a physical disk, tracing, floating-point arithmetic (a parameter of the backoff window,
-- of the fountain encoder and of the baseline prune), the size of a `Vec` in memory, SIMD intrinsics, and, for now, the
-- Reed-Solomon and network codes.
-- Sockets, processes and the command line are left out as input and output.
pub mod Prelude
pub mod Core
pub mod Compress
pub mod Receiver
pub mod Shim
pub mod Prune
pub mod Transport
pub mod Coding
pub mod Tests
