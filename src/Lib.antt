-- ===== src/Lib.antt =====
-- A Bloom filter library and its on-disk formats.
--
-- The program is a Go module. internal/hash gives the bit positions of an item, internal/filter keeps
-- the bit array, internal/merge combines the arrays of several nodes, internal/codec turns a filter
-- into bytes and back, and internal/store keeps a filter in an append-only file of checksummed records
-- with checkpoints. internal/store also has a write-ahead log of its own, internal/counting a filter
-- of counters that supports removal, and internal/partition a filter that spreads items over several
-- and resets them in turn. internal/filter/builder.go makes filters for a capacity and lets one grow,
-- internal/capacity plans sizes, internal/stats counts calls, and main.go is the command line.
-- The store writes checkpoints with the codec, and replays records with the
-- filter's Add.
--
-- Base: the helpers that every part shares. Go's uint has 64 bits, and wrap-around is written out;
--   a call that can panic or return an error has a Result.
-- Std: encoding/binary, hash/fnv and hash/crc32 of the Go standard library, written out from their
--   documentation and tested on published vectors.
-- Filter/Bag: a filter depends on the set of its items. Filter/Heap: filters as pointers to shared
--   arrays, with Views on Clone and Add, and Combined on the in-place operations of ops.go.
-- Float: float64 and package math, as a record of operations without laws, which the definitions that
--   compute in float64 take as a parameter. Float/Sample: a record to run them on.
-- Hash: internal/hash/hash.go. Hash/Bounds: its range. Hash/Murmur3: internal/hash/murmur3.go.
--   Hash/Enhanced: internal/hash/enhanced.go, with Positions on the indices of the strategies and
--   Sorting on the insertion sort of Dispersion.
-- Filter: internal/filter/filter.go. Valid has the invariant (the array has (m+7)/8 bytes, m and k are
--   positive and fit uint), View reads a filter as a set of positions, Sets has the lemmas on these,
--   and Membership what Test promises after Add.
-- Filter/Ops: internal/filter/ops.go. Bytes and Algebra treat a bulk operation as a bitwise one on
--   positions, Merged says what it means for items, Single is about SetBit, ClearBit and GetBit, and
--   Count about the bit counts.
-- Filter/Sizing: the rates and sizes of internal/filter/filter.go. Filter/Builder:
--   internal/filter/builder.go, with Building on the builder, Loops, Growing and Starting on the filter
--   that grows, whose sizes are in Filter/Builder/Sizes.
-- Merge: internal/merge/merge.go. Agrees compares it with Filter/Ops, Many is about UnionMany and
--   Distance about HammingDistance. Estimates has the similarity and the cardinality estimates, and
--   Overlap what the similarity divides.
-- Codec: internal/codec/codec.go and internal/codec/format.go. Decode lists what a decoder reads,
--   RoundTrip, Damage, Formats and Canonical hold the theorems.
-- Store: internal/store/store.go. Records and Torn are about one record, Log is the abstract log of
--   entries and its meaning, Scan follows the two passes of Open over a log, Recovery joins them, and
--   Session follows a store from Create through Add and Checkpoint to the next Open. Cut is about a file
--   cut off anywhere, Written about stores of any k, Holds about the items of a durable store, and Crashes
--   about sessions that end in restarts and crashes, which Writes and Keeping follow. Parse, Chain, Reopen and Sound are about Open on
--   bytes of any kind.
-- Wal: internal/store/wal.go. Entries is about the entry format, Session about a log from OpenWAL
--   through Append and Flush to Close, and Cut about a log cut off anywhere.
-- Partition: internal/partition/partition.go. Valid has the invariant, Membership what callers rely on.
-- Rotation: internal/partition/rotation.go. Cycle is about one rotation, Round about several in a row,
--   Expiry about what is reported meanwhile, and Restoring about snapshots. Loop has the goroutine of
--   Start among the calls of other goroutines, Loop/Jobs and Loop/Later are about the holder of the mutex,
--   Loop/Alone about a rotation with nothing in between, and Loop/Runs says what holds in all runs.
-- Counting: internal/counting/counting.go, and Counting/Snapshot internal/counting/snapshot.go.
--   Positions is about the bits of the array, Counters about the counters packed in it, Tallies,
--   Removal and Merged about Add, Remove and Merge, RoundTrip about the snapshot,
--   and Locks about the locks of Merge. Multiset reads the counters as a multiset of items, and
--   Multiset/Runs follows runs of Add and Remove.
-- Stats: internal/stats/stats.go. History is about the bounded history, Steps about concurrent calls, Reset among them,
--   and Steps/Counts on what they count.
--   Stats/Rate: internal/stats/rate.go, with the invariant in Valid and the total in Window.
-- Capacity: internal/capacity/capacity.go, and Capacity/Advisor internal/capacity/advisor.go. Sizes and
--   Tiers are about the parameters that they return.
-- Cli: main.go, from the parsed flags on; Dispatch is the choice of a command. Fields is about
--   arguments and lists of items, Filters about add and check, Stores about store-add and
--   store-check, and Sessions about any number of runs on one store file, one by one in Sessions/Runs,
--   all together in Sessions/Kept, and the next of them in Sessions/Progress.
-- The Tests modules run the code on small inputs and apply the theorems there.
--
-- A method that writes its receiver returns the new receiver; a pointer that may be nil is an Option.
-- Filter/Heap has the arrays at addresses instead, and shows where sharing them makes no difference.
-- Slices are lists of bytes, and the nil slice is the empty list. Calls of the operating system
-- succeed but where main.go reads or writes a filter file, a write to a store or a log appends at the
-- end of its file, and memory is not exhausted. Strings of error
-- messages are left out.
--
-- Fuel: the bit-count loop `for b != 0 { b &= b - 1 }` lowers b in each round, so b + 1 tests are enough;
-- running out of fuel is a result of its own.
-- Both passes of Open advance by at least nine bytes per record, so the length of the file is enough; the
-- same holds of the log, whose entries take at least seventeen bytes.
--
-- Concurrency: the methods that hold a lock for all of their work are single steps; the atomic counters
-- of internal/stats are interleaved step by step. A rotating filter and its background goroutine are a
-- step relation, in which a tick may come at any time, and an Add between any two calls that a rotation
-- makes on the partitioned filter, and so are the locks of the Merge of
-- internal/counting. A clock never goes back.
--
-- Not modelled: package flag, printing and exit codes of main.go, the texts of errors and reports, and
-- the Clone and the accessors of single fields of internal/counting.
pub mod Base
pub mod Std
pub mod Hash
pub mod Filter
pub mod Merge
pub mod Codec
pub mod Store
pub mod Wal
pub mod Partition
pub mod Counting
pub mod Float
pub mod Rotation
pub mod Stats
pub mod Capacity
pub mod Cli
