-- ===== src/Lib.antt =====
-- nano_redis: a Redis server in C++, by the parts of it that decide what a client gets.
--
-- A connection reads requests in RESP from a socket (src/protocol/resp_parser.cc), which become
-- vectors of tagged objects (src/core/nano_obj.cc). Commands work on a database of tables of values
-- and of deadlines (src/core/database.cc). SAVE writes the databases in a format of its own
-- (src/core/rdb_serializer.cc), which is loaded at the start (src/core/rdb_loader.cc).
--
-- The parts and their files:
-- - Prelude: shared names, integers with sign, and the laws of `|` and `^`.
-- - Util: src/core/util.cc. `string2ll` and `equals_ignore_case` are String2ll and EqualsIgnoreCase;
--   `to_string` is the decimal print of the standard library. Unsigned arithmetic wraps at 2^64.
-- - NanoObj: src/core/nano_obj.cc, include/core/nano_obj.h. The tag and the union are the data type
--   `NanoObj`, a constructor for each tag that the code sets. Util and NanoObj meet in `set_string_key`,
--   which keeps what spells a number as one.
-- - Resp: src/protocol/resp_parser.cc. The state is the record `Parser`: the position, the unread
--   bytes, the results of the receives to come, and the two flags. Parsing functions are steps from a
--   state to an outcome and a state. Loops run on fuel: a read of a line or of a bulk string takes one
--   round for each receive and two more, as every round but the last either ends or uses up the buffer.
-- - Database: src/core/database.cc, include/core/database.h. The tables are those of the interface
--   Database.Interface, which Database.Assoc fills; the clock is an argument. Database.View has the
--   abstract keyspace: what can be seen under a key at a time, its value and its deadline.
-- - DashTable: src/core/dashtable.cc, include/core/dashtable.h, the hash table under the database. The
--   segments are a store under addresses, the directory a list of addresses. The map of one segment
--   and its hash are the interface DashTable.Interface (the map is vendored code). Indices are of 32
--   bits, so that depths up to 31 are meant; a walk takes at most as many rounds as there are slots,
--   and the loop of `Insert` as many as there are bits of depth left, and one. DashTable.Float has the
--   float arithmetic of the threshold: single precision with 24 bits, rounded to the nearest.
-- - ListFamily: src/command/list_family.cc. A handler takes its arguments, the readings of the clock
--   and a database, and returns the database and the reply. Changes to a deque go through the pointer
--   that `Find` returned, which is `assign` of the database.
-- - StringFamily: src/command/string_family.cc, the commands on strings and on the keyspace, in the
--   branches for one shard. 64-bit sums wrap (`wrap64`); an exception of the library is `none`; how
--   long a string can become in SETRANGE is the argument `capacity`.
-- - SetFamily: src/command/set_family.cc. A set is the list of its members in the order of iteration;
--   the hash set (vendored code) is the interface SetFamily.Interface. The values of `std::rand` and
--   what `Shard` says of a text are arguments, the latter `none` where there is one shard.
-- - HashFamily: src/command/hash_family.cc, in the same way; the hash map is the record `Hashes`.
-- - Rdb: src/core/rdb_serializer.cc, src/core/rdb_loader.cc, include/core/rdb_defs.h, and the calls of
--   SAVE in src/command/server_family.cc. Rdb.Save has the writer, over a sink that takes a given
--   number of bytes; Rdb.Load the reader, on fuel: every round reads a byte, so one round more than the
--   source has bytes is enough.
-- - TaskQueue: src/core/task_queue.cc, include/core/task_queue.h, the ring of cells between the shards.
--   A task is a value. `advance` is the next access of a thread to shared memory in TryEnqueue or
--   TryDequeue; TaskQueue.Threads lets threads take them in any order, a compare-exchange may fail for
--   no reason, and a system remembers which tasks were claimed for and moved out of which position.
--   Memory is taken for sequentially consistent. Positions wrap at 2^64; what is said of threads is
--   said as long as fewer than 2^62 positions are claimed. A thread alone needs three accesses for every
--   compare-exchange that fails for no reason and five more for a call, and the loop of
--   RoundUpPowerOfTwo 64 rounds.
-- - Tests: the theorems at concrete inputs, a file for each part.
--
-- Bytes are numbers, and strings lists of them. The hash and set containers are vendored code
-- (include/core/unordered_dense.h): their contents are lists in the order of iteration, and the loader
-- takes their `[]=` and `insert` as a parameter.
--
-- Not modelled: memory and its freeing; moves of a DashTable and its counters of buckets, and that
-- a DashTable fills the interface of the database's tables; the branches of the string commands that
-- send work to other shards, and SELECT on a connection; most server commands; the registry; the
-- wake-ups, fibers and end of the task queue; sockets, shards and snapshots (src/server).
-- `args.reserve` is not modelled either: the memory for the announced count is taken to be there. LREM
-- counts in an `int`; its list is taken to have fewer than 2^31 elements.
pub mod Prelude
pub mod Util
pub mod NanoObj
pub mod Resp
pub mod Database
pub mod DashTable
pub mod ListFamily
pub mod StringFamily
pub mod SetFamily
pub mod HashFamily
pub mod TaskQueue
pub mod Rdb
pub mod Tests
