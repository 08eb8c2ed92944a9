-- ===== src/Lib.antt =====
-- easy-lsm: an embedded key-value store on a log-structured merge tree.
--
-- A write goes through a group commit (src/write_req.rs): it is queued, the first of the queue leads
-- a group, the group's batch is written to the write-ahead log (src/data_stores/wal.rs), and by the
-- order of tickets to the memtable (src/data_stores/memtable.rs). A full memtable is frozen and a new
-- log begun (rotate_memtable of src/lib.rs). A thread of its own flushes frozen memtables to sorted
-- tables (src/data_stores/sstable.rs, with a filter from src/data_stores/bloom_filter.rs), merges
-- tables, and deletes files that nothing refers to (src/compact.rs). The manifest
-- (src/data_stores/manifest.rs) lists the live logs and tables; a restart reads it, replays the logs
-- and opens the tables (recover_state of src/lib.rs).
--
-- Files, with the source that they model:
--   Error                  src/err.rs: the errors, and Result.
--   Codec and its children src/data_stores/mod.rs: Loggable, the integers, vectors and strings. A
--                          reader is a function from the bytes left to a result and what it leaves.
--   Key, Value             src/data_stores/key.rs and value.rs, with their round trips.
--   Entry                  key-value pairs: sorted runs and the newest version of a key.
--   Wal                    wal.rs: Wal.next is WalIterator::next, Wal.read_log its loop; Wal/Next,
--                          Wal/Log and Wal/Torn hold the proofs.
--   SkipMap                the ordered map of crossbeam-skiplist as an interface with laws, with an
--                          instance; Memtable takes it as a parameter.
--   Memtable               memtable.rs: recover, put_batch, get.
--   Write and its children write_req.rs, WriteSyncs and Db::write: a World is the shared state with
--                          the stage of every writer, act one step of one writer, Reach the worlds
--                          that any order of steps leads to, rotations included. Write/Order and
--                          Write/Rotations follow the order of batches, Write/Owed and Write/Progress hold the
--                          proof that it does not deadlock, Write/Steps that writes end.
--   Directory, Manifest    manifest.rs over a directory of named files; Meanwhile is what other
--                          threads do during an update, to the shared manifest and to the files.
--   BloomFilter            bloom_filter.rs; BloomFilter/Members holds what set and check make of it.
--   Sstable and its children
--                          sstable.rs: blocks and index in Sstable, SstableWriter in Sstable/Writer,
--                          Sstable and its iterators in Sstable/Table. The proofs follow the file:
--                          Sstable/Block and Sstable/Index (one part), Sstable/Frame (a part with its
--                          length and checksum), Sstable/Layout and Sstable/Build (what a writer has
--                          written), Sstable/Lookup and Sstable/Reading (finding and iterating),
--                          Sstable/Opening (footer, index and filter), Sstable/Whole (all of it),
--                          Sstable/Items (an iterator's answers up to its first error) and
--                          Sstable/Ends (opening, searching and iterating end).
--   Compact/Select, Commit, Collect
--                          compact.rs: the selection of files and the triggers, the closures that are
--                          committed, and garbage collection, with proofs in Compact/Select/Complete,
--                          Compact/Commit/Moves and in Safety, Newest and Durable of Compact/Collect.
--   Compact/Merge          compact.rs, MergeIterator and the loop over it: Smallest, Runs, Invariant,
--                          Sorted and Rounds below it hold the proofs.
--   Compact/Output         compact.rs, execute_compaction from the merge to the last new file, with
--                          proofs in Stored, Files, Merges and Keeps below it.
--   Compact/Flush          compact.rs, flush_memtables, with proofs in Tables, Commits, Listed, Whole,
--                          Hidden and Numbers.
--   Compact/Execute        compact.rs, execute_compaction from the opening of its inputs to the garbage
--                          collection, compact_l0, compact_ln and a round of run; a Store is what the compaction
--                          thread shares with the others. Inputs, Installed, Whole, Ends, NewestOf and
--                          Lookup below it hold the proofs.
--   Compact/Version        compact.rs, the version of the readers after a compaction; Agrees compares
--                          it with the manifest.
--   Db and its children    lib.rs: DbVersion, get, rotation, replay and recovery; Db/Open is Db::new
--                          without its threads, put and del. Db/Logs and Db/Reopen follow an opening
--                          that replays several logs.
--
-- The parts meet as in the source: Memtable and Wal share Entry; Db.replay_mutable_wal runs
-- Wal.read_log and Memtable.recover; Manifest.apply_atomic_update takes the closures of Db.Rotate and
-- of compaction; Sstable makes the FileMetadata of the manifest, and Compact/Output and Compact/Flush
-- put its files into the Directory, under numbers from the manifest's counter.
--
-- A step of a writer is what it does under one lock: the log write of LeaderWritingWal::step is a step
-- of its own, between its two critical sections. What the outside decides (whether the log or a
-- rotation fails) is a Choice. In an update of the manifest, what other threads do to the
-- shared manifest and to the files between the snapshot and the commit is a parameter (Meanwhile), and
-- so is what they make of the counter of table numbers while a compaction writes (rivals). Theorems
-- name what they need of these: KeepTables, KeepStaged, KeepOlder, AreQuiet, NeverLower. The code does
-- not enforce KeepStaged and AreQuiet against a rotation that runs at the same time.
--
-- Fuel: Wal.read_log runs on one round for each byte, and Wal.Log shows that this never runs out.
-- Sstable.scan_block and block_entries take one round for each entry and one for the end, and are
-- called with one more than the bytes of the block; Sstable.decode_index likewise. Sstable.Ends shows
-- that none of them runs out on any file. Compact.Merge.merge
-- and Compact.Output.write_outputs take a round for each entry of the inputs and one for the end, and
-- Compact.Output.Keeps and Compact.Execute.Ends show that these are enough. The retries of the manifest
-- are the source's three.
--
-- Not modelled: the failures of the file system other than of the log and of a rename; threads and
-- condition variables (a step that cannot be taken is none; the loop of run, its waiting and the shutdown
-- are left out, and a round ends where run would wait); the hash functions and the form of the filter on
-- disk (crc32fast, SipHash and bincode are parameters); the sizes of a new filter (computed in floating
-- point); printing; and src/data_stores/block.rs, which is commented out.
pub mod Base
pub mod Error
pub mod Codec
pub mod Key
pub mod Value
pub mod Entry
pub mod Wal
pub mod SkipMap
pub mod Memtable
pub mod Write
pub mod Directory
pub mod Manifest
pub mod BloomFilter
pub mod Sstable
pub mod Compact
pub mod Db
