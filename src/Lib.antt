-- ===== src/Lib.antt =====
-- A verification library for the LSM key-value store: the ordered map of the memtable, the memtable,
-- the write-ahead log, the manifest, the store that puts them together, the filter of a table file,
-- the merge of sorted sources, compaction, both ends of replication, the frames of both protocols,
-- and the HTTP server.
--
-- A write goes to the log, then to the active memtable; when that is full it becomes the immutable
-- memtable and a background flush writes it to a table file, records the file in the manifest, adds
-- its reader to the store and truncates the log. A read looks in the active memtable, the immutable
-- memtable, and the tables, newest first.
--
-- The files and the code they model:
--   Text              strings as lists of UTF-16 code units; compare_keys is `compareKeys`
--   Codec             the UTF-8 codec of the runtime, a parameter with its laws
--   Assoc             sorted association lists, the abstract ordered map
--   SortedMap         src/storage/memtable/SortedMap.ts; the tree is immutable, and a path to a
--                     node stands for its parent pointers
--   MemTable          src/storage/memtable/MemTable.ts and MemTableEntry.ts
--   SsTableSerializer, SsTableWriter, SsTableReader
--                     the files of src/storage/sstable with these names: entries, and reads of a file
--   SsTable           src/storage/sstable/SSTableTypes.ts, and the reader that the store uses, an
--                     interface (TableService); SsTableReader/Service fills it with the
--                     writer and the reader, for the runs that these keep (storable runs)
--   BloomFilter       src/storage/sstable/BloomFilter.ts
--   Manifest          src/storage/manifest/Manifest.ts and ManifestTypes.ts
--   Wal               src/storage/wal/WAL.ts and LogEntry.ts; Wal/Records has the bytes of a log file
--   Bytes             Node's Buffer: reads and writes of numbers and texts, over lists of bytes
--   Payload           the fields of a log entry as bytes, in the log and in replication
--   Store             src/storage/LSMStore.ts
--   Replication       src/replication/ReplicationManager.ts
--   Frames            the shape of parseMessage in ReplicationProtocol.ts and TCPProtocol.ts
--   ReplicationProtocol   src/replication/ReplicationProtocol.ts
--   ReplicationServer src/replication/ReplicationServer.ts
--   TcpProtocol       src/server/TCPProtocol.ts
--   CliParser         src/cli/CLIParser.ts
--   HttpServer        src/server/HTTPServer.ts
--   MinHeap           src/common/MinHeap.ts
--   MergeIterator     src/storage/iterator/MergeIterator.ts and MergeIteratorTypes.ts
--   CompactionManager src/engine/compaction/CompactionManager.ts and CompactionTypes.ts, with
--                     `handleCompactionComplete` of src/storage/LSMStore.ts
--   Base, Tests       shared helpers; tests and the theorems at concrete inputs
--
-- Fields and methods keep their names in snake case: fixInsert is fix_insert, getAllSorted is
-- get_all_sorted, maybeFlush is maybe_flush. Methods take the state and return it. `Date.now()` is
-- an argument. A method that awaits is cut at its awaits where other calls can come between: the
-- stages of `doFlush` are the data type FlushStage, and flush_step runs one of them; those of
-- `executeCompaction` are CompactionStage, and step runs one of them. A write of the store is one
-- step: with the SYNC_EVERY_WRITE policy its one await is the append to the log.
--
-- Bounds: fix_insert runs on fuel, the length of the path to the new node plus one, and each round
-- of the repair loop shortens the path by two, so the fuel does not run out. The loops of MinHeap
-- have the length of the array as fuel, since each round changes level, and those of MergeIterator
-- the number of entries left, since each round takes one off (bubble_up_restores,
-- bubble_down_restores, skip_duplicates-IsFilled and iterate_from-IsMerge ask for no more). The
-- reader of a log file and the loop of processBuffer run on the number of bytes, since a record
-- and a frame have four at least, and so does the scan of a table file. The binary search halves
-- the index, and runs on its length. All other loops are structural.
--
-- Not modelled: the deletion of SortedMap, which nothing in the repository calls; the footer of a
-- table file, and reading it, its index and its filter; the bytes of the manifest; failures of the
-- file system, but for the truncation of the log and a flush that fails; the group commit timer;
-- the awaits between the yields of readKeyRange and inside handleCompactionComplete; the TCP
-- server and client, and what the HTTP server does with sockets. The state of the log in Wal lists
-- the entries that were written to its files. Wal/Records has the bytes of a file,
-- Wal/Records/Written connects the two for files of whole records, and Store/Crashes restarts from
-- the bytes; appending behind a record that a crash cut off is not modelled. A table file of a run
-- that is not storable (with a text that does not survive UTF-8, an empty key, a key whose first
-- byte is zero or above 126, or a value of 2 ^ 24 bytes or more) may not be read back, and nothing
-- is said of it. Where a result needs a log that is written under SYNC_EVERY_WRITE, that is a
-- hypothesis.
pub mod Base
pub mod Text
pub mod Assoc
pub mod SortedMap
pub mod CompactionManager
pub mod Codec
pub mod Bytes
pub mod MemTable
pub mod BloomFilter
pub mod MinHeap
pub mod MergeIterator
pub mod SsTable
pub mod Wal
pub mod Payload
pub mod Frames
pub mod ReplicationProtocol
pub mod ReplicationServer
pub mod TcpProtocol
pub mod SsTableSerializer
pub mod SsTableWriter
pub mod SsTableReader
pub mod Manifest
pub mod Replication
pub mod Store
pub mod CliParser
pub mod HttpServer
pub mod Tests
