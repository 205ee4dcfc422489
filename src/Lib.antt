-- ===== src/Lib.antt =====
-- Verification library of spangap-core, the core of an ESP32 firmware (esp-idf/src, C++).
--
-- The parts and the files that model them:
--
-- Base (Base/Tests, Base/Lists, Base/Chars, Base/Int, Base/Decimal): shared names, Boolean tests and lists
-- over the native numbers, C strings as lists of bytes, signed integers, atoi and strtoul and the printing of
-- decimals.
--
-- Targz models esp-idf/src/targz.cpp, which writes and reads a tar archive inside gzip as a stream.
--   Targz/Octal      octalField, octalValue
--   Targz/Header     ustar_t as a record of fields, its block in memory, headerChecksum, fillHeader,
--                    sealHeader; Header/Laws is about both
--   Targz/Names      setEntryName, safeEntryName and the name that tarHeader puts together
--   Targz/Tar        tarHeader and tarConsume: the state is the part of targz_reader_t that they own,
--                    the receiver's callbacks are the record Callbacks over the caller's context; a null
--                    callback is one that returns true and changes nothing. The loop runs on fuel, the
--                    length of the run, which Tar/Progress is about. Tar/Rounds, Tar/Chunks and
--                    Tar/Cut are about runs cut in two, and Tar/Bytewise about a receiver that takes the
--                    contents of files byte by byte
--   Targz/Writer     targz_writer_t and targzWriterOpen, AddDir, AddFile, Data and Close. tdefl, the CRC
--                    and the sink are the record Miniz; what is relied on of them is the record
--                    Documented of Writer/Stream. The loop of deflateRun runs on the fuel that Miniz
--                    gives for a run, and where that ends it fails as the code does without progress
--   Targz/Gzip       gzHeader, the stages of a gzip member's header. Gzip/Heads is about the states in which
--                    each turn takes a byte, Gzip/Loop about the fuel, the length of the run, which is then
--                    enough, and Gzip/Cut about a header that comes in two runs
--   Targz/Reader     targz_reader_t and targzReaderOpen, Feed and Finish, with inflateSome. tinfl and the CRC
--                    are the record Tinfl, which also gives the fuel of inflateSome's loop. Reader/Hold and
--                    Reader/Footer are about the bytes that the reader keeps back, and Reader/Handed about
--                    those that it hands on
--   Targz/RoundTrip  what the writer puts out, read by the tar parser
--   Targz/Tests      concrete runs
--
-- Cron models esp-idf/src/cron.cpp, the scheduler of the entries under s.cron.tab.
--   Cron/Field       cronMatchField
--   Cron/Entry       parseFlags and cronParse; Entry/Flags is about the flags
--   Cron/NextRun     cronNextRun and cronComputeNextLocked; localtime_r and mktime are the record Calendar.
--                    The loop has the 1000 turns of the source. NextRun/Least and NextRun/Due are about
--                    what the two compute
--   Cron/Poll        the static state as a record, cronCollect, cronUpdateLock, cronReschedule, cronPoll and
--                    cronDrainCommands; the stream buffer is a type S with its send, and what the code
--                    reads of the storage and the clock is the record World. Poll/Schedule is about the
--                    stored minutes, Poll/Lines about the commands sent
--   Cron/Tests       concrete runs
--
-- StorageDb models esp-idf/src/storage_db.cpp and esp-idf/include/storage_db.h: the encodings, the stores of
-- records in memory and their files.
--   StorageDb/Words       rdU16, wrU16, rdU32 and wrU32, little-endian
--   StorageDb/Schema      sdb_field, sdb_schema, the builders and schemaLayoutEqual, which Schema/Layout
--                         is about
--   StorageDb/Descriptor  serializeDescriptor and parseDescriptor
--   StorageDb/Hex         hexNib, hexEncodeBytes, hexDecodeInto and isAllZero
--   StorageDb/Record      buildRecord and readRecordText; Record/RoundTrip reads a record back
--   StorageDb/Index       rebuildIndex and findRec; the walk runs on fuel, the length of the block, which is
--                         enough as a record takes at least one byte. Index/Rebuild is about the index,
--                         Index/Built about the records of buildRecord
--   StorageDb/Store       sdb_store, writeFileHeader, ensureCap, sdbInitEmpty, sdbEvict and the disk image. The
--                         block is the list of the bytes in use; the allocator's answers are a list of the
--                         store. Doubling runs on the needed size as fuel, each turn adding at least one
--   StorageDb/Compact     sdbCompactInPlace with its scratch buffer, reclaimForAppend, appendRecord and compact;
--                         the loops run on fuel, the length of the block. Compact/Writes, Wholes, Live, Swept,
--                         Steps and InPlace are about compaction in place, Compact/Trails about its cursors and its
--                         scratch buffer, Compact/Relocate about the
--                         relocation, Compact/Capacity and Compact/Append about appending
--   StorageDb/Fields      sdbHasRecord, sdbGetField, sdbGetFieldBin, sdbSetField, sdbDeleteRecord and sdbForEach;
--                         Fields/Delete is about deletions, Fields/Numbers about 32-bit fields set and
--                         read
--   StorageDb/Gzip        gzInflateBin, gzInflatePrefix and gzDeflateBin; tinfl and tdefl are the records
--                         Inflater and Deflater. Gzip/RoundTrip is about frames written and read back
--   StorageDb/Files       the legacy layouts, sdbPeekHeader, sdbFileMatchesSchema, migration, sdbLoad, sdbFlush,
--                         sdbUpgradeFileIfStale, sdbSerializeGz and sdbSnapshotRaw; the file system is what a
--                         file holds and whether a write succeeds. Files/Image is about the disk image,
--                         Files/Reload about a store that is flushed and loaded again
--   StorageDb/Tests       concrete runs
--
-- Stores are taken to be below 4 GB, so that the casts of offsets and of the capacity to 32 bits change
-- nothing, and a fixed string to be at least one byte wide.
--
-- Auth models esp-idf/src/auth.cpp, realms with passwords and the cookies of their sessions. The
-- configuration tree is a type of Env with the operations that auth calls, its keys are the data type Key;
-- SHA-256 and sscanf are fields of Env, and the time and random bytes are arguments.
--   Auth             toHex, fromHex, hashPassword and verifyPassword; Auth/Password is about them
--   Auth/Realms      realmGet, realmFind, authForceSetPassword, authPasswd, authEnabled and authRealmUnset;
--                    Realms/Stored is about a password that was set
--   Auth/Backoff     isRateLimited; Backoff/Bounds is about the delay
--   Auth/Cookies     cookieRemove, cookieAdd, the sweep of authInit, authLogout and authCheck
--   Auth/Login       authLogin; Login/Refused is about logins that no realm lets in
--   Auth/Tests       concrete runs
--
-- Log models esp-idf/src/log.cpp, the way of a line from any task to the ring, the console and the consumers.
--   Log/Ring         logRingWrite and logRingRead: the positions are 32 bits wide and wrap. Ring/Window is
--                    about the bytes between two positions, Ring/Refine about the queue that the ring is
--   Log/Level        the level letters and numbers, lineLevel, findLevelCharPos and the colours
--   Log/Ansi         containsAnsi and stripAnsi
--   Log/Rules        logRule and logRuleApply; esp_log_level_get is an argument
--   Log/Reformat     logReformat: the text is what snprintf writes in full, and lastLevel is passed on. What it
--                    asks of the task, the storage and the clock is the record LineEnv. Its loops run on
--                    fuel, the length of the text, each turn taking at least a byte. Reformat/Plain is
--                    about the parts of a line, Reformat/Escapes and Strip about the colours,
--                    Reformat/Shorter and Bounds about lengths
--   Log/Vprintf      logVprintf with logNowhereToGo and logWireLive; what vsnprintf renders, the memory and the
--                    flags of the console are the record PrintCall. Vprintf/Clean is about the bytes in the ring
--                    and on the console
--   Log/Inbound      logAllocSlot, the lines that consumers send in, their plain and coloured versions, the
--                    fan-out and logFileWrite. Inbound/Drain is about the packets
--   Log/Tests        concrete runs
--
-- Its models esp-idf/src/its.cpp, the streams and packet links between tasks.
--   Its/Counter      ctrAdd, ctrSub and payAlloc, with the wrap of size_t
--   Its/Link         linkSendSpace, linkCanSend, linkEnqueue, linkDequeue, linkPurge, and itsSendPacket, itsRecv and
--                    itsRecvRef on a packet link, all with a wait of no ticks. FreeRTOS's stream buffer is
--                    the record StreamBuffer, and what it promises the record Laws of Link/Queue. The
--                    loop of linkPurge runs on the number of descriptors as fuel. Link/Queue is the
--                    queue that a link stands for; Link/Send and Link/Receive are about single calls,
--                    Link/Refine about sequences of calls
--   Its/Conn         connAlloc, connFree, conn, the directions of a task at a connection, the count of a port's
--                    connections and the search for an abandoned one. connFree is cut where it leaves
--                    the lock: the model gives what it goes on to release. Conn/Alloc and Conn/Free
--                    are about the two
--   Its/Pool         poolGet, poolFree, poolRetainOnFree and poolHandle; whether the allocations succeed is the
--                    record Memory, and the calls of FreeRTOS are a list. Pool/Fresh is about poolGet
--   Its/Tests        concrete runs
--
-- Storage models parts of esp-idf/src/storage.cpp, the configuration tree.
--   Storage/Ops      the opAppend functions and the first pass of storageApplyOps, on a device with pointers of 32
--                    bits. The pass runs on fuel, the length of the list, each op taking a byte. Ops/RoundTrip
--                    is about lists that are written and read
--   Storage/Subs     subDrop, subReap, subAdd, subRemove and storageOnTaskDeath. The two loops run on the number
--                    of rows as fuel, each turn leaving one row less to look at. Subs/Sweep is about
--                    what they keep
--   Storage/Tests    concrete runs
--
-- Machine integers are native numbers with their wrap-around written out. What the code logs of itself is left
-- out.
-- Not modelled: cronInit and the task loop of cron.cpp, the commands of auth.cpp and the tree that authInit
-- puts in place; of log.cpp the task's loop, the paste-back of the file's tail, the opening and rotation of
-- the log file and the commands; of its.cpp the waits, the table of links, the inboxes and their dispatch,
-- and the framed packets of the legacy kind; of storage.cpp the tree itself, which is cJSON's, its files
-- and its notifications; the code of the command line, the file system layer, power management and the
-- service registry; start-up, USB ports, buses and hardware probing, which are mostly calls of the
-- platform, and generated tables.
pub mod Base
pub mod Targz
pub mod Cron
pub mod StorageDb
pub mod Auth
pub mod Log
pub mod Its
pub mod Storage
