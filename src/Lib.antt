-- ===== src/Lib.antt =====
-- A model of the Nostr relay onion-relay (C, freestanding on Linux), and theorems about it.
--
-- The relay accepts WebSocket connections (src/websocket), reads Nostr messages from the frames
-- (src/nostr), keeps each client's subscriptions and sends it the events that match, and stores
-- events in a paged database (src/nostr/db) with a write-ahead log, a buffer pool and B+ tree
-- indexes. The model has one module per part:
--
-- - Prelude: the shared names; Prelude/Lists has C arrays as lists, Prelude/Bytes the exclusive or
--   of bytes, Prelude/Words numbers as bytes, Prelude/Tests the Boolean comparisons.
-- - WebSocket: src/websocket/parser/to_entity.c and to_packet.c. A buffer is a
--   list of bytes, a parser's result a value of Run (done, refused, or fault for a read or write
--   outside the buffer). WebSocket/Frame has the entity and the reads, WebSocket/Parse
--   to_websocket_entity, WebSocket/Packet to_websocket_packet, WebSocket/Masking the masking of a
--   payload, WebSocket/Wire the format of RFC 6455 as an independent description. The theorems stand
--   in WebSocket/Print, WebSocket/RoundTrip, WebSocket/Safety and WebSocket/Limits.
-- - Text: the string functions of src/util/string.h and memcmp of src/arch/linux/x86_64/memory.h.
-- - Filter: nostr_filter_matches of src/nostr/subscription/nostr_filter.c with its helpers and the
--   conversion of hexadecimal text. Text/Hex, Filter/Prefix and Filter/Criteria say what it decides.
-- - Subscription: the table of src/nostr/subscription/nostr_subscription.c. A pointer to an entry is
--   its index. Subscription/View maps a table to what is in force for a client and an id, and
--   Subscription/Refine and Subscription/Removal relate the operations to that map;
--   Subscription/Invariant has the well-formedness of a table, and Subscription/Reachable the tables
--   that sequences of calls lead to.
-- - ResultSet: src/nostr/db/query/query_result_v2.c. The two parallel arrays are one list; the bloom
--   filter is 64 words of 64 bits. ResultSet/Bloom, ResultSet/Add and ResultSet/Order.
-- - SlotPage: src/nostr/db/record/slot_page.c. The header and the directory stand apart from the
--   bytes of the page, a function of the address; the invariant keeps the directory and the records
--   apart, as the two share the page in the code. SlotPage/Invariant maps a page to the record of
--   each slot; SlotPage/CompactLoop, SlotPage/Compact, SlotPage/Slots, SlotPage/Insert,
--   SlotPage/InsertCases and SlotPage/Delete relate the operations to that map.
-- - Query: src/nostr/db/query/query_engine.c. Query/Tags has the serialised tags of a stored event,
--   Query/PostFilter the tests of the records found, Query/Ids the search by ids and Query/Search the
--   searches by key, over what an index offers for a key; Query/Search/Bounds says that they keep
--   within the limits. Query/Execute has the scan of the timeline and query_execute, and
--   Query/Execute/Answers what a whole query answers.
-- - DbTypes: the error codes of src/nostr/db/db_types.h and the pages of
--   src/nostr/db/disk/disk_types.h, functions from the offset to the byte.
-- - Disk: src/nostr/db/disk. The file is a function from the number of a page to the page.
--   Disk/FreeList has the list of free pages as a chain through the pages and the well-formedness of
--   a file; Disk/Alloc, Disk/Extend, Disk/Life and Disk/Header relate allocation, extension,
--   creation, and closing and opening to it.
--   Disk/Pages has the reads and writes of single pages.
-- - Buffer: src/nostr/db/buffer/buffer_pool.c. The frames are one list, the hash table a list of slots.
--   Buffer has the table and the clock, Buffer/Frames the eviction and Buffer/Calls the public
--   functions. Buffer/Primes shows that the search for the size of the table ends.
--   Buffer/Cycle, Buffer/Table, Buffer/Used, Buffer/Insert, Buffer/Holed, Buffer/Shift and Buffer/Remove
--   have the hash table, Buffer/Clock and Buffer/Victim the clock. Buffer/View has the well-formedness of
--   a pool and the content that it stands for; Buffer/Relabel, Buffer/Flush, Buffer/FlushAll,
--   Buffer/Evict, Buffer/Acquire, Buffer/Room, Buffer/Install, Buffer/Pin, Buffer/Alloc, Buffer/Write and
--   Buffer/Start relate the operations to it, and Buffer/Session runs of calls to a memory of pages;
--   the runs leave buffer_pool_alloc_page out, which relies on a new page not being in a frame.
-- - Wal: src/nostr/db/wal. WalRecord has the records as bytes, Wal the writing of records, the
--   flush and the checkpoint, Wal/Recovery the redo and undo of wal_recovery.c. Wal/Records
--   relates the bytes of a log to its records, Wal/Log, Wal/Flush, Wal/Append, Wal/Write,
--   Wal/Durable, Wal/Commit, Wal/Begin, Wal/Checkpoint and Wal/Reachable the file and the buffer
--   to the log that they hold together; Wal/Recovery/Bytes, Wal/Recovery/Replay and
--   Wal/Recovery/Whole say what recovery makes of each byte.
-- - Response: src/nostr/response/nostr_response.c. A message is a list of writers, each one `pos +=` of
--   the code; Response/Event has the EVENT message. Response/Format has the texts of the messages,
--   Response/Json a reader of JSON strings, Response/Decimal the value of digits. Response/Cursor says
--   what a position and a buffer hold of a text; Response/Copy, Response/Escape, Response/Parts and
--   Response/Message show that the writers produce the texts.
-- - Tests: the theorems at concrete inputs.
--
-- Parts meet in values: a subscription holds filters, and the table asks Filter about an event; a
-- query collects into a result set and reads the records of slot pages. The answers of the indexes
-- and of the record manager, which are not modelled, are arguments of the searches. Recovery and
-- the buffer pool read and write pages through the disk manager.
--
-- Numbers of w bits are natural numbers with the wrap written out, and an int64_t is its bit pattern.
-- Loops are recursions over the lists that the C code runs over, so that no fuel is needed. The
-- loops over a log have the length of the log as fuel, of which each step takes 32 bytes at least;
-- those over the hash table its number of slots, after which they would be where they began. The search
-- for a divisor of an odd n has n as fuel and ends at n at the latest; that for a prime has 2 ^ 31, the
-- number of odd numbers of 32 bits, and for a size of up to 2 ^ 21 it ends below 2097170. A sort of more
-- than 2 ^ 31 entries, an update that is copied over the end of the log's buffer, a recovery that meets
-- an update which is not whole or leaves its page, and the text of the least int64_t have no result. The
-- kernel's answers to requests for memory and to reads and writes of files are arguments, and so are
-- the contents of an uninitialised buffer.
--
-- Not modelled: system calls, sockets, the epoll loop, signals and logging; the HTTP handshake and
-- its hashes; jsmn, a copy of a third-party parser, and the readers of JSON on top of it; the
-- B+ tree, the indexes, the record manager above the slot pages and the serialisation
-- of events; disk_sync, which only asks the kernel to write out what it has. Pointers are never null.
pub mod Prelude
pub mod WebSocket
pub mod Text
pub mod Filter
pub mod Subscription
pub mod ResultSet
pub mod SlotPage
pub mod Query
pub mod DbTypes
pub mod Disk
pub mod Buffer
pub mod Response
pub mod WalRecord
pub mod Wal
pub mod Tests
