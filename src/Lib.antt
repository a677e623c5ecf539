-- ===== src/Lib.antt =====
-- stitch: a model of a durable message queue in Go (internal/wal, internal/queue, internal/api,
-- cmd/queued and cmd/loadgen).
--
-- A queue keeps its messages in memory and writes every change to a write-ahead log before it
-- answers. A restart replays the log into the queues.
--
-- Wal: internal/wal. Wal/Crc and Wal/Record model record.go (frames, CRC32C, appendRecord,
--   decodeRecord); Wal/Recovery models recovery.go (replay, truncateSegment); Wal/Log models wal.go
--   (Append up to its send, run, commit, rotate, Close) and createSegment of segment.go, Wal/Open
--   its Open, Wal/Segments the names and the listing of segment.go. A disk is a list of numbered
--   segments with their bytes; each system call succeeds or fails as an argument says, a failed
--   write after any number of bytes.
-- Queue: internal/queue. Queue/Message models message.go, Queue/Payload the payloads of record.go,
--   Queue/Heap container/heap as order.go calls it, Queue/Order order.go, Queue/Live, Queue/Ops and
--   Queue/Maintain queue.go. An operation is split where the source lets go of the lock around its
--   append; the log's answer, the clock and the random tokens are arguments. Queue/Interleaving has
--   the locked parts of concurrent operations as a step relation.
--   Queue/Polling has the loop of Dequeue, whose rounds meet clock readings, channels and other
--   operations as arguments. Queue/Leases follows the in-flight table and the heap of leases, and
--   Queue/Kept says where tryDequeue and Maintain leave each message. Queue/Waking has the
--   maintenance goroutine beside the locked parts of the others, Queue/Dedup the dedup entries,
--   which Manager/Mirror follows through replay and finalize.
-- Manager: manager.go (CreateQueue, Queue, apply, finalize), Manager/Open its Open, Manager/Listing
--   its Queues, Manager/Close its Close and WALStats. json.Unmarshal is a parameter.
--   Manager/Mirror says what a live queue and the replay of its log have in common, Manager/Fleet
--   has the life of a manager whose queues share the log.
-- Api: internal/api. Api and Api/Handlers model api.go (the handlers that reach the manager, fail,
--   decode), Api/Params intParam and the conversion of delays, Api/Metrics metrics.go. The decoder
--   of JSON is a parameter; a handler runs with no other operation in between.
-- Queued: cmd/queued, from the flags to the exit of the process.
-- Loadgen: cmd/loadgen, the crash test. Loadgen/Files models the record files, Loadgen/Crash the
--   workers, Loadgen/Verify the drain, the reconciliation and the verdict.
-- Prelude: names of the libraries, Boolean tests, lists and integers over the native numbers, maps,
--   and the counting of list entries by a test, which stands for equality up to order.
--
-- How parts interact: an operation of a queue hands payloads to the log and commits once the log
-- has answered; the log packs them as frames; replay hands the frames of the disk to apply, which
-- folds them into the queues' tables; finalize builds the heaps from the tables.
--
-- Bounds and fuel: scan takes the number of bytes as fuel and each frame has at least thirteen; run
-- takes the number of waiting requests and each round serves at least one; up takes the index plus
-- one, down the length, promote and reclaim the length of the heap that each round shortens. uint64
-- counters wrap at 2 ^ 64. Times are natural numbers of milliseconds, where the source has int64: a
-- sum that would wrap is outside the model, so the theorem on the length of a lease has a
-- hypothesis that no expiry does. A call of Dequeue that has used up its rounds is still waiting;
-- decimal takes the number itself as fuel.
--
-- Not modelled: goroutines and channels beyond the order of the steps, routing and encoding of
-- HTTP, the set-up of the HTTP server in cmd/queued, the HTTP client of cmd/loadgen, the dashboard
-- and scripts: input and output, and glue.
pub mod Prelude
pub mod Wal
pub mod Queue
pub mod Manager
pub mod Api
pub mod Queued
pub mod Loadgen
