-- ===== src/Manager/Open/Tests.antt =====
-- A manager that creates a queue and enqueues a message, and is opened again.
use mathlib.Core.List.{append-nil}
use stitch.Prelude.{
  ℕ, ◌≡◌, refl, sym, true, String, Option, none, some, List, [], ◌∷◌, ◌++◌, ok, arith, ◌==◌,
  if◌then◌else◌, inc64, take,
}
use stitch.Prelude.Int.{pos}
use stitch.Prelude.Map
use stitch.Wal.Record.{record_queue_create}
use stitch.Wal.Recovery.{Disk}
use stitch.Wal.Recovery.Prefix.{segment_of}
use stitch.Wal.Log.{Options}
use stitch.Wal.Log.Stored.{Recoverable}
use stitch.Wal.Log.Commit.{Durable}
use stitch.Wal.Open.Laws.{working}
use stitch.Queue.Message.{Config, fifo, normalize, name_matches}
use stitch.Queue.Payload.{Payload, type_of}
use stitch.Queue.Live.{Queue, new_queue, dedup_hit, make_message, enqueue_payload}
use stitch.Queue.Ops.{Trace, enqueue}
use stitch.Manager.{Manager, create_queue}
use stitch.Manager.Mirror.{logged}
use stitch.Manager.Mirror.History.{Move}
use stitch.Manager.Finalize.Restart.{Restarted}
use stitch.Manager.Fleet.{Act, Life, new_manager}
use stitch.Manager.Open.{Started, open_manager, records}
use stitch.Manager.Open.Crash.{crash_restarts}
use stitch.Manager.Open.Laws.{Readable, open_manager-Restarted}

abbrev jobs : Config
jobs = record {
  name = "jobs";
  mode = fifo;
  priority = true;
  delay = true;
  visibility_timeout_ms = pos 1000;
  max_attempts = pos 3;
  dlq = true;
}

abbrev m1 : Manager
m1 = (create_queue jobs none new_manager).1.0

abbrev jobs1 : Queue
jobs1 = (enqueue 100 101 "a" (1 ∷ 2 ∷ []) (pos 3) (pos 0) "" none (new_queue jobs)).1.0

abbrev m2 : Manager
m2 = record m1 { queues = Map.update "jobs" jobs1 m1.queues }

abbrev trace : Trace
trace =
    (create_queue jobs none new_manager).1.1
    ++ ((enqueue 100 101 "a" (1 ∷ 2 ∷ []) (pos 3) (pos 0) "" none (new_queue jobs)).1.1 ++ [])

life : Life new_manager trace m2
unfolding create_queue normalize name_matches Map.lookup Map.insert
life = Life.next _ _ _ _ _ (Act.created jobs none new_manager) (
    Life.next _ _ _ _ _
      (Act.moved (new_queue jobs) jobs1 _ m1 refl
        (Move.enqueued 100 101 "a" (1 ∷ 2 ∷ []) (pos 3) (pos 0) "" none (new_queue jobs) refl))
      (Life.stop m2))

-- An encoding that is enough for these two payloads.
abbrev message_a : Payload
message_a = Payload.enqueue (record {
  queue = "jobs";
  id = "a";
  body = 1 ∷ 2 ∷ [];
  priority = pos 3;
  seq = inc64 0;
  enqueued_at = 100;
  visible_at = 100;
  dedup_key = "";
})

abbrev marshal : Payload → List ℕ
marshal p = 123 ∷ 125 ∷ []

abbrev json : ℕ → List ℕ → Option Payload
json typ body =
    if typ == record_queue_create then some (Payload.queue_create jobs) else some message_a

readable : Readable json marshal (logged trace)
unfolding create_queue normalize name_matches Map.lookup enqueue dedup_hit make_message
    enqueue_payload type_of
readable = (refl, (refl, tt))

abbrev disk : Disk
disk = (0, segment_of (records marshal (logged trace))) ∷ []

store : Recoverable disk (records marshal (logged trace)) []
unfolding create_queue normalize name_matches Map.lookup enqueue dedup_hit type_of enqueue_payload
store = record {
  segs = [];
  last = 0;
  cur = records marshal (logged trace);
  cut = 0;
  sealed = tt;
  present = refl;
  order = refl;
  writable = ((refl, omega arith), ((refl, omega arith), tt));
  within = omega arith;
  bytes = sym (append-nil (segment_of (records marshal (logged trace))));
  all = refl;
}

abbrev opts : Options
opts = record { dir = "data"; sync = "group"; segment_size = pos 0; batch_max = pos 0 }

open_manager-Restarted_example :
    (s : Started) × (open_manager json working opts 500 disk ≡ ok s)
    × ((n : String) (q : Queue)
        → Map.lookup n m2.queues ≡ some q
        → (q' : Queue) × (Map.lookup n s.manager.queues ≡ some q') × Restarted q q')
    × Durable s.log (records marshal (logged trace))
open_manager-Restarted_example =
    open_manager-Restarted json marshal trace m2 500 opts disk life readable store refl

-- The same manager dies while the append of the message is under way, with five bytes on the disk.
abbrev created : Trace
created = (create_queue jobs none new_manager).1.1 ++ []

abbrev under_way : Trace
under_way = (enqueue 100 101 "a" (1 ∷ 2 ∷ []) (pos 3) (pos 0) "" none (new_queue jobs)).1.1 ++ []

created-Life : Life new_manager created m1
created-Life = Life.next _ _ _ _ _ (Act.created jobs none new_manager) (Life.stop m1)

under_way-Life : Life m1 under_way m2
unfolding create_queue normalize name_matches Map.lookup Map.insert
under_way-Life =
    Life.next _ _ _ _ _
      (Act.moved (new_queue jobs) jobs1 _ m1 refl
        (Move.enqueued 100 101 "a" (1 ∷ 2 ∷ []) (pos 3) (pos 0) "" none (new_queue jobs) refl))
      (Life.stop m2)

created-Readable : Readable json marshal (logged created)
unfolding create_queue normalize name_matches Map.lookup type_of
created-Readable = (refl, tt)

under_way-Readable : Readable json marshal (logged under_way)
unfolding enqueue dedup_hit make_message enqueue_payload type_of
under_way-Readable = (refl, tt)

abbrev torn_disk : Disk
torn_disk =
    (
      0,
      segment_of (records marshal (logged created))
          ++ take 5 (segment_of (records marshal (logged under_way))),
    )
    ∷ []

torn : Recoverable torn_disk (records marshal (logged created)) (records marshal (logged under_way))
unfolding create_queue normalize name_matches Map.lookup enqueue dedup_hit type_of enqueue_payload
torn = record {
  segs = [];
  last = 0;
  cur = records marshal (logged created);
  cut = 5;
  sealed = tt;
  present = refl;
  order = refl;
  writable = ((refl, omega arith), ((refl, omega arith), tt));
  within = omega arith;
  bytes = refl;
  all = refl;
}

crash_restarts_example :
    (v : Trace) × (rest : List Payload) × (k : Manager) × Life m1 v k
    × (logged under_way ≡ logged v ++ rest)
    × (s : Started) × (open_manager json working opts 500 torn_disk ≡ ok s)
    × ((n : String) (q : Queue)
        → Map.lookup n k.queues ≡ some q
        → (q' : Queue) × (Map.lookup n s.manager.queues ≡ some q') × Restarted q q')
    × Durable s.log (records marshal (logged created ++ logged v))
crash_restarts_example =
    crash_restarts json marshal created under_way m1 m2 500 opts torn_disk created-Life
      under_way-Life created-Readable under_way-Readable torn refl
