-- ===== src/Wal/Tests.antt =====
-- Tests of the log, and its theorems at concrete inputs.
use stitch.Prelude.Tally.{SameItems}
use stitch.Prelude.{
  ℕ, ◌+◌, ◌≤◌, ◌<◌, ◌≡◌, refl, false, none, some, List, [], ◌∷◌, ◌++◌, Result, ok, err, arith,
  length, take,
}
use stitch.Prelude.Int.{pos}
use stitch.Wal.Record.{Record, append_record, decode_record, torn_record, header_size}
use stitch.Wal.Record.RoundTrip.{decode_record-append_record}
use stitch.Wal.Record.Torn.{decode_record-take}
use stitch.Wal.Recovery.{Disk, Scan, Replayed, scan, replay}
use stitch.Wal.Recovery.Prefix.{segment_of, survivors, scan-take}
use stitch.Wal.Recovery.Replay.{no_faults, recovered, replay-recovers}
use stitch.Wal.Recovery.{corrupt}
use stitch.Wal.Recovery.Refusal.{replay-refuses}
use stitch.Wal.Log.{Log, Request, Reply, WriteFaults, run, next_batch}
use stitch.Wal.Log.Stored.{indexes, Recoverable}
use stitch.Wal.Log.Commit.{Durable, confirmed}
use stitch.Prelude.Decimal.{digits}
use stitch.Wal.Segments.{
  segment_suffix, list_segments, segment_indexes, has_suffix, parse_uint, sort_indexes,
  insert_index,
}
use stitch.Wal.Segments.Laws.{files, IsAscending, list_segments-files}
use stitch.Wal.Open.{open_log}
use stitch.Wal.Open.Laws.{Opened, working, open_log-Durable}
use stitch.Wal.Log.Run.{Served, run-Served, next_batch_lem, steady, fold_steps, confirmed_survive}

abbrev ack_record : Record
ack_record = record { type = 3; payload = 7 ∷ 9 ∷ [] }

abbrev nack_record : Record
nack_record = record { type = 4; payload = 1 ∷ [] }

-- A fold that collects the records.
abbrev collect : Record → List Record → Result ℕ (List Record)
collect r st = ok (st ++ (r ∷ []))

decode_record-append_record_example :
    decode_record (append_record [] 3 (7 ∷ 9 ∷ []) ++ (5 ∷ [])) ≡ ok (ack_record, header_size + 2)
decode_record-append_record_example =
    decode_record-append_record 3 (7 ∷ 9 ∷ []) (5 ∷ []) refl (omega arith)

decode_record-take_example :
    decode_record (take 14 (append_record [] 3 (7 ∷ 9 ∷ []))) ≡ err torn_record
decode_record-take_example = decode_record-take 3 (7 ∷ 9 ∷ []) 14 (omega arith) (omega arith)

-- 20 bytes of the two frames, which have 15 and 14.
scan-take_example :
    scan collect 40 (take 20 (segment_of (ack_record ∷ nack_record ∷ []))) 0 [] 0
    ≡ Scan.torn (ack_record ∷ []) 1 15
unfolding survivors
scan-take_example =
    scan-take collect (ack_record ∷ nack_record ∷ []) 20 40 0 0 [] (ack_record ∷ [])
      ((refl, omega arith), ((refl, omega arith), tt)) (omega arith) (omega arith) refl

abbrev two_segments : Disk
two_segments =
    (0, segment_of (nack_record ∷ []))
    ∷ (1, take 20 (segment_of (ack_record ∷ nack_record ∷ [])))
    ∷ []

replay-recovers_example : (replay collect no_faults two_segments (0 ∷ 1 ∷ []) []) ≡ (
  ok (
      recovered collect false
        ((0, nack_record ∷ []) ∷ [])
        1
        (ack_record ∷ [])
        (nack_record ∷ ack_record ∷ [])),
  (0, segment_of (nack_record ∷ [])) ∷ (1, segment_of (ack_record ∷ [])) ∷ [],
)
unfolding survivors
replay-recovers_example =
    replay-recovers collect ((0, nack_record ∷ []) ∷ []) two_segments 1 20
      (ack_record ∷ nack_record ∷ []) [] (nack_record ∷ ack_record ∷ [])
      (((refl, omega arith), tt), refl, tt) ((refl, omega arith), ((refl, omega arith), tt))
      (omega arith) refl refl

-- A log with small segments that has just been created.
abbrev new_log : Log
new_log = record {
  opts = record { dir = "wal"; sync = "group"; segment_size = pos 20; batch_max = pos 2 };
  stats = record { appends = 0; batches = 0; bytes = 0 };
  closed = false;
  reqs = [];
  index = 0;
  size = 0;
  fatal = none;
  disk = (0, []) ∷ [];
}

new_store : Recoverable new_log.disk [] []
new_store = record {
  segs = [];
  last = 0;
  cur = [];
  cut = 0;
  sealed = tt;
  present = refl;
  order = refl;
  writable = tt;
  within = omega arith;
  bytes = refl;
  all = refl;
}

new_log-Durable : Durable new_log []
unfolding new_store
new_log-Durable = record { unsure = []; store = new_store; alive = λ _. (new_store, refl, refl) }

abbrev requests : List Request
requests =
    (record { id = 1; type = 3; payload = 7 ∷ 9 ∷ [] })
    ∷ (record { id = 2; type = 4; payload = 1 ∷ [] })
    ∷ (record { id = 3; type = 3; payload = [] })
    ∷ []

abbrev no_write_faults : WriteFaults
no_write_faults = record { close = none; create = none; sync_dir = none; write = none; sync = none }

-- Every write fails after four bytes.
abbrev full_disk : WriteFaults
full_disk = record no_write_faults { write = some (record { code = 28 }, 4) }

next_batch_lem_example :
    ((next_batch new_log.opts (record { id = 9; type = 3; payload = [] }) requests).0
        ++ (next_batch new_log.opts (record { id = 9; type = 3; payload = [] }) requests).1
      ≡ (record { id = 9; type = 3; payload = [] }) ∷ requests)
    × (0 < length (next_batch new_log.opts (record { id = 9; type = 3; payload = [] }) requests).0)
    × (length (next_batch new_log.opts (record { id = 9; type = 3; payload = [] }) requests).0 ≤ 2)
next_batch_lem_example =
    next_batch_lem new_log.opts (record { id = 9; type = 3; payload = [] }) requests (omega arith)

run-Served_example : Served requests [] (run 3 (λ _. no_write_faults) new_log requests)
run-Served_example =
    run-Served 3 (λ _. no_write_faults) new_log requests [] (omega arith)
      ((refl, omega arith), ((refl, omega arith), ((refl, omega arith), tt))) new_log-Durable

-- A fold step that collects the records.
abbrev add_last : Record → List Record → List Record
add_last r st = st ++ (r ∷ [])

abbrev served : Log × List Reply
served = run 3 (λ _. full_disk) new_log requests

confirmed_survive_example :
    (kept : List Record) × (out : Replayed (List Record)) × ((replay
        (steady {E = ℕ} add_last)
        no_faults
        served.0.disk
        (indexes served.0.disk)
        []).0
      ≡ ok out)
    × (out.state ≡ fold_steps add_last (([] ++ confirmed requests served.1) ++ kept) [])
confirmed_survive_example =
    confirmed_survive add_last 3 (λ _. full_disk) new_log requests [] [] (omega arith)
      ((refl, omega arith), ((refl, omega arith), ((refl, omega arith), tt))) new_log-Durable

-- The first of the two segments is cut inside its second frame.
abbrev damaged : Disk
damaged =
    (0, take 20 (segment_of (ack_record ∷ nack_record ∷ [])))
    ∷ (1, segment_of (nack_record ∷ []))
    ∷ []

replay-refuses_example :
    (replay collect no_faults damaged (0 ∷ 1 ∷ []) []) ≡ (err (corrupt 0 15), damaged)
unfolding survivors
replay-refuses_example =
    replay-refuses collect [] damaged 0 20 1 [] (ack_record ∷ nack_record ∷ []) [] (ack_record ∷ [])
      tt ((refl, omega arith), ((refl, omega arith), tt)) (omega arith) refl refl refl

-- What a crash left of one segment: the first frame, and a part of the second.
abbrev torn_disk : Disk
torn_disk = (0, take 20 (segment_of (ack_record ∷ nack_record ∷ []))) ∷ []

abbrev torn_store : Recoverable torn_disk [] (ack_record ∷ nack_record ∷ [])
torn_store = record {
  segs = [];
  last = 0;
  cur = [];
  cut = 20;
  sealed = tt;
  present = refl;
  order = refl;
  writable = ((refl, omega arith), ((refl, omega arith), tt));
  within = omega arith;
  bytes = refl;
  all = refl;
}

open_log-Durable_example :
    Opened (ack_record ∷ []) (ack_record ∷ []) (open_log collect working new_log.opts torn_disk [])
unfolding survivors
open_log-Durable_example =
    open_log-Durable collect new_log.opts torn_disk [] (ack_record ∷ nack_record ∷ []) []
      (ack_record ∷ []) torn_store refl refl

-- 1.log counts as segment 1, whose name is another.
stray_test :
    list_segments ((b'1' ∷ segment_suffix, false) ∷ (b'x' ∷ segment_suffix, false) ∷ []) ≡ 1 ∷ []
unfolding list_segments segment_indexes has_suffix parse_uint digits sort_indexes insert_index
stray_test = refl

list_segments-files_example :
    IsAscending (list_segments (files (7 ∷ 100000000 ∷ 12 ∷ [])))
    × SameItems (list_segments (files (7 ∷ 100000000 ∷ 12 ∷ []))) (7 ∷ 100000000 ∷ 12 ∷ [])
list_segments-files_example =
    list_segments-files (7 ∷ 100000000 ∷ 12 ∷ []) (omega arith, (omega arith, (omega arith, tt)))
