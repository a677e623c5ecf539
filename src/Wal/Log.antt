-- ===== src/Wal/Log.antt =====
-- internal/wal/wal.go: options, Append's guards, the writer's batching, commit and rotate.
-- A request carries a number in place of its `done` channel, and a reply is that number with the
-- error sent on it, so `reply` is a list. `disk` holds what the segment files hold, written and not
-- yet synced bytes included. `WriteFaults` says which system calls of one commit fail; a failed
-- Write may leave some of its bytes behind. The counters are uint64.
pub mod Commit
pub mod Run
pub mod Drained
pub mod Stored
use stitch.Prelude.{
  ℕ, zero, suc, ◌+◌, ◌-◌, ◌^◌, ◌%◌, Bool, true, false, not, ◌&&◌, String, Option, none, some, List,
  [], ◌∷◌, ◌++◌, map, Result, ok, err, ltb, leb, ◌==◌, str_eq, length, take, inc64, add64,
  if◌then◌else◌,
}
use stitch.Prelude.Int.{ℤ, pos, pos_part, ltb_ℤ}
use stitch.Wal.Record.{Record, valid, max_record_size, append_record, encoded_size}
use stitch.Wal.Recovery.{IoError, Disk, read_segment, write_segment}

abbrev pub sync_always : String
sync_always = "always"

abbrev pub sync_group : String
sync_group = "group"

-- 64 << 20
abbrev pub default_segment_size : ℤ
default_segment_size = pos 67108864

abbrev pub default_batch_max : ℤ
default_batch_max = pos 256

-- The Logger is left out.
pub record Options : Type 0 where
  pub dir : String
  pub sync : String
  pub segment_size : ℤ
  pub batch_max : ℤ

unfoldable pub with_defaults : Options → Options
with_defaults o = record o {
  sync = if str_eq o.sync "" then sync_group else o.sync;
  segment_size = if ltb_ℤ (pos 0) o.segment_size then o.segment_size else default_segment_size;
  batch_max = if ltb_ℤ (pos 0) o.batch_max then o.batch_max else default_batch_max;
}

pub record Request : Type 0 where
  pub id : ℕ
  pub type : ℕ
  pub payload : List ℕ

pub data LogError : Type 0 where
  invalid_type : ℕ → LogError
  record_too_large closed_log : LogError
  io : IoError → LogError

pub record Stats : Type 0 where
  pub appends : ℕ
  pub batches : ℕ
  pub bytes : ℕ

pub record Log : Type 0 where
  pub opts : Options
  pub stats : Stats
  pub closed : Bool
  pub reqs : List Request
  pub index : ℕ
  pub size : ℕ
  pub fatal : Option LogError
  pub disk : Disk

-- The first part of Append: what is refused, and else the channel with the request at its end.
unfoldable pub append_request : Log → Request → Result LogError Log
append_request l req =
    if not (valid req.type)
    then err (invalid_type req.type)
    else if ltb max_record_size (length req.payload)
    then err record_too_large
    else if l.closed
    then err closed_log
    else ok (record l { reqs = l.reqs ++ (req ∷ []) })

-- The answers of the system calls of one commit: Close, OpenFile and the directory's Sync in
-- rotate; Write, with the number of bytes that it wrote before it failed; Sync.
pub record WriteFaults : Type 0 where
  pub close : Option IoError
  pub create : Option IoError
  pub sync_dir : Option IoError
  pub write : Option (IoError × ℕ)
  pub sync : Option IoError

abbrev pub Reply : Type 0
Reply = ℕ × Option LogError

unfoldable pub reply : List Request → Option LogError → List Reply
reply [] e = []
reply (req ∷ batch) e = (req.id, e) ∷ reply batch e

-- createSegment makes the file before it syncs the directory.
unfoldable pub create_segment : WriteFaults → Disk → ℕ → Option IoError × Disk
create_segment faults disk i = elim faults.create [
  | some e ↦ (some e, disk)
  | none ↦ (faults.sync_dir, disk ++ ((i, []) ∷ []))
]

abbrev pub opened : Log → Option IoError × Disk → Option IoError × Log
opened l (some e, disk) = (some e, record l { disk = disk })
opened l (none, disk) = (none, record l { index = l.index + 1; size = 0; disk = disk })

unfoldable pub rotate : WriteFaults → Log → Option IoError × Log
unfolding create_segment
rotate faults l = elim faults.close [
  | some e ↦ (some e, l)
  | none ↦ opened l (create_segment faults l.disk (l.index + 1))
]

unfoldable pub total_size : List Request → ℕ
total_size [] = 0
total_size (req ∷ batch) = encoded_size req.payload + total_size batch

-- The loop that packs the batch into `buf`.
unfoldable pub pack : List ℕ → List Request → List ℕ
pack buf [] = buf
pack buf (req ∷ batch) = pack (append_record buf req.type req.payload) batch

abbrev pub extend : Disk → ℕ → List ℕ → Disk
extend disk i b = write_segment disk i (read_segment disk i ++ b)

abbrev pub fail : Log → List Request → LogError → Log × List Reply
fail l batch e = (record l { fatal = some e }, reply batch (some e))

-- Write and Sync, and then the counters and the replies.
unfoldable pub write_batch : WriteFaults → Log → List Request → Log × List Reply
unfolding pack total_size
write_batch faults l batch =
    let buf = pack [] batch in
    let written = record l { disk = extend l.disk l.index buf } in
    elim faults.write [
      | some (e, n) ↦ fail (record l { disk = extend l.disk l.index (take n buf) }) batch (io e)
      | none ↦ elim faults.sync [
        | some e ↦ fail written batch (io e)
        | none ↦ (
          record written {
            size = l.size + total_size batch;
            stats = record {
              appends = add64 l.stats.appends (length batch);
              batches = inc64 l.stats.batches;
              bytes = add64 l.stats.bytes (total_size batch);
            };
          },
          reply batch none,
        )
      ]
    ]

-- `l.size > 0 && l.size+total > l.opts.SegmentSize`
abbrev pub is_full : Log → List Request → Bool
is_full l batch = ltb 0 l.size && ltb_ℤ l.opts.segment_size (pos (l.size + total_size batch))

unfoldable pub after_rotate : WriteFaults → List Request → Option IoError × Log → Log × List Reply
unfolding write_batch
after_rotate faults batch (some e, l) = fail l batch (io e)
after_rotate faults batch (none, l) = write_batch faults l batch

-- commit with no fatal error from before.
unfoldable pub commit_live : WriteFaults → Log → List Request → Log × List Reply
unfolding after_rotate rotate
commit_live faults l batch =
    if is_full l batch
    then after_rotate faults batch (rotate faults l)
    else write_batch faults l batch

unfoldable pub commit : WriteFaults → Log → List Request → Log × List Reply
commit faults l batch = elim l.fatal [
  | some e ↦ (l, reply batch (some e))
  | none ↦ commit_live faults l batch
]

-- The drain loop: it takes what is queued while the batch is below BatchMax.
unfoldable pub drain : ℤ → List Request → List Request → List Request × List Request
drain max batch [] = (batch, [])
drain max batch (req ∷ queued) =
    let more = drain max (batch ++ (req ∷ [])) queued in
    if ltb_ℤ (pos (length batch)) max then more else (batch, req ∷ queued)

-- One round of `run`: the batch that is made when `first` is received and `queued` waits.
unfoldable pub next_batch : Options → Request → List Request → List Request × List Request
unfolding drain
next_batch opts first queued =
    if str_eq opts.sync sync_group
    then drain opts.batch_max (first ∷ []) queued
    else (first ∷ [], queued)

-- `run` on the requests in the channel, one answer of the system to each round. The channel is
-- closed when the list is empty. A round takes a request at least: their number is enough fuel.
unfoldable pub run : ℕ → (ℕ → WriteFaults) → Log → List Request → Log × List Reply
unfolding next_batch commit
run fuel faults l [] = (l, [])
run zero faults l (first ∷ queued) = (l, [])
run (suc fuel) faults l (first ∷ queued) =
    let (batch, rest) = next_batch l.opts first queued in
    let (l', replies) = commit (faults fuel) l batch in
    let (l'', more) = run fuel faults l' rest in (l'', replies ++ more)

-- Close: no more requests, the writer drains the channel, and the fatal error is reported.
unfoldable pub close_log :
    (ℕ → WriteFaults) → Option IoError → Log → Option LogError × (Log × List Reply)
unfolding run
close_log faults close_fault l =
    if l.closed
    then (none, (l, []))
    else let (l', replies) =
        run (length l.reqs) faults (record l { closed = true; reqs = [] }) l.reqs in
      let result : Option LogError = elim l'.fatal [
        | some e ↦ some e
        | none ↦ elim close_fault [ none ↦ none | some e ↦ some (io e) ]
      ] in
      (result, (l', replies))
