-- ===== src/Wal/Log/Commit.antt =====
-- commit of internal/wal/wal.go, and the records that replay finds after it.
use mathlib.Core.List.{append_assoc, append-nil}
use mathlib.Core.Path.{subst}
use stitch.Prelude.{
  ℕ, ◌+◌, ◌≤◌, ◌≡◌, ◌⊎◌, refl, ap, sym, ◌∙◌, Option, none, some, List, [], ◌∷◌, ◌++◌, arith, take,
  take_all, take-nil, take-min, min, Bool-cases, Option-cases, inl, inr,
}
use stitch.Wal.Record.{Record, append_record, encoded_size}
use stitch.Wal.Record.RoundTrip.{append_record_lem}
use stitch.Wal.Recovery.{IoError, Disk}
use stitch.Wal.Recovery.Prefix.{AllWritable, segment_of, size_of, length-segment_of}
use stitch.Wal.Recovery.Replay.{records_of}
use stitch.Wal.Log.{
  Log, LogError, io, Request, Reply, WriteFaults, reply, rotate, total_size, pack, extend, fail,
  write_batch, is_full, commit, commit_live, after_rotate, opened,
}
use stitch.Wal.Log.Stored.{
  Recoverable, read-write_same, has-write, indexes-write, rotated, Sealed-write, segment_of-append,
  size_of-append, AllWritable-append,
}

abbrev pub record_of : Request → Record
record_of req = record { type = req.type; payload = req.payload }

abbrev pub batch_records : List Request → List Record
batch_records [] = []
batch_records (req ∷ batch) = record_of req ∷ batch_records batch

-- The records of the requests that were answered without an error.
abbrev pub confirmed : List Request → List Reply → List Record
confirmed [] replies = []
confirmed (req ∷ batch) [] = []
confirmed (req ∷ batch) ((id, none) ∷ replies) = record_of req ∷ confirmed batch replies
confirmed (req ∷ batch) ((id, some e) ∷ replies) = confirmed batch replies

pub confirmed-reply-none :
    (batch : List Request) → confirmed batch (reply batch none) ≡ batch_records batch
unfolding reply
confirmed-reply-none [] = refl
confirmed-reply-none (req ∷ batch) = ap (◌∷◌ (record_of req)) (confirmed-reply-none batch)

pub confirmed-reply-some :
    (batch : List Request) (e : LogError) → confirmed batch (reply batch (some e)) ≡ []
unfolding reply
confirmed-reply-some [] e = refl
confirmed-reply-some (req ∷ batch) e = confirmed-reply-some batch e

pack_lem :
    (buf : List ℕ) (batch : List Request) → pack buf batch ≡ buf ++ segment_of (batch_records batch)
unfolding pack
pack_lem buf [] = sym (append-nil buf)
pack_lem buf (req ∷ batch) =
    pack_lem (append_record buf req.type req.payload) batch
    ∙ ap (λ b. b ++ segment_of (batch_records batch)) (append_record_lem buf req.type req.payload)
    ∙ append_assoc buf (append_record [] req.type req.payload) (segment_of (batch_records batch))

total_size_lem : (batch : List Request) → total_size batch ≡ size_of (batch_records batch)
unfolding total_size encoded_size
total_size_lem [] = refl
total_size_lem (req ∷ batch) = omega (arith, total_size_lem batch)

-- What holds of the log between commits, when `acked` are the records confirmed so far.
pub record Durable (l : Log) (acked : List Record) : Type 0 where
  pub unsure : List Record
  pub store : Recoverable l.disk acked unsure
  pub alive :
      l.fatal ≡ none
      → (r : Recoverable l.disk acked []) × (r.last ≡ l.index) × (size_of r.cur ≡ l.size)

-- Writing some of the bytes of `recs` behind the current segment.
extend-Recoverable :
    {disk : Disk} {acked : List Record} (r : Recoverable disk acked []) (i : ℕ) (b : List ℕ)
    (recs : List Record) (n : ℕ)
    → r.last ≡ i
    → b ≡ take n (segment_of recs)
    → AllWritable recs
    → n ≤ size_of recs
    → Recoverable (extend disk i b) acked recs
extend-Recoverable {disk} r i b recs n here same w le = record {
  segs = r.segs;
  last = i;
  cur = r.cur;
  cut = n;
  sealed = Sealed-write disk i _ r.segs (rw here at r.sealed);
  present = has-write disk i i _ ∙ (rw here at r.present);
  order = indexes-write disk i _ ∙ (rw here at r.order);
  writable = AllWritable-append r.cur recs (rw append-nil at r.writable) w;
  within = le;
  bytes =
      read-write_same disk i _ (rw here at r.present)
      ∙ rw (rw here at r.bytes, take-nil, append-nil, same);
  all = r.all;
}

-- A segment that is complete takes the records of the batch.
settle :
    {disk : Disk} {acked recs : List Record} (r : Recoverable disk acked recs)
    → r.cut ≡ size_of recs
    → Recoverable disk (acked ++ recs) []
settle {recs = recs} r e = record {
  segs = r.segs;
  last = r.last;
  cur = r.cur ++ recs;
  cut = 0;
  sealed = r.sealed;
  present = r.present;
  order = r.order;
  writable = rw append-nil r.writable;
  within = omega arith;
  bytes =
      r.bytes
      ∙ rw (
        e,
        take_all (size_of recs) (segment_of recs) (omega (arith, length-segment_of recs)),
        segment_of-append r.cur recs,
        append-nil,
      );
  all = rw r.all (append_assoc (records_of r.segs) r.cur recs);
}

module _ (faults : WriteFaults) (l : Log) (batch : List Request) {acked : List Record}
    (r : Recoverable l.disk acked []) (here : r.last ≡ l.index) (full : size_of r.cur ≡ l.size)
    (live : l.fatal ≡ none) (w : AllWritable (batch_records batch)) where
  abbrev recs : List Record
  recs = batch_records batch

  abbrev packed : List ℕ
  packed = segment_of recs

  -- Write failed after `n` bytes.
  partial : (n : ℕ) → Recoverable (extend l.disk l.index (take n (pack [] batch))) acked recs
  partial n =
      extend-Recoverable r l.index _ recs (min n (size_of recs)) here
        (rw (pack_lem, ← length-segment_of recs) (sym (take-min n (segment_of recs)))) w
        (omega arith)

  whole : Recoverable (extend l.disk l.index (pack [] batch)) acked recs
  whole =
      extend-Recoverable r l.index _ recs (size_of recs) here
        (pack_lem [] batch
          ∙ sym (take_all (size_of recs) (segment_of recs) (omega (arith, length-segment_of recs))))
        w (omega arith)

  written : Recoverable (extend l.disk l.index (pack [] batch)) (acked ++ recs) []
  unfolding whole extend-Recoverable
  written = settle whole refl

  write_batch-Durable :
      Durable
        (write_batch faults l batch).0
        (acked ++ confirmed batch (write_batch faults l batch).1)
  unfolding write_batch written settle whole extend-Recoverable
  write_batch-Durable = elim (Option-cases faults.write) [
    | inr ((e, n), bad) ↦ rw bad (
        rw (confirmed-reply-some, append-nil)
          (record { unsure = recs; store = partial n; alive = λ none_here. absurd (cc) }))
    | inl good ↦ elim (Option-cases faults.sync) [
      | inr (e, bad) ↦
          rw (good, bad)
            (rw (confirmed-reply-some, append-nil)
              (record { unsure = recs; store = whole; alive = λ none_here. absurd (cc) }))
      | inl synced ↦
          rw (good, synced)
            (rw confirmed-reply-none (record {
              unsure = [];
              store = written;
              alive = λ _.
                  (written, refl, omega (arith, size_of-append r.cur recs, total_size_lem batch));
            }))
    ]
  ]

-- What rotate leaves behind when a system call fails in it.
failed-Durable :
    (l : Log) (batch : List Request) (e : LogError) {acked : List Record}
    → Recoverable l.disk acked []
    → Durable (fail l batch e).0 (acked ++ confirmed batch (fail l batch e).1)
failed-Durable l batch e store =
    rw (confirmed-reply-some, append-nil)
      (record { unsure = []; store = store; alive = λ none_here. absurd (cc) })

-- rotate fails and leaves the disk, fails behind a new segment, or moves on to the new segment.
rotate-cases :
    (faults : WriteFaults) (l : Log)
    → ((e : IoError) × (rotate faults l ≡ (some e, l)))
      ⊎ ((e : IoError) × (rotate faults l ≡ opened l (some e, l.disk ++ ((l.index + 1, []) ∷ []))))
      ⊎ (rotate faults l ≡ opened l (none, l.disk ++ ((l.index + 1, []) ∷ [])))
unfolding rotate
rotate-cases faults l = elim (Option-cases faults.close) [
  | inr (e, bad) ↦ inl (e, ground arith)
  | inl closed ↦ elim (Option-cases faults.create) [
    | inr (e, bad) ↦ inl (e, ground arith)
    | inl created ↦ elim (Option-cases faults.sync_dir) [
      | inr (e, bad) ↦ inr (inl (e, ground arith))
      | inl synced ↦ inr (inr (ground arith))
    ]
  ]
]

pub commit-fatal :
    (faults : WriteFaults) (l : Log) (batch : List Request) (e : LogError)
    → l.fatal ≡ some e
    → commit faults l batch ≡ (l, reply batch (some e))
unfolding commit
commit-fatal faults l batch e h = ground arith

pub commit-live :
    (faults : WriteFaults) (l : Log) (batch : List Request)
    → l.fatal ≡ none
    → commit faults l batch ≡ commit_live faults l batch
unfolding commit
commit-live faults l batch h = ground arith

-- The claim about what a part of commit returns.
abbrev pub Kept : List Request → List Record → Log × List Reply → Type 0
Kept batch acked x = Durable x.0 (acked ++ confirmed batch x.1)

module _ (faults : WriteFaults) (l : Log) (batch : List Request) {acked : List Record}
    (w : AllWritable (batch_records batch)) where
  rotate-Kept :
      (r : Recoverable l.disk acked [])
      → r.last ≡ l.index
      → l.fatal ≡ none
      → Kept batch acked (after_rotate faults batch (rotate faults l))
  unfolding after_rotate rotated
  rotate-Kept r here live =
      let next = rotated r l.index here in
      let claim = λ (x : Option IoError × Log). Kept batch acked (after_rotate faults batch x) in
      elim (rotate-cases faults l) [
        | inl (e, bad) ↦ subst claim (sym bad) (failed-Durable l batch (io e) r)
        | inr (inl (e, bad)) ↦ subst claim (sym bad) (
            failed-Durable (record l { disk = l.disk ++ ((l.index + 1, []) ∷ []) }) batch (io e)
              next)
        | inr (inr good) ↦ subst claim (sym good) (
            write_batch-Durable faults (opened l (none, l.disk ++ ((l.index + 1, []) ∷ []))).1 batch
              next refl refl live w)
      ]

  commit_live-Kept :
      (r : Recoverable l.disk acked [])
      → r.last ≡ l.index
      → size_of r.cur ≡ l.size
      → l.fatal ≡ none
      → Kept batch acked (commit_live faults l batch)
  unfolding commit_live
  commit_live-Kept r here full live = elim (Bool-cases (is_full l batch)) [
    | inr room ↦ rw room (write_batch-Durable faults l batch r here full live w)
    | inl over ↦ rw over (rotate-Kept r here live)
  ]

  -- Whatever fails in a commit, the log stays recoverable, with the confirmed records added.
  pub commit-Durable : Durable l acked → Kept batch acked (commit faults l batch)
  unfolding commit
  commit-Durable d = elim (Option-cases l.fatal) [
    | inr (e, bad) ↦
        subst (Kept batch acked) (sym (commit-fatal faults l batch e bad))
          (rw (confirmed-reply-some, append-nil) d)
    | inl live ↦
        let (r, here, full) = d.alive live in
        subst (Kept batch acked) (sym (commit-live faults l batch live))
          (commit_live-Kept r here full live)
  ]
