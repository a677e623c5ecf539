-- ===== src/Wal/Log/Run.antt =====
-- The writer loop `run` of internal/wal/wal.go: how it batches, what it answers, what it keeps.
use mathlib.Core.List.{append_assoc, append-nil}
use mathlib.Core.Path.{subst}
use stitch.Prelude.{
  Result, ok, ℕ, zero, suc, ◌≤◌, ◌<◌, ◌≡◌, refl, ap, ◌∙◌, Option, none, some, List, [], ◌∷◌, ◌++◌,
  arith, length, length-append, Bool-cases, Option-cases, inl, inr, str_eq,
}
use stitch.Prelude.Int.{ℤ, pos, pos_part, ltb_ℤ}
use stitch.Wal.Record.{Record}
use stitch.Wal.Recovery.{IoError, Replayed, replay}
use stitch.Wal.Recovery.Prefix.{AllWritable, fold_log, survivors}
use stitch.Wal.Recovery.Replay.{no_faults}
use stitch.Wal.Log.Stored.{indexes, replay-Recoverable}
use stitch.Wal.Log.{
  Options, Log, LogError, io, Request, Reply, WriteFaults, reply, rotate, after_rotate, write_batch,
  commit_live, commit, is_full, drain, next_batch, run, sync_group,
}
use stitch.Wal.Log.Commit.{
  record_of, batch_records, confirmed, Durable, commit-Durable, commit-live, commit-fatal,
}

drain_split :
    (max : ℤ) (batch queued : List Request)
    → (drain max batch queued).0 ++ (drain max batch queued).1 ≡ batch ++ queued
unfolding drain
drain_split max batch [] = refl
drain_split max batch (req ∷ queued) = elim (Bool-cases (ltb_ℤ (pos (length batch)) max)) [
  | inl more ↦
      rw more (drain_split max (batch ++ (req ∷ [])) queued ∙ append_assoc batch (req ∷ []) queued)
  | inr stop ↦ rw stop
]

drain_size :
    (max : ℤ) (batch queued : List Request) → length batch ≤ length (drain max batch queued).0
unfolding drain
drain_size max batch [] = omega arith
drain_size max batch (req ∷ queued) =
    ground (arith, drain_size max (batch ++ (req ∷ [])) queued, length-append batch (req ∷ []))

drain_bound :
    (max : ℤ) (batch queued : List Request)
    → length batch ≤ pos_part max
    → length (drain max batch queued).0 ≤ pos_part max
unfolding drain
drain_bound max batch [] h = h
drain_bound max batch (req ∷ queued) h =
    ground (arith, drain_bound max (batch ++ (req ∷ [])) queued, length-append batch (req ∷ []))

pub next_batch_split :
    (opts : Options) (first : Request) (queued : List Request)
    → ((next_batch opts first queued).0 ++ (next_batch opts first queued).1 ≡ first ∷ queued)
      × (0 < length (next_batch opts first queued).0)
unfolding next_batch
next_batch_split opts first queued = elim (Bool-cases (str_eq opts.sync sync_group)) [
  | inl group ↦ rw group (
    drain_split opts.batch_max (first ∷ []) queued,
    omega (arith, drain_size opts.batch_max (first ∷ []) queued),
  )
  | inr always ↦ rw always (refl, omega arith)
]

-- A round of the writer takes the waiting requests from the front, in order: at least the first,
-- and at most BatchMax when that is positive, as withDefaults makes it.
pub next_batch_lem :
    (opts : Options) (first : Request) (queued : List Request)
    → 0 < pos_part opts.batch_max
    → ((next_batch opts first queued).0 ++ (next_batch opts first queued).1 ≡ first ∷ queued)
      × (0 < length (next_batch opts first queued).0)
      × (length (next_batch opts first queued).0 ≤ pos_part opts.batch_max)
unfolding next_batch
next_batch_lem opts first queued h =
    let (split, taken) = next_batch_split opts first queued in
    (
      split,
      taken,
      elim (Bool-cases (str_eq opts.sync sync_group)) [
        | inl group ↦ rw group (drain_bound opts.batch_max (first ∷ []) queued (omega arith))
        | inr always ↦ rw always (omega arith)
      ],
    )

abbrev pub ids : List Request → List ℕ
ids [] = []
ids (req ∷ batch) = req.id ∷ ids batch

abbrev pub answered : List Reply → List ℕ
answered [] = []
answered ((id, e) ∷ replies) = id ∷ answered replies

ids-append : (a b : List Request) → ids (a ++ b) ≡ ids a ++ ids b
ids-append [] b = refl
ids-append (r ∷ a) b = ap (◌∷◌ r.id) (ids-append a b)

answered-append : (a b : List Reply) → answered (a ++ b) ≡ answered a ++ answered b
answered-append [] b = refl
answered-append ((i, e) ∷ a) b = ap (◌∷◌ i) (answered-append a b)

answered-reply : (batch : List Request) (e : Option LogError) → answered (reply batch e) ≡ ids batch
unfolding reply
answered-reply [] e = refl
answered-reply (r ∷ batch) e = ap (◌∷◌ r.id) (answered-reply batch e)

answered-write_batch :
    (faults : WriteFaults) (l : Log) (batch : List Request)
    → answered (write_batch faults l batch).1 ≡ ids batch
unfolding write_batch
answered-write_batch faults l batch = elim (Option-cases faults.write) [
  | inr ((e, n), bad) ↦ rw bad (answered-reply batch (some (io e)))
  | inl good ↦ elim (Option-cases faults.sync) [
    | inr (e, bad) ↦ rw (good, bad) (answered-reply batch (some (io e)))
    | inl synced ↦ rw (good, synced) (answered-reply batch none)
  ]
]

answered-after_rotate :
    (faults : WriteFaults) (batch : List Request) (x : Option IoError × Log)
    → answered (after_rotate faults batch x).1 ≡ ids batch
unfolding after_rotate
answered-after_rotate faults batch (some e, l) = answered-reply batch (some (io e))
answered-after_rotate faults batch (none, l) = answered-write_batch faults l batch

-- A commit answers its batch, each request once and in order.
pub answered-commit :
    (faults : WriteFaults) (l : Log) (batch : List Request)
    → answered (commit faults l batch).1 ≡ ids batch
unfolding commit_live
answered-commit faults l batch = elim (Option-cases l.fatal) [
  | inr (e, bad) ↦ rw (commit-fatal faults l batch e bad) (answered-reply batch (some e))
  | inl live ↦ rw (commit-live faults l batch live) (elim (Bool-cases (is_full l batch)) [
    | inl over ↦ rw over (answered-after_rotate faults batch (rotate faults l))
    | inr room ↦ rw room (answered-write_batch faults l batch)
  ])
]

pub confirmed-append :
    (a b : List Request) (ra rb : List Reply)
    → answered ra ≡ ids a
    → confirmed (a ++ b) (ra ++ rb) ≡ confirmed a ra ++ confirmed b rb
confirmed-append [] b [] rb h = refl
confirmed-append [] b (x ∷ ra) rb h = absurd (cc)
confirmed-append (r ∷ a) b [] rb h = absurd (cc)
confirmed-append (r ∷ a) b ((i, none) ∷ ra) rb h =
    ap (◌∷◌ (record_of r)) (confirmed-append a b ra rb (cc))
confirmed-append (r ∷ a) b ((i, some e) ∷ ra) rb h = confirmed-append a b ra rb (cc)

pub batch_records-append :
    (a b : List Request) → batch_records (a ++ b) ≡ batch_records a ++ batch_records b
batch_records-append [] b = refl
batch_records-append (r ∷ a) b = ap (◌∷◌ (record_of r)) (batch_records-append a b)

-- What holds after the loop has served the requests `reqs`.
abbrev pub Served : List Request → List Record → Log × List Reply → Type 0
Served reqs acked x = Durable x.0 (acked ++ confirmed reqs x.1) × (answered x.1 ≡ ids reqs)

Served-append :
    (a b : List Request) (acked : List Record) (l l' : Log) (ra rb : List Reply)
    → answered ra ≡ ids a
    → Served b (acked ++ confirmed a ra) (l', rb)
    → Served (a ++ b) acked (l', ra ++ rb)
Served-append a b acked l l' ra rb h (d, e) = (
  rw (confirmed-append a b ra rb h, ← append_assoc acked (confirmed a ra) (confirmed b rb)) d,
  answered-append ra rb ∙ rw (h, e, ids-append),
)

AllWritable-split :
    (a b : List Request)
    → AllWritable (batch_records (a ++ b))
    → AllWritable (batch_records a) × AllWritable (batch_records b)
AllWritable-split [] b w = (tt, w)
AllWritable-split (r ∷ a) b w = let (wa, wb) = AllWritable-split a b w.1 in ((w.0, wa), wb)

-- The writer loop, whatever system calls fail: every request in the channel is answered once, in
-- order, and the records of those answered without an error are added to the recoverable log.
pub run-Served :
    (fuel : ℕ) (faults : ℕ → WriteFaults) (l : Log) (reqs : List Request) (acked : List Record)
    → length reqs ≤ fuel
    → AllWritable (batch_records reqs)
    → Durable l acked
    → Served reqs acked (run fuel faults l reqs)
unfolding run
run-Served zero faults l [] acked f w d = (rw append-nil d, refl)
run-Served (suc fuel) faults l [] acked f w d = (rw append-nil d, refl)
run-Served zero faults l (first ∷ queued) acked f w d = absurd (omega arith)
run-Served (suc fuel) faults l (first ∷ queued) acked f w d =
    let now = next_batch l.opts first queued in
    let (split, some_taken) = next_batch_split l.opts first queued in
    let (wa, wb) = AllWritable-split now.0 now.1 (rw split w) in
    let one = commit (faults fuel) l now.0 in
    let rest =
      run-Served fuel faults one.0 now.1 (acked ++ confirmed now.0 one.1)
        (omega (arith, ap length split, length-append now.0 now.1)) wb
        (commit-Durable (faults fuel) l now.0 wa d) in
    subst (λ reqs. Served reqs acked (run (suc fuel) faults l (first ∷ queued))) split
      (Served-append now.0 now.1 acked one.0 _ one.1 _ (answered-commit (faults fuel) l now.0) rest)

-- A fold step that never fails.
abbrev pub steady {ℓ} : {E S : Type ℓ} → (Record → S → S) → Record → S → Result E S
steady step r st = ok (step r st)

abbrev pub fold_steps {ℓ} : {S : Type ℓ} → (Record → S → S) → List Record → S → S
fold_steps step [] st = st
fold_steps step (r ∷ rs) st = fold_steps step rs (step r st)

fold_log-steady {ℓ} :
    {E S : Type ℓ} (step : Record → S → S) (rs : List Record) (st : S)
    → fold_log (steady {E = E} step) rs st ≡ ok (fold_steps step rs st)
fold_log-steady step [] st = refl
fold_log-steady step (r ∷ rs) st = fold_log-steady step rs (step r st)

-- After the writer has served any requests that Append lets through, with any system calls failing,
-- replay of the disk with a step that never fails succeeds, and its state is the fold over the
-- records confirmed before and now, in order, and then over further records `kept`.
pub confirmed_survive {ℓ} :
    {E S : Type ℓ} (step : Record → S → S) (fuel : ℕ) (faults : ℕ → WriteFaults) (l : Log)
    (reqs : List Request) (acked : List Record) (st : S)
    → length reqs ≤ fuel
    → AllWritable (batch_records reqs)
    → Durable l acked
    → (kept : List Record) × (out : Replayed S) × ((replay
          (steady {E = E} step)
          no_faults
          (run fuel faults l reqs).0.disk
          (indexes (run fuel faults l reqs).0.disk)
          st).0
        ≡ ok out)
      × (out.state
          ≡ fold_steps step ((acked ++ confirmed reqs (run fuel faults l reqs).1) ++ kept) st)
confirmed_survive step fuel faults l reqs acked st f w d =
    let (after, answers) = run-Served fuel faults l reqs acked f w d in
    let kept = survivors after.store.cut after.unsure in
    let recs = (acked ++ confirmed reqs (run fuel faults l reqs).1) ++ kept in
    let (out, read, folded) =
      replay-Recoverable after.store (steady step) st (fold_steps step recs st)
        (fold_log-steady step recs st) in
    (kept, out, read, folded)
