-- ===== src/Manager/Open/Laws.antt =====
-- A manager of internal/queue/manager.go that is opened on the log of another.
use mathlib.Core.List.{append-nil}
use mathlib.Core.Path.{subst}
use stitch.Prelude.{
  ℕ, ◌≡◌, refl, ap, ◌∙◌, true, false, String, Option, some, List, [], ◌∷◌, ◌++◌, ok, Result-cases,
  inl, inr, str_eq,
}
use stitch.Prelude.Map
use stitch.Queue.Payload.{Payload, type_of}
use stitch.Queue.Live.{Queue}
use stitch.Queue.Ops.{Trace}
use stitch.Wal.Record.{valid}
use stitch.Wal.Recovery.{Disk}
use stitch.Wal.Recovery.Prefix.{survivors, fold_log}
use stitch.Wal.Log.{Options}
use stitch.Wal.Log.Stored.{Recoverable}
use stitch.Wal.Log.Commit.{Durable}
use stitch.Wal.Open.Laws.{working, open_log-Durable}
use stitch.Manager.{Manager, Replay, apply, apply_record}
use stitch.Manager.Finalize.{finalize}
use stitch.Manager.Finalize.Restart.{Restarted}
use stitch.Manager.Mirror.{logged}
use stitch.Manager.Fleet.{Life, new_manager, new_replay, fold_replay}
use stitch.Manager.Fleet.Laws.{fleet_restarts}
use stitch.Manager.Open.{Started, start, open_manager, records}

type_of-valid : (p : Payload) → valid (type_of p) ≡ true
unfolding type_of
type_of-valid (Payload.queue_create c) = refl
type_of-valid (Payload.enqueue p) = refl
type_of-valid (Payload.lease n expires items) = refl
type_of-valid (Payload.ack n id) = refl
type_of-valid (Payload.nack n id at) = refl
type_of-valid (Payload.expire n items) = refl
type_of-valid (Payload.dlq_move n ids reason) = refl

module _ (json : ℕ → List ℕ → Option Payload) (marshal : Payload → List ℕ) where
  -- encoding/json reads back what it wrote of these payloads.
  abbrev pub Readable : List Payload → Type 0
  Readable [] = Unit
  Readable (p ∷ ps) = (json (type_of p) (marshal p) ≡ some p) × Readable ps

  apply_record-readable :
      (p : Payload) (r : Replay)
      → json (type_of p) (marshal p) ≡ some p
      → apply_record json (record { type = type_of p; payload = marshal p }) r ≡ apply p r
  unfolding apply_record
  apply_record-readable p r e = rw (apply_record, type_of-valid p, e) refl

  pub fold_log-records :
      (ps : List Payload) (r : Replay)
      → Readable ps
      → fold_log (apply_record json) (records marshal ps) r ≡ fold_replay ps r
  fold_log-records [] r h = refl
  fold_log-records (p ∷ ps) r h = elim (Result-cases (apply p r)) [
    | inl (r', good) ↦ rw (apply_record-readable p r h.0, good) (fold_log-records ps r' h.1)
    | inr (e, bad) ↦ rw (apply_record-readable p r h.0, bad) refl
  ]

  -- Whatever a manager did with its queues since it was new, one call after the other, each new
  -- message under an ID that no live message of its queue has: when its log has answered every append,
  -- holds the records of the confirmed payloads and nothing else, and encoding/json reads back what
  -- it wrote of them: Open on its disk, where no system call fails, succeeds; the new manager has,
  -- under the name of each queue of the old one, that queue after a restart (every message that the
  -- old queue held in a heap or in flight waits, once and with the same fields but for its lease,
  -- no lease is out, and the dead letters and the configuration are the same); and the new log goes
  -- on from the same records.
  pub open_manager-Restarted :
      (t : Trace) (m : Manager) (now : ℕ) (opts : Options) (disk : Disk)
      → Life new_manager t m
      → Readable (logged t)
      → Recoverable disk (records marshal (logged t)) []
      → str_eq opts.dir "" ≡ false
      → (s : Started) × (open_manager json working opts now disk ≡ ok s)
        × ((n : String) (q : Queue)
            → Map.lookup n m.queues ≡ some q
            → (q' : Queue) × (Map.lookup n s.manager.queues ≡ some q') × Restarted q q')
        × Durable s.log (records marshal (logged t))
  unfolding open_manager survivors
  open_manager-Restarted t m now opts disk life readable store dir =
      let recs = records marshal (logged t) in
      let (r, replayed, restarted) = fleet_restarts t m now life in
      let all : recs ++ [] ≡ recs = append-nil recs in
      let folded : fold_log (apply_record json) (recs ++ []) new_replay ≡ ok r =
        rw all (fold_log-records (logged t) new_replay readable ∙ replayed) in
      let (l, out, answer, state, durable) =
        open_log-Durable (apply_record json) opts disk recs [] new_replay r store dir folded in
      (
        record { manager = finalize now out.state; log = l; info = out.info },
        ap (λ x. start now x.0) answer,
        rw state restarted,
        subst (Durable l) all durable,
      )
