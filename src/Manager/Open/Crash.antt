-- ===== src/Manager/Open/Crash.antt =====
-- A manager of internal/queue/manager.go that is opened on the log of one whose process died while
-- appends were under way.
use mathlib.Core.Path.{subst}
use stitch.Prelude.{
  ℕ, ◌≡◌, refl, sym, ap, ◌∙◌, false, ltb, ◌-◌, String, Option, some, List, [], ◌∷◌, ◌++◌, ok,
  str_eq, Bool-cases, inl, inr,
}
use stitch.Prelude.Map
use stitch.Queue.Payload.{Payload}
use stitch.Queue.Live.{Queue}
use stitch.Queue.Ops.{Trace}
use stitch.Wal.Recovery.{Disk}
use stitch.Wal.Recovery.Prefix.{survivors, frame_size, fold_log}
use stitch.Wal.Log.{Options}
use stitch.Wal.Log.Stored.{Recoverable}
use stitch.Wal.Log.Commit.{Durable}
use stitch.Wal.Open.Laws.{working, open_log-Durable}
use stitch.Manager.{Manager, apply_record}
use stitch.Manager.Finalize.{finalize}
use stitch.Manager.Finalize.Restart.{Restarted}
use stitch.Manager.Mirror.{logged}
use stitch.Manager.Mirror.Silent.{logged-append}
use stitch.Manager.Fleet.{Life, new_manager, new_replay, fold_replay}
use stitch.Manager.Fleet.Prefix.{Life-append, Life-prefix}
use stitch.Manager.Fleet.Laws.{fleet_restarts}
use stitch.Manager.Open.{Started, start, open_manager, record_of, records}
use stitch.Manager.Open.Laws.{Readable, fold_log-records}

pub records-append :
    (marshal : Payload → List ℕ) (ps qs : List Payload)
    → records marshal (ps ++ qs) ≡ records marshal ps ++ records marshal qs
records-append marshal [] qs = refl
records-append marshal (p ∷ ps) qs = ap (◌∷◌ (record_of marshal p)) (records-append marshal ps qs)

-- The records that a cut leaves are those of a beginning of the payloads.
survivors-records :
    (marshal : Payload → List ℕ) (k : ℕ) (ps : List Payload)
    → (qs : List Payload) × (rs : List Payload) × (ps ≡ qs ++ rs)
      × (survivors k (records marshal ps) ≡ records marshal qs)
unfolding survivors
survivors-records marshal k [] = ([], [], refl, refl)
survivors-records marshal k (p ∷ ps) =
    let (qs, rs, e, f) = survivors-records marshal (k - frame_size (record_of marshal p)) ps in
    elim (Bool-cases (ltb k (frame_size (record_of marshal p)))) [
      | inl torn ↦ ([], p ∷ ps, refl, rw torn refl)
      | inr whole ↦ (p ∷ qs, rs, ap (◌∷◌ p) e, rw whole (ap (◌∷◌ (record_of marshal p)) f))
    ]

module _ (json : ℕ → List ℕ → Option Payload) (marshal : Payload → List ℕ) where
  pub Readable-append :
      (ps qs : List Payload)
      → Readable json marshal ps
      → Readable json marshal qs
      → Readable json marshal (ps ++ qs)
  Readable-append [] qs h k = k
  Readable-append (p ∷ ps) qs h k = (h.0, Readable-append ps qs h.1 k)

  Readable-front :
      (ps qs : List Payload) → Readable json marshal (ps ++ qs) → Readable json marshal ps
  Readable-front [] qs h = tt
  Readable-front (p ∷ ps) qs h = (h.0, Readable-front ps qs h.1)

  -- A process dies while appends are under way. `t` is what the answered calls of a manager since it
  -- was new handed to the log, one call after the other, and `u` what the calls under way hand to
  -- it, each call as it goes on if the log confirms it; the log holds the records of the confirmed
  -- payloads of `t` and behind them any number of bytes of those of `u`. Each new message has an ID
  -- that no live message of its queue has, and encoding/json reads back what it wrote. Then Open,
  -- where no system call fails, succeeds, and there are calls `v` that begin like those under way
  -- and end where the log was cut: the new manager has every queue that the old one has after the
  -- answered calls and `v`, as it is after a restart (every message waits once, with the same fields
  -- but for its lease, no lease is out, and the dead letters and the configuration are the same),
  -- and the new log goes on from exactly their records.
  pub crash_restarts :
      (t u : Trace) (m m' : Manager) (now : ℕ) (opts : Options) (disk : Disk)
      → Life new_manager t m
      → Life m u m'
      → Readable json marshal (logged t)
      → Readable json marshal (logged u)
      → Recoverable disk (records marshal (logged t)) (records marshal (logged u))
      → str_eq opts.dir "" ≡ false
      → (v : Trace) × (rest : List Payload) × (k : Manager) × Life m v k
        × (logged u ≡ logged v ++ rest)
        × (s : Started) × (open_manager json working opts now disk ≡ ok s)
        × ((n : String) (q : Queue)
            → Map.lookup n k.queues ≡ some q
            → (q' : Queue) × (Map.lookup n s.manager.queues ≡ some q') × Restarted q q')
        × Durable s.log (records marshal (logged t ++ logged v))
  unfolding open_manager
  crash_restarts t u m m' now opts disk life more readable readable' store dir =
      let (ps, rest, cut, kept) = survivors-records marshal store.cut (logged u) in
      let (v, k, until, same) = Life-prefix m m' u ps rest more cut in
      let whole : Life new_manager (t ++ v) k = Life-append new_manager m k t v life until in
      let (r, replayed, restarted) = fleet_restarts (t ++ v) k now whole in
      let recs = records marshal (logged t) ++ survivors store.cut (records marshal (logged u)) in
      let front : logged u ≡ logged v ++ rest = cut ∙ ap (λ x. x ++ rest) (sym same) in
      let readable_all : Readable json marshal (logged t ++ logged v) =
        Readable-append (logged t) (logged v) readable
          (Readable-front (logged v) rest (subst (Readable json marshal) front readable')) in
      let all : recs ≡ records marshal (logged t ++ logged v) =
        ap (λ x. records marshal (logged t) ++ x) (kept ∙ ap (records marshal) (sym same))
        ∙ sym (records-append marshal (logged t) (logged v)) in
      let folded : fold_log (apply_record json) recs new_replay ≡ ok r =
        ap (λ x. fold_log (apply_record json) x new_replay) all
        ∙ fold_log-records json marshal (logged t ++ logged v) new_replay readable_all
        ∙ ap (λ x. fold_replay x new_replay) (sym (logged-append t v))
        ∙ replayed in
      let (l, out, answer, state, durable) =
        open_log-Durable (apply_record json) opts disk (records marshal (logged t))
          (records marshal (logged u)) new_replay r store dir folded in
      (
        v,
        rest,
        k,
        until,
        front,
        record { manager = finalize now out.state; log = l; info = out.info },
        ap (λ x. start now x.0) answer,
        rw state restarted,
        subst (Durable l) all durable,
      )
