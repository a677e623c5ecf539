-- ===== src/Queued/Laws.antt =====
-- The process of cmd/queued/main.go that stops, and the one that starts after it.
use mathlib.Core.Path.{subst}
use stitch.Prelude.{
  ℕ, ◌≡◌, refl, sym, ap, ◌∙◌, true, false, String, Option, none, some, List, [], ◌++◌, ok, arith,
  length, str_eq, Option-cases, inl, inr,
}
use stitch.Prelude.Map
use stitch.Queue.Payload.{Payload}
use stitch.Queue.Live.{Queue}
use stitch.Queue.Ops.{Trace}
use stitch.Wal.Recovery.{IoError, Disk}
use stitch.Wal.Recovery.Prefix.{AllWritable}
use stitch.Wal.Log.{Log, LogError, io, Reply, WriteFaults, run, close_log}
use stitch.Wal.Log.Stored.{Recoverable}
use stitch.Wal.Log.Commit.{Durable, batch_records, confirmed}
use stitch.Wal.Log.Run.{run-Served}
use stitch.Wal.Log.Drained.{run-Clean}
use stitch.Wal.Open.{OpenFaults}
use stitch.Wal.Open.Laws.{working}
use stitch.Manager.{Manager}
use stitch.Manager.Mirror.{logged}
use stitch.Manager.Mirror.Silent.{logged-append}
use stitch.Manager.Finalize.Restart.{Restarted}
use stitch.Manager.Fleet.{Life, new_manager}
use stitch.Manager.Fleet.Prefix.{Life-append}
use stitch.Manager.Open.{Started, open_manager, records}
use stitch.Manager.Open.Laws.{Readable, open_manager-Restarted}
use stitch.Manager.Open.Crash.{records-append, Readable-append}
use stitch.Manager.Close.{close_manager}
use stitch.Queued.{Flags, options_of, sync_of, Ending, stopped, exit_of, serve_fault, serve, queued}

-- The writer as Close lets it drain the channel.
abbrev drained : (ℕ → WriteFaults) → Log → Log × List Reply
drained faults l = run (length l.reqs) faults (record l { closed = true; reqs = [] }) l.reqs

close_result-none :
    (fatal : Option LogError) (close_fault : Option IoError)
    → exit_of (elim fatal [
      | some e ↦ some e
      | none ↦ elim close_fault [ none ↦ none | some e ↦ some (io e) ]
    ])
      ≡ stopped
    → fatal ≡ none
close_result-none none close_fault e = refl
close_result-none (some f) close_fault e = absurd (cc)

-- The answer of Close, and a process that gets there.
abbrev close_result : Option IoError → Option LogError → Option LogError
close_result close_fault fatal = elim fatal [
  | some e ↦ some e
  | none ↦ elim close_fault [ none ↦ none | some e ↦ some (io e) ]
]

module _ (ending : Ending) (faults : ℕ → WriteFaults) (close_fault : Option IoError) (m : Manager)
    (l : Log) where
  serve-closes :
      serve_fault ending ≡ none
      → m.closed ≡ false
      → l.closed ≡ false
      → serve ending faults close_fault (m, l) ≡ (
        exit_of (close_result close_fault (drained faults l).0.fatal),
        ((drained faults l).0.disk, (drained faults l).1),
      )
  unfolding serve close_manager close_log
  serve-closes fine running open_log =
      simp (serve, close_manager, close_log, fine, running, open_log)

  -- A process that stops has drained the channel without a fatal error.
  serve-stopped :
      m.closed ≡ false
      → l.closed ≡ false
      → (serve ending faults close_fault (m, l)).0 ≡ stopped
      → ((serve ending faults close_fault (m, l)).1.0 ≡ (drained faults l).0.disk)
        × ((drained faults l).0.fatal ≡ none)
  unfolding serve
  serve-stopped running open_log e = elim (Option-cases (serve_fault ending)) [
    | inr (why, failed) ↦ absurd (let x = rw (serve, failed) at e in cc)
    | inl fine ↦
        let whole = serve-closes fine running open_log in
        (
          ap (λ x. x.1.0) whole,
          close_result-none (drained faults l).0.fatal close_fault (sym (ap (λ x. x.0) whole) ∙ e),
        )
  ]

module _ (json : ℕ → List ℕ → Option Payload) (marshal : Payload → List ℕ) where
  -- The first process of a log, stopped and started again. `t` is what the answered calls of its
  -- manager since it was new handed to the log, one call after the other, and `u` what the calls
  -- do whose appends wait in the channel, each as it goes on if the log confirms it; each new
  -- message has an ID that no live message of its queue has, encoding/json reads back what it wrote,
  -- and neither the manager nor the log is closed yet. If the process stops, whatever system calls
  -- fail for the writer and however serving ends, the next process, no system call of whose Open
  -- fails, opens the disk that it leaves: it has every queue as the calls of `t` and `u` leave it
  -- and a restart gives it back, and its log goes on from exactly their records.
  pub stop_and_start :
      (flags : Flags) (sync : String) (open_faults : OpenFaults) (now later : ℕ)
      (serving : Started → Manager × Log) (ending : Ending) (faults : ℕ → WriteFaults)
      (close_fault : Option IoError) (disk : Disk) (s : Started) (m m' : Manager) (l : Log)
      (t u : Trace)
      → sync_of flags.fsync ≡ some sync
      → str_eq flags.dir "" ≡ false
      → open_manager json open_faults (options_of flags sync) now disk ≡ ok s
      → serving s ≡ (m, l)
      → Life new_manager t m
      → Life m u m'
      → Readable json marshal (logged t)
      → Readable json marshal (logged u)
      → m.closed ≡ false
      → l.closed ≡ false
      → Durable l (records marshal (logged t))
      → batch_records l.reqs ≡ records marshal (logged u)
      → AllWritable (batch_records l.reqs)
      → (queued json flags open_faults now serving ending faults close_fault disk).0 ≡ stopped
      → (s' : Started) × (open_manager json working
            (options_of flags sync)
            later
            (queued json flags open_faults now serving ending faults close_fault disk).1.0
          ≡ ok s')
        × ((n : String) (q : Queue)
            → Map.lookup n m'.queues ≡ some q
            → (q' : Queue) × (Map.lookup n s'.manager.queues ≡ some q') × Restarted q q')
        × Durable s'.log (records marshal (logged t ++ logged u))
  unfolding queued
  stop_and_start flags sync open_faults now later serving ending faults close_fault disk s m m' l t
        u known dir opened there life more readable readable' running open_log durable waiting
        writable stops =
      let x = queued json flags open_faults now serving ending faults close_fault disk in
      let whole : x ≡ serve ending faults close_fault (m, l) =
        rw (queued, known, opened, there) refl in
      let (left, alive) =
        serve-stopped ending faults close_fault m l running open_log
          (sym (ap (λ y. y.0) whole) ∙ stops) in
      let closing : Durable (record l { closed = true; reqs = [] }) (records marshal (logged t)) =
        record { unsure = durable.unsure; store = durable.store; alive = durable.alive } in
      let (after, answers) =
        run-Served (length l.reqs) faults (record l { closed = true; reqs = [] }) l.reqs
          (records marshal (logged t)) (omega arith) writable closing in
      let (store, here, size) = after.alive alive in
      let all : records marshal (logged t) ++ confirmed l.reqs (drained faults l).1
          ≡ records marshal (logged t ++ logged u) =
        ap (λ rs. records marshal (logged t) ++ rs)
          (run-Clean (length l.reqs) faults (record l { closed = true; reqs = [] }) l.reqs
              (omega arith) alive
            ∙ waiting)
        ∙ sym (records-append marshal (logged t) (logged u)) in
      let joined = logged-append t u in
      let store' : Recoverable x.1.0 (records marshal (logged (t ++ u))) [] =
        subst (λ d. Recoverable d (records marshal (logged (t ++ u))) [])
          (sym (ap (λ y. y.1.0) whole ∙ left))
          (subst (λ rs. Recoverable (drained faults l).0.disk rs [])
            (all ∙ ap (records marshal) (sym joined)) store) in
      let readable_all : Readable json marshal (logged (t ++ u)) =
        subst (Readable json marshal) (sym joined)
          (Readable-append json marshal (logged t) (logged u) readable readable') in
      let (s', answer, restarted, goes_on) =
        open_manager-Restarted json marshal (t ++ u) m' later (options_of flags sync) x.1.0
          (Life-append new_manager m m' t u life more) readable_all store' dir in
      (s', answer, restarted, subst (λ ps. Durable s'.log (records marshal ps)) joined goes_on)
