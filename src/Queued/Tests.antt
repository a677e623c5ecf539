-- ===== src/Queued/Tests.antt =====
-- The process of cmd/queued at concrete inputs: it starts on an empty disk, takes a signal while the
-- append of a new queue waits in the channel, and is started again.
use stitch.Prelude.{
  ℕ, ◌≡◌, refl, true, false, String, Option, none, some, List, [], ◌∷◌, ◌++◌, ok, arith,
}
use stitch.Prelude.Int.{pos}
use stitch.Prelude.Map
use stitch.Wal.Recovery.{replay}
use stitch.Wal.Log.{
  Log, Options, WriteFaults, with_defaults, create_segment, close_log, run, next_batch, drain,
  commit, commit_live, write_batch,
}
use stitch.Wal.Log.Stored.{Recoverable}
use stitch.Wal.Log.Commit.{Durable}
use stitch.Wal.Open.{log_at, open_log, open_last}
use stitch.Wal.Open.Laws.{working}
use stitch.Queue.Message.{Config, fifo, normalize, name_matches}
use stitch.Queue.Payload.{Payload, type_of}
use stitch.Queue.Live.{Queue}
use stitch.Queue.Ops.{Trace}
use stitch.Manager.{Manager, create_queue}
use stitch.Manager.Mirror.{logged}
use stitch.Manager.Finalize.{finalize, finalize_all}
use stitch.Manager.Finalize.Restart.{Restarted}
use stitch.Manager.Fleet.{Act, Life, new_manager}
use stitch.Manager.Open.{Started, open_manager, records}
use stitch.Manager.Open.Laws.{Readable}
use stitch.Manager.Close.{close_manager}
use stitch.Queued.{
  default_flags, options_of, sync_of, signalled, stopped, serve_fault, serve, queued,
}
use stitch.Queued.Laws.{stop_and_start}

abbrev jobs : Config
jobs = record {
  name = "jobs";
  mode = fifo;
  priority = true;
  delay = true;
  visibility_timeout_ms = pos 1000;
  max_attempts = pos 3;
  dlq = true;
}

abbrev created : Trace
created = (create_queue jobs none new_manager).1.1 ++ []

abbrev one_queue : Manager
one_queue = (create_queue jobs none new_manager).1.0

creating : Life new_manager created one_queue
creating = Life.next _ _ _ _ _ (Act.created jobs none new_manager) (Life.stop one_queue)

-- An encoding that is enough for this payload.
abbrev marshal : Payload → List ℕ
marshal p = 123 ∷ 125 ∷ []

abbrev json : ℕ → List ℕ → Option Payload
json typ body = some (Payload.queue_create jobs)

created-Readable : Readable json marshal (logged created)
unfolding create_queue normalize name_matches Map.lookup type_of
created-Readable = (refl, tt)

abbrev opts : Options
opts = options_of default_flags "group"

abbrev fresh_log : Log
fresh_log = log_at (with_defaults opts) 0 0 ((0, []) ∷ [])

-- The log with the record of the new queue in its channel.
abbrev waiting_log : Log
waiting_log = record fresh_log {
  reqs = (record { id = 1; type = 7; payload = marshal (Payload.queue_create jobs) }) ∷ [];
}

abbrev started : Started
started = record {
  manager = new_manager;
  log = fresh_log;
  info = record { segments = 0; records = 0; truncated = false; truncated_at = 0 };
}

started_on_empty : open_manager json working opts 100 [] ≡ ok started
unfolding open_manager open_log open_last with_defaults replay create_segment finalize finalize_all
started_on_empty = refl

store : Recoverable waiting_log.disk [] []
store = record {
  segs = [];
  last = 0;
  cur = [];
  cut = 0;
  sealed = tt;
  present = refl;
  order = refl;
  writable = tt;
  within = omega arith;
  bytes = refl;
  all = refl;
}

waiting_log-Durable : Durable waiting_log []
unfolding store with_defaults
waiting_log-Durable = record { unsure = []; store = store; alive = λ _. (store, refl, refl) }

no_write_faults : WriteFaults
no_write_faults = record { close = none; create = none; sync_dir = none; write = none; sync = none }

stops :
    (queued json default_flags working 100
      (λ s. (s.manager, waiting_log))
      (signalled none)
      (λ _. no_write_faults)
      none
      []).0
    ≡ stopped
unfolding queued sync_of open_manager open_log open_last with_defaults replay create_segment
    finalize finalize_all serve serve_fault close_manager close_log run next_batch drain commit
    commit_live write_batch no_write_faults
stops = refl

stop_and_start_example :
    (s' : Started) × (open_manager json working opts 900
        (queued json default_flags working 100
          (λ s. (s.manager, waiting_log))
          (signalled none)
          (λ _. no_write_faults)
          none
          []).1.0
      ≡ ok s')
    × ((n : String) (q : Queue)
        → Map.lookup n one_queue.queues ≡ some q
        → (q' : Queue) × (Map.lookup n s'.manager.queues ≡ some q') × Restarted q q')
    × Durable s'.log (records marshal ([] ++ logged created))
unfolding sync_of create_queue normalize name_matches Map.lookup type_of
stop_and_start_example =
    stop_and_start json marshal default_flags "group" working 100 900
      (λ s. (s.manager, waiting_log)) (signalled none) (λ _. no_write_faults) none [] started
      new_manager one_queue waiting_log [] created refl refl started_on_empty refl
      (Life.stop new_manager) creating tt created-Readable refl refl waiting_log-Durable refl
      ((refl, omega arith), tt) stops
