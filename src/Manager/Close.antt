-- ===== src/Manager/Close.antt =====
-- Close and WALStats of internal/queue/manager.go, over the log that the manager writes to. The names
-- are those of the queues whose maintenance goroutine is stopped; a waiting Dequeue of such a queue
-- meets the closed channel in Queue/Polling.antt.
use stitch.Prelude.{ℕ, true, String, Option, none, List, [], if◌then◌else◌}
use stitch.Prelude.Map
use stitch.Wal.Recovery.{IoError}
use stitch.Wal.Log.{LogError, Log, Stats, WriteFaults, Reply, close_log}
use stitch.Manager.{Manager}

-- What is there after Close.
pub record Closed : Type 0 where
  pub manager : Manager
  pub log : Log
  pub replies : List Reply
  pub stopped : List String

-- Close; `faults` are those of the writer while it drains the channel, `close_fault` that of the
-- segment's Close.
unfoldable pub close_manager :
    (ℕ → WriteFaults) → Option IoError → Manager → Log → Option LogError × Closed
close_manager faults close_fault m l =
    let (result, (l', replies)) = close_log faults close_fault l in
    let closed : Closed = record {
      manager = record m { closed = true };
      log = l';
      replies = replies;
      stopped = Map.keys m.queues;
    } in
    if m.closed
    then (none, record { manager = m; log = l; replies = []; stopped = [] })
    else (result, closed)

-- Stats of the log
abbrev pub wal_stats : Log → Stats
wal_stats l = l.stats
