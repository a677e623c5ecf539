-- ===== src/Api/Metrics.antt =====
-- internal/api/metrics.go: the samples of the queues, and the lines of the rendered text as data:
-- a line carries the metric's name and kind, a queue's name and a number. The help texts and the
-- printing by fmt are left out; the ratio of the last metric is a pair of numbers.
use stitch.Prelude.{ℕ, String, Option, none, some, List, [], ◌∷◌, ◌++◌, ltb, if◌then◌else◌}
use stitch.Prelude.Int.{ℤ, pos}
use stitch.Queue.Message.{Stats as QueueStats}
use stitch.Wal.Log.{Stats as LogStats}
use stitch.Queue.Live.{Queue}
use stitch.Queue.Ops.{stats}
use stitch.Manager.{Manager}
use stitch.Manager.Listing.{queues}
use stitch.Api.Handlers.{with_queue}

pub record QueueSample : Type 0 where
  pub name : String
  pub depth : ℕ
  pub delayed : ℕ
  pub in_flight : ℕ
  pub dlq : ℕ
  pub total : ℕ
  pub oldest_age_ms : ℤ
  pub enqueued : ℕ
  pub dequeued : ℕ
  pub acked : ℕ
  pub nacked : ℕ
  pub expired : ℕ
  pub dlq_moved : ℕ
  pub deduped : ℕ

abbrev pub sample : QueueStats → QueueSample
sample st = record {
  name = st.name;
  depth = st.depth;
  delayed = st.delayed;
  in_flight = st.in_flight;
  dlq = st.dlq;
  total = st.total;
  oldest_age_ms = st.oldest_age_ms;
  enqueued = st.counters.enqueued;
  dequeued = st.counters.dequeued;
  acked = st.counters.acked;
  nacked = st.counters.nacked;
  expired = st.counters.expired;
  dlq_moved = st.counters.dlq_moved;
  deduped = st.counters.deduped;
}

-- The loop of sampleQueues; Stats promotes what is due.
unfoldable pub sample_all : ℕ → List Queue → Manager → List QueueSample × Manager
sample_all now [] m = ([], m)
sample_all now (q ∷ qs) m =
    let (st, q') = stats now q in
    let (samples, m') = sample_all now qs (with_queue q.cfg.name q' m) in (sample st ∷ samples, m')

unfoldable pub sample_queues : ℕ → Manager → List QueueSample × Manager
unfolding sample_all
sample_queues now m = sample_all now (queues m) m

pub data Line : Type 0 where
  kind : String → String → Line
  value : String → String → ℤ → Line
  total : String → ℕ → Line
  ratio : String → Option (ℕ × ℕ) → Line

abbrev gauges : List (String × (QueueSample → ℤ))
gauges =
    ("stitch_queue_depth", λ st. pos st.depth)
    ∷ ("stitch_queue_delayed", λ st. pos st.delayed)
    ∷ ("stitch_queue_in_flight", λ st. pos st.in_flight)
    ∷ ("stitch_queue_dlq", λ st. pos st.dlq)
    ∷ ("stitch_queue_total", λ st. pos st.total)
    ∷ ("stitch_queue_oldest_age_ms", λ st. st.oldest_age_ms)
    ∷ []

abbrev counters : List (String × (QueueSample → ℤ))
counters =
    ("stitch_queue_enqueued_total", λ st. pos st.enqueued)
    ∷ ("stitch_queue_dequeued_total", λ st. pos st.dequeued)
    ∷ ("stitch_queue_acked_total", λ st. pos st.acked)
    ∷ ("stitch_queue_nacked_total", λ st. pos st.nacked)
    ∷ ("stitch_queue_lease_expired_total", λ st. pos st.expired)
    ∷ ("stitch_queue_dlq_moved_total", λ st. pos st.dlq_moved)
    ∷ ("stitch_queue_deduped_total", λ st. pos st.deduped)
    ∷ []

-- The lines of one metric.
unfoldable pub values_of : String → (QueueSample → ℤ) → List QueueSample → List Line
values_of name f [] = []
values_of name f (st ∷ sts) = Line.value name st.name (f st) ∷ values_of name f sts

unfoldable pub lines_of : String → List (String × (QueueSample → ℤ)) → List QueueSample → List Line
unfolding values_of
lines_of k [] sts = []
lines_of k ((name, f) ∷ ms) sts = Line.kind name k ∷ (values_of name f sts ++ lines_of k ms sts)

abbrev log_lines : LogStats → List Line
log_lines ws =
    Line.kind "stitch_wal_records_total" "counter"
    ∷ Line.total "stitch_wal_records_total" ws.appends
    ∷ Line.kind "stitch_wal_fsyncs_total" "counter"
    ∷ Line.total "stitch_wal_fsyncs_total" ws.batches
    ∷ Line.kind "stitch_wal_bytes_total" "counter"
    ∷ Line.total "stitch_wal_bytes_total" ws.bytes
    ∷ Line.kind "stitch_wal_records_per_fsync" "gauge"
    ∷ Line.ratio "stitch_wal_records_per_fsync"
        (if ltb 0 ws.batches then some (ws.appends, ws.batches) else none)
    ∷ []

-- The handler; `ws` is what WALStats returns.
unfoldable pub metrics : ℕ → LogStats → Manager → List Line × Manager
unfolding lines_of
metrics now ws m =
    let (samples, m') = sample_queues now m in
    (lines_of "gauge" gauges samples ++ (lines_of "counter" counters samples ++ log_lines ws), m')
