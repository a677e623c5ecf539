-- ===== src/Api/Tests.antt =====
-- The handlers at concrete requests, on a manager with one queue of one leased message.
use stitch.Prelude.Tally.{tally}
use stitch.Prelude.{Bool, ◌≡◌, ◌≤◌, refl, true, false, none, [], ◌∷◌, ok, err}
use stitch.Prelude.Int.{pos}
use stitch.Prelude.Map
use stitch.Queue.Message.{Config, fifo}
use stitch.Queue.Heap
use stitch.Queue.Live.{Queue, new_queue, milliseconds}
use stitch.Queue.Payload.{Payload}
use stitch.Queue.Ops.{enqueue, try_dequeue}
use stitch.Queue.Polling.{Round, timer_fired}
use stitch.Manager.{Manager}
use stitch.Manager.Listing.{queues}
use stitch.Manager.Listing.Laws.{IsListed, queues-IsListed}
use stitch.Api.{EnqueueRequest, AckRequest, NackRequest, max_dequeue_n}
use stitch.Prelude.Decimal.{digits}
use stitch.Api.Params.{magnitude, atoi, int_param, duration_of_ms}
use stitch.Api.Handlers.{Json, dequeue_handler}
use stitch.Api.Answers.{Honest}
use stitch.Api.Bounds.{InRange, carried, int_param-InRange, length-dequeue_handler}

abbrev jobs : Config
jobs = record {
  name = "jobs";
  mode = fifo;
  priority = true;
  delay = true;
  visibility_timeout_ms = pos 1000;
  max_attempts = pos 3;
  dlq = true;
}

abbrev filled : Queue
filled = (enqueue 100 101 "a" (1 ∷ 2 ∷ []) (pos 3) (pos 0) "" none (new_queue jobs)).1.0

abbrev leased : Queue
leased = (try_dequeue 120 1 (λ i. "t") none filled).1.0

abbrev running : Manager
running = record {
  queues = ("jobs", leased) ∷ ("idle", new_queue (record jobs { name = "idle" })) ∷ [];
  closed = false;
}

-- Decoders that refuse the empty body, and read each other one in the same way.
abbrev ack_json : Json AckRequest
ack_json limit (c ∷ cs) = ok (record { lease_token = "t" })
ack_json limit [] = err "unexpected EOF"

abbrev nack_json : Json NackRequest
nack_json limit (c ∷ cs) = ok (record { lease_token = "t"; requeue_delay_ms = pos 500 })
nack_json limit [] = err "unexpected EOF"

abbrev enqueue_json : Json EnqueueRequest
enqueue_json limit (c ∷ cs) =
    ok (record { body = 5 ∷ []; priority = pos 1; delay_ms = pos 20; dedup_key = "k" })
enqueue_json limit [] = err "unexpected EOF"

int_param_test : int_param "250" (pos 1) (pos 1) (pos 100) ≡ ok (pos 100)
unfolding int_param atoi magnitude digits
int_param_test = refl

int_param-InRange_example : InRange (pos 1) (pos 100) (pos 100)
unfolding int_param atoi magnitude digits
int_param-InRange_example =
    int_param-InRange "250" (pos 1) (pos 1) (pos 100) (pos 100) (refl, refl) refl refl

-- A delay of 2^63 / 10^6 milliseconds and more is taken for a negative one.
long_delay_test : milliseconds (duration_of_ms (pos 9223372036855)) ≡ 0
unfolding duration_of_ms
long_delay_test = refl

abbrev round : Round
round = record {
  now = 1500;
  token = λ i. "u";
  answer = none;
  checked = 1500000000;
  woken = timer_fired;
  meanwhile = λ q. q;
}

length-dequeue_handler_example :
    carried (dequeue_handler 1500000000 "jobs" "5000" "" (round ∷ []) running).0 ≤ max_dequeue_n
length-dequeue_handler_example =
    length-dequeue_handler 1500000000 "jobs" "5000" "" (round ∷ []) running

queues-IsListed_example :
    IsListed (queues running)
    × ((p : Queue → Bool) → tally p (queues running) ≡ tally p (Map.values running.queues))
queues-IsListed_example = queues-IsListed running
