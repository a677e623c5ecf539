-- ===== src/Api/Handlers.antt =====
-- The handlers of internal/api/api.go.
use stitch.Prelude.{ℕ, Bool, String, Option, none, some, List, [], ◌∷◌, Result, ok, err}
use stitch.Prelude.Int.{pos, pos_part}
use stitch.Prelude.Map
use stitch.Queue.Message.{Config, Message, Delivery, Stats, QueueError}
use stitch.Queue.Live.{Queue}
use stitch.Queue.Ops.{LogAnswer, Trace, enqueue, ack, nack, stats}
use stitch.Queue.Polling.{Round, Outcome, waiting, hung_up, returned, dequeue}
use stitch.Manager.{Manager, create_queue, find_queue}
use stitch.Manager.Listing.{queues}
use stitch.Api.{
  EnqueueRequest, EnqueueResponse, MessageJson, AckRequest, NackRequest, Body, Response, fail,
  bad_request, decode, max_dequeue_n, max_dequeue_wait,
}
use stitch.Api.Params.{int_param, duration_of_ms}

-- A decoder for the requests of one kind, as `decode` takes it.
abbrev pub Json : Type 0 → Type 0
Json A = ℕ → List ℕ → Result String A

-- The manager whose queue of that name is now `q`.
abbrev pub with_queue : String → Queue → Manager → Manager
with_queue name q m = record m { queues = Map.update name q m.queues }

abbrev pub Handled : Type 0
Handled = Response × (Manager × Trace)

unfoldable pub create_queue_handler : Json Config → List ℕ → LogAnswer → Manager → Handled
create_queue_handler json body answer m = elim (decode json body) [
  | err r ↦ (r, (m, []))
  | ok req ↦
      let (result, done) = create_queue req answer m in
      (
        elim result [ err e ↦ fail e | ok q ↦ record { status = 201; body = Body.config q.cfg } ],
        done,
      )
]

-- The loop over the listed queues; Stats promotes what is due.
unfoldable pub stats_of_all : ℕ → List Queue → Manager → List Stats × Manager
stats_of_all now [] m = ([], m)
stats_of_all now (q ∷ qs) m =
    let (st, q') = stats now q in
    let (sts, m') = stats_of_all now qs (with_queue q.cfg.name q' m) in (st ∷ sts, m')

unfoldable pub list_queues : ℕ → Manager → Handled
unfolding stats_of_all
list_queues now m =
    let (sts, m') = stats_of_all now (queues m) m in
    (record { status = 200; body = Body.stats_list sts }, (m', []))

unfoldable pub queue_stats : ℕ → String → Manager → Handled
queue_stats now name m = elim (find_queue name m) [
  | err e ↦ (fail e, (m, []))
  | ok q ↦
      let (st, q') = stats now q in
      (record { status = 200; body = Body.stats st }, (with_queue name q' m, []))
]

abbrev pub enqueue_response : Message × Bool → EnqueueResponse
enqueue_response (msg, deduped) = record {
  id = msg.id;
  seq = msg.seq;
  visible_at = msg.visible_at;
  deduped = deduped;
}

unfoldable pub enqueue_answer : Result QueueError (Message × Bool) → Response
enqueue_answer (err e) = fail e
enqueue_answer (ok x) = record { status = 201; body = Body.enqueued (enqueue_response x) }

unfoldable pub enqueue_handler :
    Json EnqueueRequest → ℕ → ℕ → String → String → List ℕ → LogAnswer → Manager → Handled
unfolding enqueue_answer
enqueue_handler json now later id name body answer m = elim (find_queue name m) [
  | err e ↦ (fail e, (m, []))
  | ok q ↦ elim (decode json body) [
    | err r ↦ (r, (m, []))
    | ok req ↦
        let (result, (q', t)) =
          enqueue now later id req.body req.priority (duration_of_ms req.delay_ms) req.dedup_key
            answer q in
        (enqueue_answer result, (with_queue name q' m, t))
  ]
]

abbrev pub message_json : Delivery → MessageJson
message_json d = record {
  id = d.message.id;
  body = d.message.body;
  priority = d.message.priority;
  seq = d.message.seq;
  attempts = d.message.attempts;
  enqueued_at = d.message.enqueued_at;
  lease_token = d.lease_token;
  lease_expires_at = d.expires_at;
}

abbrev pub messages_json : List Delivery → List MessageJson
messages_json [] = []
messages_json (d ∷ ds) = message_json d ∷ messages_json ds

-- The response to a call of Dequeue; none while it waits, and none to a client that is gone.
unfoldable pub dequeue_answer : Outcome → Option Response
dequeue_answer waiting = none
dequeue_answer hung_up = none
dequeue_answer (returned (err e)) = some (fail e)
dequeue_answer (returned (ok ds)) =
    some (record { status = 200; body = Body.messages (messages_json ds) })

unfoldable pub dequeue_handler :
    ℕ → String → String → String → List Round → Manager → Option Response × (Manager × Trace)
unfolding dequeue_answer
dequeue_handler start name raw_n raw_wait rounds m = elim (find_queue name m) [
  | err e ↦ (some (fail e), (m, []))
  | ok q ↦ elim (int_param raw_n (pos 1) (pos 1) (pos max_dequeue_n)) [
    | err f ↦ (some (bad_request "n" f), (m, []))
    | ok n ↦ elim (int_param raw_wait (pos 0) (pos 0) (pos max_dequeue_wait)) [
      | err f ↦ (some (bad_request "wait_ms" f), (m, []))
      | ok wait ↦
          let (out, (q', t)) = dequeue start n (pos_part (duration_of_ms wait)) rounds q in
          (dequeue_answer out, (with_queue name q' m, t))
    ]
  ]
]

-- The response to Ack and Nack.
unfoldable pub settle_answer : Result QueueError (Unit {0}) → Response
settle_answer (err e) = fail e
settle_answer (ok x) = record { status = 204; body = Body.no_content }

unfoldable pub ack_handler :
    Json AckRequest → String → String → List ℕ → LogAnswer → Manager → Handled
unfolding settle_answer
ack_handler json name id body answer m = elim (find_queue name m) [
  | err e ↦ (fail e, (m, []))
  | ok q ↦ elim (decode json body) [
    | err r ↦ (r, (m, []))
    | ok req ↦
        let (result, (q', t)) = ack id req.lease_token answer q in
        (settle_answer result, (with_queue name q' m, t))
  ]
]

unfoldable pub nack_handler :
    Json NackRequest → ℕ → String → String → List ℕ → LogAnswer → Manager → Handled
unfolding settle_answer
nack_handler json now name id body answer m = elim (find_queue name m) [
  | err e ↦ (fail e, (m, []))
  | ok q ↦ elim (decode json body) [
    | err r ↦ (r, (m, []))
    | ok req ↦
        let (result, (q', t)) =
          nack now id req.lease_token (duration_of_ms req.requeue_delay_ms) answer q in
        (settle_answer result, (with_queue name q' m, t))
  ]
]
