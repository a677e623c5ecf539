-- ===== src/Api/Honest.antt =====
-- The answers of the handlers of internal/api/api.go that write: enqueue, ack and nack.
use stitch.Prelude.{
  ℕ, ◌≡◌, refl, ◌⊎◌, false, String, some, List, ok, err, Option-cases, Result-cases, inl, inr,
}
use stitch.Prelude.Map
use stitch.Queue.Message.{queue_not_found}
use stitch.Queue.Live.{Queue}
use stitch.Queue.Payload.{Payload}
use stitch.Manager.{Manager, find_queue}
use stitch.Api.{Response, Body, decode, max_body_bytes}
use stitch.Api.Handlers.{Json}
use stitch.Api.Answers.{is_settled, is_created}

pub find_queue_cases :
    (name : String) (m : Manager)
    → (find_queue name m ≡ err queue_not_found)
      ⊎ ((q : Queue) × (Map.lookup name m.queues ≡ some q) × (find_queue name m ≡ ok q))
unfolding find_queue
find_queue_cases name m = elim (Option-cases (Map.lookup name m.queues)) [
  | inl missing ↦ inl (rw (find_queue, missing) refl)
  | inr (q, there) ↦ inr (q, there, rw (find_queue, there) refl)
]

-- A request, or an answer that is no success.
pub decode_cases :
    {A : Type 0} (json : Json A) (body : List ℕ)
    → ((r : Response) × (decode json body ≡ err r)
        × (is_settled r ≡ false)
        × (is_created r ≡ false))
      ⊎ ((a : A) × (decode json body ≡ ok a) × (json max_body_bytes body ≡ ok a))
unfolding decode
decode_cases json body = elim (Result-cases (json max_body_bytes body)) [
  | inl (a, good) ↦ inr (a, rw (decode, good) refl, good)
  | inr (e, bad) ↦
      inl (record { status = 400; body = Body.invalid_body e }, rw (decode, bad) refl, refl, refl)
]
