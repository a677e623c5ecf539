-- ===== src/Queue/Interleaving.antt =====
-- internal/queue/queue.go under concurrent callers: an operation lets go of the lock while its
-- append runs, so the locked parts of different operations come in any order. A state is the queue
-- and the operations whose append runs; a step is one locked part.
pub mod Safe
mod Tests
use stitch.Prelude.{ℕ, ◌+◌, ◌≡◌, Bool, String, Option, none, some, inc64, List, [], ◌∷◌, ◌++◌, ok}
use stitch.Prelude.Int.{ℤ, pos_part}
use stitch.Prelude.Map
use stitch.Prelude.Tally.{tally}
use stitch.Queue.Message.{Message}
use stitch.Queue.Order.{LeaseEntry}
use stitch.Queue.Live.{
  DedupEntry, Queue, dedup_hit, make_message, enqueue_reserve, enqueue_commit, promote_due,
  take_leased,
}
use stitch.Queue.Ops.{
  LogAnswer, pick, lease_items, dequeue_commit, ack_commit, nack_commit, is_exhausted,
  nack_visible_at, next_deadline,
}
use stitch.Queue.Maintain.{Reclaimed, maintain_reserve, commit_requeue, commit_bury}

-- What an operation keeps between its locked parts.
pub data Pending : Type 0 where
  enqueueing : Message → Pending
  granting : ℕ → (ℕ → String) → List Message → Pending
  acking : String → Message → Pending
  nacking : Message → Bool → ℕ → Pending
  requeueing : List (Message × LeaseEntry) → List (Message × LeaseEntry) → Pending
  burying : List (Message × LeaseEntry) → Pending

pub record World : Type 0 where
  pub queue : Queue
  pub pending : List Pending

-- One locked part. The clock, IDs, tokens and answers of the log are arbitrary, but the ID of a
-- message that Enqueue puts in is that of no live message.
pub data Step : World → World → Type 0 where
  enqueue_start :
      (now : ℕ) (id : String) (body : List ℕ) (priority delay : ℤ) (k : String) (q : Queue)
      (ps : List Pending)
      → dedup_hit k now q ≡ none
      → Step
          (record { queue = q; pending = ps })
          (record {
            queue = enqueue_reserve (make_message now id body priority delay k q) q;
            pending = enqueueing (make_message now id body priority delay k q) ∷ ps;
          })
  enqueue_deduped :
      (now : ℕ) (k : String) (e : DedupEntry) (q : Queue) (ps : List Pending)
      → dedup_hit k now q ≡ some e
      → Step
          (record { queue = q; pending = ps })
          (record {
            queue = record q { cnt = record q.cnt { deduped = inc64 q.cnt.deduped } };
            pending = ps;
          })
  enqueue_end :
      (m : Message) (answer : LogAnswer) (later : ℕ) (q : Queue) (ps qs : List Pending)
      → tally (Map.is m.id) (Map.keys q.msgs) ≡ 0
      → Step
          (record { queue = q; pending = ps ++ enqueueing m ∷ qs })
          (record { queue = (enqueue_commit m answer later q).1; pending = ps ++ qs })
  dequeue_start :
      (now n : ℕ) (token : ℕ → String) (q : Queue) (ps : List Pending)
      → Step
          (record { queue = q; pending = ps })
          (record {
            queue = (pick n (promote_due now q) []).0;
            pending =
                granting
                  (now + pos_part q.cfg.visibility_timeout_ms)
                  token
                  (pick n (promote_due now q) []).1
                ∷ ps;
          })
  dequeue_end :
      (expires : ℕ) (token : ℕ → String) (picked : List Message) (answer : LogAnswer) (q : Queue)
      (ps qs : List Pending)
      → Step
          (record { queue = q; pending = ps ++ granting expires token picked ∷ qs })
          (record {
            queue = (dequeue_commit expires picked (lease_items token 0 picked) answer q).1;
            pending = ps ++ qs;
          })
  ack_start :
      (id token : String) (m : Message) (q q1 : Queue) (ps : List Pending)
      → take_leased id token q ≡ ok (m, q1)
      → Step
          (record { queue = q; pending = ps })
          (record { queue = q1; pending = acking id m ∷ ps })
  ack_end :
      (id : String) (m : Message) (answer : LogAnswer) (q : Queue) (ps qs : List Pending)
      → Step
          (record { queue = q; pending = ps ++ acking id m ∷ qs })
          (record { queue = (ack_commit id m answer q).1; pending = ps ++ qs })
  nack_start :
      (now : ℕ) (id token : String) (delay : ℤ) (m : Message) (q q1 : Queue) (ps : List Pending)
      → take_leased id token q ≡ ok (m, q1)
      → Step
          (record { queue = q; pending = ps })
          (record {
            queue = q1;
            pending = nacking m (is_exhausted q m) (nack_visible_at now delay) ∷ ps;
          })
  nack_end :
      (m : Message) (to_dlq : Bool) (visible_at now : ℕ) (answer : LogAnswer) (q : Queue)
      (ps qs : List Pending)
      → Step
          (record { queue = q; pending = ps ++ nacking m to_dlq visible_at ∷ qs })
          (record { queue = (nack_commit m to_dlq visible_at now answer q).1; pending = ps ++ qs })
  maintain_start :
      (now : ℕ) (q : Queue) (ps : List Pending)
      → Step
          (record { queue = q; pending = ps })
          (record {
            queue = (maintain_reserve now q).queue;
            pending =
                requeueing (maintain_reserve now q).requeue (maintain_reserve now q).to_dlq ∷ ps;
          })
  maintain_middle :
      (now : ℕ) (requeue to_dlq : List (Message × LeaseEntry)) (answer : LogAnswer) (q : Queue)
      (ps qs : List Pending)
      → Step
          (record { queue = q; pending = ps ++ requeueing requeue to_dlq ∷ qs })
          (record {
            queue = commit_requeue now requeue answer q;
            pending = ps ++ burying to_dlq ∷ qs;
          })
  maintain_end :
      (to_dlq : List (Message × LeaseEntry)) (answer : LogAnswer) (q : Queue) (ps qs : List Pending)
      → Step
          (record { queue = q; pending = ps ++ burying to_dlq ∷ qs })
          (record { queue = commit_bury to_dlq answer q; pending = ps ++ qs })
  stats_taken :
      (now : ℕ) (q : Queue) (ps : List Pending)
      → Step
          (record { queue = q; pending = ps })
          (record { queue = promote_due now q; pending = ps })
  timer_armed :
      (q : Queue) (ps : List Pending)
      → Step
          (record { queue = q; pending = ps })
          (record { queue = (next_deadline q).1; pending = ps })

-- Any number of steps.
pub data Run : World → World → Type 0 where
  stop : (w : World) → Run w w
  step : (u v w : World) → Step u v → Run v w → Run u w
