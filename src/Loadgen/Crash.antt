-- ===== src/Loadgen/Crash.antt =====
-- The workers of the crash phase of cmd/loadgen/main.go. What each request comes to is an argument:
-- `gone` is a failure of the connection, after which the client counts as dead, `refused` a status of
-- 300 or more or an answer that cannot be decoded. A worker runs its loop on the shared record
-- files until it returns, or until the answers end.
pub mod Laws
use stitch.Prelude.{ℕ, ◌+◌, Bool, true, false, String, List, [], ◌∷◌, ◌++◌, ltb, if◌then◌else◌}

-- client.post
pub data Post (A : Type 0) : Type 0 where
  gone refused : Post A
  answered : A → Post A

-- The fields of a message that the workers read.
pub record Job : Type 0 where
  pub id : String
  pub lease_token : String

-- The record files, the counter of the producers, and the client's flag.
pub record Load : Type 0 where
  pub enqueued : List String
  pub pending : List String
  pub acked : List String
  pub next : ℕ
  pub dead : Bool

-- idFile.add
abbrev pub add : String → List String → List String
add id file = file ++ (id ∷ [])

-- A producer; each answer carries the ID of the message.
unfoldable pub produce : ℕ → List (Post String) → Load → Load
produce count [] l = l
produce count (p ∷ ps) l =
    let l1 = record l { next = l.next + 1 } in
    let after_post : Load = elim p [
      | Post.gone ↦ record l1 { dead = true }
      | Post.refused ↦ l1
      | Post.answered id ↦ produce count ps (record l1 { enqueued = add id l.enqueued })
    ] in
    if l.dead then l else if ltb l.next count then after_post else l1

-- The loop over the messages of one answer, each with what its ack comes to; whether the worker goes
-- on.
unfoldable pub ack_all : List (Job × Post (Unit {0})) → Load → Bool × Load
ack_all [] l = (true, l)
ack_all ((job, p) ∷ jobs) l =
    let l1 = record l { pending = add job.id l.pending } in
    elim p [
      | Post.gone ↦ (false, record l1 { dead = true })
      | Post.refused ↦ (false, l1)
      | Post.answered _ ↦ ack_all jobs (record l1 { acked = add job.id l.acked })
    ]

-- What a consumer does with the answer to its request for messages, and `rest` of its loop.
unfoldable pub consume_answer : Post (List (Job × Post (Unit {0}))) → (Load → Load) → Load → Load
unfolding ack_all
consume_answer Post.gone rest l = record l { dead = true }
consume_answer Post.refused rest l = l
consume_answer (Post.answered []) rest l = l
consume_answer (Post.answered (j ∷ jobs)) rest l =
    let (goes_on, l') = ack_all (j ∷ jobs) l in if goes_on then rest l' else l'

-- A consumer.
unfoldable pub consume : List (Post (List (Job × Post (Unit {0})))) → Load → Load
unfolding consume_answer
consume [] l = l
consume (p ∷ ps) l = if l.dead then l else consume_answer p (consume ps) l
