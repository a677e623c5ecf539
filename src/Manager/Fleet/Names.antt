-- ===== src/Manager/Fleet/Names.antt =====
-- The payloads of an operation of internal/queue/queue.go carry the name of its queue.
use mathlib.Core.Path.{subst}
use stitch.Prelude.{
  ℕ, ◌≡◌, refl, sym, Bool, true, false, String, none, some, List, [], ◌∷◌, ◌++◌, length, ◌==◌,
  Bool-cases, Option-cases, inl, inr, if◌then◌else◌,
}
use stitch.Prelude.Int.{ℤ}
use stitch.Queue.Payload.{Payload}
use stitch.Queue.Live.{Queue, dedup_hit, promote_due, enqueue_payload}
use stitch.Queue.Ops.{
  LogAnswer, Trace, pick, enqueue, try_dequeue, ack, nack, is_exhausted, nack_visible_at, reason,
}
use stitch.Queue.Maintain.{is_empty, maintain_reserve, maintain, expire_items, ids_of}
use stitch.Queue.Invariant.Operations.{take_leased_cases}
use stitch.Manager.{queue_name}
use stitch.Manager.Mirror.{logged}
use stitch.Manager.Mirror.Silent.{logged-append}
use stitch.Manager.Mirror.History.{Move}
use stitch.Manager.Fleet.{is_create, AllOf}

AllOf-append : (n : String) (ps qs : List Payload) → AllOf n ps → AllOf n qs → AllOf n (ps ++ qs)
AllOf-append n [] qs a b = b
AllOf-append n (p ∷ ps) qs a b = (a.0, AllOf-append n ps qs a.1 b)

AllOf-one :
    (n : String) (p : Payload) (answer : LogAnswer)
    → queue_name p ≡ n
    → is_create p ≡ false
    → AllOf n (logged ((p, answer) ∷ []))
AllOf-one n p none e c = ((e, c), tt)
AllOf-one n p (some x) e c = tt

AllOf-unless :
    (n : String) (b : Bool) (p : Payload) (answer : LogAnswer)
    → queue_name p ≡ n
    → is_create p ≡ false
    → AllOf n (logged (if b then [] else (p, answer) ∷ []))
AllOf-unless n true p answer e c = tt
AllOf-unless n false p answer e c = AllOf-one n p answer e c

enqueue-AllOf :
    (now later : ℕ) (id : String) (body : List ℕ) (priority delay : ℤ) (k : String)
    (answer : LogAnswer) (q : Queue)
    → AllOf q.cfg.name (logged (enqueue now later id body priority delay k answer q).1.1)
unfolding enqueue enqueue_payload queue_name
enqueue-AllOf now later id body priority delay k answer q =
    elim (Option-cases (dedup_hit k now q)) [
      | inr (e, hit) ↦ rw (enqueue, hit) tt
      | inl free ↦ rw (enqueue, free) (AllOf-one q.cfg.name _ answer refl refl)
    ]

try_dequeue-AllOf :
    (now n : ℕ) (token : ℕ → String) (answer : LogAnswer) (q : Queue)
    → AllOf q.cfg.name (logged (try_dequeue now n token answer q).1.1)
unfolding try_dequeue queue_name
try_dequeue-AllOf now n token answer q =
    elim (Bool-cases (length (pick n (promote_due now q) []).1 == 0)) [
      | inl nothing ↦ rw (try_dequeue, nothing) tt
      | inr taken ↦ rw (try_dequeue, taken) (AllOf-one q.cfg.name _ answer refl refl)
    ]

ack-AllOf :
    (id token : String) (answer : LogAnswer) (q : Queue)
    → AllOf q.cfg.name (logged (ack id token answer q).1.1)
unfolding ack queue_name
ack-AllOf id token answer q = elim (take_leased_cases id token q) [
  | inl (e, bad) ↦ rw (ack, bad) tt
  | inr (m, there, good) ↦
      rw (ack, good) (AllOf-one q.cfg.name (Payload.ack q.cfg.name id) answer refl refl)
]

nack_payload :
    (b : Bool) (n id : String) (at : ℕ) (answer : LogAnswer)
    → AllOf n (
        logged
          ((if b then Payload.dlq_move n (id ∷ []) reason else Payload.nack n id at, answer) ∷ []))
unfolding queue_name
nack_payload true n id at answer =
    AllOf-one n (Payload.dlq_move n (id ∷ []) reason) answer refl refl
nack_payload false n id at answer = AllOf-one n (Payload.nack n id at) answer refl refl

nack-AllOf :
    (now : ℕ) (id token : String) (delay : ℤ) (answer : LogAnswer) (q : Queue)
    → AllOf q.cfg.name (logged (nack now id token delay answer q).1.1)
unfolding nack
nack-AllOf now id token delay answer q = elim (take_leased_cases id token q) [
  | inl (e, bad) ↦ rw (nack, bad) tt
  | inr (m, there, good) ↦
      rw (nack, good)
        (nack_payload (is_exhausted q m) q.cfg.name id (nack_visible_at now delay) answer)
]

maintain-AllOf :
    (now : ℕ) (answer1 answer2 : LogAnswer) (q : Queue)
    → AllOf q.cfg.name (logged (maintain now answer1 answer2 q).1.1)
unfolding maintain queue_name
maintain-AllOf now answer1 answer2 q =
    let n = q.cfg.name in
    let r = maintain_reserve now q in
    let p1 = Payload.expire n (expire_items now r.requeue) in
    let p2 = Payload.dlq_move n (ids_of r.to_dlq) reason in
    subst (AllOf n)
      (sym (
        logged-append (if is_empty r.requeue then [] else (p1, answer1) ∷ [])
          (if is_empty r.to_dlq then [] else (p2, answer2) ∷ [])))
      (AllOf-append n _ _ (AllOf-unless n (is_empty r.requeue) p1 answer1 refl refl)
        (AllOf-unless n (is_empty r.to_dlq) p2 answer2 refl refl))

pub Move-AllOf : (q q' : Queue) (t : Trace) → Move q t q' → AllOf q.cfg.name (logged t)
Move-AllOf q q' t (Move.enqueued now later id body priority delay k answer _ fresh) =
    enqueue-AllOf now later id body priority delay k answer q
Move-AllOf q q' t (Move.dequeued now n token answer _) = try_dequeue-AllOf now n token answer q
Move-AllOf q q' t (Move.acked id token answer _) = ack-AllOf id token answer q
Move-AllOf q q' t (Move.nacked now id token delay answer _) = nack-AllOf now id token delay answer q
Move-AllOf q q' t (Move.maintained now answer1 answer2 _) = maintain-AllOf now answer1 answer2 q
Move-AllOf q q' t (Move.inspected now _) = tt
Move-AllOf q q' t (Move.armed _) = tt
