-- ===== src/Manager/Mirror/Passes.antt =====
-- What the operations of internal/queue/queue.go write about a dedup key that the queue holds, and
-- its replay (internal/queue/manager.go).
use stitch.Prelude.{
  ℕ, ◌≡◌, refl, sym, ap, ◌∙◌, Bool, true, false, not, ◌||◌, String, none, some, List, [], ◌∷◌, ◌++◌,
  ltb, ◌==◌, length, arith, str_eq, eq_iff, Bool-cases, Option-cases, Result-cases, inl, inr,
  if◌then◌else◌,
}
use stitch.Prelude.Int.{ℤ}
use stitch.Prelude.Map
use stitch.Prelude.Map.{Map}
use stitch.Queue.Payload.{Payload}
use stitch.Queue.Live.{
  DedupEntry, Queue, dedup_hit, make_message, enqueue_payload, promote_due, take_leased,
}
use stitch.Queue.Ops.{LogAnswer, Trace, enqueue, try_dequeue, ack, nack, pick, is_exhausted, reason}
use stitch.Queue.Maintain.{is_empty, maintain_reserve, maintain, expire_items, ids_of}
use stitch.Queue.Dedup.Window.{within, AllWithin, Move-keeps, hit_within}
use stitch.Manager.Mirror.{logged}
use stitch.Manager.Mirror.Silent.{logged-append}
use stitch.Manager.Mirror.History.{Move, History}
use stitch.Manager.Mirror.Dedup.{dedup_step, dedup_of, dedup_of-append}

-- A trace whose replay leaves the dedup entries alone.
abbrev Quiet : Trace → Type 0
Quiet t = (d : Map DedupEntry) → dedup_of (logged t) d ≡ d

Quiet-one :
    (p : Payload) (answer : LogAnswer)
    → ((d : Map DedupEntry) → dedup_step p d ≡ d)
    → Quiet ((p, answer) ∷ [])
Quiet-one p none still d = still d
Quiet-one p (some e) still d = refl

pub dedup_of-traces :
    (t u : Trace) (d : Map DedupEntry)
    → dedup_of (logged (t ++ u)) d ≡ dedup_of (logged u) (dedup_of (logged t) d)
dedup_of-traces t u d =
    ap (λ ps. dedup_of ps d) (logged-append t u) ∙ dedup_of-append (logged t) (logged u) d

Quiet-unless : (b : Bool) (t : Trace) → Quiet t → Quiet (if b then [] else t)
Quiet-unless true t still d = refl
Quiet-unless false t still d = still d

try_dequeue-Quiet :
    (now n : ℕ) (token : ℕ → String) (answer : LogAnswer) (q : Queue)
    → Quiet (try_dequeue now n token answer q).1.1
unfolding try_dequeue
try_dequeue-Quiet now n token answer q d =
    let x = pick n (promote_due now q) [] in
    elim (Bool-cases (length x.1 == 0)) [
      | inl none_ready ↦ rw (try_dequeue, none_ready) refl
      | inr some_ready ↦
          rw (try_dequeue, some_ready) (Quiet-one (Payload.lease _ _ _) answer (λ c. refl) d)
    ]

ack-Quiet : (id token : String) (answer : LogAnswer) (q : Queue) → Quiet (ack id token answer q).1.1
unfolding ack
ack-Quiet id token answer q d = elim (Result-cases (take_leased id token q)) [
  | inr (e, bad) ↦ rw (ack, bad) refl
  | inl ((m, q1), good) ↦ rw (ack, good) (Quiet-one (Payload.ack _ _) answer (λ c. refl) d)
]

nack-Quiet :
    (now : ℕ) (id token : String) (delay : ℤ) (answer : LogAnswer) (q : Queue)
    → Quiet (nack now id token delay answer q).1.1
unfolding nack
nack-Quiet now id token delay answer q d = elim (Result-cases (take_leased id token q)) [
  | inr (e, bad) ↦ rw (nack, bad) refl
  | inl ((m, q1), good) ↦ elim (Option-cases answer) [
    | inr (f, refused) ↦ rw (nack, good, refused) refl
    | inl written ↦ elim (Bool-cases (is_exhausted q m)) [
      | inl dead ↦ rw (nack, good, written, dead) refl
      | inr alive ↦ rw (nack, good, written, alive) refl
    ]
  ]
]

maintain-Quiet :
    (now : ℕ) (answer1 answer2 : LogAnswer) (q : Queue) → Quiet (maintain now answer1 answer2 q).1.1
unfolding maintain
maintain-Quiet now answer1 answer2 q d =
    let r = maintain_reserve now q in
    let t1 : Trace = (Payload.expire q.cfg.name (expire_items now r.requeue), answer1) ∷ [] in
    let t2 : Trace = (Payload.dlq_move q.cfg.name (ids_of r.to_dlq) reason, answer2) ∷ [] in
    dedup_of-traces (if is_empty r.requeue then [] else t1) (if is_empty r.to_dlq then [] else t2) d
    ∙ Quiet-unless (is_empty r.to_dlq) t2 (Quiet-one _ answer2 (λ c. refl)) _
    ∙ Quiet-unless (is_empty r.requeue) t1 (Quiet-one _ answer1 (λ c. refl)) d

module _ (k : String) (e : DedupEntry) (keyed : str_eq k "" ≡ false) where
  -- An Enqueue with another key, or with a key that the queue holds, replays past the entry.
  enqueue-passes :
      (now later : ℕ) (id : String) (body : List ℕ) (priority delay : ℤ) (key : String)
      (answer : LogAnswer) (q : Queue) (d : Map DedupEntry)
      → not (str_eq key k) || ltb now e.expires_at ≡ true
      → Map.lookup k q.dedup ≡ some e
      → Map.lookup k d ≡ some e
      → Map.lookup k
          (dedup_of (logged (enqueue now later id body priority delay key answer q).1.1) d)
        ≡ some e
  unfolding make_message enqueue_payload enqueue Map.lookup
  enqueue-passes now later id body priority delay key answer q d soon live there =
      elim (Option-cases (dedup_hit key now q)) [
        | inr (f, taken) ↦ rw (enqueue, taken) there
        | inl free ↦ elim (Bool-cases (str_eq key k)) [
          | inl same ↦
              let hit =
                ap (λ x. dedup_hit x now q) ((eq_iff key k).0 same)
                ∙ hit_within k e keyed now q live (ground (arith, soon, same)) in
              absurd (let x = sym free ∙ hit in cc)
          | inr apart ↦ elim (Option-cases answer) [
            | inr (f, refused) ↦ rw (enqueue, free, refused) there
            | inl written ↦ elim (Bool-cases (str_eq key "")) [
              | inl plain ↦ rw (enqueue, free, written, plain) there
              | inr other ↦
                  rw (enqueue, free, written, other)
                    (Map.lookup-insert_other k key _ d apart ∙ there)
            ]
          ]
        ]
      ]

  Move-passes :
      (q q' : Queue) (t : Trace) (move : Move q t q') (d : Map DedupEntry)
      → within k e keyed move ≡ true
      → Map.lookup k q.dedup ≡ some e
      → Map.lookup k d ≡ some e
      → Map.lookup k (dedup_of (logged t) d) ≡ some e
  Move-passes q q' t (Move.enqueued now later id body priority delay key answer _ fresh) d w live
        there =
      enqueue-passes now later id body priority delay key answer q d w live there
  Move-passes q q' t (Move.dequeued now n token answer _) d w live there =
      ap (Map.lookup k) (try_dequeue-Quiet now n token answer q d) ∙ there
  Move-passes q q' t (Move.acked id token answer _) d w live there =
      ap (Map.lookup k) (ack-Quiet id token answer q d) ∙ there
  Move-passes q q' t (Move.nacked now id token delay answer _) d w live there =
      ap (Map.lookup k) (nack-Quiet now id token delay answer q d) ∙ there
  Move-passes q q' t (Move.maintained now answer1 answer2 _) d w live there =
      ap (Map.lookup k) (maintain-Quiet now answer1 answer2 q d) ∙ there
  Move-passes q q' t (Move.inspected now _) d w live there = there
  Move-passes q q' t (Move.armed _) d w live there = there

  pub History-passes :
      (q q' : Queue) (t : Trace) (h : History q t q') (d : Map DedupEntry)
      → AllWithin k e keyed h
      → Map.lookup k q.dedup ≡ some e
      → Map.lookup k d ≡ some e
      → Map.lookup k (dedup_of (logged t) d) ≡ some e
  History-passes q q' t (History.stop _) d w live there = there
  History-passes q q' t (History.next _ q2 _ u v move h) d w live there =
      ap (Map.lookup k) (dedup_of-traces u v d)
      ∙ History-passes q2 q' v h _ w.1 (Move-keeps k e keyed q q2 u move w.0 live)
          (Move-passes q q2 u move d w.0 live there)
