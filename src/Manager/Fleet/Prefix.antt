-- ===== src/Manager/Fleet/Prefix.antt =====
-- Calls on a manager of internal/queue/manager.go whose appends the log confirmed up to some point:
-- the same calls, cut off there.
use mathlib.Core.List.{append_assoc, append-nil}
use mathlib.Core.Path.{subst}
use stitch.Prelude.{
  ℕ, ◌≤◌, ◌≡◌, refl, sym, ap, ◌∙◌, Bool, true, false, ◌⊎◌, none, some, List, [], ◌∷◌, ◌++◌, ◌==◌,
  arith, length, length-append, Option-cases, Bool-cases, Result-cases, inl, inr, if◌then◌else◌,
  String,
}
use stitch.Prelude.Int.{ℤ}
use stitch.Prelude.Map
use stitch.Queue.Message.{manager_closed}
use stitch.Queue.Payload.{Payload}
use stitch.Queue.Live.{Queue, dedup_hit, promote_due, take_leased}
use stitch.Queue.Ops.{LogAnswer, Trace, enqueue, try_dequeue, pick, ack, nack, reason}
use stitch.Queue.Maintain.{is_empty, maintain, maintain_reserve, expire_items, ids_of}
use stitch.Manager.{Manager}
use stitch.Manager.Mirror.{logged}
use stitch.Manager.Mirror.Silent.{logged-append}
use stitch.Manager.Mirror.History.{Move}
use stitch.Manager.Fleet.{Act, Life}
use stitch.Manager.Fleet.Lift.{create_queue_cases}

pub Life-append :
    (m1 m2 m3 : Manager) (t u : Trace) → Life m1 t m2 → Life m2 u m3 → Life m1 (t ++ u) m3
Life-append m1 m2 m3 t u (Life.stop _) k = k
Life-append m1 m2 m3 t u (Life.next _ n _ v w a h) k =
    subst (λ x. Life m1 x m3) (sym (append_assoc v w u))
      (Life.next m1 n m3 v (w ++ u) a (Life-append n m2 m3 w u h k))

length-logged : (t : Trace) → length (logged t) ≤ length t
length-logged [] = omega arith
length-logged ((p, none) ∷ t) = omega (arith, length-logged t)
length-logged ((p, some e) ∷ t) = omega (arith, length-logged t)

enqueue_traced :
    (now later : ℕ) (id : String) (body : List ℕ) (priority delay : ℤ) (k : String)
    (answer : LogAnswer) (q : Queue)
    → length (enqueue now later id body priority delay k answer q).1.1 ≤ 1
unfolding enqueue
enqueue_traced now later id body priority delay k answer q =
    elim (Option-cases (dedup_hit k now q)) [
      | inl free ↦ rw (enqueue, free) (omega arith)
      | inr (e, taken) ↦ rw (enqueue, taken) (omega arith)
    ]

try_dequeue_traced :
    (now n : ℕ) (token : ℕ → String) (answer : LogAnswer) (q : Queue)
    → length (try_dequeue now n token answer q).1.1 ≤ 1
unfolding try_dequeue
try_dequeue_traced now n token answer q =
    elim (Bool-cases (length (pick n (promote_due now q) []).1 == 0)) [
      | inl nothing ↦ rw (try_dequeue, nothing) (omega arith)
      | inr taken ↦ rw (try_dequeue, taken) (omega arith)
    ]

ack_traced :
    (id token : String) (answer : LogAnswer) (q : Queue) → length (ack id token answer q).1.1 ≤ 1
unfolding ack
ack_traced id token answer q = elim (Result-cases (take_leased id token q)) [
  | inl ((m, q1), took) ↦ rw (ack, took) (omega arith)
  | inr (e, refused) ↦ rw (ack, refused) (omega arith)
]

nack_traced :
    (now : ℕ) (id token : String) (delay : ℤ) (answer : LogAnswer) (q : Queue)
    → length (nack now id token delay answer q).1.1 ≤ 1
unfolding nack
nack_traced now id token delay answer q = elim (Result-cases (take_leased id token q)) [
  | inl ((m, q1), took) ↦ rw (nack, took) (omega arith)
  | inr (e, refused) ↦ rw (nack, refused) (omega arith)
]

-- The trace of Maintain: if it logged two payloads, it logs the first alone when the second append
-- fails.
two_parts : Bool → Bool → Payload → Payload → LogAnswer → LogAnswer → Trace
two_parts b c p1 p2 a1 a2 = (if b then [] else (p1, a1) ∷ []) ++ (if c then [] else (p2, a2) ∷ [])

first_alone :
    (b c : Bool) (p1 p2 : Payload) (a1 a2 : LogAnswer) (p r : Payload) (rs : List Payload)
    → logged (two_parts b c p1 p2 a1 a2) ≡ p ∷ r ∷ rs
    → logged (two_parts b c p1 p2 none (some manager_closed)) ≡ p ∷ []
unfolding two_parts
first_alone true true p1 p2 a1 a2 p r rs h = absurd (omega (arith, ap length h))
first_alone true false p1 p2 a1 none p r rs h = absurd (omega (arith, ap length h))
first_alone true false p1 p2 a1 (some e) p r rs h = absurd (omega (arith, ap length h))
first_alone false true p1 p2 none a2 p r rs h = absurd (omega (arith, ap length h))
first_alone false true p1 p2 (some e) a2 p r rs h = absurd (omega (arith, ap length h))
first_alone false false p1 p2 (some e) none p r rs h = absurd (omega (arith, ap length h))
first_alone false false p1 p2 (some e) (some f) p r rs h = absurd (omega (arith, ap length h))
first_alone false false p1 p2 none (some f) p r rs h = absurd (omega (arith, ap length h))
first_alone false false p1 p2 none none p r rs h = cc

maintain-first :
    (now : ℕ) (a1 a2 : LogAnswer) (q : Queue) (p r : Payload) (rs : List Payload)
    → logged (maintain now a1 a2 q).1.1 ≡ p ∷ r ∷ rs
    → logged (maintain now none (some manager_closed) q).1.1 ≡ p ∷ []
unfolding maintain two_parts
maintain-first now a1 a2 q p r rs h =
    let taken = maintain_reserve now q in
    first_alone (is_empty taken.requeue) (is_empty taken.to_dlq)
      (Payload.expire q.cfg.name (expire_items now taken.requeue))
      (Payload.dlq_move q.cfg.name (ids_of taken.to_dlq) reason) a1 a2 p r rs h

-- Calls from `m` of which the log confirmed exactly `ps`.
abbrev pub Until : Manager → List Payload → Type 0
Until m ps = (u : Trace) × (m' : Manager) × Life m u m' × (logged u ≡ ps)

Act-whole : (m m' : Manager) (t : Trace) → Act m t m' → Until m (logged t)
Act-whole m m' t a =
    (t ++ [], m', Life.next m m' m' t [] a (Life.stop m'), ap logged (append-nil t))

-- A single append is whole or not there.
short :
    (m m' : Manager) (t : Trace) (p r : Payload) (ps rs : List Payload)
    → length t ≤ 1
    → logged t ≡ (p ∷ ps) ++ r ∷ rs
    → Until m (p ∷ ps)
short m m' t p r ps rs h e =
    absurd (omega (arith, h, length-logged t, ap length e, length-append ps (r ∷ rs)))

two_at_most :
    (b c : Bool) (p1 p2 : Payload) (a1 a2 : LogAnswer) → length (two_parts b c p1 p2 a1 a2) ≤ 2
unfolding two_parts
two_at_most true true p1 p2 a1 a2 = omega arith
two_at_most true false p1 p2 a1 a2 = omega arith
two_at_most false true p1 p2 a1 a2 = omega arith
two_at_most false false p1 p2 a1 a2 = omega arith

maintain_traced : (now : ℕ) (a1 a2 : LogAnswer) (q : Queue) → length (maintain now a1 a2 q).1.1 ≤ 2
unfolding maintain two_parts
maintain_traced now a1 a2 q =
    let taken = maintain_reserve now q in
    two_at_most (is_empty taken.requeue) (is_empty taken.to_dlq)
      (Payload.expire q.cfg.name (expire_items now taken.requeue))
      (Payload.dlq_move q.cfg.name (ids_of taken.to_dlq) reason) a1 a2

-- Of the two appends of Maintain the second may be the one that is missing.
maintained-prefix :
    (m : Manager) (q : Queue) (now : ℕ) (a1 a2 : LogAnswer) (p r : Payload) (ps rs : List Payload)
    → Map.lookup q.cfg.name m.queues ≡ some q
    → logged (maintain now a1 a2 q).1.1 ≡ (p ∷ ps) ++ r ∷ rs
    → Until m (p ∷ ps)
maintained-prefix m q now a1 a2 p r [] rs there e =
    let cut = maintain now none (some manager_closed) q in
    subst (Until m) (maintain-first now a1 a2 q p r rs e) (
      Act-whole m _ cut.1.1
        (Act.moved q cut.1.0 cut.1.1 m there (Move.maintained now none (some manager_closed) q)))
maintained-prefix m q now a1 a2 p r (x ∷ ps) rs there e = absurd (
    omega (
      arith,
      maintain_traced now a1 a2 q,
      length-logged (maintain now a1 a2 q).1.1,
      ap length e,
      length-append ps (r ∷ rs),
    ))

Act-prefix :
    (m m' : Manager) (t : Trace) (ps rs : List Payload)
    → Act m t m'
    → logged t ≡ ps ++ rs
    → Until m ps
Act-prefix m m' t [] rs a e = ([], m, Life.stop m, refl)
Act-prefix m m' t (p ∷ ps) [] a e = subst (Until m) (e ∙ append-nil (p ∷ ps)) (Act-whole m m' t a)
Act-prefix m m' t (p ∷ ps) (r ∷ rs) (Act.created cfg answer _) e =
    elim (create_queue_cases cfg answer m) [
      | inl (nothing, same) ↦ absurd (omega (arith, ap length nothing, ap length e))
      | inr (c, normal, free, logs, made) ↦
          absurd (omega (arith, ap length logs, ap length e, length-append ps (r ∷ rs)))
    ]
Act-prefix m m' t (p ∷ ps) (r ∷ rs)
      (Act.moved q q' _ _ there (Move.enqueued now later id body priority delay k answer _ fresh))
      e =
    short m m' t p r ps rs (enqueue_traced now later id body priority delay k answer q) e
Act-prefix m m' t (p ∷ ps) (r ∷ rs) (Act.moved q q' _ _ there (Move.dequeued now n token answer _))
      e =
    short m m' t p r ps rs (try_dequeue_traced now n token answer q) e
Act-prefix m m' t (p ∷ ps) (r ∷ rs) (Act.moved q q' _ _ there (Move.acked id token answer _)) e =
    short m m' t p r ps rs (ack_traced id token answer q) e
Act-prefix m m' t (p ∷ ps) (r ∷ rs)
      (Act.moved q q' _ _ there (Move.nacked now id token delay answer _)) e =
    short m m' t p r ps rs (nack_traced now id token delay answer q) e
Act-prefix m m' t (p ∷ ps) (r ∷ rs) (Act.moved q q' _ _ there (Move.maintained now a1 a2 _)) e =
    maintained-prefix m q now a1 a2 p r ps rs there e
Act-prefix m m' t (p ∷ ps) (r ∷ rs) (Act.moved q q' _ _ there (Move.inspected now _)) e =
    absurd (omega (arith, ap length e))
Act-prefix m m' t (p ∷ ps) (r ∷ rs) (Act.moved q q' _ _ there (Move.armed _)) e =
    absurd (omega (arith, ap length e))

-- Two ways to cut a log of two parts: in the first, or in the second.
split_append :
    (xs ys ps rs : List Payload)
    → xs ++ ys ≡ ps ++ rs
    → ((cs : List Payload) × (xs ≡ ps ++ cs))
      ⊎ ((cs : List Payload) × (ps ≡ xs ++ cs) × (ys ≡ cs ++ rs))
split_append [] ys ps rs e = inr (ps, refl, e)
split_append (x ∷ xs) ys [] rs e = inl (x ∷ xs, refl)
split_append (x ∷ xs) ys (p ∷ ps) rs e =
    let head : x ≡ p = cc in
    elim (split_append xs ys ps rs (cc)) [
      | inl (cs, f) ↦ inl (cs, rw (f, head) refl)
      | inr (cs, f, g) ↦ inr (cs, rw (f, head) refl, g)
    ]

-- Whatever a log confirmed of calls, up to any point, it would confirm of calls cut off there.
pub Life-prefix :
    (m m' : Manager) (t : Trace) (ps rs : List Payload)
    → Life m t m'
    → logged t ≡ ps ++ rs
    → Until m ps
Life-prefix m m' t [] rs h e = ([], m, Life.stop m, refl)
Life-prefix m m' t (p ∷ ps) rs (Life.stop _) e = absurd (omega (arith, ap length e))
Life-prefix m m' t (p ∷ ps) rs (Life.next _ n _ u v a h) e =
    elim (split_append (logged u) (logged v) (p ∷ ps) rs (sym (logged-append u v) ∙ e)) [
      | inl (cs, f) ↦ Act-prefix m n u (p ∷ ps) cs a f
      | inr (cs, f, g) ↦
          let (w, k, rest, same) = Life-prefix n m' v cs rs h g in
          (
            u ++ w,
            k,
            Life.next m n k u w a rest,
            logged-append u w ∙ ap (λ x. logged u ++ x) same ∙ sym f,
          )
    ]
