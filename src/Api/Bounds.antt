-- ===== src/Api/Bounds.antt =====
-- The parameters and the lengths of answers of internal/api/api.go.
use stitch.Prelude.{
  ℕ, zero, suc, ◌+◌, ◌*◌, ◌%◌, ◌^◌, ◌≤◌, ◌≡◌, refl, Bool, true, false, String, Option, none, some,
  List, [], ◌∷◌, ◌++◌, Result, ok, err, arith, length, length-append, ltb, ◌==◌, str_eq, Bool-cases,
  Option-cases, Result-cases, inl, inr,
}
use mathlib.Core.Path.{subst}
use stitch.Prelude.{ok_injective}
use stitch.Prelude.Int.{ℤ, pos, pos_part, ltb_ℤ}
use stitch.Queue.Message.{Message, Delivery, QueueError, codes}
use stitch.Queue.Order.{ready_pop}
use stitch.Queue.Payload.{LeaseItem}
use stitch.Queue.Live.{Queue, is_lifo, promote_due, milliseconds}
use stitch.Queue.Ops.{LogAnswer, Trace, pick, grant, lease_items, dequeue_commit, try_dequeue}
use stitch.Queue.Polling.{
  Woken, context_done, queue_done, timer_fired, Round, Outcome, waiting, hung_up, returned,
  after_try, poll, wanted, dequeue,
}
use stitch.Manager.{Manager}
use stitch.Api.{Response, Body, fail, max_dequeue_n}
use stitch.Api.Params.{atoi, int_param, duration_of_ms}
use stitch.Api.Handlers.{messages_json, dequeue_answer, dequeue_handler}
use stitch.Api.Honest.{find_queue_cases}

-- Neither below `lo` nor above `hi`.
abbrev pub InRange : ℤ → ℤ → ℤ → Type 0
InRange lo hi v = (ltb_ℤ v lo ≡ false) × (ltb_ℤ hi v ≡ false)

-- intParam gives a value of its range, or refuses: whatever the text of the parameter is, it accepts
-- the default or a number of the range, where the default is in the range and the range is not
-- empty.
pub int_param-InRange :
    (raw : String) (default lo hi v : ℤ)
    → InRange lo hi default
    → ltb_ℤ hi lo ≡ false
    → int_param raw default lo hi ≡ ok v
    → InRange lo hi v
unfolding int_param
int_param-InRange raw default lo hi v d range e = elim (Bool-cases (str_eq raw "")) [
  | inl absent ↦ ground (arith, rw absent at e, d)
  | inr given ↦ elim (Option-cases (atoi (codes raw))) [
    | inl bad ↦ absurd (ground (arith, rw (given, bad) at e))
    | inr (x, good) ↦ elim (Bool-cases (ltb_ℤ x lo)) [
      | inl small ↦ absurd (ground (arith, rw (given, good, small) at e))
      | inr enough ↦ elim (Bool-cases (ltb_ℤ hi x)) [
        | inl big ↦
            subst (InRange lo hi) (ok_injective hi v (rw (given, good, enough, big) at e))
              (range, ground arith)
        | inr fits ↦
            subst (InRange lo hi) (ok_injective x v (rw (given, good, enough, fits) at e))
              (enough, fits)
      ]
    ]
  ]
]

-- The milliseconds of a delay that has at most 9223372036854 of them come through the conversion to
-- a duration of int64 nanoseconds and back.
pub milliseconds-duration_of_ms :
    (n : ℕ) → n ≤ 9223372036854 → milliseconds (duration_of_ms (pos n)) ≡ n
unfolding duration_of_ms
milliseconds-duration_of_ms n h =
    let small : (n * 1000000) % 2 ^ 64 ≡ n * 1000000 = omega (arith, h) in
    let fits : ltb (n * 1000000) (2 ^ 63) ≡ true = ground (arith, h) in
    rw (duration_of_ms, small, fits) (omega arith)

-- How many messages a result brings, and an outcome.
abbrev pub size_of : Result QueueError (List Delivery) → ℕ
size_of (ok ds) = length ds
size_of (err e) = 0

abbrev pub handed : Outcome → ℕ
handed (returned r) = size_of r
handed _ = 0

length-pick : (n : ℕ) (q : Queue) (acc : List Message) → length (pick n q acc).1 ≤ length acc + n
unfolding pick
length-pick zero q acc = omega arith
length-pick (suc n) q acc = elim (Option-cases (ready_pop (is_lifo q) q.ready)) [
  | inl empty ↦ rw (pick, empty) (omega arith)
  | inr ((m, rest), some_left) ↦
      rw (pick, some_left)
        (omega (
          arith,
          length-pick n (record q { ready = rest }) (acc ++ (m ∷ [])),
          length-append acc (m ∷ []),
        ))
]

length-grant :
    (expires : ℕ) (ms : List Message) (items : List LeaseItem) (q : Queue)
    → length (grant expires ms items q).1 ≤ length ms
unfolding grant
length-grant expires [] items q = omega arith
length-grant expires (m ∷ ms) [] q = omega arith
length-grant expires (m ∷ ms) (it ∷ items) q = omega (arith, length-grant expires ms items _)

length-dequeue_commit :
    (expires : ℕ) (ms : List Message) (items : List LeaseItem) (answer : LogAnswer) (q : Queue)
    → size_of (dequeue_commit expires ms items answer q).0 ≤ length ms
unfolding dequeue_commit
length-dequeue_commit expires ms items (some e) q = omega arith
length-dequeue_commit expires ms items none q = length-grant expires ms items q

length-try_dequeue :
    (now n : ℕ) (token : ℕ → String) (answer : LogAnswer) (q : Queue)
    → size_of (try_dequeue now n token answer q).0 ≤ n
unfolding try_dequeue
length-try_dequeue now n token answer q =
    let x = pick n (promote_due now q) [] in
    let few = length-pick n (promote_due now q) [] in
    elim (Bool-cases (length x.1 == 0)) [
      | inl nothing ↦ rw (try_dequeue, nothing) (omega arith)
      | inr taken ↦
          rw (try_dequeue, taken)
            (omega (
              arith,
              few,
              length-dequeue_commit (now + pos_part q.cfg.visibility_timeout_ms) x.1
                  (lease_items token 0 x.1) answer x.0,
            ))
    ]

length-after_try :
    (n : ℕ) (result : Result QueueError (List Delivery)) (past : Bool) (woken : Woken)
    (x : Queue × Trace) (later : Outcome × (Queue × Trace))
    → size_of result ≤ n
    → handed later.0 ≤ n
    → handed (after_try result past woken x later).0 ≤ n
unfolding after_try
length-after_try n (err e) past woken x later few rest = omega arith
length-after_try n (ok (d ∷ ds)) past woken x later few rest = few
length-after_try n (ok []) true woken x later few rest = omega arith
length-after_try n (ok []) false context_done x later few rest = omega arith
length-after_try n (ok []) false queue_done x later few rest = omega arith
length-after_try n (ok []) false timer_fired x later few rest = rest

length-poll :
    (deadline n : ℕ) (rounds : List Round) (q : Queue) → handed (poll deadline n rounds q).0 ≤ n
unfolding poll
length-poll deadline n [] q = omega arith
length-poll deadline n (r ∷ rs) q =
    length-after_try n _ _ r.woken _ _ (length-try_dequeue r.now n r.token r.answer q)
      (length-poll deadline n rs _)

length-messages_json : (ds : List Delivery) → length (messages_json ds) ≡ length ds
length-messages_json [] = refl
length-messages_json (d ∷ ds) = omega (arith, length-messages_json ds)

-- How many messages an answer carries.
abbrev pub carried : Option Response → ℕ
carried none = 0
carried (some r) = elim r.body [ Body.messages ms ↦ length ms | _ ↦ 0 ]

carried-dequeue_answer : (out : Outcome) → carried (dequeue_answer out) ≤ handed out
unfolding dequeue_answer fail
carried-dequeue_answer waiting = omega arith
carried-dequeue_answer hung_up = omega arith
carried-dequeue_answer (returned (err e)) = omega arith
carried-dequeue_answer (returned (ok ds)) = omega (arith, length-messages_json ds)

wanted_le : (v : ℤ) → InRange (pos 1) (pos 1000) v → wanted v ≤ 1000
wanted_le v h = ground (arith, h)

-- An answer to a request for messages carries at most maxDequeueN of them, whatever number the
-- request asks for, however many wait, and however often the handler tries.
pub length-dequeue_handler :
    (start : ℕ) (name raw_n raw_wait : String) (rounds : List Round) (m : Manager)
    → carried (dequeue_handler start name raw_n raw_wait rounds m).0 ≤ max_dequeue_n
unfolding dequeue_handler fail dequeue
length-dequeue_handler start name raw_n raw_wait rounds m = elim (find_queue_cases name m) [
  | inl missing ↦ rw (dequeue_handler, missing) (omega arith)
  | inr (q, there, found) ↦ elim (Result-cases (int_param raw_n (pos 1) (pos 1) (pos 1000))) [
    | inr (f, bad) ↦ rw (dequeue_handler, found, bad) (omega arith)
    | inl (v, good) ↦ elim (Result-cases (int_param raw_wait (pos 0) (pos 0) (pos 60000))) [
      | inr (f, bad) ↦ rw (dequeue_handler, found, good, bad) (omega arith)
      | inl (wait, fine) ↦
          let few = length-poll (start + pos_part (duration_of_ms wait)) (wanted v) rounds q in
          let range = int_param-InRange raw_n (pos 1) (pos 1) (pos 1000) v (refl, refl) refl good in
          rw (dequeue_handler, found, good, fine)
            (omega (arith, few, wanted_le v range, carried-dequeue_answer _))
    ]
  ]
]
