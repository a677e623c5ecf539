-- ===== src/Queue/Leases/Operations.antt =====
-- Enqueue, tryDequeue, Ack and Nack of internal/queue/queue.go, and the leases of a queue.
use mathlib.Core.Path.{subst}
use stitch.Prelude.{
  ℕ, ◌+◌, ◌≤◌, ◌<◌, ◌≡◌, refl, sym, ap, ◌∙◌, Bool, true, false, String, none, some, List, [], ◌∷◌,
  ◌++◌, length, ◌==◌, arith, str_eq, eq_iff, Bool-cases, Option-cases, List-cases, inl, inr,
}
use stitch.Prelude.Int.{ℤ, pos_part}
use stitch.Prelude.Map
use stitch.Prelude.Map.{Map}
use stitch.Prelude.Tally.{bit, tally}
use stitch.Queue.Message.{Message}
use stitch.Queue.Message.Same.{same_message, same_message_sound}
use stitch.Queue.Order.{LeaseEntry, no_lease, lease_less, lease_push}
use stitch.Queue.Order.Laws.{lease_less-StrictOrder}
use stitch.Queue.Heap.Ops.{push_correct}
use stitch.Queue.Live.{
  Queue, dedup_hit, make_message, enqueue_reserve, enqueue_commit, promote_due, restore_leased,
  move_to_dlq,
}
use stitch.Queue.Ops.{
  LogAnswer, enqueue, pick, lease_items, leased_message, grant, dequeue_commit, try_dequeue, ack,
  ack_commit, nack, nack_commit, requeued, is_exhausted, nack_visible_at,
}
use stitch.Queue.Delivery.{pick-Picked}
use stitch.Queue.Invariant.{LeaseHeap, Balanced}
use stitch.Queue.Invariant.Steps.{held_once, leased-Balanced}
use stitch.Queue.Invariant.Loops.{
  lease_item, granted, granted-Balanced, promote_due-Balanced, pick-Balanced,
}
use stitch.Queue.Invariant.Operations.{take_leased_cases}
use stitch.Queue.Leases.{
  watches, lent, Lent, Watched, lent-put, lent-promote_due, lent-push_back, lent-wake_if_sooner,
}

pub tally-lease_push :
    (p : LeaseEntry → Bool) (h : List LeaseEntry) (e : LeaseEntry)
    → LeaseHeap h
    → tally p (lease_push h e) ≡ bit (p e) + tally p h
unfolding lease_push
tally-lease_push p h e o = (push_correct lease_less no_lease lease_less-StrictOrder h e o).1 p

pub watches-own :
    (m : Message) (e : LeaseEntry)
    → e.id ≡ m.id
    → e.token ≡ m.lease_token
    → e.expires_at ≤ m.lease_expires
    → watches m e ≡ true
unfolding watches
watches-own m e same_id same_token early =
    ground (arith, (eq_iff e.id m.id).1 same_id, (eq_iff e.token m.lease_token).1 same_token)

-- A message that the tally counts is one of those it is compared with.
pub same-one : (m m' : Message) (P : Message → Type 0) → P m' → 0 < bit (same_message m m') → P m
same-one m m' P h c = elim (Bool-cases (same_message m m')) [
  | inl same ↦ subst P (sym (same_message_sound m m' same)) h
  | inr other ↦ absurd (omega (arith, ap bit other))
]

module _ (held : List Message) where
  -- A message taken out of flight is held.
  pub taken-Watched :
      (id : String) (m : Message) (q : Queue)
      → Map.lookup id q.inflight ≡ some m
      → Watched held (lent q)
      → Watched (m ∷ held) (Map.delete id q.inflight, q.leases)
  taken-Watched id m q e w x c =
      w x (omega (arith, c, Map.values-delete id (same_message x) m q.inflight e))

  pub restored-Watched :
      (m : Message) (q : Queue)
      → Balanced (m ∷ held) q
      → Watched (m ∷ held) (lent q)
      → Watched held (lent (restore_leased m q))
  unfolding restore_leased
  restored-Watched m q b w x c =
      let new = Map.values-insert_new m.id (same_message x) m q.inflight (held_once held m q b).1 in
      w x (omega (arith, c, new))

  -- What is no longer held need no longer be watched.
  pub forgotten-Watched : (m : Message) (l : Lent) → Watched (m ∷ held) l → Watched held l
  forgotten-Watched m l w x c = w x (omega (arith, c))

  pub ack_commit-Watched :
      (id : String) (m : Message) (answer : LogAnswer) (q : Queue)
      → Balanced (m ∷ held) q
      → Watched (m ∷ held) (lent q)
      → Watched held (lent (ack_commit id m answer q).1)
  unfolding ack_commit
  ack_commit-Watched id m (some e) q b w = restored-Watched m q b w
  ack_commit-Watched id m none q b w = forgotten-Watched m (lent q) w

  pub nack_commit-Watched :
      (m : Message) (to_dlq : Bool) (visible_at now : ℕ) (answer : LogAnswer) (q : Queue)
      → Balanced (m ∷ held) q
      → Watched (m ∷ held) (lent q)
      → Watched held (lent (nack_commit m to_dlq visible_at now answer q).1)
  unfolding nack_commit move_to_dlq
  nack_commit-Watched m to_dlq visible_at now (some e) q b w = restored-Watched m q b w
  nack_commit-Watched m true visible_at now none q b w = forgotten-Watched m (lent q) w
  nack_commit-Watched m false visible_at now none q b w =
      subst (Watched held) (sym (lent-put (requeued m visible_at) now q))
        (forgotten-Watched m (lent q) w)

  granted-Watched :
      (expires : ℕ) (token : String) (m : Message) (q : Queue)
      → Balanced (m ∷ held) q
      → Watched [] (lent q)
      → Watched [] (lent (granted expires token m q))
  granted-Watched expires token m q b w x c =
      let m' = leased_message (lease_item token m) expires m in
      let entry : LeaseEntry = record { id = m.id; token = token; expires_at = expires } in
      let new =
        Map.values-insert_new m.id (same_message x) m' q.inflight (held_once held m q b).1 in
      let more = tally-lease_push (watches x) q.leases entry b.ordered.leases in
      elim (Bool-cases (same_message x m')) [
        | inl same ↦
            let own =
              same-one x m' (λ y. watches y entry ≡ true)
                (watches-own m' entry refl refl (omega arith)) (omega (arith, ap bit same)) in
            omega (arith, more, ap bit own)
        | inr other ↦ omega (arith, more, w x (omega (arith, c, new, ap bit other)))
      ]

module _ (held : List Message) where
  grant-Watched :
      (expires : ℕ) (token : ℕ → String) (i : ℕ) (picked : List Message) (q : Queue)
      → Balanced (picked ++ held) q
      → Watched [] (lent q)
      → Watched [] (lent (grant expires picked (lease_items token i picked) q).0)
  unfolding grant lease_items
  grant-Watched expires token i [] q b w = w
  grant-Watched expires token i (m ∷ ms) q b w =
      grant-Watched expires token (i + 1) ms (granted expires (token i) m q)
        (granted-Balanced (ms ++ held) expires (token i) m q b)
        (granted-Watched (ms ++ held) expires (token i) m q b w)

  pub dequeue_commit-Watched :
      (expires : ℕ) (token : ℕ → String) (picked : List Message) (answer : LogAnswer) (q : Queue)
      → Balanced (picked ++ held) q
      → Watched [] (lent q)
      → Watched [] (lent (dequeue_commit expires picked (lease_items token 0 picked) answer q).1)
  unfolding dequeue_commit
  dequeue_commit-Watched expires token picked (some e) q b w =
      subst (Watched []) (sym (lent-push_back picked q)) w
  dequeue_commit-Watched expires token picked none q b w =
      subst (Watched []) (sym (lent-wake_if_sooner expires _))
        (grant-Watched expires token 0 picked q b w)

lent-enqueue_commit :
    (m : Message) (answer : LogAnswer) (later : ℕ) (q : Queue)
    → lent (enqueue_commit m answer later q).1 ≡ lent q
unfolding enqueue_commit
lent-enqueue_commit m (some e) later q = elim (Bool-cases (str_eq m.dedup_key "")) [
  | inl plain ↦ rw plain refl
  | inr keyed ↦ rw keyed refl
]
lent-enqueue_commit m none later q = lent-put m later q

pub lent-enqueue :
    (now later : ℕ) (id : String) (body : List ℕ) (priority delay : ℤ) (k : String)
    (answer : LogAnswer) (q : Queue)
    → lent (enqueue now later id body priority delay k answer q).1.0 ≡ lent q
unfolding enqueue enqueue_reserve
lent-enqueue now later id body priority delay k answer q = elim (Option-cases (dedup_hit k now q)) [
  | inr (e, taken) ↦ rw (enqueue, taken) refl
  | inl free ↦
      let m = make_message now id body priority delay k q in
      rw (enqueue, free) (lent-enqueue_commit m answer later (enqueue_reserve m q))
]

pub try_dequeue-Watched :
    (now n : ℕ) (token : ℕ → String) (answer : LogAnswer) (q : Queue)
    → Balanced [] q
    → Watched [] (lent q)
    → Watched [] (lent (try_dequeue now n token answer q).1.0)
unfolding try_dequeue
try_dequeue-Watched now n token answer q b w =
    let q1 = promote_due now q in
    let r = pick n q1 [] in
    let b1 = promote_due-Balanced [] now q b in
    let taken = pick-Balanced [] n q1 b1 in
    let same : lent r.0 ≡ lent q =
      ap lent (pick-Picked n q1 b1.ordered.ready).queue ∙ lent-promote_due now q in
    let w' : Watched [] (lent r.0) = subst (Watched []) (sym same) w in
    elim (List-cases r.1) [
      | inl nothing ↦ rw nothing w'
      | inr (m, ms, e) ↦
          let some_taken : (length r.1 == 0) ≡ false = rw e (ground arith) in
          let done =
            dequeue_commit-Watched [] (now + pos_part q.cfg.visibility_timeout_ms) token r.1 answer
              r.0 taken w' in
          rw (try_dequeue, some_taken) done
    ]

pub ack-Watched :
    (id token : String) (answer : LogAnswer) (q : Queue)
    → Balanced [] q
    → Watched [] (lent q)
    → Watched [] (lent (ack id token answer q).1.0)
unfolding ack
ack-Watched id token answer q b w = elim (take_leased_cases id token q) [
  | inl (e, bad) ↦ rw (ack, bad) w
  | inr (m, there, good) ↦
      rw (ack, good)
        (ack_commit-Watched [] id m answer (record q { inflight = Map.delete id q.inflight })
          (leased-Balanced [] id m q there b).1 (taken-Watched [] id m q there w))
]

pub nack-Watched :
    (now : ℕ) (id token : String) (delay : ℤ) (answer : LogAnswer) (q : Queue)
    → Balanced [] q
    → Watched [] (lent q)
    → Watched [] (lent (nack now id token delay answer q).1.0)
unfolding nack
nack-Watched now id token delay answer q b w = elim (take_leased_cases id token q) [
  | inl (e, bad) ↦ rw (nack, bad) w
  | inr (m, there, good) ↦
      rw (nack, good)
        (nack_commit-Watched [] m (is_exhausted q m) (nack_visible_at now delay) now answer
          (record q { inflight = Map.delete id q.inflight }) (leased-Balanced [] id m q there b).1
          (taken-Watched [] id m q there w))
]
