-- ===== src/Queue/Invariant/Steps.antt =====
-- Lemmas on the steps of which the operations of internal/queue/queue.go are made.
use stitch.Prelude.{
  ltb, leb, ◌==◌, not, ◌&&◌, ℕ, ◌+◌, ◌≤◌, ◌<◌, ◌≡◌, refl, sym, ap, ◌∙◌, Bool, true, String, some,
  List, [], ◌∷◌, arith, str_eq, eq_iff, Bool-cases, inl, inr,
}
use stitch.Prelude.Map
use stitch.Prelude.Map.{Map}
use stitch.Prelude.Tally.{bit, tally}
use stitch.Queue.Message.{Message, Counters}
use stitch.Queue.Message.Same.{same_message, same_message_sound, same_message_refl}
use stitch.Queue.Order.{delayed_push}
use stitch.Queue.Live.{DedupEntry, is_lifo, Queue, restore_leased, put, wake_if_sooner}
use stitch.Queue.Invariant.{IsOrdered, IsKeyed, Balanced, count_ids}
use stitch.Queue.Invariant.Waiting.{joined, joined-Joins}

pub IsKeyed-insert : (m : Message) (t : Map Message) → IsKeyed t → IsKeyed (Map.insert m.id m t)
unfolding Map.insert
IsKeyed-insert m [] h = (refl, tt)
IsKeyed-insert m ((k, old) ∷ t) h = elim (Bool-cases (str_eq k m.id)) [
  | inl here ↦ rw here (sym ((eq_iff k m.id).0 here), h.1)
  | inr past ↦ rw past (h.0, IsKeyed-insert m t h.1)
]

pub IsKeyed-update : (m : Message) (t : Map Message) → IsKeyed t → IsKeyed (Map.update m.id m t)
unfolding Map.update
IsKeyed-update m [] h = tt
IsKeyed-update m ((k, old) ∷ t) h = elim (Bool-cases (str_eq k m.id)) [
  | inl here ↦ rw here (sym ((eq_iff k m.id).0 here), h.1)
  | inr past ↦ rw past (h.0, IsKeyed-update m t h.1)
]

IsKeyed-delete : (id : String) (t : Map Message) → IsKeyed t → IsKeyed (Map.delete id t)
unfolding Map.delete
IsKeyed-delete id [] h = tt
IsKeyed-delete id ((k, old) ∷ t) h = elim (Bool-cases (str_eq k id)) [
  | inl here ↦ rw here h.1
  | inr past ↦ rw past (h.0, IsKeyed-delete id t h.1)
]

IsKeyed-lookup :
    (id : String) (m : Message) (t : Map Message) → IsKeyed t → Map.lookup id t ≡ some m → m.id ≡ id
unfolding Map.lookup
IsKeyed-lookup id m [] h e = absurd (ground arith)
IsKeyed-lookup id m ((k, old) ∷ t) h e = elim (Bool-cases (str_eq k id)) [
  | inl here ↦ ground (arith, (eq_iff k id).0 here, h.0)
  | inr past ↦ IsKeyed-lookup id m t h.1 (rw past at e)
]

is_self : (id : String) → Map.is id id ≡ true
is_self id = (eq_iff id id).1 refl

-- The ID of a stored message is a key.
id_there :
    (m : Message) (t : Map Message)
    → IsKeyed t
    → 0 < tally (same_message m) (Map.values t)
    → 0 < tally (Map.is m.id) (Map.keys t)
id_there m [] h there = absurd (omega arith)
id_there m ((k, v) ∷ t) h there = elim (Bool-cases (same_message m v)) [
  | inl same ↦
      let e = same_message_sound m v same in
      let here : str_eq k m.id ≡ true = (eq_iff k m.id).1 (sym (ap (λ x. x.id) e ∙ h.0)) in
      omega (arith, ap bit here)
  | inr other ↦ omega (arith, id_there m t h.1 (omega (arith, ap bit other)))
]

-- A message that is stored somewhere in the table is the one under its ID.
pub lookup-IsKeyed :
    (m : Message) (t : Map Message)
    → IsKeyed t
    → tally (Map.is m.id) (Map.keys t) ≤ 1
    → 0 < tally (same_message m) (Map.values t)
    → Map.lookup m.id t ≡ some m
unfolding Map.lookup
lookup-IsKeyed m [] h once there = absurd (omega arith)
lookup-IsKeyed m ((k, v) ∷ t) h once there = elim (Bool-cases (same_message m v)) [
  | inl same ↦
      let e = same_message_sound m v same in
      let here : str_eq k m.id ≡ true = (eq_iff k m.id).1 (sym (ap (λ x. x.id) e ∙ h.0)) in
      rw (Map.lookup, here) (ap some (sym e))
  | inr other ↦
      let rest : 0 < tally (same_message m) (Map.values t) = omega (arith, ap bit other) in
      elim (Bool-cases (str_eq k m.id)) [
        | inl here ↦ absurd (omega (arith, ap bit here, id_there m t h.1 rest))
        | inr past ↦
            rw (Map.lookup, past) (lookup-IsKeyed m t h.1 (omega (arith, ap bit past)) rest)
      ]
]

-- A new key does not occur twice.
at_most_once :
    (k id : String) (ks : List String) {n : ℕ}
    → tally (Map.is id) ks ≡ 0
    → tally (Map.is k) ks ≤ 1
    → n ≡ bit (Map.is k id) + tally (Map.is k) ks
    → n ≤ 1
at_most_once k id ks {n} fresh once more = elim (Bool-cases (str_eq id k)) [
  | inl same ↦
      let none_yet : tally (Map.is k) ks ≡ 0 =
        (ap (λ i. tally (Map.is i) ks) (sym ((eq_iff id k).0 same))) ∙ fresh in
      omega (arith, more, ap bit same, none_yet)
  | inr other ↦ omega (arith, more, ap bit other)
]

module _ (held : List Message) where
  -- A held message is in the table once, and neither in flight nor waiting.
  pub held_once :
      (m : Message) (q : Queue)
      → Balanced (m ∷ held) q
      → (0 < tally (Map.is m.id) (Map.keys q.msgs))
        × (tally (Map.is m.id) (Map.keys q.inflight) ≡ 0)
  held_once m q b =
      let count = count_ids (Map.is m.id) b in
      let self = ap bit (is_self m.id) in
      (omega (arith, count, self), omega (arith, count, self, b.once m.id))

  -- The table holds it as it is.
  pub held_there :
      (m : Message) (q : Queue) → Balanced (m ∷ held) q → Map.lookup m.id q.msgs ≡ some m
  held_there m q b =
      let self = ap bit (same_message_refl m) in
      lookup-IsKeyed m q.msgs b.stored (b.once m.id) (omega (arith, b.count (same_message m), self))

  -- A step that takes a message out of flight holds it.
  pub leased-Balanced :
      (id : String) (m : Message) (q : Queue)
      → Map.lookup id q.inflight ≡ some m
      → Balanced held q
      → (m.id ≡ id) × Balanced (m ∷ held) (record q { inflight = Map.delete id q.inflight })
  leased-Balanced id m q e b =
      let same = IsKeyed-lookup id m q.inflight b.keyed e in
      (
        same,
        record {
          ordered = record {
            ready = b.ordered.ready;
            delayed = b.ordered.delayed;
            leases = b.ordered.leases;
          };
          keyed = IsKeyed-delete id q.inflight b.keyed;
          stored = b.stored;
          count = λ p. omega (arith, b.count p, Map.values-delete id p m q.inflight e);
          once = b.once;
        },
      )

  pub restore_leased-Balanced :
      (m : Message) (q : Queue) → Balanced (m ∷ held) q → Balanced held (restore_leased m q)
  unfolding restore_leased
  restore_leased-Balanced m q b = record {
    ordered = record {
      ready = b.ordered.ready;
      delayed = b.ordered.delayed;
      leases = b.ordered.leases;
    };
    keyed = IsKeyed-insert m q.inflight b.keyed;
    stored = b.stored;
    count = λ p.
        omega (arith, b.count p, Map.values-insert_new m.id p m q.inflight (held_once m q b).1);
    once = b.once;
  }

  -- A step that drops a held message from the table.
  pub dropped-Balanced :
      (m : Message) (q : Queue)
      → Balanced (m ∷ held) q
      → Balanced held (record q { msgs = Map.delete m.id q.msgs })
  dropped-Balanced m q b =
      let less = λ (p : String → Bool). Map.tally-delete m.id p q.msgs (held_once m q b).0 in
      record {
        ordered = record {
          ready = b.ordered.ready;
          delayed = b.ordered.delayed;
          leases = b.ordered.leases;
        };
        keyed = b.keyed;
        stored = IsKeyed-delete m.id q.msgs b.stored;
        count = λ p. omega (arith, b.count p, Map.values-delete m.id p m q.msgs (held_there m q b));
        once = λ k. omega (arith, b.once k, less (Map.is k));
      }

  -- The other fields do not matter.
  pub adjusted-Balanced :
      (q : Queue) (seq : ℕ) (dlq : List Message) (dedup : Map DedupEntry) (cnt : Counters)
      (armed : ℕ) (wake : Bool)
      → Balanced held q
      → Balanced held
          (record q { seq = seq; dlq = dlq; dedup = dedup; cnt = cnt; armed = armed; wake = wake })
  adjusted-Balanced q seq dlq dedup cnt armed wake b = record {
    ordered = record {
      ready = b.ordered.ready;
      delayed = b.ordered.delayed;
      leases = b.ordered.leases;
    };
    keyed = b.keyed;
    stored = b.stored;
    count = b.count;
    once = b.once;
  }

  pub wake_if_sooner-Balanced :
      (deadline : ℕ) (q : Queue) → Balanced held q → Balanced held (wake_if_sooner deadline q)
  unfolding wake_if_sooner
  wake_if_sooner-Balanced deadline q b =
      elim (Bool-cases (not (q.armed == 0) && leb q.armed deadline)) [
        | inl sooner ↦ rw sooner b
        | inr later ↦ rw later (adjusted-Balanced q q.seq q.dlq q.dedup q.cnt q.armed true b)
      ]

  pub joined-Balanced :
      (m : Message) (now : ℕ) (q : Queue)
      → IsOrdered q
      → IsKeyed q.inflight
      → IsKeyed q.msgs
      → ((p : Message → Bool)
          → bit (p m)
              + (tally p q.ready + tally p q.delayed)
              + tally p (Map.values q.inflight)
              + tally p held
            ≡ tally p (Map.values q.msgs))
      → ((k : String) → tally (Map.is k) (Map.keys q.msgs) ≤ 1)
      → Balanced held (joined now m q)
  joined-Balanced m now q o keyed stored count once =
      let j = joined-Joins now m q o in
      let fields : ((joined now m q).inflight ≡ q.inflight) × ((joined now m q).msgs ≡ q.msgs) =
        elim (Bool-cases (ltb now m.visible_at)) [
          | inl later ↦ rw later (refl, refl)
          | inr due ↦ rw due (refl, refl)
        ] in
      record {
        ordered = j.ordered;
        keyed = rw fields.0 keyed;
        stored = rw fields.1 stored;
        count = λ p. rw (fields.0, fields.1) (omega (arith, j.counted p, count p));
        once = rw fields.1 once;
      }

  put-joined :
      (m : Message) (now : ℕ) (q : Queue)
      → Balanced held (joined now m (record q { msgs = Map.insert m.id m q.msgs }))
      → Balanced held (put m now q)
  unfolding put
  put-joined m now q b = elim (Bool-cases (ltb now m.visible_at)) [
    | inl later ↦
        let b' : Balanced held (record q {
          msgs = Map.insert m.id m q.msgs;
          delayed = delayed_push (is_lifo q) q.delayed m;
        }) =
          rw later at b in
        rw later (wake_if_sooner-Balanced m.visible_at _ b')
    | inr due ↦ rw due (rw due at b)
  ]

  -- A held message comes to wait, with other fields than before.
  pub put_back-Balanced :
      (m m' : Message) (now : ℕ) (q : Queue)
      → m'.id ≡ m.id
      → Balanced (m ∷ held) q
      → Balanced held (put m' now q)
  put_back-Balanced m m' now q e b =
      let there : 0 < tally (Map.is m'.id) (Map.keys q.msgs) = rw e (held_once m q b).0 in
      let keys = Map.keys-insert_old m'.id m' q.msgs there in
      let over = Map.insert-update m'.id m' q.msgs there in
      let old : Map.lookup m'.id q.msgs ≡ some m = rw e (held_there m q b) in
      put-joined m' now q (
        joined-Balanced m' now (record q { msgs = Map.insert m'.id m' q.msgs })
          (record {
            ready = b.ordered.ready;
            delayed = b.ordered.delayed;
            leases = b.ordered.leases;
          })
          b.keyed (IsKeyed-insert m' q.msgs b.stored)
          (λ p. omega (
            arith,
            b.count p,
            ap (λ t. tally p (Map.values t)) over,
            Map.values-update m'.id p m m' q.msgs old,
          ))
          (λ k. omega (arith, b.once k, ap (tally (Map.is k)) keys)))

  -- A message under a new ID comes to wait.
  pub put_new-Balanced :
      (m : Message) (now : ℕ) (q : Queue)
      → tally (Map.is m.id) (Map.keys q.msgs) ≡ 0
      → Balanced held q
      → Balanced held (put m now q)
  put_new-Balanced m now q fresh b =
      let more = λ (k : String). Map.tally-insert_new m.id (Map.is k) m q.msgs fresh in
      put-joined m now q (
        joined-Balanced m now (record q { msgs = Map.insert m.id m q.msgs })
          (record {
            ready = b.ordered.ready;
            delayed = b.ordered.delayed;
            leases = b.ordered.leases;
          })
          b.keyed (IsKeyed-insert m q.msgs b.stored)
          (λ p. omega (arith, b.count p, Map.values-insert_new m.id p m q.msgs fresh))
          (λ k. at_most_once k m.id (Map.keys q.msgs) fresh (b.once k) (more k)))
