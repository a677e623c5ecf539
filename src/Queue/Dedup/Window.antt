-- ===== src/Queue/Dedup/Window.antt =====
-- Two calls of Enqueue of internal/queue/queue.go with one dedup key.
use stitch.Prelude.{
  ℕ, ◌+◌, ◌<◌, ◌≡◌, refl, sym, ap, ◌∙◌, Bool, true, false, not, ◌||◌, String, none, some, List, [],
  ok, ltb, inc64, arith, str_eq, eq_iff, Bool-cases, Option-cases, inl, inr,
}
use stitch.Prelude.Int.{ℤ}
use stitch.Prelude.Map
use stitch.Prelude.Map.{Map}
use stitch.Queue.Message.{Message, dedup_ttl}
use stitch.Queue.Live.{
  DedupEntry, Queue, dedup_hit, await_dedup, make_message, enqueue_reserve, enqueue_commit, publish,
  put,
}
use stitch.Queue.Ops.{LogAnswer, Trace, enqueue, next_deadline}
use stitch.Manager.Mirror.History.{Move, History}
use stitch.Queue.Dedup.{
  dedup-put, dedup-promote_due, dedup-try_dequeue, dedup-ack, dedup-nack, dedup-maintain,
}

publish-other :
    (k : String) (m : Message) (d : Map DedupEntry)
    → str_eq m.dedup_key k ≡ false
    → Map.lookup k (publish m d) ≡ Map.lookup k d
publish-other k m d apart = elim (Bool-cases (str_eq m.dedup_key "")) [
  | inl plain ↦ rw plain refl
  | inr keyed ↦ elim (Option-cases (Map.lookup m.dedup_key d)) [
    | inl gone ↦ rw (keyed, gone) refl
    | inr (e, there) ↦ elim (Bool-cases (str_eq e.msg.id m.id)) [
      | inl own ↦ rw (keyed, there, own) (Map.lookup-update_other k m.dedup_key _ d apart)
      | inr other ↦ rw (keyed, there, other) refl
    ]
  ]
]

enqueue_reserve-other :
    (k : String) (m : Message) (q : Queue)
    → str_eq m.dedup_key k ≡ false
    → Map.lookup k (enqueue_reserve m q).dedup ≡ Map.lookup k q.dedup
unfolding enqueue_reserve
enqueue_reserve-other k m q apart = elim (Bool-cases (str_eq m.dedup_key "")) [
  | inl plain ↦ rw plain refl
  | inr keyed ↦ rw keyed (Map.lookup-insert_other k m.dedup_key _ q.dedup apart)
]

enqueue_commit-other :
    (k : String) (m : Message) (answer : LogAnswer) (later : ℕ) (q : Queue)
    → str_eq m.dedup_key k ≡ false
    → Map.lookup k (enqueue_commit m answer later q).1.dedup ≡ Map.lookup k q.dedup
unfolding enqueue_commit
enqueue_commit-other k m (some e) later q apart = elim (Bool-cases (str_eq m.dedup_key "")) [
  | inl plain ↦ rw plain refl
  | inr keyed ↦ rw keyed (Map.lookup-delete k m.dedup_key q.dedup apart)
]
enqueue_commit-other k m none later q apart =
    publish-other k m (put m later q).dedup apart ∙ ap (Map.lookup k) (dedup-put m later q)

module _ (k : String) (e : DedupEntry) (keyed : str_eq k "" ≡ false) where
  pub hit_within :
      (now : ℕ) (q : Queue)
      → Map.lookup k q.dedup ≡ some e
      → ltb now e.expires_at ≡ true
      → dedup_hit k now q ≡ some e
  unfolding dedup_hit
  hit_within now q there soon = rw (keyed, there, soon) refl

  -- Whether an operation comes while the entry holds, if it asks for the key.
  abbrev pub within : {q q' : Queue} {t : Trace} → Move q t q' → Bool
  within (Move.enqueued now later id body priority delay key answer q fresh) =
      not (str_eq key k) || ltb now e.expires_at
  within (Move.dequeued now n token answer q) = true
  within (Move.acked id token answer q) = true
  within (Move.nacked now id token delay answer q) = true
  within (Move.maintained now answer1 answer2 q) = true
  within (Move.inspected now q) = true
  within (Move.armed q) = true

  abbrev pub AllWithin : {q q' : Queue} {t : Trace} → History q t q' → Type 0
  AllWithin (History.stop q) = Unit
  AllWithin (History.next q1 q2 q3 t u move rest) = (within move ≡ true) × AllWithin rest

  enqueue-keeps :
      (now later : ℕ) (id : String) (body : List ℕ) (priority delay : ℤ) (key : String)
      (answer : LogAnswer) (q : Queue)
      → not (str_eq key k) || ltb now e.expires_at ≡ true
      → Map.lookup k q.dedup ≡ some e
      → Map.lookup k (enqueue now later id body priority delay key answer q).1.0.dedup ≡ some e
  unfolding enqueue make_message
  enqueue-keeps now later id body priority delay key answer q soon there =
      elim (Option-cases (dedup_hit key now q)) [
        | inr (f, taken) ↦ rw (enqueue, taken) there
        | inl free ↦ elim (Bool-cases (str_eq key k)) [
          | inr apart ↦
              let m = make_message now id body priority delay key q in
              rw (enqueue, free)
                (enqueue_commit-other k m answer later (enqueue_reserve m q) apart
                  ∙ enqueue_reserve-other k m q apart
                  ∙ there)
          | inl same ↦
              let hit =
                ap (λ x. dedup_hit x now q) ((eq_iff key k).0 same)
                ∙ hit_within now q there (ground (arith, soon, same)) in
              absurd (let x = sym free ∙ hit in cc)
        ]
      ]

  pub Move-keeps :
      (q q' : Queue) (t : Trace) (move : Move q t q')
      → within move ≡ true
      → Map.lookup k q.dedup ≡ some e
      → Map.lookup k q'.dedup ≡ some e
  unfolding next_deadline
  Move-keeps q q' t (Move.enqueued now later id body priority delay key answer _ fresh) w there =
      enqueue-keeps now later id body priority delay key answer q w there
  Move-keeps q q' t (Move.dequeued now n token answer _) w there =
      ap (Map.lookup k) (dedup-try_dequeue now n token answer q) ∙ there
  Move-keeps q q' t (Move.acked id token answer _) w there =
      ap (Map.lookup k) (dedup-ack id token answer q) ∙ there
  Move-keeps q q' t (Move.nacked now id token delay answer _) w there =
      ap (Map.lookup k) (dedup-nack now id token delay answer q) ∙ there
  Move-keeps q q' t (Move.maintained now answer1 answer2 _) w there =
      ap (Map.lookup k) (dedup-maintain now answer1 answer2 q) ∙ there
  Move-keeps q q' t (Move.inspected now _) w there =
      ap (Map.lookup k) (dedup-promote_due now q) ∙ there
  Move-keeps q q' t (Move.armed _) w there = there

  History-keeps :
      (q q' : Queue) (t : Trace) (h : History q t q')
      → AllWithin h
      → Map.lookup k q.dedup ≡ some e
      → Map.lookup k q'.dedup ≡ some e
  History-keeps q q' t (History.stop _) w there = there
  History-keeps q q' t (History.next _ q2 _ u v move h) w there =
      History-keeps q2 q' v h w.1 (Move-keeps q q2 u move w.0 there)

-- The entry that an Enqueue leaves whose append succeeds.
abbrev pub entry_of : Message → DedupEntry
entry_of m = record { msg = m; expires_at = m.enqueued_at + dedup_ttl; ready = true; err = none }

reserved_entry : Message → DedupEntry
reserved_entry m = record {
  msg = m;
  expires_at = m.enqueued_at + dedup_ttl;
  ready = false;
  err = none;
}

enqueue_reserve-own :
    (m : Message) (q : Queue)
    → str_eq m.dedup_key "" ≡ false
    → Map.lookup m.dedup_key (enqueue_reserve m q).dedup ≡ some (reserved_entry m)
unfolding enqueue_reserve reserved_entry
enqueue_reserve-own m q keyed = rw keyed (Map.lookup-insert m.dedup_key _ q.dedup)

publish-own :
    (m : Message) (d : Map DedupEntry)
    → str_eq m.dedup_key "" ≡ false
    → Map.lookup m.dedup_key d ≡ some (reserved_entry m)
    → Map.lookup m.dedup_key (publish m d) ≡ some (entry_of m)
unfolding reserved_entry
publish-own m d keyed there =
    rw (keyed, there, (eq_iff m.id m.id).1 refl)
      (Map.lookup-update m.dedup_key (entry_of m) (reserved_entry m) d there)

committed-entry :
    (later : ℕ) (m : Message) (q : Queue)
    → str_eq m.dedup_key "" ≡ false
    → Map.lookup m.dedup_key (enqueue_commit m none later (enqueue_reserve m q)).1.dedup
      ≡ some (entry_of m)
unfolding enqueue_commit
committed-entry later m q keyed = publish-own m (put m later (enqueue_reserve m q)).dedup keyed (
    ap (Map.lookup m.dedup_key) (dedup-put m later (enqueue_reserve m q))
    ∙ enqueue_reserve-own m q keyed)

module _ (now later : ℕ) (id : String) (body : List ℕ) (priority delay : ℤ) (k : String)
    (q : Queue) where
  pub enqueued-entry :
      str_eq k "" ≡ false
      → dedup_hit k now q ≡ none
      → Map.lookup k (enqueue now later id body priority delay k none q).1.0.dedup
        ≡ some (entry_of (make_message now id body priority delay k q))
  unfolding enqueue enqueue_commit enqueue_reserve make_message
  enqueued-entry keyed free =
      rw (enqueue, free)
        (committed-entry later (make_message now id body priority delay k q) q keyed)

-- An Enqueue with a dedup key that no entry claims, whose append succeeds, and then any operations,
-- one after the other, of which each Enqueue with this key reads a time before the key's window is
-- over: an Enqueue with the key at such a time, whatever its other arguments, the answer of its log
-- and the state of the message, returns the message of the first as a duplicate, hands nothing to
-- the log and changes nothing but the counter of duplicates.
pub dedup_window :
    (now later now' later' : ℕ) (id id' : String) (body body' : List ℕ)
    (priority priority' delay delay' : ℤ) (k : String) (answer : LogAnswer) (q q' : Queue)
    (t : Trace) (keyed : str_eq k "" ≡ false)
    (h : History (enqueue now later id body priority delay k none q).1.0 t q')
    → dedup_hit k now q ≡ none
    → AllWithin k (entry_of (make_message now id body priority delay k q)) keyed h
    → now' < now + dedup_ttl
    → enqueue now' later' id' body' priority' delay' k answer q' ≡ (
      ok (make_message now id body priority delay k q, true),
      (record q' { cnt = record q'.cnt { deduped = inc64 q'.cnt.deduped } }, []),
    )
unfolding enqueue await_dedup make_message
dedup_window now later now' later' id id' body body' priority priority' delay delay' k answer q q' t
      keyed h free spared soon =
    let e = entry_of (make_message now id body priority delay k q) in
    let there =
      History-keeps k e keyed _ q' t h spared
        (enqueued-entry now later id body priority delay k q keyed free) in
    let hit = hit_within k e keyed now' q' there (ground (arith, soon)) in rw (enqueue, hit) refl
