-- ===== src/Manager/Mirror/Window.antt =====
-- The dedup window of internal/queue/queue.go across a restart that replays the log
-- (internal/queue/manager.go).
use mathlib.Core.List.{append_assoc}
use mathlib.Core.Path.{subst}
use stitch.Prelude.{
  ℕ, ◌+◌, ◌<◌, ◌≡◌, refl, sym, ap, ◌∙◌, Bool, true, false, String, none, some, List, [], ◌++◌, ok,
  inc64, arith, str_eq, Result,
}
use stitch.Prelude.Int.{ℤ}
use stitch.Prelude.Map
use stitch.Prelude.Map.{Map}
use stitch.Prelude.Tally.{tally}
use stitch.Queue.Message.{Config, Message, QueueError, dedup_ttl}
use stitch.Queue.Live.{
  DedupEntry, Queue, new_queue, dedup_hit, await_dedup, make_message, enqueue_payload,
}
use stitch.Queue.Ops.{LogAnswer, Trace, enqueue}
use stitch.Queue.Dedup.Window.{AllWithin, hit_within, enqueued-entry, entry_of}
use stitch.Manager.Mirror.Passes.{dedup_of-traces, History-passes}
use stitch.Manager.Finalize.{finalize_queue}
use stitch.Manager.Mirror.{logged, fold_payloads}
use stitch.Manager.Mirror.History.{Move, History, replay_refines}
use stitch.Manager.Mirror.Dedup.{dedup_of, fold_payloads-dedup, lookup-finalize_queue}

History-append :
    (q1 q2 q3 : Queue) (t u : Trace) → History q1 t q2 → History q2 u q3 → History q1 (t ++ u) q3
History-append q1 q2 q3 t u (History.stop _) g = g
History-append q1 q2 q3 t u (History.next _ q _ v w move h) g =
    subst (λ x. History q1 x q3) (sym (append_assoc v w u))
      (History.next q1 q q3 v (w ++ u) move (History-append q q2 q3 w u h g))

module _ (now later : ℕ) (id : String) (body : List ℕ) (priority delay : ℤ) (k : String)
    (q : Queue) where
  -- What the append of the Enqueue that opens the window leaves in replay.
  enqueue-opens :
      (d : Map DedupEntry)
      → str_eq k "" ≡ false
      → dedup_hit k now q ≡ none
      → Map.lookup k (dedup_of (logged (enqueue now later id body priority delay k none q).1.1) d)
        ≡ some (entry_of (make_message now id body priority delay k q))
  unfolding enqueue make_message enqueue_payload
  enqueue-opens d keyed free = rw (enqueue, free, keyed) (Map.lookup-insert k _ d)

  -- The whole log up to a crash holds the entry, replayed.
  log-holds :
      (t t' : Trace) (q' : Queue) (d : Map DedupEntry) (keyed : str_eq k "" ≡ false)
      (h : History (enqueue now later id body priority delay k none q).1.0 t' q')
      → dedup_hit k now q ≡ none
      → AllWithin k (entry_of (make_message now id body priority delay k q)) keyed h
      → Map.lookup k (
          dedup_of
            (logged (t ++ ((enqueue now later id body priority delay k none q).1.1 ++ t')))
            d)
        ≡ some (entry_of (make_message now id body priority delay k q))
  log-holds t t' q' d keyed h free spared =
      let u = (enqueue now later id body priority delay k none q).1.1 in
      ap (Map.lookup k) (dedup_of-traces t (u ++ t') d ∙ dedup_of-traces u t' _)
      ∙ History-passes k _ keyed _ q' t' h _ spared
          (enqueued-entry now later id body priority delay k q keyed free)
          (enqueue-opens _ keyed free)

-- An Enqueue whose key the queue holds.
enqueue-answered :
    (now later : ℕ) (id : String) (body : List ℕ) (priority delay : ℤ) (k : String)
    (answer : LogAnswer) (e : DedupEntry) (q : Queue) {x : Result QueueError (Message × Bool)}
    → dedup_hit k now q ≡ some e
    → await_dedup e ≡ x
    → enqueue now later id body priority delay k answer q
      ≡ (x, (record q { cnt = record q.cnt { deduped = inc64 q.cnt.deduped } }, []))
unfolding enqueue
enqueue-answered now later id body priority delay k answer e q hit ended =
    rw (enqueue, hit, ended) refl

module _ (cfg : Config) (now later at now' later' : ℕ) (id id' : String) (body body' : List ℕ)
    (priority priority' delay delay' : ℤ) (k : String) (answer : LogAnswer)
    (leased : Map (Unit {0})) (q q' : Queue) (t t' : Trace) where
  -- After any operations on a new queue, an Enqueue with a dedup key, not the empty one, that the
  -- queue did not hold, a new ID and an append that succeeds; then any operations, of which an
  -- Enqueue with the key comes before the entry expires, five minutes after it was made; then a
  -- restart before that time: replay of the payloads that the log confirmed succeeds, and on what
  -- finalize makes of it, whichever leases it ends, a further Enqueue with the key before that time
  -- returns the first message as a duplicate, hands nothing to the log and changes nothing but the
  -- counter of duplicates, even when the first message has been acknowledged.
  pub dedup_restart :
      (before : History (new_queue cfg) t q) (fresh : tally (Map.is id) (Map.keys q.msgs) ≡ 0)
      (keyed : str_eq k "" ≡ false)
      (meanwhile : History (enqueue now later id body priority delay k none q).1.0 t' q')
      → dedup_hit k now q ≡ none
      → AllWithin k (entry_of (make_message now id body priority delay k q)) keyed meanwhile
      → at < now + dedup_ttl
      → now' < now + dedup_ttl
      → (r : Queue) × (fold_payloads
            (logged (t ++ ((enqueue now later id body priority delay k none q).1.1 ++ t')))
            (new_queue cfg)
          ≡ ok r)
        × (enqueue now' later' id' body' priority' delay' k answer (finalize_queue at leased r) ≡ (
          ok (make_message now id body priority delay k q, true),
          (
            record (finalize_queue at leased r) {
              cnt = record (finalize_queue at leased r).cnt {
                deduped = inc64 (finalize_queue at leased r).cnt.deduped;
              };
            },
            [],
          ),
        ))
  unfolding make_message await_dedup
  dedup_restart before fresh keyed meanwhile free spared early soon =
      let m = make_message now id body priority delay k q in
      let u = (enqueue now later id body priority delay k none q).1.1 in
      let move = Move.enqueued now later id body priority delay k none q fresh in
      let whole =
        History-append _ q q' t (u ++ t') before (History.next q _ q' u t' move meanwhile) in
      let (r, done, seen) = replay_refines cfg (t ++ (u ++ t')) q' whole in
      let there =
        ap (Map.lookup k) (fold_payloads-dedup _ (new_queue cfg) r done)
        ∙ log-holds now later id body priority delay k q t t' q' [] keyed meanwhile free spared in
      let kept = lookup-finalize_queue at leased k (entry_of m) r (ground (arith, early)) there in
      let hit =
        hit_within k (entry_of m) keyed now' (finalize_queue at leased r) kept
          (ground (arith, soon)) in
      (
        r,
        done,
        enqueue-answered now' later' id' body' priority' delay' k answer (entry_of m) _ hit refl,
      )
