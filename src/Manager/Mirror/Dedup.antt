-- ===== src/Manager/Mirror/Dedup.antt =====
-- The dedup entries of a queue under replay and finalize of internal/queue/manager.go.
use mathlib.Core.Path.{subst}
use stitch.Prelude.{
  ℕ, ◌≡◌, refl, sym, ap, ◌∙◌, false, String, some, List, [], ◌∷◌, ◌++◌, ok, err, ◌⊎◌, ok_injective,
  Result, ◌>>=◌, ltb, leb, str_eq, Bool-cases, Option-cases, Result-cases, inl, inr, if◌then◌else◌,
}
use stitch.Prelude.Map
use stitch.Prelude.Map.{Map}
use stitch.Queue.Message.{Message}
use stitch.Queue.Payload.{Payload, LeaseItem, ExpireItem}
use stitch.Queue.Live.{DedupEntry, Queue}
use stitch.Manager.{
  ReplayFault, unknown_message, live_message, apply_lease_items, apply_lease, apply_ack, apply_nack,
  apply_expire_items, apply_expire, apply_dlq, apply_enqueue, apply_to_queue, entry_of,
}
use stitch.Manager.Finalize.{place, place_all, fresh_dedup, finalize_queue, reset, sort_by_seq}
use stitch.Manager.Mirror.{fold_payloads}

-- What one payload, and a log of them, does to the dedup entries.
abbrev pub dedup_step : Payload → Map DedupEntry → Map DedupEntry
dedup_step (Payload.enqueue p) d =
    if str_eq p.dedup_key "" then d else Map.insert p.dedup_key (entry_of p) d
dedup_step (Payload.queue_create c) d = d
dedup_step (Payload.lease n expires items) d = d
dedup_step (Payload.ack n id) d = d
dedup_step (Payload.nack n id visible_at) d = d
dedup_step (Payload.expire n items) d = d
dedup_step (Payload.dlq_move n ids r) d = d

abbrev pub dedup_of : List Payload → Map DedupEntry → Map DedupEntry
dedup_of [] d = d
dedup_of (p ∷ ps) d = dedup_of ps (dedup_step p d)

pub dedup_of-append :
    (ps qs : List Payload) (d : Map DedupEntry)
    → dedup_of (ps ++ qs) d ≡ dedup_of qs (dedup_of ps d)
dedup_of-append [] qs d = refl
dedup_of-append (p ∷ ps) qs d = dedup_of-append ps qs (dedup_step p d)

-- A step of replay that succeeds leaves these entries.
abbrev Leaves : Map DedupEntry → Result ReplayFault Queue → Type 0
Leaves d (ok q) = q.dedup ≡ d
Leaves d (err e) = Unit

live_message_cases :
    (id : String) (q : Queue)
    → (live_message id q ≡ err unknown_message) ⊎ ((m : Message) × (live_message id q ≡ ok m))
unfolding live_message
live_message_cases id q = elim (Option-cases (Map.lookup id q.msgs)) [
  | inl gone ↦ inl (rw (live_message, gone) refl)
  | inr (m, there) ↦ inr (m, rw (live_message, there) refl)
]

-- A step that reads a live message and goes on.
Leaves-live :
    (id : String) (q : Queue) (d : Map DedupEntry) (next : Message → Result ReplayFault Queue)
    → ((m : Message) → Leaves d (next m))
    → Leaves d (live_message id q >>= next)
Leaves-live id q d next each = elim (live_message_cases id q) [
  | inl gone ↦ subst (λ x. Leaves d (x >>= next)) (sym gone) tt
  | inr (m, there) ↦ subst (λ x. Leaves d (x >>= next)) (sym there) (each m)
]

-- A step that succeeds and goes on.
Leaves-then :
    (x : Result ReplayFault Queue) (d : Map DedupEntry) (next : Queue → Queue)
    → ((q : Queue) → (next q).dedup ≡ q.dedup)
    → Leaves d x
    → Leaves d (x >>= (λ q. ok (next q)))
Leaves-then (ok q) d next same h = same q ∙ h
Leaves-then (err e) d next same h = tt

Leaves-items :
    (expires : ℕ) (items : List LeaseItem) (q : Queue)
    → Leaves q.dedup (apply_lease_items expires items q)
unfolding apply_lease_items
Leaves-items expires [] q = refl
Leaves-items expires (it ∷ items) q =
    Leaves-live it.id q q.dedup _ (λ m. Leaves-items expires items _)

Leaves-expire_items :
    (items : List ExpireItem) (q : Queue) → Leaves q.dedup (apply_expire_items items q)
unfolding apply_expire_items
Leaves-expire_items [] q = refl
Leaves-expire_items (it ∷ items) q =
    Leaves-live it.id q q.dedup _ (λ m. Leaves-expire_items items _)

Leaves-dlq : (ids : List String) (q : Queue) → Leaves q.dedup (apply_dlq ids q)
unfolding apply_dlq
Leaves-dlq [] q = refl
Leaves-dlq (id ∷ ids) q = Leaves-live id q q.dedup _ (λ m. Leaves-dlq ids _)

apply_to_queue-Leaves :
    (p : Payload) (q : Queue) → Leaves (dedup_step p q.dedup) (apply_to_queue p q)
unfolding apply_to_queue apply_lease apply_ack apply_nack apply_expire apply_enqueue
apply_to_queue-Leaves (Payload.queue_create c) q = refl
apply_to_queue-Leaves (Payload.enqueue p) q = refl
apply_to_queue-Leaves (Payload.lease n expires items) q =
    Leaves-then (apply_lease_items expires items q) q.dedup _ (λ x. refl)
      (Leaves-items expires items q)
apply_to_queue-Leaves (Payload.ack n id) q = Leaves-live id q q.dedup _ (λ m. refl)
apply_to_queue-Leaves (Payload.nack n id visible_at) q = Leaves-live id q q.dedup _ (λ m. refl)
apply_to_queue-Leaves (Payload.expire n items) q =
    Leaves-then (apply_expire_items items q) q.dedup _ (λ x. refl) (Leaves-expire_items items q)
apply_to_queue-Leaves (Payload.dlq_move n ids r) q = Leaves-dlq ids q

pub fold_payloads-dedup :
    (ps : List Payload) (r r' : Queue) → fold_payloads ps r ≡ ok r' → r'.dedup ≡ dedup_of ps r.dedup
fold_payloads-dedup [] r r' e = ap (λ q. q.dedup) (sym (ok_injective r r' e))
fold_payloads-dedup (p ∷ ps) r r' e = elim (Result-cases (apply_to_queue p r)) [
  | inr (fault, bad) ↦ absurd (let x = rw bad at e in cc)
  | inl (r1, good) ↦
      let step : r1.dedup ≡ dedup_step p r.dedup =
        subst (Leaves (dedup_step p r.dedup)) good (apply_to_queue-Leaves p r) in
      fold_payloads-dedup ps r1 r' (rw good at e) ∙ ap (dedup_of ps) step
]

dedup-place :
    (now : ℕ) (l : Map (Unit {0})) (m : Message) (q : Queue) → (place now l m q).dedup ≡ q.dedup
unfolding place
dedup-place now l m q = elim (Bool-cases (ltb now (reset l m).visible_at)) [
  | inl later ↦ rw later refl
  | inr due ↦ rw due refl
]

dedup-place_all :
    (now : ℕ) (l : Map (Unit {0})) (ms : List Message) (q : Queue)
    → (place_all now l ms q).dedup ≡ q.dedup
unfolding place_all
dedup-place_all now l [] q = refl
dedup-place_all now l (m ∷ ms) q =
    dedup-place_all now l ms (place now l m q) ∙ dedup-place now l m q

lookup-fresh_dedup :
    (now : ℕ) (k : String) (e : DedupEntry) (d : Map DedupEntry)
    → leb e.expires_at now ≡ false
    → Map.lookup k d ≡ some e
    → Map.lookup k (fresh_dedup now d) ≡ some e
unfolding fresh_dedup Map.lookup
lookup-fresh_dedup now k e [] fresh there = there
lookup-fresh_dedup now k e ((at, f) ∷ d) fresh there = elim (Bool-cases (str_eq at k)) [
  | inl here ↦
      let same : f ≡ e = Map.some_injective f e (rw here at there) in
      let kept : leb f.expires_at now ≡ false = ap (λ x. leb x.expires_at now) same ∙ fresh in
      rw (kept, here) (ap some same)
  | inr past ↦
      let rest = lookup-fresh_dedup now k e d fresh (rw past at there) in
      elim (Bool-cases (leb f.expires_at now)) [
        | inl old ↦ rw old rest
        | inr kept ↦ rw (kept, past) rest
      ]
]

-- finalize keeps an entry whose window is not over.
pub lookup-finalize_queue :
    (now : ℕ) (l : Map (Unit {0})) (k : String) (e : DedupEntry) (q : Queue)
    → leb e.expires_at now ≡ false
    → Map.lookup k q.dedup ≡ some e
    → Map.lookup k (finalize_queue now l q).dedup ≡ some e
unfolding finalize_queue
lookup-finalize_queue now l k e q fresh there =
    lookup-fresh_dedup now k e _ fresh
      (ap (Map.lookup k) (dedup-place_all now l (sort_by_seq (Map.values q.msgs)) q) ∙ there)
