-- ===== src/Queue/Leases/Reclaim.antt =====
-- Maintain of internal/queue/queue.go, and the leases of a queue.
use mathlib.Core.Path.{subst}
use stitch.Prelude.{
  ℕ, ◌+◌, ◌≤◌, ◌<◌, ◌≡◌, sym, ap, ◌∙◌, Bool, true, false, none, some, List, [], ◌∷◌, ◌++◌, length,
  arith, str_eq, eq_iff, Bool-cases, Option-cases, inl, inr,
}
use stitch.Prelude.Map
use stitch.Prelude.Map.{Map}
use stitch.Prelude.Tally.{bit, tally}
use stitch.Queue.Message.{Message}
use stitch.Queue.Message.Same.{same_message, same_message_sound, same_message_refl}
use stitch.Queue.Order.{LeaseEntry, no_lease, lease_less, lease_pop}
use stitch.Queue.Order.Laws.{lease_less-StrictOrder}
use stitch.Queue.Heap.Ops.{All, Popped, pop_correct}
use stitch.Queue.Live.{Queue, restore_leased_entry}
use stitch.Queue.Ops.{LogAnswer, is_exhausted}
use stitch.Queue.Maintain.{Reclaimed, reclaim_entry, restore_all, commit_requeue, commit_bury}
use stitch.Queue.Invariant.{LeaseHeap, IsKeyed, Balanced, count_ids}
use stitch.Queue.Invariant.Steps.{lookup-IsKeyed, leased-Balanced, held_once}
use stitch.Queue.Invariant.Maintenance.{messages, restored, stripped}
use stitch.Queue.Leases.{watches, lent, Watched, lent-requeue_all, lent-bury_all}
use stitch.Queue.Leases.Operations.{tally-lease_push, same-one}

pub lease_pop-Popped :
    (h : List LeaseEntry)
    → 0 < length h
    → LeaseHeap h
    → Popped lease_less no_lease lease_less-StrictOrder h (lease_pop h)
unfolding lease_pop
lease_pop-Popped h pos o = pop_correct lease_less no_lease lease_less-StrictOrder h pos o

-- An entry that is due no later than all entries is one for a lease, if it is one of its token.
least-watches :
    (m : Message) (e : LeaseEntry) (es : List LeaseEntry)
    → All (λ t. lease_less t e ≡ false) es
    → e.id ≡ m.id
    → e.token ≡ m.lease_token
    → 0 < tally (watches m) es
    → watches m e ≡ true
unfolding watches lease_less
least-watches m e [] h same_id same_token c = absurd (omega arith)
least-watches m e (t ∷ es) h same_id same_token c = elim (Bool-cases (watches m t)) [
  | inl fits ↦
      ground (
        arith,
        fits,
        h.0,
        (eq_iff e.id m.id).1 same_id,
        (eq_iff e.token m.lease_token).1 same_token,
      )
  | inr other ↦ least-watches m e es h.1 same_id same_token (omega (arith, c, ap bit other))
]

-- A table that stores each key once stores each message once.
stored_once :
    (m : Message) (t : Map Message)
    → IsKeyed t
    → tally (same_message m) (Map.values t) ≤ tally (Map.is m.id) (Map.keys t)
stored_once m [] h = omega arith
stored_once m ((k, v) ∷ t) h = elim (Bool-cases (same_message m v)) [
  | inl same ↦
      let here : str_eq k m.id ≡ true =
        (eq_iff k m.id).1 (sym (ap (λ x. x.id) (same_message_sound m v same) ∙ h.0)) in
      omega (arith, stored_once m t h.1, ap bit here, ap bit same)
  | inr other ↦ omega (arith, stored_once m t h.1, ap bit other)
]

-- The leases that Maintain took back had the entries that it popped.
abbrev pub AllWatch : List (Message × LeaseEntry) → Type 0
AllWatch [] = Unit
AllWatch ((m, e) ∷ r) = (watches m e ≡ true) × AllWatch r

AllWatch-snoc :
    (r : List (Message × LeaseEntry)) (m : Message) (e : LeaseEntry)
    → AllWatch r
    → watches m e ≡ true
    → AllWatch (r ++ ((m, e) ∷ []))
AllWatch-snoc [] m e h w = (w, tt)
AllWatch-snoc ((k, f) ∷ r) m e h w = (h.0, AllWatch-snoc r m e h.1 w)

module _ {held : List Message} where
  restored_entry-Watched :
      (m : Message) (e : LeaseEntry) (q : Queue)
      → Balanced (m ∷ held) q
      → watches m e ≡ true
      → Watched [] (lent q)
      → Watched [] (lent (restore_leased_entry m e q))
  unfolding restore_leased_entry
  restored_entry-Watched m e q b fits w x c =
      let new = Map.values-insert_new m.id (same_message x) m q.inflight (held_once held m q b).1 in
      let more = tally-lease_push (watches x) q.leases e b.ordered.leases in
      elim (Bool-cases (same_message x m)) [
        | inl same ↦
            let own = same-one x m (λ y. watches y e ≡ true) fits (omega (arith, ap bit same)) in
            omega (arith, more, ap bit own)
        | inr other ↦ omega (arith, more, w x (omega (arith, c, new, ap bit other)))
      ]

module _ (held : List Message) where
  restore_all-Watched :
      (r : List (Message × LeaseEntry)) (q : Queue)
      → Balanced (messages r ++ held) q
      → AllWatch r
      → Watched [] (lent q)
      → Watched [] (lent (restore_all r q))
  unfolding restore_all
  restore_all-Watched [] q b h w = w
  restore_all-Watched ((m, e) ∷ r) q b h w =
      restore_all-Watched r (restore_leased_entry m e q) (restored m e (messages r ++ held) q b) h.1
        (restored_entry-Watched m e q b h.0 w)

  pub commit_requeue-Watched :
      (now : ℕ) (r : List (Message × LeaseEntry)) (answer : LogAnswer) (q : Queue)
      → Balanced (messages r ++ held) q
      → AllWatch r
      → Watched [] (lent q)
      → Watched [] (lent (commit_requeue now r answer q))
  unfolding commit_requeue
  commit_requeue-Watched now r (some e) q b h w = restore_all-Watched r q b h w
  commit_requeue-Watched now r none q b h w = subst (Watched []) (sym (lent-requeue_all now r q)) w

  pub commit_bury-Watched :
      (r : List (Message × LeaseEntry)) (answer : LogAnswer) (q : Queue)
      → Balanced (messages r ++ held) q
      → AllWatch r
      → Watched [] (lent q)
      → Watched [] (lent (commit_bury r answer q))
  unfolding commit_bury
  commit_bury-Watched r (some e) q b h w = restore_all-Watched r q b h w
  commit_bury-Watched r none q b h w = subst (Watched []) (sym (lent-bury_all r q)) w

-- The leases that stay have an entry, and those taken back had one.
pub record Caught (r : Reclaimed) : Type 0 where
  pub watched : Watched [] (lent r.queue)
  pub requeue : AllWatch r.requeue
  pub to_dlq : AllWatch r.to_dlq

-- Popping an entry that is not one for a lease in flight.
skipped-Watched :
    (q : Queue) (t : Map Message) (e : LeaseEntry) (rest : List LeaseEntry)
    → ((p : LeaseEntry → Bool) → bit (p e) + tally p rest ≡ tally p q.leases)
    → ((m : Message)
        → 0 < tally (same_message m) (Map.values t)
        → (0 < tally (same_message m) (Map.values q.inflight)) × (watches m e ≡ false))
    → Watched [] (lent q)
    → Watched [] (t, rest)
skipped-Watched q t e rest same apart w m c =
    let (there, other) = apart m (omega (arith, c)) in
    omega (arith, same (watches m), w m (omega (arith, there)), ap bit other)

module _ (held : List Message) (r : Reclaimed) (b : Balanced held r.queue) where
  -- A message in flight is the one that its ID finds.
  found :
      (m : Message)
      → 0 < tally (same_message m) (Map.values r.queue.inflight)
      → Map.lookup m.id r.queue.inflight ≡ some m
  found m c =
      lookup-IsKeyed m r.queue.inflight b.keyed
        (omega (arith, count_ids (Map.is m.id) b, b.once m.id)) c

  -- The entry is for the message that its ID finds, if for one at all.
  its_message :
      (e : LeaseEntry) (m : Message)
      → 0 < tally (same_message m) (Map.values r.queue.inflight)
      → watches m e ≡ true
      → (Map.lookup e.id r.queue.inflight ≡ some m) × (str_eq m.lease_token e.token ≡ true)
  unfolding watches
  its_message e m c fits = (
    ap (λ k. Map.lookup k r.queue.inflight) ((eq_iff e.id m.id).0 (ground arith)) ∙ found m c,
    (eq_iff m.lease_token e.token).1 (sym ((eq_iff e.token m.lease_token).0 (ground arith))),
  )

  stale_apart :
      (e : LeaseEntry)
      → ((m : Message)
          → Map.lookup e.id r.queue.inflight ≡ some m
          → str_eq m.lease_token e.token ≡ false)
      → (m : Message) → 0 < tally (same_message m) (Map.values r.queue.inflight)
      → (0 < tally (same_message m) (Map.values r.queue.inflight)) × (watches m e ≡ false)
  stale_apart e stale m c = elim (Bool-cases (watches m e)) [
    | inl fits ↦
        let (there, token) = its_message e m c fits in absurd (ground (arith, stale m there))
    | inr other ↦ (c, other)
  ]

  taken_apart :
      (e : LeaseEntry) (m0 : Message)
      → Map.lookup e.id r.queue.inflight ≡ some m0
      → (m : Message) → 0 < tally (same_message m) (Map.values (Map.delete e.id r.queue.inflight))
      → (0 < tally (same_message m) (Map.values r.queue.inflight)) × (watches m e ≡ false)
  taken_apart e m0 there m c =
      let less = Map.values-delete e.id (same_message m) m0 r.queue.inflight there in
      let c' : 0 < tally (same_message m) (Map.values r.queue.inflight) = omega (arith, c, less) in
      elim (Bool-cases (watches m e)) [
        | inl fits ↦
            let same : m ≡ m0 = Map.some_injective m m0 (sym (its_message e m c' fits).0 ∙ there) in
            let itself : same_message m m0 ≡ true =
              subst (λ y. same_message m y ≡ true) same (same_message_refl m) in
            absurd (
              omega (
                arith,
                less,
                ap bit itself,
                c,
                stored_once m r.queue.inflight b.keyed,
                count_ids (Map.is m.id) b,
                b.once m.id,
              ))
        | inr other ↦ (c', other)
      ]

  pub reclaim_entry-Caught :
      (fuel now : ℕ)
      → 0 < length r.queue.leases
      → Caught r
      → Caught (reclaim_entry (lease_pop r.queue.leases).0 (stripped fuel now r))
  unfolding reclaim_entry
  reclaim_entry-Caught fuel now pos c =
      let popped = lease_pop-Popped r.queue.leases pos b.ordered.leases in
      let e = (lease_pop r.queue.leases).0 in
      let rest = (lease_pop r.queue.leases).1 in
      elim (Option-cases (Map.lookup e.id r.queue.inflight)) [
        | inl gone ↦
            rw (reclaim_entry, gone)
              (record {
                watched =
                    skipped-Watched r.queue r.queue.inflight e rest popped.same
                      (stale_apart e (λ m f. absurd (ground (arith, f, gone)))) c.watched;
                requeue = c.requeue;
                to_dlq = c.to_dlq;
              })
        | inr (m, there) ↦ elim (Bool-cases (str_eq m.lease_token e.token)) [
          | inr stale ↦
              rw (reclaim_entry, there, stale)
                (record {
                  watched =
                      skipped-Watched r.queue r.queue.inflight e rest popped.same
                        (stale_apart e (λ k f.
                          ap (λ (y : Message). str_eq y.lease_token e.token)
                            (Map.some_injective k m (sym f ∙ there))
                          ∙ stale))
                        c.watched;
                  requeue = c.requeue;
                  to_dlq = c.to_dlq;
                })
          | inl fits ↦
              let (same, taken) = leased-Balanced held e.id m r.queue there b in
              let in_table = Map.values-delete e.id (same_message m) m r.queue.inflight there in
              let here = ap bit (same_message_refl m) in
              let own =
                least-watches m e r.queue.leases popped.least (sym same)
                  (sym ((eq_iff m.lease_token e.token).0 fits))
                  (c.watched m (omega (arith, in_table, here))) in
              let watched =
                skipped-Watched r.queue (Map.delete e.id r.queue.inflight) e rest popped.same
                  (taken_apart e m there) c.watched in
              elim (Bool-cases (is_exhausted r.queue m)) [
                | inl dead ↦
                    rw (reclaim_entry, there, fits, dead)
                      (record {
                        watched = watched;
                        requeue = c.requeue;
                        to_dlq = AllWatch-snoc r.to_dlq m e c.to_dlq own;
                      })
                | inr alive ↦
                    rw (reclaim_entry, there, fits, alive)
                      (record {
                        watched = watched;
                        requeue = AllWatch-snoc r.requeue m e c.requeue own;
                        to_dlq = c.to_dlq;
                      })
              ]
        ]
      ]
