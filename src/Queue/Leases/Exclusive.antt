-- ===== src/Queue/Leases/Exclusive.antt =====
-- A lease of internal/queue/queue.go while it lasts, under the steps of other operations.
use mathlib.Core.Path.{subst}
use stitch.Prelude.{
  ℕ, ◌+◌, ◌<◌, ◌≡◌, refl, sym, ap, ◌∙◌, Bool, true, false, ◌&&◌, String, none, some, List, [], ◌∷◌,
  ◌++◌, ltb, arith, str_eq, eq_iff, Bool-cases, Option-cases, inl, inr,
}
use stitch.Prelude.Map
use stitch.Prelude.Map.{Map}
use stitch.Prelude.Tally.{bit, tally}
use stitch.Queue.Message.{Message}
use stitch.Queue.Order.{LeaseEntry}
use stitch.Queue.Live.{Queue, restore_leased, restore_leased_entry, move_to_dlq}
use stitch.Queue.Ops.{
  LogAnswer, lease_items, grant, dequeue_commit, ack_commit, nack_commit, requeued, is_exhausted,
}
use stitch.Queue.Maintain.{Reclaimed, reclaim_entry, restore_all, commit_requeue, commit_bury}
use stitch.Queue.Invariant.{Balanced}
use stitch.Queue.Invariant.Steps.{held_once}
use stitch.Queue.Invariant.Loops.{granted, granted-Balanced}
use stitch.Queue.Invariant.Maintenance.{messages, restored}
use stitch.Queue.Leases.{
  watches, Lent, lent, lent-put, lent-push_back, lent-wake_if_sooner, lent-requeue_all,
  lent-bury_all,
}
use stitch.Queue.Leases.Operations.{tally-lease_push}
use stitch.Queue.Leases.Reclaim.{AllWatch}

-- An entry that would end the lease of the message before its time.
abbrev pub ends_early : Message → LeaseEntry → Bool
ends_early m e =
    str_eq e.id m.id && str_eq e.token m.lease_token && ltb e.expires_at m.lease_expires

-- The message is in flight, and no entry ends its lease early.
abbrev pub Lasts : Message → Lent → Type 0
Lasts m (inflight, leases) = (Map.lookup m.id inflight ≡ some m) × (tally (ends_early m) leases ≡ 0)

own_entry : (x : Message) (e : LeaseEntry) → watches x e ≡ true → e.id ≡ x.id
unfolding watches
own_entry x e h = (eq_iff e.id x.id).0 (ground (arith, h))

module _ (m : Message) where
  -- What an operation holds is not in flight.
  held_apart :
      (held : List Message) (x : Message) (q : Queue)
      → Balanced (x ∷ held) q
      → Lasts m (lent q)
      → str_eq x.id m.id ≡ false
  held_apart held x q b l = elim (Bool-cases (str_eq x.id m.id)) [
    | inr apart ↦ apart
    | inl same ↦
        let gone : tally (Map.is m.id) (Map.keys q.inflight) ≡ 0 =
          subst (λ k. tally (Map.is k) (Map.keys q.inflight) ≡ 0) ((eq_iff x.id m.id).0 same)
            (held_once held x q b).1 in
        absurd (omega (arith, gone, Map.lookup_there m.id m q.inflight l.0))
  ]

  pub restored-Lasts :
      (held : List Message) (x : Message) (q : Queue)
      → Balanced (x ∷ held) q
      → Lasts m (lent q)
      → Lasts m (lent (restore_leased x q))
  unfolding restore_leased
  restored-Lasts held x q b l =
      (Map.lookup-insert_other m.id x.id x q.inflight (held_apart held x q b l) ∙ l.0, l.1)

  pub ack_commit-Lasts :
      (held : List Message) (id : String) (x : Message) (answer : LogAnswer) (q : Queue)
      → Balanced (x ∷ held) q
      → Lasts m (lent q)
      → Lasts m (lent (ack_commit id x answer q).1)
  unfolding ack_commit
  ack_commit-Lasts held id x (some e) q b l = restored-Lasts held x q b l
  ack_commit-Lasts held id x none q b l = l

  pub nack_commit-Lasts :
      (held : List Message) (x : Message) (to_dlq : Bool) (visible_at now : ℕ) (answer : LogAnswer)
      (q : Queue)
      → Balanced (x ∷ held) q
      → Lasts m (lent q)
      → Lasts m (lent (nack_commit x to_dlq visible_at now answer q).1)
  unfolding nack_commit move_to_dlq
  nack_commit-Lasts held x to_dlq visible_at now (some e) q b l = restored-Lasts held x q b l
  nack_commit-Lasts held x true visible_at now none q b l = l
  nack_commit-Lasts held x false visible_at now none q b l =
      subst (Lasts m) (sym (lent-put (requeued x visible_at) now q)) l

  -- An entry for another message ends no lease of this one.
  other_entry : (e : LeaseEntry) → str_eq e.id m.id ≡ false → ends_early m e ≡ false
  other_entry e apart = rw apart refl

  grant-Lasts :
      (held : List Message) (expires : ℕ) (token : ℕ → String) (i : ℕ) (picked : List Message)
      (q : Queue)
      → Balanced (picked ++ held) q
      → Lasts m (lent q)
      → Lasts m (lent (grant expires picked (lease_items token i picked) q).0)
  unfolding grant lease_items
  grant-Lasts held expires token i [] q b l = l
  grant-Lasts held expires token i (x ∷ xs) q b l =
      let apart = held_apart (xs ++ held) x q b l in
      let entry : LeaseEntry = record { id = x.id; token = token i; expires_at = expires } in
      let more = tally-lease_push (ends_early m) q.leases entry b.ordered.leases in
      grant-Lasts held expires token (i + 1) xs (granted expires (token i) x q)
        (granted-Balanced (xs ++ held) expires (token i) x q b)
        (
          Map.lookup-insert_other m.id x.id _ q.inflight apart ∙ l.0,
          omega (arith, more, l.1, ap bit (other_entry entry apart)),
        )

  pub dequeue_commit-Lasts :
      (held : List Message) (expires : ℕ) (token : ℕ → String) (picked : List Message)
      (answer : LogAnswer) (q : Queue)
      → Balanced (picked ++ held) q
      → Lasts m (lent q)
      → Lasts m (lent (dequeue_commit expires picked (lease_items token 0 picked) answer q).1)
  unfolding dequeue_commit
  dequeue_commit-Lasts held expires token picked (some e) q b l =
      subst (Lasts m) (sym (lent-push_back picked q)) l
  dequeue_commit-Lasts held expires token picked none q b l =
      subst (Lasts m) (sym (lent-wake_if_sooner expires _))
        (grant-Lasts held expires token 0 picked q b l)

  restore_all-Lasts :
      (held : List Message) (r : List (Message × LeaseEntry)) (q : Queue)
      → Balanced (messages r ++ held) q
      → AllWatch r
      → Lasts m (lent q)
      → Lasts m (lent (restore_all r q))
  unfolding restore_all restore_leased_entry
  restore_all-Lasts held [] q b own l = l
  restore_all-Lasts held ((x, e) ∷ r) q b own l =
      let apart = held_apart (messages r ++ held) x q b l in
      let more = tally-lease_push (ends_early m) q.leases e b.ordered.leases in
      restore_all-Lasts held r (restore_leased_entry x e q) (restored x e (messages r ++ held) q b)
        own.1
        (
          Map.lookup-insert_other m.id x.id x q.inflight apart ∙ l.0,
          omega (
            arith,
            more,
            l.1,
            ap bit (other_entry e (ap (λ k. str_eq k m.id) (own_entry x e own.0) ∙ apart)),
          ),
        )

  pub commit_requeue-Lasts :
      (held : List Message) (now : ℕ) (r : List (Message × LeaseEntry)) (answer : LogAnswer)
      (q : Queue)
      → Balanced (messages r ++ held) q
      → AllWatch r
      → Lasts m (lent q)
      → Lasts m (lent (commit_requeue now r answer q))
  unfolding commit_requeue
  commit_requeue-Lasts held now r (some e) q b own l = restore_all-Lasts held r q b own l
  commit_requeue-Lasts held now r none q b own l =
      subst (Lasts m) (sym (lent-requeue_all now r q)) l

  pub commit_bury-Lasts :
      (held : List Message) (r : List (Message × LeaseEntry)) (answer : LogAnswer) (q : Queue)
      → Balanced (messages r ++ held) q
      → AllWatch r
      → Lasts m (lent q)
      → Lasts m (lent (commit_bury r answer q))
  unfolding commit_bury
  commit_bury-Lasts held r (some e) q b own l = restore_all-Lasts held r q b own l
  commit_bury-Lasts held r none q b own l = subst (Lasts m) (sym (lent-bury_all r q)) l

  another :
      (e : LeaseEntry) (x : Message) (inflight : Map Message)
      → e.expires_at < m.lease_expires
      → ends_early m e ≡ false
      → Map.lookup e.id inflight ≡ some x
      → str_eq x.lease_token e.token ≡ true
      → Map.lookup m.id inflight ≡ some m
      → str_eq e.id m.id ≡ false
  another e x inflight soon kept there fits here = elim (Bool-cases (str_eq e.id m.id)) [
    | inr apart ↦ apart
    | inl same ↦
        let itself : x ≡ m =
          Map.some_injective x m
            (sym there ∙ ap (λ k. Map.lookup k inflight) ((eq_iff e.id m.id).0 same) ∙ here) in
        let token : str_eq e.token m.lease_token ≡ true =
          (eq_iff e.token m.lease_token).1
            (sym ((eq_iff x.lease_token e.token).0 fits) ∙ ap (λ y. y.lease_token) itself) in
        absurd (ground (arith, same, token, kept, soon))
  ]

  -- An entry that is popped before the lease is over takes another message back, if any.
  pub reclaim_entry-Lasts :
      (e : LeaseEntry) (r : Reclaimed)
      → e.expires_at < m.lease_expires
      → ends_early m e ≡ false
      → Lasts m (lent r.queue)
      → Lasts m (lent (reclaim_entry e r).queue)
  unfolding reclaim_entry
  reclaim_entry-Lasts e r soon kept l = elim (Option-cases (Map.lookup e.id r.queue.inflight)) [
    | inl gone ↦ rw (reclaim_entry, gone) l
    | inr (x, there) ↦ elim (Bool-cases (str_eq x.lease_token e.token)) [
      | inr stale ↦ rw (reclaim_entry, there, stale) l
      | inl fits ↦
          let apart = another e x r.queue.inflight soon kept there fits l.0 in
          let still = Map.lookup-delete m.id e.id r.queue.inflight apart ∙ l.0 in
          elim (Bool-cases (is_exhausted r.queue x)) [
            | inl dead ↦ rw (reclaim_entry, there, fits, dead) (still, l.1)
            | inr alive ↦ rw (reclaim_entry, there, fits, alive) (still, l.1)
          ]
    ]
  ]
