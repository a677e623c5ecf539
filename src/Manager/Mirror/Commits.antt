-- ===== src/Manager/Mirror/Commits.antt =====
-- Each commit of a live operation, and the replay of the record that it waited for.
use stitch.Prelude.{
  ℕ, ◌+◌, ◌≡◌, refl, sym, ap, ◌∙◌, String, some, List, [], ◌∷◌, ◌++◌, ok, inc64, ltb, leb, not,
  ◌&&◌, ◌==◌, Bool-cases, inl, inr, if◌then◌else◌,
}
use stitch.Prelude.Map
use stitch.Prelude.Map.{Map}
use stitch.Queue.Message.{Message}
use stitch.Queue.Order.{LeaseEntry}
use stitch.Queue.Payload.{LeaseItem, ExpireItem}
use stitch.Queue.Live.{Queue, put, move_to_dlq, wake_if_sooner}
use stitch.Queue.Ops.{grant, lease_items, leased_message, requeued}
use stitch.Queue.Maintain.{expire_items, ids_of, requeue_all, bury_all}
use stitch.Queue.Invariant.{Balanced}
use stitch.Queue.Invariant.Steps.{
  held_there, held_once, put_back-Balanced, dropped-Balanced, adjusted-Balanced,
}
use stitch.Queue.Invariant.Loops.{granted, granted-Balanced, lease_item}
use stitch.Queue.Invariant.Maintenance.{messages}
use stitch.Manager.{
  live_message, apply_lease_items, apply_ack, apply_nack, apply_expire_items, apply_dlq, released,
}
use stitch.Manager.Mirror.{View, view, Mirrors}

-- A live queue that shows the same.
pub Mirrors-view : {q q' r : Queue} → view q' ≡ view q → Mirrors q r → Mirrors q' r
Mirrors-view e m = record { seen = m.seen ∙ sym e; idle = m.idle }

-- What replay finds under the ID of a message that an operation holds.
lookup-Mirrors :
    (held : List Message) (m : Message) (q r : Queue)
    → Balanced (m ∷ held) q
    → Mirrors q r
    → Map.lookup m.id r.msgs ≡ some m
lookup-Mirrors held m q r b s = ap (λ v. Map.lookup m.id v.msgs) s.seen ∙ held_there held m q b

pub view-put :
    (m : Message) (now : ℕ) (q : Queue)
    → view (put m now q) ≡ record (view q) { msgs = Map.insert m.id m q.msgs }
unfolding put wake_if_sooner
view-put m now q = elim (Bool-cases (ltb now m.visible_at)) [
  | inl later ↦ elim (Bool-cases (not (q.armed == 0) && leb q.armed m.visible_at)) [
    | inl sooner ↦ rw (put, wake_if_sooner, later, sooner) refl
    | inr wait ↦ rw (put, wake_if_sooner, later, wait) refl
  ]
  | inr due ↦ rw (put, due) refl
]

-- One item of a LEASE record.
apply_lease_step :
    (expires : ℕ) (it : LeaseItem) (items : List LeaseItem) (r : Queue) (m : Message)
    → Map.lookup it.id r.msgs ≡ some m
    → apply_lease_items expires (it ∷ items) r
      ≡ apply_lease_items expires items
          (record r { msgs = Map.update it.id (leased_message it expires m) r.msgs })
unfolding apply_lease_items live_message
apply_lease_step expires it items r m h = rw (apply_lease_items, live_message, h) refl

pub grant-Mirrors :
    (held : List Message) (expires : ℕ) (token : ℕ → String) (i : ℕ) (picked : List Message)
    (q r : Queue)
    → Balanced (picked ++ held) q
    → Mirrors q r
    → (r' : Queue) × (apply_lease_items expires (lease_items token i picked) r ≡ ok r')
      × Mirrors (grant expires picked (lease_items token i picked) q).0 r'
unfolding apply_lease_items grant lease_items
grant-Mirrors held expires token i [] q r b s = (r, refl, s)
grant-Mirrors held expires token i (m ∷ ms) q r b s =
    let it = lease_item (token i) m in
    let m' = leased_message it expires m in
    let r1 = record r { msgs = Map.update m.id m' r.msgs } in
    let s1 : Mirrors (granted expires (token i) m q) r1 = record {
      seen = ap {A = View} (λ v. record v { msgs = Map.update m.id m' v.msgs }) s.seen;
      idle = s.idle;
    } in
    let (r', done, s') =
      grant-Mirrors held expires token (i + 1) ms (granted expires (token i) m q) r1
        (granted-Balanced (ms ++ held) expires (token i) m q b) s1 in
    (
      r',
      apply_lease_step expires it (lease_items token (i + 1) ms) r m
            (lookup-Mirrors (ms ++ held) m q r b s)
          ∙ done,
      s',
    )

pub ack-Mirrors :
    (held : List Message) (m : Message) (q r : Queue)
    → Balanced (m ∷ held) q
    → Mirrors q r
    → (r' : Queue) × (apply_ack m.id r ≡ ok r')
      × Mirrors
          (record q {
            msgs = Map.delete m.id q.msgs;
            cnt = record q.cnt { acked = inc64 q.cnt.acked };
          })
          r'
unfolding apply_ack live_message
ack-Mirrors held m q r b s =
    let there = lookup-Mirrors held m q r b s in
    (
      record r { msgs = Map.delete m.id r.msgs; cnt = record r.cnt { acked = inc64 r.cnt.acked } },
      rw (apply_ack, live_message, there) refl,
      record {
        seen =
            ap {A = View} (λ v. record v { msgs = Map.delete m.id v.msgs; acked = inc64 v.acked })
              s.seen;
        idle = s.idle;
      },
    )

-- A held message that is put back, and replay's write of its fields.
release-view :
    (held : List Message) (m : Message) (at now : ℕ) (q r : Queue)
    → Balanced (m ∷ held) q
    → Mirrors q r
    → record (view r) { msgs = Map.update m.id (released at m) r.msgs }
      ≡ view (put (requeued m at) now q)
unfolding requeued
release-view held m at now q r b s =
    ap {A = View} (λ v. record v { msgs = Map.update m.id (released at m) v.msgs }) s.seen
    ∙ ap {A = Map Message} (λ t. record (view q) { msgs = t })
        (sym (Map.insert-update m.id (released at m) q.msgs (held_once held m q b).0))
    ∙ sym (view-put (released at m) now q)

pub nack-Mirrors :
    (held : List Message) (m : Message) (at now : ℕ) (q r : Queue)
    → Balanced (m ∷ held) q
    → Mirrors q r
    → (r' : Queue) × (apply_nack m.id at r ≡ ok r')
      × Mirrors
          (record (put (requeued m at) now q) {
            cnt = record (put (requeued m at) now q).cnt {
              nacked = inc64 (put (requeued m at) now q).cnt.nacked;
            };
          })
          r'
unfolding apply_nack live_message
nack-Mirrors held m at now q r b s =
    let there = lookup-Mirrors held m q r b s in
    (
      record r {
        msgs = Map.update m.id (released at m) r.msgs;
        cnt = record r.cnt { nacked = inc64 r.cnt.nacked };
      },
      rw (apply_nack, live_message, there) refl,
      record {
        seen =
            ap {A = View} (λ v. record v { nacked = inc64 v.nacked })
              (release-view held m at now q r b s);
        idle = s.idle;
      },
    )

-- One item of a LEASE_EXPIRE record.
apply_expire_step :
    (it : ExpireItem) (items : List ExpireItem) (r : Queue) (m : Message)
    → Map.lookup it.id r.msgs ≡ some m
    → apply_expire_items (it ∷ items) r
      ≡ apply_expire_items items
          (record r { msgs = Map.update it.id (released it.visible_at m) r.msgs })
unfolding apply_expire_items live_message
apply_expire_step it items r m h = rw (apply_expire_items, live_message, h) refl

-- The live queue after one round of Maintain's loop over the messages to requeue.
abbrev requeue_one : ℕ → Message → Queue → Queue
requeue_one now m q =
    let q1 = put (requeued m now) now q in
    record q1 { cnt = record q1.cnt { expired = inc64 q1.cnt.expired } }

pub requeue_all-Mirrors :
    (held : List Message) (now : ℕ) (xs : List (Message × LeaseEntry)) (q r : Queue)
    → Balanced (messages xs ++ held) q
    → Mirrors q r
    → (r' : Queue) × (apply_expire_items (expire_items now xs) r ≡ ok r')
      × Mirrors (requeue_all now xs q) r'
unfolding requeue_all expire_items apply_expire_items requeued
requeue_all-Mirrors held now [] q r b s = (r, refl, s)
requeue_all-Mirrors held now ((m, e) ∷ xs) q r b s =
    let rest = messages xs ++ held in
    let q1 = put (requeued m now) now q in
    let b1 =
      adjusted-Balanced rest q1 q1.seq q1.dlq q1.dedup
        (record q1.cnt { expired = inc64 q1.cnt.expired }) q1.armed q1.wake
        (put_back-Balanced rest m (requeued m now) now q refl b) in
    let r1 = record r { msgs = Map.update m.id (released now m) r.msgs } in
    let s1 : Mirrors (requeue_one now m q) r1 = record {
      seen = release-view rest m now now q r b s;
      idle = s.idle;
    } in
    let (r', done, s') = requeue_all-Mirrors held now xs (requeue_one now m q) r1 b1 s1 in
    (
      r',
      apply_expire_step (record { id = m.id; visible_at = now }) (expire_items now xs) r m
            (lookup-Mirrors rest m q r b s)
          ∙ done,
      s',
    )

-- A message that goes to the dead letters, and one ID of a DLQ_MOVE record.
abbrev bury_view : Message → View → View
bury_view m v = record v {
  msgs = Map.delete m.id v.msgs;
  dlq = if v.cfg.dlq then v.dlq ++ ((record m { lease_token = "" }) ∷ []) else v.dlq;
  dlq_moved = inc64 v.dlq_moved;
}

abbrev buried : Message → Queue → Queue
buried m r = record r {
  msgs = Map.delete m.id r.msgs;
  dlq = if r.cfg.dlq then r.dlq ++ ((record m { lease_token = "" }) ∷ []) else r.dlq;
  cnt = record r.cnt { dlq_moved = inc64 r.cnt.dlq_moved };
}

apply_dlq_step :
    (id : String) (ids : List String) (r : Queue) (m : Message)
    → m.id ≡ id
    → Map.lookup id r.msgs ≡ some m
    → apply_dlq (id ∷ ids) r ≡ apply_dlq ids (buried m r)
unfolding apply_dlq live_message
apply_dlq_step id ids r m e h = rw (apply_dlq, live_message, h, e) refl

bury-Mirrors : (m : Message) (q r : Queue) → Mirrors q r → Mirrors (buried m q) (buried m r)
bury-Mirrors m q r s = record { seen = ap (bury_view m) s.seen; idle = s.idle }

-- The one ID of Nack's record.
pub bury_one-Mirrors :
    (held : List Message) (m : Message) (q r : Queue)
    → Balanced (m ∷ held) q
    → Mirrors q r
    → (r' : Queue) × (apply_dlq (m.id ∷ []) r ≡ ok r') × Mirrors (buried m q) r'
unfolding apply_dlq
bury_one-Mirrors held m q r b s = (
  buried m r,
  apply_dlq_step m.id [] r m refl (lookup-Mirrors held m q r b s),
  bury-Mirrors m q r s,
)

pub bury_all-Mirrors :
    (held : List Message) (xs : List (Message × LeaseEntry)) (q r : Queue)
    → Balanced (messages xs ++ held) q
    → Mirrors q r
    → (r' : Queue) × (apply_dlq (ids_of xs) r ≡ ok r') × Mirrors (bury_all xs q) r'
unfolding bury_all move_to_dlq apply_dlq
bury_all-Mirrors held [] q r b s = (r, refl, s)
bury_all-Mirrors held ((m, e) ∷ xs) q r b s =
    let rest = messages xs ++ held in
    let q1 = record q { msgs = Map.delete m.id q.msgs } in
    let q2 = record (buried m q) {
      cnt = record q.cnt { expired = inc64 q.cnt.expired; dlq_moved = inc64 q.cnt.dlq_moved };
    } in
    let b1 =
      adjusted-Balanced rest q1 q.seq q2.dlq q.dedup q2.cnt q.armed q.wake
        (dropped-Balanced rest m q b) in
    let s1 : Mirrors q2 (buried m r) = Mirrors-view refl (bury-Mirrors m q r s) in
    let (r', done, s') = bury_all-Mirrors held xs q2 (buried m r) b1 s1 in
    (r', apply_dlq_step m.id (ids_of xs) r m refl (lookup-Mirrors rest m q r b s) ∙ done, s')
