-- ===== src/Queue/Kept/Maintain/Sweep.antt =====
-- The loop of Maintain over the expired leases: what it takes out of flight, and for what.
use mathlib.Core.Path.{subst}
use stitch.Prelude.{
  ℕ, zero, suc, ◌+◌, ◌≡◌, refl, sym, ap, Bool, false, not, arith, ltb, str_eq, Bool-cases,
  Option-cases, List-cases, inl, inr,
}
use stitch.Prelude.Int.{pos, ltb_ℤ}
use stitch.Prelude.Map
use stitch.Prelude.Tally.{bit, tally}
use stitch.Queue.Message.{Config, Message}
use stitch.Queue.Order.{LeaseEntry, lease_pop}
use stitch.Queue.Live.{Queue}
use stitch.Queue.Ops.{is_exhausted}
use stitch.Queue.Maintain.{Reclaimed, reclaim_entry, reclaim, maintain_reserve}
use stitch.Queue.Invariant.Maintenance.{
  messages, tally-messages, stripped, reclaim-empty, reclaim-later, reclaim-due,
}
use stitch.Queue.Leases.{lent-promote_due}
use stitch.Manager.Mirror.Silent.{view-promote_due}

-- A message with attempts left, under a configuration, and one without.
abbrev pub is_alive : Config → Message → Bool
is_alive c m = ltb_ℤ (pos m.attempts) c.max_attempts

abbrev pub is_spent : Config → Message → Bool
is_spent c m = not (is_alive c m)

-- What was in flight is there still or taken back, to be put back where attempts are left and to be
-- buried where they are not.
pub record Split (q : Queue) (r : Reclaimed) : Type 0 where
  pub cfg : r.queue.cfg ≡ q.cfg
  pub flight :
      (p : Message → Bool)
      → tally p (Map.values r.queue.inflight)
          + tally p (messages r.requeue)
          + tally p (messages r.to_dlq)
        ≡ tally p (Map.values q.inflight)
  pub alive : tally (is_spent q.cfg) (messages r.requeue) ≡ 0
  pub spent : tally (is_alive q.cfg) (messages r.to_dlq) ≡ 0

reclaim_entry-Split :
    (e : LeaseEntry) (q : Queue) (r : Reclaimed) → Split q r → Split q (reclaim_entry e r)
unfolding reclaim_entry
reclaim_entry-Split e q r s = elim (Option-cases (Map.lookup e.id r.queue.inflight)) [
  | inl gone ↦ rw (reclaim_entry, gone) s
  | inr (m, there) ↦ elim (Bool-cases (str_eq m.lease_token e.token)) [
    | inr stale ↦ rw (reclaim_entry, there, stale) s
    | inl fits ↦
        let less = λ (p : Message → Bool). Map.values-delete e.id p m r.queue.inflight there in
        let same : is_alive q.cfg m ≡ is_alive r.queue.cfg m = ap (λ c. is_alive c m) (sym s.cfg) in
        elim (Bool-cases (is_exhausted r.queue m)) [
          | inl dead ↦
              let dead' : is_alive q.cfg m ≡ false = ground (arith, same, dead) in
              rw (reclaim_entry, there, fits, dead)
                (record {
                  cfg = s.cfg;
                  flight = λ p. omega (arith, s.flight p, less p, tally-messages p r.to_dlq m e);
                  alive = s.alive;
                  spent =
                      omega (
                        arith,
                        s.spent,
                        tally-messages (is_alive q.cfg) r.to_dlq m e,
                        ap bit dead',
                      );
                })
          | inr alive ↦
              let alive' : is_spent q.cfg m ≡ false = ground (arith, same, alive) in
              rw (reclaim_entry, there, fits, alive)
                (record {
                  cfg = s.cfg;
                  flight = λ p. omega (arith, s.flight p, less p, tally-messages p r.requeue m e);
                  alive = omega (
                    arith,
                    s.alive,
                    tally-messages (is_spent q.cfg) r.requeue m e,
                    ap bit alive',
                  );
                  spent = s.spent;
                })
        ]
  ]
]

reclaim-Split :
    (fuel now : ℕ) (q : Queue) (r : Reclaimed) → Split q r → Split q (reclaim fuel now r)
unfolding reclaim
reclaim-Split zero now q r s = s
reclaim-Split (suc fuel) now q r s = elim (List-cases r.queue.leases) [
  | inl e ↦ subst (Split q) (sym (reclaim-empty fuel now r e)) s
  | inr (top, es, e) ↦ elim (Bool-cases (ltb now top.expires_at)) [
    | inl later ↦ subst (Split q) (sym (reclaim-later fuel now r top es e later)) s
    | inr due ↦ subst (Split q) (sym (reclaim-due fuel now r top es e due)) (
        reclaim-Split fuel now q _ (
          reclaim_entry-Split (lease_pop r.queue.leases).0 q (stripped fuel now r)
            (record { cfg = s.cfg; flight = s.flight; alive = s.alive; spent = s.spent })))
  ]
]

pub maintain_reserve-Split : (now : ℕ) (q : Queue) → Split q (maintain_reserve now q)
unfolding maintain_reserve
maintain_reserve-Split now q = reclaim-Split _ now q _ (record {
  cfg = ap (λ v. v.cfg) (view-promote_due now q);
  flight = λ p. omega (arith, ap (λ l. tally p (Map.values l.0)) (lent-promote_due now q));
  alive = refl;
  spent = refl;
})
