-- ===== src/Api/Samples.antt =====
-- What internal/api/metrics.go reports of the queues.
use stitch.Prelude.{ℕ, ◌+◌, ◌≡◌, ap, List, [], ◌∷◌, Bool-cases, inl, inr}
use stitch.Prelude.Map
use stitch.Queue.Live.{Queue}
use stitch.Queue.Ops.{stats}
use stitch.Queue.Invariant.{Balanced}
use stitch.Queue.Invariant.Operations.{stats-total}
use stitch.Manager.{Manager}
use stitch.Manager.Listing.{named_before, insert_by_name, sort_by_name, queues}
use stitch.Manager.Mirror.Silent.{view-promote_due}
use stitch.Api.Metrics.{QueueSample, sample_all, sample_queues}

-- No operation runs on any of the queues.
abbrev pub AllBalanced : List Queue → Type 0
AllBalanced [] = Unit
AllBalanced (q ∷ qs) = Balanced [] q × AllBalanced qs

insert_by_name-AllBalanced :
    (q : Queue) (qs : List Queue)
    → Balanced [] q
    → AllBalanced qs
    → AllBalanced (insert_by_name q qs)
unfolding insert_by_name
insert_by_name-AllBalanced q [] b bs = (b, bs)
insert_by_name-AllBalanced q (x ∷ xs) b bs = elim (Bool-cases (named_before x q)) [
  | inl past ↦ rw past (bs.0, insert_by_name-AllBalanced q xs b bs.1)
  | inr here ↦ rw here (b, bs)
]

sort_by_name-AllBalanced : (qs : List Queue) → AllBalanced qs → AllBalanced (sort_by_name qs)
unfolding sort_by_name
sort_by_name-AllBalanced [] bs = tt
sort_by_name-AllBalanced (q ∷ qs) bs =
    insert_by_name-AllBalanced q (sort_by_name qs) bs.0 (sort_by_name-AllBalanced qs bs.1)

-- The samples are of these queues, in this order, and the states of each add up.
abbrev pub Reported : List Queue → List QueueSample → Type 0
Reported [] [] = Unit
Reported [] (s ∷ ss) = ⊥
Reported (q ∷ qs) [] = ⊥
Reported (q ∷ qs) (s ∷ ss) =
    (s.name ≡ q.cfg.name) × (s.depth + s.delayed + s.in_flight + s.dlq ≡ s.total) × Reported qs ss

sample_all-Reported :
    (now : ℕ) (qs : List Queue) (m : Manager) → AllBalanced qs → Reported qs (sample_all now qs m).0
unfolding sample_all stats
sample_all-Reported now [] m bs = tt
sample_all-Reported now (q ∷ qs) m bs = (
  ap (λ v. v.cfg.name) (view-promote_due now q),
  stats-total now q bs.0,
  sample_all-Reported now qs _ bs.1,
)

-- The samples behind the metrics are one for each queue, in the order of the listing, where no
-- operation runs: the ready, the delayed, the leased and the dead messages of each add up to its
-- total.
pub sample_queues-Reported :
    (now : ℕ) (m : Manager)
    → AllBalanced (Map.values m.queues)
    → Reported (queues m) (sample_queues now m).0
unfolding sample_queues queues
sample_queues-Reported now m bs =
    sample_all-Reported now (queues m) m (sort_by_name-AllBalanced (Map.values m.queues) bs)
