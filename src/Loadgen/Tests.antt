-- ===== src/Loadgen/Tests.antt =====
-- The crash test's record files, workers and verdict at concrete inputs.
use stitch.Prelude.{◌≡◌, ◌↔◌, ◌<◌, refl, true, false, some, List, [], ◌∷◌, length}
use stitch.Prelude.Map
use stitch.Loadgen.Files.{
  IdSet, written, split_lines, trim_left, trim_right, trim_space, add_lines, read_ids,
}
use stitch.Loadgen.Files.Laws.{added, read_ids-written}
use stitch.Loadgen.Crash.{Post, Job, Load, produce, ack_all, consume_answer, consume}
use stitch.Loadgen.Crash.Laws.{Recorded, sent, confirmed, consume-Recorded}
use stitch.Loadgen.Verify.{
  Survivors, classify, reconcile, inspect, without, report, passes, add_survivors, drain_queue,
  verify,
}
use stitch.Loadgen.Verify.Laws.{AllRight, passes_iff}

read_ids-written_example :
    read_ids (written ("a1" ∷ "b2" ∷ "a1" ∷ [])) ≡ added ("a1" ∷ "b2" ∷ "a1" ∷ []) []
read_ids-written_example =
    read_ids-written ("a1" ∷ "b2" ∷ "a1" ∷ [])
      ((refl, (refl, (refl, tt))), ((refl, (refl, (refl, tt))), ((refl, (refl, (refl, tt))), tt)))

-- The second ack's answer is lost with the connection.
abbrev session : List (Post (List (Job × Post (Unit {0}))))
session =
    Post.answered (
      (record { id = "a"; lease_token = "t" }, Post.answered tt)
      ∷ (record { id = "b"; lease_token = "u" }, Post.gone)
      ∷ (record { id = "c"; lease_token = "v" }, Post.answered tt)
      ∷ [])
    ∷ []

abbrev filled : Load
filled = record {
  enqueued = "a" ∷ "b" ∷ "c" ∷ [];
  pending = [];
  acked = [];
  next = 3;
  dead = false;
}

consume_test :
    consume session filled
    ≡ record filled { pending = "a" ∷ "b" ∷ []; acked = "a" ∷ []; dead = true }
unfolding consume consume_answer ack_all
consume_test = refl

produce_test :
    (produce 2 (Post.answered "d" ∷ Post.answered "e" ∷ []) (record filled { next = 1 })).enqueued
    ≡ "a" ∷ "b" ∷ "c" ∷ "d" ∷ []
unfolding produce
produce_test = refl

consume-Recorded_example :
    Recorded 1 (sent session) (confirmed session) filled (consume session filled)
consume-Recorded_example = consume-Recorded session filled refl

abbrev enqueued_ids : IdSet
enqueued_ids = ("a", tt) ∷ ("b", tt) ∷ ("c", tt) ∷ []

abbrev acked_ids : IdSet
acked_ids = ("a", tt) ∷ []

abbrev sent_ids : IdSet
sent_ids = ("a", tt) ∷ ("b", tt) ∷ []

abbrev survivors : Survivors
survivors = ("c", 2) ∷ []

verify_test :
    verify "a\nb\nc\n" "a\n" "a\nb\n" (Post.answered (("c", 2) ∷ []) ∷ Post.answered [] ∷ [])
    ≡ some
        (record { resurrected = []; lost = []; unknown = []; ambiguous = 1; redelivered = 1 }, true)
unfolding verify read_ids split_lines add_lines trim_space trim_left trim_right drain_queue
    add_survivors report reconcile classify inspect without passes Map.insert Map.lookup Map.delete
verify_test = refl

passes_iff_example :
    (passes enqueued_ids acked_ids (report enqueued_ids acked_ids sent_ids survivors) ≡ true) ↔ (
      AllRight acked_ids sent_ids survivors (Map.keys enqueued_ids)
      × (0 < length enqueued_ids)
      × (0 < length acked_ids))
passes_iff_example = passes_iff enqueued_ids acked_ids sent_ids survivors
