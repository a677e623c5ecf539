-- ===== src/Loadgen/Verify.antt =====
-- The verify phase of cmd/loadgen/main.go: the drain of the recovered queue and the reconciliation
-- with the record files. Go ranges over a map in any order; here it is the order of insertion, on
-- which no count or verdict depends. Printing, and the sorting of what is printed, are left out.
pub mod Laws
use stitch.Prelude.{
  ℕ, suc, ◌+◌, Bool, true, false, not, ◌&&◌, ◌||◌, String, Option, none, some, List, [], ◌∷◌, ◌++◌,
  ltb, leb, length, ◌==◌, if◌then◌else◌,
}
use stitch.Prelude.Map
use stitch.Prelude.Map.{Map}
use stitch.Loadgen.Files.{IdSet, is_some, has, read_ids}
use stitch.Loadgen.Crash.{Post}

-- The IDs that came back, with their attempts.
abbrev pub Survivors : Type 0
Survivors = Map ℕ

abbrev pub is_present : String → Survivors → Bool
is_present id s = is_some (Map.lookup id s)

-- `delete(ackSent, id)` for each confirmed ID
unfoldable pub without : List String → IdSet → IdSet
without [] sent = sent
without (id ∷ ids) sent = without ids (Map.delete id sent)

unfoldable pub add_survivors : List (String × ℕ) → Survivors → Survivors
add_survivors [] s = s
add_survivors ((id, attempts) ∷ ms) s = add_survivors ms (Map.insert id attempts s)

-- The drain; none if a request fails, or if the answers end before an empty one.
unfoldable pub drain_queue : List (Post (List (String × ℕ))) → Survivors → Option Survivors
unfolding add_survivors
drain_queue [] s = none
drain_queue (Post.gone ∷ ps) s = none
drain_queue (Post.refused ∷ ps) s = none
drain_queue (Post.answered [] ∷ ps) s = some s
drain_queue (Post.answered (m ∷ ms) ∷ ps) s = drain_queue ps (add_survivors (m ∷ ms) s)

pub record Report : Type 0 where
  pub resurrected : List String
  pub lost : List String
  pub unknown : List String
  pub ambiguous : ℕ
  pub redelivered : ℕ

abbrev pub no_report : Report
no_report = record { resurrected = []; lost = []; unknown = []; ambiguous = 0; redelivered = 0 }

-- The cases of the switch for a confirmed ID: acknowledged or not, present or not, its ack sent or
-- not.
unfoldable pub classify : Bool → Bool → Bool → String → Report → Report
classify true true sent id r = record r { resurrected = r.resurrected ++ (id ∷ []) }
classify true false sent id r = r
classify false true sent id r = r
classify false false true id r = record r { ambiguous = suc r.ambiguous }
classify false false false id r = record r { lost = r.lost ++ (id ∷ []) }

unfoldable pub reconcile : IdSet → IdSet → Survivors → List String → Report → Report
unfolding classify
reconcile acked sent s [] r = r
reconcile acked sent s (id ∷ ids) r =
    reconcile acked sent s ids (classify (has id acked) (is_present id s) (has id sent) id r)

-- The loop over the survivors.
unfoldable pub inspect : IdSet → List (String × ℕ) → Report → Report
inspect enqueued [] r = r
inspect enqueued ((id, attempts) ∷ s) r = inspect enqueued s (record r {
  unknown = if has id enqueued then r.unknown else r.unknown ++ (id ∷ []);
  redelivered = if leb 2 attempts then suc r.redelivered else r.redelivered;
})

unfoldable pub report : IdSet → IdSet → IdSet → Survivors → Report
unfolding reconcile inspect without
report enqueued acked sent s =
    inspect enqueued s
      (reconcile acked (without (Map.keys acked) sent) s (Map.keys enqueued) no_report)

-- Whether the run passes.
unfoldable pub passes : IdSet → IdSet → Report → Bool
passes enqueued acked r =
    not (ltb 0 (length r.lost))
    && not (ltb 0 (length r.resurrected))
    && not (length enqueued == 0 || length acked == 0)

-- runVerify, from the contents of the three files; none where it stops without a verdict.
unfoldable pub verify :
    String → String → String → List (Post (List (String × ℕ))) → Option (Report × Bool)
unfolding report passes
verify enqueued_file acked_file pending_file answers =
    let enqueued = read_ids enqueued_file in
    let acked = read_ids acked_file in
    elim (drain_queue answers []) [
      | none ↦ none
      | some s ↦
          let r = report enqueued acked (read_ids pending_file) s in
          some (r, passes enqueued acked r)
    ]
