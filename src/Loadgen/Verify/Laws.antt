-- ===== src/Loadgen/Verify/Laws.antt =====
-- The verdict of the verify phase of cmd/loadgen/main.go.
use stitch.Prelude.{
  ℕ, ◌+◌, ◌<◌, ◌≡◌, ◌↔◌, ◌⊎◌, refl, ap, ◌∙◌, Bool, true, false, not, ◌&&◌, String, none, List, [],
  ◌∷◌, arith, length, length-append, str_eq, Bool-cases, Option-cases, inl, inr,
}
use stitch.Prelude.Map
use stitch.Prelude.Map.{Map}
use stitch.Prelude.Tally.{bit, tally}
use stitch.Loadgen.Files.{IdSet, is_some, has}
use stitch.Loadgen.Verify.{
  Survivors, is_present, without, Report, no_report, classify, reconcile, inspect, report, passes,
}

-- What recovery owes to an ID that was confirmed as enqueued: it is gone if its ack was confirmed,
-- and there if no ack was sent.
abbrev pub Right : IdSet → IdSet → Survivors → String → Type 0
Right acked sent s id =
    (has id acked ≡ true → is_present id s ≡ false)
    × (has id acked ≡ false → has id sent ≡ false → is_present id s ≡ true)

abbrev pub AllRight : IdSet → IdSet → Survivors → List String → Type 0
AllRight acked sent s [] = Unit
AllRight acked sent s (id ∷ ids) = Right acked sent s id × AllRight acked sent s ids

abbrev lost_test : IdSet → IdSet → Survivors → String → Bool
lost_test acked sent s id = not (has id acked) && not (is_present id s) && not (has id sent)

abbrev resurrected_test : IdSet → Survivors → String → Bool
resurrected_test acked s id = has id acked && is_present id s

-- What one ID adds to the report.
classify_counts :
    (a p t : Bool) (id : String) (r : Report)
    → (length (classify a p t id r).lost ≡ bit (not a && not p && not t) + length r.lost)
      × (length (classify a p t id r).resurrected ≡ bit (a && p) + length r.resurrected)
unfolding classify
classify_counts true true t id r =
    (omega arith, omega (arith, length-append r.resurrected (id ∷ [])))
classify_counts true false t id r = (omega arith, omega arith)
classify_counts false true t id r = (omega arith, omega arith)
classify_counts false false true id r = (omega arith, omega arith)
classify_counts false false false id r =
    (omega (arith, length-append r.lost (id ∷ [])), omega arith)

reconcile_counts :
    (acked sent : IdSet) (s : Survivors) (ids : List String) (r : Report)
    → (length (reconcile acked sent s ids r).lost
        ≡ tally (lost_test acked sent s) ids + length r.lost)
      × (length (reconcile acked sent s ids r).resurrected
          ≡ tally (resurrected_test acked s) ids + length r.resurrected)
unfolding reconcile
reconcile_counts acked sent s [] r = (omega arith, omega arith)
reconcile_counts acked sent s (id ∷ ids) r =
    let r1 = classify (has id acked) (is_present id s) (has id sent) id r in
    let rest = reconcile_counts acked sent s ids r1 in
    let one = classify_counts (has id acked) (is_present id s) (has id sent) id r in
    (omega (arith, rest.0, one.0), omega (arith, rest.1, one.1))

inspect_keeps :
    (enqueued : IdSet) (s : List (String × ℕ)) (r : Report)
    → ((inspect enqueued s r).lost ≡ r.lost) × ((inspect enqueued s r).resurrected ≡ r.resurrected)
unfolding inspect
inspect_keeps enqueued [] r = (refl, refl)
inspect_keeps enqueued ((id, attempts) ∷ s) r = inspect_keeps enqueued s _

has_cases :
    (id : String) (t : IdSet) → ((has id t ≡ false) × (Map.lookup id t ≡ none)) ⊎ (has id t ≡ true)
has_cases id t = elim (Option-cases (Map.lookup id t)) [
  | inl e ↦ inl (ap is_some e, e)
  | inr (v, e) ↦ inr (ap is_some e)
]

has-without :
    (id : String) (ks : List String) (t : IdSet)
    → tally (Map.is id) ks ≡ 0
    → has id (without ks t) ≡ has id t
unfolding without
has-without id [] t none_there = refl
has-without id (k ∷ ks) t none_there = elim (Bool-cases (str_eq k id)) [
  | inl same ↦ absurd (omega (arith, none_there, ap bit same))
  | inr other ↦
      has-without id ks (Map.delete k t) (omega (arith, none_there))
      ∙ ap is_some (Map.lookup-delete id k t other)
]

-- A confirmed ack is not ambiguous: another ID was sent or not as before.
sent_before :
    (id : String) (acked sent : IdSet)
    → has id acked ≡ false
    → has id (without (Map.keys acked) sent) ≡ has id sent
sent_before id acked sent e = elim (has_cases id acked) [
  | inl (_, gone) ↦ has-without id (Map.keys acked) sent (Map.keys_without id acked gone)
  | inr there ↦ absurd (ground (arith, e, there))
]

-- An ID that is neither lost nor resurrected is right, and the other way round.
module _ (acked sent : IdSet) (s : Survivors) where
  abbrev left_sent : IdSet
  left_sent = without (Map.keys acked) sent

  Right-tests :
      (id : String)
      → bit (lost_test acked left_sent s id) ≡ 0
      → bit (resurrected_test acked s id) ≡ 0
      → Right acked sent s id
  Right-tests id found fresh = (
    λ a. elim (Bool-cases (is_present id s)) [
      | inl there ↦ absurd (omega (arith, rw (a, there) at fresh))
      | inr gone ↦ gone
    ],
    λ a t. elim (Bool-cases (is_present id s)) [
      | inl there ↦ there
      | inr gone ↦
          let unsent = sent_before id acked sent a ∙ t in
          absurd (omega (arith, rw (a, gone, unsent) at found))
    ],
  )

  tests-Right :
      (id : String)
      → Right acked sent s id
      → (bit (lost_test acked left_sent s id) ≡ 0) × (bit (resurrected_test acked s id) ≡ 0)
  tests-Right id right = elim (Bool-cases (has id acked)) [
    | inl a ↦ rw (a, right.0 a) (refl, refl)
    | inr a ↦ elim (Bool-cases (has id sent)) [
      | inl t ↦ rw (a, sent_before id acked sent a, t) (ground arith, refl)
      | inr t ↦ rw (a, right.1 a t) (refl, refl)
    ]
  ]

  AllRight-tests :
      (ids : List String)
      → tally (lost_test acked left_sent s) ids ≡ 0
      → tally (resurrected_test acked s) ids ≡ 0
      → AllRight acked sent s ids
  AllRight-tests [] found fresh = tt
  AllRight-tests (id ∷ ids) found fresh = (
    Right-tests id (omega (arith, found)) (omega (arith, fresh)),
    AllRight-tests ids (omega (arith, found)) (omega (arith, fresh)),
  )

  tests-AllRight :
      (ids : List String)
      → AllRight acked sent s ids
      → (tally (lost_test acked left_sent s) ids ≡ 0) × (tally (resurrected_test acked s) ids ≡ 0)
  tests-AllRight [] right = (refl, refl)
  tests-AllRight (id ∷ ids) right =
      let one = tests-Right id right.0 in
      let rest = tests-AllRight ids right.1 in
      (omega (arith, one.0, rest.0), omega (arith, one.1, rest.1))

  report_counts :
      (enqueued : IdSet)
      → (length (report enqueued acked sent s).lost
          ≡ tally (lost_test acked left_sent s) (Map.keys enqueued))
        × (length (report enqueued acked sent s).resurrected
            ≡ tally (resurrected_test acked s) (Map.keys enqueued))
  unfolding report
  report_counts enqueued =
      let r = reconcile acked left_sent s (Map.keys enqueued) no_report in
      let kept = inspect_keeps enqueued s r in
      let counts = reconcile_counts acked left_sent s (Map.keys enqueued) no_report in
      (omega (arith, ap length kept.0, counts.0), omega (arith, ap length kept.1, counts.1))

passes_cases :
    (enqueued acked : IdSet) (r : Report)
    → (passes enqueued acked r ≡ true) ↔ (
        (length r.lost ≡ 0)
        × (length r.resurrected ≡ 0)
        × (0 < length enqueued)
        × (0 < length acked))
unfolding passes
passes_cases enqueued acked r = (λ h. ground (arith, h), λ h. ground (arith, h))

-- The run passes if and only if recovery kept its promise to every ID that was confirmed as enqueued
-- (gone if its ack was confirmed, there if no ack was sent), and at least one enqueue and one ack
-- were confirmed. IDs whose ack was sent but not confirmed may be there or not.
pub passes_iff :
    (enqueued acked sent : IdSet) (s : Survivors)
    → (passes enqueued acked (report enqueued acked sent s) ≡ true)
      ↔ (AllRight acked sent s (Map.keys enqueued) × (0 < length enqueued) × (0 < length acked))
passes_iff enqueued acked sent s =
    let r = report enqueued acked sent s in
    let verdict = passes_cases enqueued acked r in
    let counts = report_counts acked sent s enqueued in
    (
      λ h.
          let (lost, resurrected, some_enqueued, some_acked) = verdict.0 h in
          (
            AllRight-tests acked sent s (Map.keys enqueued) (omega (arith, counts.0, lost))
                (omega (arith, counts.1, resurrected)),
            some_enqueued,
            some_acked,
          ),
      λ h.
          let tests = tests-AllRight acked sent s (Map.keys enqueued) h.0 in
          verdict.1 (omega (arith, counts.0, tests.0), omega (arith, counts.1, tests.1), h.1, h.2),
    )
