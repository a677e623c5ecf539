-- ===== src/Wal/Log/Drained.antt =====
-- The writer of internal/wal/wal.go when no fatal error comes up, as Close finds it.
use stitch.Prelude.{
  ℕ, zero, suc, ◌≤◌, ◌≡◌, refl, sym, ap, ◌∙◌, Option, none, some, List, [], ◌∷◌, ◌++◌, arith,
  length, length-append, Bool-cases, Option-cases, inl, inr,
}
use stitch.Wal.Recovery.{IoError}
use stitch.Wal.Log.{
  Log, io, Request, Reply, WriteFaults, rotate, after_rotate, write_batch, commit_live, commit,
  is_full, next_batch, run,
}
use stitch.Wal.Log.Commit.{
  batch_records, confirmed, confirmed-reply-none, commit-live, commit-fatal,
}
use stitch.Wal.Log.Run.{next_batch_split, confirmed-append, batch_records-append, answered-commit}

-- Without a fatal error every request was confirmed.
abbrev pub Clean : List Request → Log × List Reply → Type 0
Clean batch x = x.0.fatal ≡ none → confirmed batch x.1 ≡ batch_records batch

write_batch-Clean :
    (faults : WriteFaults) (l : Log) (batch : List Request)
    → Clean batch (write_batch faults l batch)
unfolding write_batch
write_batch-Clean faults l batch = elim (Option-cases faults.write) [
  | inr ((e, n), bad) ↦ rw bad (λ alive. absurd (let x : some (io e) ≡ none = alive in cc))
  | inl good ↦ elim (Option-cases faults.sync) [
    | inr (e, bad) ↦ rw (good, bad) (λ alive. absurd (let x : some (io e) ≡ none = alive in cc))
    | inl synced ↦ rw (good, synced) (λ alive. confirmed-reply-none batch)
  ]
]

after_rotate-Clean :
    (faults : WriteFaults) (batch : List Request) (x : Option IoError × Log)
    → Clean batch (after_rotate faults batch x)
unfolding after_rotate
after_rotate-Clean faults batch (some e, l) =
    λ alive. absurd (let x : some (io e) ≡ none = alive in cc)
after_rotate-Clean faults batch (none, l) = write_batch-Clean faults l batch

commit-Clean :
    (faults : WriteFaults) (l : Log) (batch : List Request) → Clean batch (commit faults l batch)
unfolding commit_live
commit-Clean faults l batch = elim (Option-cases l.fatal) [
  | inr (e, bad) ↦
      rw (commit-fatal faults l batch e bad) (λ alive. absurd (let x = sym bad ∙ alive in cc))
  | inl live ↦ rw (commit-live faults l batch live) (elim (Bool-cases (is_full l batch)) [
    | inl over ↦ rw over (after_rotate-Clean faults batch (rotate faults l))
    | inr room ↦ rw room (write_batch-Clean faults l batch)
  ])
]

-- A fatal error stays.
commit-alive :
    (faults : WriteFaults) (l : Log) (batch : List Request)
    → (commit faults l batch).0.fatal ≡ none
    → l.fatal ≡ none
commit-alive faults l batch alive = elim (Option-cases l.fatal) [
  | inl live ↦ live
  | inr (e, bad) ↦ rw (commit-fatal faults l batch e bad) at alive
]

run-alive :
    (fuel : ℕ) (faults : ℕ → WriteFaults) (l : Log) (reqs : List Request)
    → (run fuel faults l reqs).0.fatal ≡ none
    → l.fatal ≡ none
unfolding run
run-alive zero faults l [] alive = alive
run-alive (suc fuel) faults l [] alive = alive
run-alive zero faults l (first ∷ queued) alive = alive
run-alive (suc fuel) faults l (first ∷ queued) alive =
    let now = next_batch l.opts first queued in
    commit-alive (faults fuel) l now.0
      (run-alive fuel faults (commit (faults fuel) l now.0).0 now.1 alive)

pub run-Clean :
    (fuel : ℕ) (faults : ℕ → WriteFaults) (l : Log) (reqs : List Request)
    → length reqs ≤ fuel
    → Clean reqs (run fuel faults l reqs)
unfolding run
run-Clean zero faults l [] f alive = refl
run-Clean (suc fuel) faults l [] f alive = refl
run-Clean zero faults l (first ∷ queued) f alive = absurd (omega arith)
run-Clean (suc fuel) faults l (first ∷ queued) f alive =
    let now = next_batch l.opts first queued in
    let (split, some_taken) = next_batch_split l.opts first queued in
    let one = commit (faults fuel) l now.0 in
    let rest = run fuel faults one.0 now.1 in
    let live : one.0.fatal ≡ none = run-alive fuel faults one.0 now.1 alive in
    let here = commit-Clean (faults fuel) l now.0 live in
    let there =
      run-Clean fuel faults one.0 now.1 (omega (arith, ap length split, length-append now.0 now.1))
        alive in
    ap (λ rs. confirmed rs (one.1 ++ rest.1)) (sym split)
    ∙ confirmed-append now.0 now.1 one.1 rest.1 (answered-commit (faults fuel) l now.0)
    ∙ ap (λ rs. rs ++ confirmed now.1 rest.1) here
    ∙ ap (λ rs. batch_records now.0 ++ rs) there
    ∙ sym (batch_records-append now.0 now.1)
    ∙ ap batch_records split
