-- ===== src/Queue/Heap/Ops.antt =====
-- Push and Pop of container/heap on a heap.
use stitch.Prelude.{
  ℕ, zero, suc, ◌+◌, ◌-◌, ◌*◌, ◌≤◌, ◌<◌, ◌≡◌, refl, ◌∙◌, Bool, false, List, [], ◌∷◌, ◌++◌, leb,
  length, get_or, take, arith, length-append, length-take_le, Bool-cases, inl, inr,
}
use stitch.Prelude.Tally.{bit, tally, SameItems, tally-append, get_or-append}
use stitch.Queue.Heap.{parent, at, swap, child, down, push, pop}
use stitch.Queue.Heap.Order.{
  StrictOrder, IsHeap, UpInv, DownInv, up-Sifted, down-Sifted, at-swap, length-swap, swap-SameItems,
  child-IsLeastChild,
}

abbrev pub All {ℓ κ} : {A : Type ℓ} → (A → Type κ) → List A → Type κ
All P [] = Unit
All P (x ∷ xs) = P x × All P xs

module _ {ℓ} {A : Type ℓ} (less : A → A → Bool) (d : A) (o : StrictOrder less) where
  -- A heap in the sense of its whole length.
  abbrev pub Heap : List A → Type 0
  Heap xs = IsHeap less d (length xs) xs

  get_or-take : (n : ℕ) (xs : List A) (c : ℕ) → c < n → get_or (take n xs) c d ≡ get_or xs c d
  get_or-take zero xs c h = absurd (omega arith)
  get_or-take (suc n) [] c h = refl
  get_or-take (suc n) (x ∷ xs) zero h = refl
  get_or-take (suc n) (x ∷ xs) (suc c) h = get_or-take n xs c (omega arith)

  tally-take :
      (p : A → Bool) (n : ℕ) (xs : List A)
      → length xs ≡ suc n
      → bit (p (get_or xs n d)) + tally p (take n xs) ≡ tally p xs
  tally-take p n [] h = absurd (omega arith)
  tally-take p zero (x ∷ []) h = omega arith
  tally-take p zero (x ∷ y ∷ xs) h = absurd (omega arith)
  tally-take p (suc n) (x ∷ xs) h = omega (arith, tally-take p n xs (omega arith))

  pub All-of_at :
      (P : A → Type 0) (xs : List A) → ((c : ℕ) → c < length xs → P (get_or xs c d)) → All P xs
  All-of_at P [] h = tt
  All-of_at P (x ∷ xs) h = (h 0 (omega arith), All-of_at P xs (λ c p. h (suc c) (omega arith)))

  -- Push adds exactly the entry and keeps the heap.
  pub push_correct :
      (xs : List A) (x : A)
      → Heap xs
      → Heap (push less d xs x) × SameItems (push less d xs x) (x ∷ xs)
  unfolding push
  push_correct xs x h =
      let size = length-append xs (x ∷ []) in
      let start : UpInv less d (xs ++ (x ∷ [])) (length xs) = record {
        inside = omega (arith, size);
        edges = λ c p q r. ground (
          arith,
          size,
          h c,
          get_or-append xs (x ∷ []) c d,
          get_or-append xs (x ∷ []) (parent c) d,
        );
        bridged = λ c p q r s. absurd (omega (arith, size));
      } in
      let s =
        up-Sifted less d o (suc (length xs)) (length xs + 1) (xs ++ (x ∷ [])) (length xs)
          (omega arith) size start in
      (
        λ c p q. s.ordered c p (omega (arith, s.size, size)),
        λ p. omega (arith, s.same p, tally-append p xs (x ∷ [])),
      )

  -- `down` leaves the entries from `n` on alone.
  at-down :
      (fuel n : ℕ) (xs : List A) (i c : ℕ)
      → n ≤ length xs
      → n ≤ c
      → at less d (down less d fuel xs i n) c ≡ at less d xs c
  unfolding down
  at-down zero n xs i c hn hc = refl
  at-down (suc fuel) n xs i c hn hc = elim (Bool-cases (leb n (2 * i + 1))) [
    | inl leaf ↦ rw leaf
    | inr inner ↦
        let m = child less d xs i n in
        let s = child-IsLeastChild less d o n xs i (ground arith) in
        elim (Bool-cases (less (at less d xs m) (at less d xs i))) [
          | inr settled ↦ rw (inner, settled)
          | inl lower ↦
              let hm : m < length xs = omega (arith, s.inside) in
              let hi : i < length xs = omega (arith, s.below, s.positive) in
              rw (inner, lower)
                (at-down fuel n (swap less d xs i m) m c (omega (arith, length-swap less d xs i m))
                    hc
                  ∙ ground (arith, at-swap less d xs i m c hi hm, s.inside, s.below, s.positive))
        ]
  ]

  -- The root is least.
  pub root_least :
      (k : ℕ) (xs : List A) (c : ℕ)
      → c < k
      → c < length xs
      → Heap xs
      → less (at less d xs c) (at less d xs 0) ≡ false
  root_least zero xs c f lt h = absurd (omega arith)
  root_least (suc k) xs zero f lt h = ground (arith, o.asym (at less d xs 0) (at less d xs 0))
  root_least (suc k) xs (suc c) f lt h =
      let up_there = parent (suc c) in
      o.trans (at less d xs 0) (at less d xs up_there) (at less d xs (suc c))
        (root_least k xs up_there (omega arith) (omega arith) h) (h (suc c) (omega arith) lt)

  -- What Pop returns: a least entry, and a heap of the others.
  pub record Popped (xs : List A) (r : A × List A) : Type ℓ where
    pub heap : Heap r.1
    pub same : SameItems (r.0 ∷ r.1) xs
    pub least : All (λ t. less t r.0 ≡ false) xs
    pub shorter : length r.1 + 1 ≡ length xs

  pub pop_correct : (xs : List A) → 0 < length xs → Heap xs → Popped xs (pop less d xs)
  unfolding pop
  pop_correct xs pos h =
      let n = length xs - 1 in
      let zs = swap less d xs 0 n in
      let ys = down less d (length xs) zs 0 n in
      let moved = λ (c : ℕ). at-swap less d xs 0 n c pos (omega arith) in
      let long = length-swap less d xs 0 n in
      let start : DownInv less d n zs 0 = record {
        inside = omega (arith, long);
        edges = λ c p q r. ground (arith, moved c, moved (parent c), h c);
        bridged = λ c p q r t. absurd (omega arith);
      } in
      let s = down-Sifted less d o (length xs) n zs 0 (omega arith) start in
      let whole : length ys ≡ suc n = omega (arith, s.size, long) in
      let cut = length-take_le n ys (omega (arith, whole)) in
      let top : at less d ys n ≡ at less d xs 0 =
        at-down (length xs) n zs 0 n (omega (arith, long)) (omega arith)
        ∙ ground (arith, moved n) in
      record {
        heap = λ c p q.
            ground (arith, cut, s.ordered c, get_or-take n ys c, get_or-take n ys (parent c));
        same = λ p.
            tally-take p n ys whole ∙ s.same p ∙ swap-SameItems less d xs 0 n pos (omega arith) p;
        least =
            All-of_at (λ t. less t (at less d ys n) ≡ false) xs
              (λ c lt. rw top (root_least (suc c) xs c (omega arith) lt h));
        shorter = omega (arith, cut);
      }
