-- ===== src/Queue/Heap/Order.antt =====
-- The heap order of container/heap, and what its loops do to it.
use stitch.Prelude.{
  ℕ, zero, suc, ◌+◌, ◌*◌, ◌≤◌, ◌<◌, ◌≡◌, ◌≢◌, ◌⊎◌, inl, inr, refl, ◌∙◌, Bool, true, false, List,
  leb, ◌==◌, length, if◌then◌else◌, arith, Bool-cases,
}
use stitch.Prelude.Tally.{set, SameItems, length-set, get_or-set, tally-set}
use stitch.Queue.Heap.{parent, at, swap, up, child, down}

-- What the loops need of the comparison: it is a strict order, and not being less is transitive.
pub record StrictOrder {ℓ} {A : Type ℓ} (less : A → A → Bool) : Type ℓ where
  pub asym : (a b : A) → less a b ≡ true → less b a ≡ false
  pub trans : (a b c : A) → less b a ≡ false → less c b ≡ false → less c a ≡ false

module _ {ℓ} {A : Type ℓ} (less : A → A → Bool) (d : A) where
  pub length-swap : (xs : List A) (i j : ℕ) → length (swap less d xs i j) ≡ length xs
  unfolding swap
  length-swap xs i j = omega (
    arith,
    length-set (set xs i (at less d xs j)) j (at less d xs i),
    length-set xs i (at less d xs j),
  )

  pub at-swap :
      (xs : List A) (i j c : ℕ)
      → i < length xs
      → j < length xs
      → at less d (swap less d xs i j) c
        ≡ (if j == c then at less d xs i else if i == c then at less d xs j else at less d xs c)
  unfolding swap
  at-swap xs i j c hi hj = ground (
    arith,
    length-set xs i (at less d xs j),
    get_or-set (set xs i (at less d xs j)) j c (at less d xs i) d,
    get_or-set xs i c (at less d xs j) d,
  )

  pub swap-SameItems :
      (xs : List A) (i j : ℕ) → i < length xs → j < length xs → SameItems (swap less d xs i j) xs
  unfolding swap
  swap-SameItems xs i j hi hj p = ground (
    arith,
    length-set xs i (at less d xs j),
    get_or-set xs i j (at less d xs j) d,
    tally-set p (set xs i (at less d xs j)) j (at less d xs i) d,
    tally-set p xs i (at less d xs j) d,
  )

  -- Every edge of the tree over the first `n` entries is in order.
  abbrev pub IsHeap : ℕ → List A → Type 0
  IsHeap n xs = (c : ℕ) → 0 < c → c < n → less (at less d xs c) (at less d xs (parent c)) ≡ false

  -- Only the edge above `j` may be out of order.
  pub record UpInv (xs : List A) (j : ℕ) : Type 0 where
    pub inside : j < length xs
    pub edges :
        (c : ℕ)
        → 0 < c
        → c < length xs
        → c ≢ j
        → less (at less d xs c) (at less d xs (parent c)) ≡ false
    pub bridged :
        (c : ℕ)
        → 0 < c
        → c < length xs
        → parent c ≡ j
        → 0 < j
        → less (at less d xs c) (at less d xs (parent j)) ≡ false

  -- Only the edges below `i` may be out of order.
  pub record DownInv (n : ℕ) (xs : List A) (i : ℕ) : Type 0 where
    pub inside : n ≤ length xs
    pub edges :
        (c : ℕ)
        → 0 < c
        → c < n
        → parent c ≢ i
        → less (at less d xs c) (at less d xs (parent c)) ≡ false
    pub bridged :
        (c : ℕ)
        → 0 < c
        → c < n
        → parent c ≡ i
        → 0 < i
        → less (at less d xs c) (at less d xs (parent i)) ≡ false

  module _ (o : StrictOrder less) where
    swap-UpInv :
        (xs : List A) (j : ℕ)
        → UpInv xs j
        → 0 < j
        → less (at less d xs j) (at less d xs (parent j)) ≡ true
        → UpInv (swap less d xs (parent j) j) (parent j)
    swap-UpInv xs j v pos below =
        let i = parent j in
        let above : i < length xs = omega (arith, v.inside) in
        let at' = λ (c : ℕ). at-swap xs i j c above v.inside in
        let old = at less d xs in
        let up_edge = o.asym (old j) (old i) below in
        record {
          inside = omega (arith, length-swap xs i j);
          edges = λ c p q r. ground (
            arith,
            length-swap xs i j,
            at' c,
            at' (parent c),
            v.edges c,
            v.bridged c,
            up_edge,
            o.trans (old j) (old i) (old c),
          );
          bridged = λ c p q r s. ground (
            arith,
            length-swap xs i j,
            at' c,
            at' (parent i),
            v.edges c,
            v.edges i,
            o.trans (old (parent i)) (old i) (old c),
          );
        }

    irrefl : (a : A) → less a a ≡ false
    irrefl a = ground (arith, o.asym a a)

    -- The child that `down` looks at is the least one.
    pub record IsLeastChild (n : ℕ) (xs : List A) (i m : ℕ) : Type 0 where
      pub inside : m < n
      pub below : parent m ≡ i
      pub positive : 0 < m
      pub least :
          (c : ℕ) → 0 < c → c < n → parent c ≡ i → less (at less d xs c) (at less d xs m) ≡ false

    pub child-IsLeastChild :
        (n : ℕ) (xs : List A) (i : ℕ) → 2 * i + 1 < n → IsLeastChild n xs i (child less d xs i n)
    unfolding child
    child-IsLeastChild n xs i h =
        let left = at less d xs (2 * i + 1) in
        let right = at less d xs (2 * i + 1 + 1) in
        record {
          inside = ground arith;
          below = ground arith;
          positive = ground arith;
          least = λ c p q r.
              let which : (c ≡ 2 * i + 1) ⊎ (c ≡ 2 * i + 1 + 1) = omega arith in
              ground (arith, which, irrefl left, irrefl right, o.asym right left);
        }

    swap-DownInv :
        (n : ℕ) (xs : List A) (i m : ℕ)
        → DownInv n xs i
        → IsLeastChild n xs i m
        → less (at less d xs m) (at less d xs i) ≡ true
        → DownInv n (swap less d xs i m) m
    swap-DownInv n xs i m v s lower =
        let old = at less d xs in
        let hm : m < length xs = omega (arith, s.inside, v.inside) in
        let hi : i < length xs = omega (arith, s.below, s.positive) in
        let at' = λ (c : ℕ). at-swap xs i m c hi hm in
        let down_edge = o.asym (old m) (old i) lower in
        record {
          inside = omega (arith, length-swap xs i m, v.inside);
          edges = λ c p q r. ground (
            arith,
            at' c,
            at' (parent c),
            v.edges c,
            v.bridged c,
            s.least c,
            down_edge,
            s.below,
            s.positive,
            v.bridged m,
          );
          bridged =
              λ c p q r t. ground (arith, at' c, at' (parent m), v.edges c, s.below, s.positive);
        }

    -- The same entries, in heap order up to `n`.
    pub record Sifted (n : ℕ) (xs ys : List A) : Type ℓ where
      pub ordered : IsHeap n ys
      pub same : SameItems ys xs
      pub size : length ys ≡ length xs

    unmoved : (n : ℕ) (xs : List A) → IsHeap n xs → Sifted n xs xs
    unmoved n xs h = record { ordered = h; same = λ p. refl; size = refl }

    Sifted-swap :
        {n : ℕ} (xs : List A) (i j : ℕ) {ys : List A}
        → i < length xs
        → j < length xs
        → Sifted n (swap less d xs i j) ys
        → Sifted n xs ys
    Sifted-swap xs i j hi hj s = record {
      ordered = s.ordered;
      same = λ p. s.same p ∙ swap-SameItems xs i j hi hj p;
      size = s.size ∙ length-swap xs i j;
    }

    pub up-Sifted :
        (fuel n : ℕ) (xs : List A) (j : ℕ)
        → j < fuel
        → length xs ≡ n
        → UpInv xs j
        → Sifted n xs (up less d fuel xs j)
    unfolding up
    up-Sifted zero n xs j f e v = absurd (omega arith)
    up-Sifted (suc fuel) n xs j f e v = elim (Bool-cases (parent j == j)) [
      | inl root ↦
          rw root (unmoved n xs (λ c p q. v.edges c p (omega arith) (λ e. absurd (ground arith))))
      | inr inner ↦ elim (Bool-cases (less (at less d xs j) (at less d xs (parent j)))) [
        | inr settled ↦ rw (inner, settled) (unmoved n xs (λ c p q. ground (arith, v.edges c)))
        | inl below ↦
            let pos : 0 < j = ground arith in
            let above : parent j < length xs = omega (arith, v.inside) in
            let next = swap less d xs (parent j) j in
            let rest =
              up-Sifted fuel n next (parent j) (omega arith) (length-swap xs (parent j) j ∙ e)
                (swap-UpInv xs j v pos below) in
            rw (inner, below) (Sifted-swap xs (parent j) j above v.inside rest)
      ]
    ]

    pub down-Sifted :
        (fuel n : ℕ) (xs : List A) (i : ℕ)
        → n < fuel + i + 1
        → DownInv n xs i
        → Sifted n xs (down less d fuel xs i n)
    unfolding down
    down-Sifted zero n xs i f v = unmoved n xs (λ c p q. v.edges c p q (λ e. absurd (omega arith)))
    down-Sifted (suc fuel) n xs i f v = elim (Bool-cases (leb n (2 * i + 1))) [
      | inl leaf ↦ rw leaf (unmoved n xs (λ c p q. v.edges c p q (λ e. absurd (ground arith))))
      | inr inner ↦
          let m = child less d xs i n in
          let s = child-IsLeastChild n xs i (ground arith) in
          elim (Bool-cases (less (at less d xs m) (at less d xs i))) [
            | inr settled ↦
                rw (inner, settled)
                  (unmoved n xs λ c p q. ground (
                    arith,
                    v.edges c,
                    s.least c,
                    o.trans (at less d xs i) (at less d xs m) (at less d xs c),
                  ))
            | inl lower ↦
                let next = swap less d xs i m in
                let hm : m < length xs = omega (arith, s.inside, v.inside) in
                let hi : i < length xs = omega (arith, s.below, s.positive) in
                rw (inner, lower)
                  (Sifted-swap xs i m hi hm (
                    down-Sifted fuel n next m (omega (arith, s.below, s.positive))
                      (swap-DownInv n xs i m v s lower)))
          ]
    ]
