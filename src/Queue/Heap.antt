-- ===== src/Queue/Heap.antt =====
-- container/heap, as internal/queue/order.go uses it: Push, Pop and the loops `up` and `down`, over
-- a list, a test `less` and a value that stands where an index is out of range, which no call here
-- reaches. The fuel of `up` is its index plus one and that of `down` the length: the index of `up`
-- falls and that of `down` rises in each round.
pub mod Order
pub mod Ops
use stitch.Prelude.{
  ℕ, zero, suc, ◌+◌, ◌-◌, ◌*◌, ◌/◌, Bool, not, ◌&&◌, ◌||◌, List, [], ◌∷◌, ◌++◌, Option, none, some,
  ltb, leb, ◌==◌, length, get_or, take, if◌then◌else◌,
}
use stitch.Prelude.Tally.{set}

abbrev pub parent : ℕ → ℕ
parent j = (j - 1) / 2

module _ {ℓ} {A : Type ℓ} (less : A → A → Bool) (d : A) where
  abbrev pub at : List A → ℕ → A
  at xs i = get_or xs i d

  unfoldable pub swap : List A → ℕ → ℕ → List A
  swap xs i j = set (set xs i (at xs j)) j (at xs i)

  unfoldable pub up : ℕ → List A → ℕ → List A
  up zero xs j = xs
  up (suc fuel) xs j =
      let rest = up fuel (swap xs (parent j) j) (parent j) in
      if (parent j == j) || not (less (at xs j) (at xs (parent j))) then xs else rest

  -- The smaller child of `i` below `n`; the left one must exist.
  unfoldable pub child : List A → ℕ → ℕ → ℕ
  child xs i n =
      let left = 2 * i + 1 in
      if ltb (left + 1) n && less (at xs (left + 1)) (at xs left) then left + 1 else left

  unfoldable pub down : ℕ → List A → ℕ → ℕ → List A
  down zero xs i n = xs
  down (suc fuel) xs i n =
      let j = child xs i n in
      let rest = down fuel (swap xs i j) j n in
      if leb n (2 * i + 1) || not (less (at xs j) (at xs i)) then xs else rest

  unfoldable pub push : List A → A → List A
  push xs x = up (suc (length xs)) (xs ++ (x ∷ [])) (length xs)

  -- The list has an element at least.
  unfoldable pub pop : List A → A × List A
  pop xs =
      let n = length xs - 1 in let ys = down (length xs) (swap xs 0 n) 0 n in (at ys n, take n ys)
