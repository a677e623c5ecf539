-- ===== src/Wal/Segments/Laws.antt =====
-- The names of internal/wal/segment.go, read back by listSegments.
use stitch.Prelude.{
  ℕ, zero, suc, ◌+◌, ◌-◌, ◌*◌, ◌/◌, ◌%◌, ◌^◌, ◌≤◌, ◌<◌, ◌≡◌, refl, ap, ◌∙◌, Bool, true, false, some,
  List, [], ◌∷◌, ◌++◌, arith, ltb, leb, length, length-append, take, take-append, drop, drop-append,
  Bool-cases, inl, inr,
}
use stitch.Prelude.Tally.{bit, tally, SameItems}
use stitch.Prelude.Decimal.{digits}
use stitch.Wal.Segments.{
  segment_suffix, decimal, zeros, padded, segment_name, has_suffix, base, parse_uint, Entry,
  index_of, segment_indexes, sort_indexes, insert_index, list_segments,
}

digits-cons :
    (acc d : ℕ) (cs : List ℕ) → d < 10 → digits acc ((d + 48) ∷ cs) ≡ digits (10 * acc + d) cs
unfolding digits
digits-cons acc d cs h =
    let low : leb 48 (d + 48) ≡ true = ground arith in
    let high : leb (d + 48) 57 ≡ true = ground (arith, h) in
    let value : d + 48 - 48 ≡ d = omega arith in rw (digits, low, high, value) refl

digits-decimal :
    (fuel n : ℕ) (acc : List ℕ) → n ≤ fuel → digits 0 (decimal fuel n acc) ≡ digits n acc
unfolding decimal
digits-decimal zero n acc h =
    digits-cons 0 n acc (omega arith) ∙ ap (λ k. digits k acc) (omega arith)
digits-decimal (suc fuel) n acc h = elim (Bool-cases (ltb n 10)) [
  | inl one ↦
      rw one (digits-cons 0 n acc (ground (arith, one)) ∙ ap (λ k. digits k acc) (omega arith))
  | inr more ↦ rw more (
      digits-decimal fuel (n / 10) ((n % 10 + 48) ∷ acc) (ground (arith, more, h))
      ∙ digits-cons (n / 10) (n % 10) acc (omega arith)
      ∙ ap (λ k. digits k acc) (omega arith))
]

digits-zeros : (k : ℕ) (cs : List ℕ) → digits 0 (zeros k ++ cs) ≡ digits 0 cs
unfolding zeros
digits-zeros zero cs = refl
digits-zeros (suc k) cs = digits-cons 0 0 (zeros k ++ cs) (omega arith) ∙ digits-zeros k cs

digits-padded : (i : ℕ) → digits 0 (padded i) ≡ some i
unfolding padded digits
digits-padded i =
    digits-zeros (8 - length (decimal i i [])) (decimal i i [])
    ∙ digits-decimal i i [] (omega arith)

length-decimal : (fuel n : ℕ) (acc : List ℕ) → length acc < length (decimal fuel n acc)
unfolding decimal
length-decimal zero n acc = omega arith
length-decimal (suc fuel) n acc = elim (Bool-cases (ltb n 10)) [
  | inl one ↦ rw one (omega arith)
  | inr more ↦ rw more (omega (arith, length-decimal fuel (n / 10) ((n % 10 + 48) ∷ acc)))
]

length-padded : (i : ℕ) → 0 < length (padded i)
unfolding padded
length-padded i = omega (
  arith,
  length-append (zeros (8 - length (decimal i i []))) (decimal i i []),
  length-decimal i i [],
)

parse_uint-digits :
    (cs : List ℕ) (n : ℕ)
    → 0 < length cs
    → digits 0 cs ≡ some n
    → n < 2 ^ 64
    → parse_uint cs ≡ some n
unfolding parse_uint
parse_uint-digits [] n pos e small = absurd (omega (arith, pos))
parse_uint-digits (c ∷ cs) n pos e small =
    let fits : ltb n (2 ^ 64) ≡ true = ground (arith, small) in rw (parse_uint, e, fits) refl

before_suffix : (xs : List ℕ) → length (xs ++ segment_suffix) - 4 ≡ length xs
before_suffix xs = omega (arith, length-append xs segment_suffix)

base-name : (xs : List ℕ) → base (xs ++ segment_suffix) ≡ xs
base-name xs =
    ap (λ k. take k (xs ++ segment_suffix)) (before_suffix xs) ∙ take-append xs segment_suffix

has_suffix-name : (xs : List ℕ) → has_suffix (xs ++ segment_suffix) ≡ true
unfolding has_suffix
has_suffix-name xs =
    let long : leb 4 (length (xs ++ segment_suffix)) ≡ true =
      ground (arith, length-append xs segment_suffix) in
    let tail : drop (length (xs ++ segment_suffix) - 4) (xs ++ segment_suffix) ≡ segment_suffix =
      ap (λ k. drop k (xs ++ segment_suffix)) (before_suffix xs) ∙ drop-append xs segment_suffix in
    rw (has_suffix, long, tail) refl

index_of-segment_name : (i : ℕ) → i < 2 ^ 64 → index_of (segment_name i, false) ≡ some i
unfolding segment_name
index_of-segment_name i small =
    rw (has_suffix-name (padded i), base-name (padded i))
      (parse_uint-digits (padded i) i (length-padded i) (digits-padded i) small)

-- The files of segments.
abbrev pub files : List ℕ → List Entry
files [] = []
files (i ∷ is) = (segment_name i, false) ∷ files is

-- Indexes of 64 bits.
abbrev pub Fit : List ℕ → Type 0
Fit [] = Unit
Fit (i ∷ is) = (i < 2 ^ 64) × Fit is

abbrev pub IsAscending : List ℕ → Type 0
IsAscending [] = Unit
IsAscending (i ∷ []) = Unit
IsAscending (i ∷ j ∷ is) = (i ≤ j) × IsAscending (j ∷ is)

tally-insert_index :
    (p : ℕ → Bool) (i : ℕ) (is : List ℕ) → tally p (insert_index i is) ≡ bit (p i) + tally p is
unfolding insert_index
tally-insert_index p i [] = refl
tally-insert_index p i (j ∷ js) = elim (Bool-cases (ltb j i)) [
  | inl past ↦ rw past (omega (arith, tally-insert_index p i js))
  | inr here ↦ rw here refl
]

tally-sort_indexes : (p : ℕ → Bool) (is : List ℕ) → tally p (sort_indexes is) ≡ tally p is
unfolding sort_indexes
tally-sort_indexes p [] = refl
tally-sort_indexes p (i ∷ is) =
    omega (arith, tally-insert_index p i (sort_indexes is), tally-sort_indexes p is)

insert_index-IsAscending : (i : ℕ) (is : List ℕ) → IsAscending is → IsAscending (insert_index i is)
unfolding insert_index
insert_index-IsAscending i [] h = tt
insert_index-IsAscending i (x ∷ []) h = elim (Bool-cases (ltb x i)) [
  | inl past ↦ rw past (ground (arith, past), tt)
  | inr here ↦ rw here (ground (arith, here), tt)
]
insert_index-IsAscending i (x ∷ y ∷ ys) h = elim (Bool-cases (ltb x i)) [
  | inr here ↦ rw here (ground (arith, here), h)
  | inl past ↦
      let rest = insert_index-IsAscending i (y ∷ ys) h.1 in
      elim (Bool-cases (ltb y i)) [
        | inl next ↦ rw (past, next) (h.0, rw next at rest)
        | inr stop ↦ rw (past, stop) (ground (arith, past), rw stop at rest)
      ]
]

sort_indexes-IsAscending : (is : List ℕ) → IsAscending (sort_indexes is)
unfolding sort_indexes
sort_indexes-IsAscending [] = tt
sort_indexes-IsAscending (i ∷ is) =
    insert_index-IsAscending i (sort_indexes is) (sort_indexes-IsAscending is)

segment_indexes-files : (is : List ℕ) → Fit is → segment_indexes (files is) ≡ is
unfolding segment_indexes
segment_indexes-files [] h = refl
segment_indexes-files (i ∷ is) h =
    rw (segment_indexes, index_of-segment_name i h.0) (ap (◌∷◌ i) (segment_indexes-files is h.1))

-- From a directory that holds files under the names that segmentName gave to indexes of 64 bits,
-- in any order, and nothing else, listSegments reads these indexes back, each as often as it was
-- given, in ascending order.
pub list_segments-files :
    (is : List ℕ)
    → Fit is
    → IsAscending (list_segments (files is)) × SameItems (list_segments (files is)) is
unfolding list_segments
list_segments-files is h = (
  sort_indexes-IsAscending (segment_indexes (files is)),
  λ p.
      tally-sort_indexes p (segment_indexes (files is)) ∙ ap (tally p) (segment_indexes-files is h),
)
