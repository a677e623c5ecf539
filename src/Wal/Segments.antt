-- ===== src/Wal/Segments.antt =====
-- internal/wal/segment.go: the names of segment files, and the listing of a directory. A name is the
-- list of its bytes. fmt's %08d and strconv.ParseUint are those of the standard library; the fuel of
-- `decimal` is the number itself. sort.Slice is an insertion sort: equal indexes are equal numbers,
-- so every sort gives the same list.
pub mod Laws
use stitch.Prelude.Decimal.{digits}
use stitch.Prelude.{
  ℕ, zero, suc, ◌+◌, ◌-◌, ◌*◌, ◌/◌, ◌%◌, ◌^◌, Bool, true, false, not, ◌&&◌, ◌||◌, Option, none,
  some, List, [], ◌∷◌, ◌++◌, ltb, leb, ◌==◌, length, take, drop, if◌then◌else◌,
}

-- segmentSuffix, ".log"
abbrev pub segment_suffix : List ℕ
segment_suffix = b'.' ∷ b'l' ∷ b'o' ∷ b'g' ∷ []

-- The decimal digits of a number, in front of `acc`.
unfoldable pub decimal : ℕ → ℕ → List ℕ → List ℕ
decimal zero n acc = (n + b'0') ∷ acc
decimal (suc fuel) n acc =
    let more = decimal fuel (n / 10) ((n % 10 + b'0') ∷ acc) in
    if ltb n 10 then (n + b'0') ∷ acc else more

unfoldable pub zeros : ℕ → List ℕ
zeros zero = []
zeros (suc n) = b'0' ∷ zeros n

-- fmt.Sprintf("%08d", index)
unfoldable pub padded : ℕ → List ℕ
unfolding decimal zeros
padded index = let ds = decimal index index [] in zeros (8 - length ds) ++ ds

unfoldable pub segment_name : ℕ → List ℕ
unfolding padded
segment_name index = padded index ++ segment_suffix

abbrev pub eq_bytes : List ℕ → List ℕ → Bool
eq_bytes [] [] = true
eq_bytes [] (y ∷ ys) = false
eq_bytes (x ∷ xs) [] = false
eq_bytes (x ∷ xs) (y ∷ ys) = x == y && eq_bytes xs ys

-- strings.HasSuffix, and the base that strings.TrimSuffix leaves
unfoldable pub has_suffix : List ℕ → Bool
has_suffix name = leb 4 (length name) && eq_bytes (drop (length name - 4) name) segment_suffix

abbrev pub base : List ℕ → List ℕ
base name = take (length name - 4) name

-- strconv.ParseUint(s, 10, 64)
unfoldable pub parse_uint : List ℕ → Option ℕ
unfolding digits
parse_uint [] = none
parse_uint (c ∷ cs) = elim (digits 0 (c ∷ cs)) [
  | none ↦ none
  | some n ↦ if ltb n (2 ^ 64) then some n else none
]

-- An entry of a directory: its name, and whether it is a directory.
abbrev pub Entry : Type 0
Entry = List ℕ × Bool

abbrev pub index_of : Entry → Option ℕ
index_of (name, is_dir) = if is_dir || not (has_suffix name) then none else parse_uint (base name)

-- The loop over the entries.
unfoldable pub segment_indexes : List Entry → List ℕ
segment_indexes [] = []
segment_indexes (e ∷ es) =
    let rest = segment_indexes es in elim (index_of e) [ none ↦ rest | some i ↦ i ∷ rest ]

unfoldable pub insert_index : ℕ → List ℕ → List ℕ
insert_index i [] = i ∷ []
insert_index i (j ∷ js) = let rest = insert_index i js in if ltb j i then j ∷ rest else i ∷ j ∷ js

unfoldable pub sort_indexes : List ℕ → List ℕ
unfolding insert_index
sort_indexes [] = []
sort_indexes (i ∷ is) = insert_index i (sort_indexes is)

-- listSegments, of what os.ReadDir returns
unfoldable pub list_segments : List Entry → List ℕ
unfolding segment_indexes sort_indexes
list_segments es = sort_indexes (segment_indexes es)
