-- ===== src/Api/Params.antt =====
-- The parameters of a request of internal/api/api.go: intParam, over strconv.Atoi of the standard
-- library, and the conversion of milliseconds to a time.Duration, which is an int64 of nanoseconds.
use stitch.Prelude.{
  ℕ, ◌+◌, ◌-◌, ◌*◌, ◌%◌, ◌^◌, Bool, true, false, String, Option, none, some, List, [], ◌∷◌, Result,
  ok, err, ltb, leb, ◌==◌, str_eq, if◌then◌else◌,
}
use stitch.Prelude.Decimal.{digits}
use stitch.Prelude.Int.{ℤ, pos, negsuc, ltb_ℤ}
use stitch.Queue.Message.{codes}
use stitch.Api.{ParamFault, not_an_integer, too_small}

-- A number that begins with a digit, as an int64 of the given sign.
unfoldable pub magnitude : Bool → List ℕ → Option ℤ
unfolding digits
magnitude negative [] = none
magnitude negative (c ∷ cs) = elim (digits 0 (c ∷ cs)) [
  | none ↦ none
  | some n ↦
      if negative
      then if leb n (2 ^ 63) then some (if ltb 0 n then negsuc (n - 1) else pos 0) else none
      else if ltb n (2 ^ 63)
      then some (pos n)
      else none
]

-- strconv.Atoi: an optional sign and then digits, within 64 bits
unfoldable pub atoi : List ℕ → Option ℤ
unfolding magnitude
atoi [] = none
atoi (c ∷ cs) =
    if c == b'-'
    then magnitude true cs
    else if c == b'+'
    then magnitude false cs
    else magnitude false (c ∷ cs)

-- intParam, of the raw text
unfoldable pub int_param : String → ℤ → ℤ → ℤ → Result ParamFault ℤ
unfolding atoi
int_param raw default min max = if str_eq raw "" then ok default else elim (atoi (codes raw)) [
  | none ↦ err not_an_integer
  | some v ↦ if ltb_ℤ v min then err (too_small min) else ok (if ltb_ℤ max v then max else v)
]

-- The int64 of a residue modulo 2^64.
abbrev pub int64 : ℕ → ℤ
int64 n = if ltb (n % 2 ^ 64) (2 ^ 63) then pos (n % 2 ^ 64) else negsuc (2 ^ 64 - 1 - n % 2 ^ 64)

-- `time.Duration(ms) * time.Millisecond`
unfoldable pub duration_of_ms : ℤ → ℤ
duration_of_ms (pos n) = int64 (n * 1000000)
duration_of_ms (negsuc n) = int64 (2 ^ 64 - (n + 1) * 1000000 % 2 ^ 64)
