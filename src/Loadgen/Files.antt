-- ===== src/Loadgen/Files.antt =====
-- The record files of cmd/loadgen/main.go: idFile.add and readIDs, over strings.Split and
-- strings.TrimSpace of the standard library. IDs are ASCII, so white space is its six ASCII
-- characters. A Go map to true is a map to the unit.
pub mod Laws
use Prim.Native.Char.{Char, code}
use stitch.Prelude.{
  ℕ, Bool, true, false, ◌&&◌, ◌||◌, String, Option, none, some, List, [], ◌∷◌, leb, ◌==◌, str_eq,
  if◌then◌else◌,
}
use stitch.Prelude.Map
use stitch.Prelude.Map.{Map}

abbrev pub IdSet : Type 0
IdSet = Map (Unit {0})

-- `ids[id]`
abbrev pub is_some {ℓ} : {A : Type ℓ} → Option A → Bool
is_some none = false
is_some (some a) = true

abbrev pub has : String → IdSet → Bool
has id ids = is_some (Map.lookup id ids)

-- s + "\n" + t
abbrev pub line_then : String → String → String
line_then String.[] t = String.◌∷◌ "\n" t
line_then (String.◌∷◌ c s) t = String.◌∷◌ c (line_then s t)

-- The content of a file after `add` of each ID.
abbrev pub written : List String → String
written [] = ""
written (id ∷ ids) = line_then id (written ids)

abbrev pub is_newline : Char → Bool
is_newline c = code c == b'\n'

abbrev pub is_space : Char → Bool
is_space c = (leb 9 (code c) && leb (code c) 13) || code c == b' '

abbrev pub with_char : Char → List String → List String
with_char c [] = String.◌∷◌ c "" ∷ []
with_char c (l ∷ ls) = String.◌∷◌ c l ∷ ls

-- strings.Split(s, "\n")
unfoldable pub split_lines : String → List String
split_lines String.[] = "" ∷ []
split_lines (String.◌∷◌ c s) =
    let rest = split_lines s in if is_newline c then "" ∷ rest else with_char c rest

-- strings.TrimSpace: the ends one after the other
unfoldable pub trim_left : String → String
trim_left String.[] = ""
trim_left (String.◌∷◌ c s) = let rest = trim_left s in if is_space c then rest else String.◌∷◌ c s

abbrev pub before_spaces : Char → String → String
before_spaces c String.[] = if is_space c then "" else String.◌∷◌ c ""
before_spaces c (String.◌∷◌ d s) = String.◌∷◌ c (String.◌∷◌ d s)

unfoldable pub trim_right : String → String
trim_right String.[] = ""
trim_right (String.◌∷◌ c s) = before_spaces c (trim_right s)

unfoldable pub trim_space : String → String
unfolding trim_left trim_right
trim_space s = trim_right (trim_left s)

-- The loop of readIDs over the lines.
abbrev pub add_id : String → IdSet → IdSet
add_id line ids = if str_eq line "" then ids else Map.insert line tt ids

unfoldable pub add_lines : List String → IdSet → IdSet
add_lines [] ids = ids
add_lines (l ∷ ls) ids = add_lines ls (add_id (trim_space l) ids)

-- readIDs, of a file's content
unfoldable pub read_ids : String → IdSet
unfolding split_lines add_lines
read_ids content = add_lines (split_lines content) []
