-- ===== src/Loadgen/Files/Laws.antt =====
-- The record files of cmd/loadgen/main.go, written and read back.
use Prim.Native.Char.{Char}
use stitch.Prelude.{◌≡◌, refl, ap, ◌∙◌, false, String, List, [], ◌∷◌, ◌++◌, arith, str_eq}
use stitch.Prelude.Map
use stitch.Loadgen.Files.{
  IdSet, line_then, written, is_newline, is_space, split_lines, trim_left, trim_right,
  before_spaces, trim_space, add_id, add_lines, read_ids,
}

-- No character of the text is white space.
abbrev pub NoSpace : String → Type 0
NoSpace String.[] = Unit
NoSpace (String.◌∷◌ c s) = (is_space c ≡ false) × NoSpace s

-- An ID as the server makes them.
abbrev pub IsClean : String → Type 0
IsClean id = (str_eq id "" ≡ false) × NoSpace id

abbrev pub AllClean : List String → Type 0
AllClean [] = Unit
AllClean (id ∷ ids) = IsClean id × AllClean ids

-- The IDs put into a set one after the other.
abbrev pub added : List String → IdSet → IdSet
added [] set = set
added (id ∷ ids) set = added ids (Map.insert id tt set)

no_newline : (c : Char) → is_space c ≡ false → is_newline c ≡ false
no_newline c h = ground (arith, h)

split_lines-line_then :
    (id rest : String) → NoSpace id → split_lines (line_then id rest) ≡ id ∷ split_lines rest
unfolding split_lines
split_lines-line_then String.[] rest h = refl
split_lines-line_then (String.◌∷◌ c s) rest h =
    rw (split_lines, no_newline c h.0, split_lines-line_then s rest h.1) refl

split_lines-written :
    (ids : List String) → AllClean ids → split_lines (written ids) ≡ ids ++ ("" ∷ [])
unfolding split_lines
split_lines-written [] h = refl
split_lines-written (id ∷ ids) h =
    split_lines-line_then id (written ids) h.0.1 ∙ ap (◌∷◌ id) (split_lines-written ids h.1)

trim_left_clean : (s : String) → NoSpace s → trim_left s ≡ s
unfolding trim_left
trim_left_clean String.[] h = refl
trim_left_clean (String.◌∷◌ c s) h = rw (trim_left, h.0) refl

before_spaces_clean :
    (c : Char) (s : String) → is_space c ≡ false → before_spaces c s ≡ String.◌∷◌ c s
before_spaces_clean c String.[] h = rw h refl
before_spaces_clean c (String.◌∷◌ d s) h = refl

trim_right_clean : (s : String) → NoSpace s → trim_right s ≡ s
unfolding trim_right
trim_right_clean String.[] h = refl
trim_right_clean (String.◌∷◌ c s) h =
    ap (before_spaces c) (trim_right_clean s h.1) ∙ before_spaces_clean c s h.0

trim_space_clean : (s : String) → NoSpace s → trim_space s ≡ s
unfolding trim_space
trim_space_clean s h = ap trim_right (trim_left_clean s h) ∙ trim_right_clean s h

add_id_clean :
    (id : String) (set : IdSet) → IsClean id → add_id (trim_space id) set ≡ Map.insert id tt set
add_id_clean id set h = ap (λ s. add_id s set) (trim_space_clean id h.1) ∙ rw h.0 refl

add_lines_clean :
    (ids : List String) (set : IdSet)
    → AllClean ids
    → add_lines (ids ++ ("" ∷ [])) set ≡ added ids set
unfolding add_lines
add_lines_clean [] set h = ap (λ s. add_id s set) (trim_space_clean "" tt)
add_lines_clean (id ∷ ids) set h =
    ap (add_lines (ids ++ ("" ∷ []))) (add_id_clean id set h.0)
    ∙ add_lines_clean ids (Map.insert id tt set) h.1

-- What readIDs makes of a record file is the set of the IDs that were added to it, where no ID is
-- empty or has white space.
pub read_ids-written : (ids : List String) → AllClean ids → read_ids (written ids) ≡ added ids []
unfolding read_ids
read_ids-written ids h =
    ap (λ ls. add_lines ls []) (split_lines-written ids h) ∙ add_lines_clean ids [] h
