-- ===== src/Prelude/Map.antt =====
-- Go's `map[string]V`, as an association list without repeated keys. Go ranges over a map in no
-- fixed order; the order of the list stands for one of them.
use mathlib.Core.Logic.{inl, inr}
use mathlib.Core.Path.{◌≡◌, refl, sym, ap, ◌∙◌}
use mathlib.Core.Bool.{Bool, false}
use mathlib.Core.List.{List, [], ◌∷◌}
use mathlib.Core.Option.{Option, none, some}
use native.Mathlib.Omega.{arith}
use text.Mathlib.TextEquality.{eq_iff}
use Prim.Native.String.{String}
use Prim.Native.Nat.{◌+◌, ◌<◌}
use stitch.Prelude.Tally.{bit, tally}
use stitch.Prelude.Tests.{str_eq, if◌then◌else◌, Bool-cases}

abbrev pub Map {ℓ} : Type ℓ → Type ℓ
Map V = List (String × V)

module _ {ℓ} {V : Type ℓ} where
  unfoldable pub lookup : String → Map V → Option V
  lookup name [] = none
  lookup name ((at, old) ∷ table) = if str_eq at name then some old else lookup name table

  -- table[name] = new
  unfoldable pub insert : String → V → Map V → Map V
  insert name new [] = (name, new) ∷ []
  insert name new ((at, old) ∷ table) =
      if str_eq at name then (at, new) ∷ table else (at, old) ∷ insert name new table

  -- delete(table, name)
  unfoldable pub delete : String → Map V → Map V
  delete name [] = []
  delete name ((at, old) ∷ table) = if str_eq at name then table else (at, old) ∷ delete name table

  -- A write through a pointer that the table holds under `name`, if it holds one.
  unfoldable pub update : String → V → Map V → Map V
  update name new [] = []
  update name new ((at, old) ∷ table) =
      if str_eq at name then (at, new) ∷ table else (at, old) ∷ update name new table

  abbrev pub values : Map V → List V
  values [] = []
  values ((at, v) ∷ table) = v ∷ values table

  abbrev pub keys : Map V → List String
  keys [] = []
  keys ((at, v) ∷ table) = at ∷ keys table

-- The test for one key; it counts how often a table has the key.
abbrev pub is : String → String → Bool
is name at = str_eq at name

pub some_injective {ℓ} : {A : Type ℓ} (a b : A) → some a ≡ some b → a ≡ b
some_injective a b h = ap (λ o. elim o [ some x ↦ x | none ↦ a ]) h

module _ {ℓ} {V : Type ℓ} (name : String) where
  pub keys-update : (new : V) (table : Map V) → keys (update name new table) ≡ keys table
  unfolding update
  keys-update new [] = refl
  keys-update new ((at, old) ∷ table) = elim (Bool-cases (str_eq at name)) [
    | inl here ↦ rw here refl
    | inr past ↦ rw past (ap (◌∷◌ at) (keys-update new table))
  ]

  -- A write under a key that is there.
  pub keys-insert_old :
      (new : V) (table : Map V)
      → 0 < tally (is name) (keys table)
      → keys (insert name new table) ≡ keys table
  unfolding insert
  keys-insert_old new [] h = absurd (omega arith)
  keys-insert_old new ((at, old) ∷ table) h = elim (Bool-cases (str_eq at name)) [
    | inl here ↦ rw here refl
    | inr past ↦ rw past (ap (◌∷◌ at) (keys-insert_old new table (ground arith)))
  ]

  -- A write under a new key.
  pub tally-insert_new :
      (p : String → Bool) (new : V) (table : Map V)
      → tally (is name) (keys table) ≡ 0
      → tally p (keys (insert name new table)) ≡ bit (p name) + tally p (keys table)
  unfolding insert
  tally-insert_new p new [] h = refl
  tally-insert_new p new ((at, old) ∷ table) h = elim (Bool-cases (str_eq at name)) [
    | inl here ↦ absurd (ground arith)
    | inr past ↦ rw past (omega (arith, tally-insert_new p new table (ground arith)))
  ]

  pub tally-delete :
      (p : String → Bool) (table : Map V)
      → 0 < tally (is name) (keys table)
      → bit (p name) + tally p (keys (delete name table)) ≡ tally p (keys table)
  unfolding delete
  tally-delete p [] h = absurd (omega arith)
  tally-delete p ((at, old) ∷ table) h = elim (Bool-cases (str_eq at name)) [
    | inl here ↦
        rw here (ap (λ k. bit (p k) + tally p (keys table)) (sym ((eq_iff at name).0 here)))
    | inr past ↦ rw past (omega (arith, tally-delete p table (ground arith)))
  ]

  pub lookup_there :
      (v : V) (table : Map V) → lookup name table ≡ some v → 0 < tally (is name) (keys table)
  unfolding lookup
  lookup_there v [] h = absurd (ground arith)
  lookup_there v ((at, old) ∷ table) h = elim (Bool-cases (str_eq at name)) [
    | inl here ↦ rw here (omega arith)
    | inr past ↦ rw past (omega (arith, lookup_there v table (rw past at h)))
  ]

  -- What the writes do to the stored values.
  pub values-delete :
      (p : V → Bool) (old : V) (table : Map V)
      → lookup name table ≡ some old
      → bit (p old) + tally p (values (delete name table)) ≡ tally p (values table)
  unfolding lookup delete
  values-delete p old [] h = absurd (ground arith)
  values-delete p old ((at, v) ∷ table) h = elim (Bool-cases (str_eq at name)) [
    | inl here ↦ let e = some_injective v old (rw (lookup, here) at h) in rw (delete, here, e) refl
    | inr past ↦
        rw (delete, past) (omega (arith, values-delete p old table (rw (lookup, past) at h)))
  ]

  pub values-update :
      (p : V → Bool) (old new : V) (table : Map V)
      → lookup name table ≡ some old
      → bit (p old) + tally p (values (update name new table))
        ≡ bit (p new) + tally p (values table)
  unfolding lookup update
  values-update p old new [] h = absurd (ground arith)
  values-update p old new ((at, v) ∷ table) h = elim (Bool-cases (str_eq at name)) [
    | inl here ↦
        let e = some_injective v old (rw (lookup, here) at h) in rw (update, here, e) (omega arith)
    | inr past ↦
        rw (update, past) (omega (arith, values-update p old new table (rw (lookup, past) at h)))
  ]

  pub values-insert_new :
      (p : V → Bool) (new : V) (table : Map V)
      → tally (is name) (keys table) ≡ 0
      → tally p (values (insert name new table)) ≡ bit (p new) + tally p (values table)
  unfolding insert
  values-insert_new p new [] h = refl
  values-insert_new p new ((at, old) ∷ table) h = elim (Bool-cases (str_eq at name)) [
    | inl here ↦ absurd (ground arith)
    | inr past ↦ rw past (omega (arith, values-insert_new p new table (ground arith)))
  ]

  -- A write under a key that is there is a write through its pointer.
  pub insert-update :
      (new : V) (table : Map V)
      → 0 < tally (is name) (keys table)
      → insert name new table ≡ update name new table
  unfolding insert update
  insert-update new [] h = absurd (omega arith)
  insert-update new ((at, old) ∷ table) h = elim (Bool-cases (str_eq at name)) [
    | inl here ↦ rw (insert, update, here) refl
    | inr past ↦
        rw (insert, update, past) (ap (◌∷◌ (at, old)) (insert-update new table (ground arith)))
  ]

module _ {ℓ} {V : Type ℓ} (name : String) where
  pub lookup-update :
      (new old : V) (table : Map V)
      → lookup name table ≡ some old
      → lookup name (update name new table) ≡ some new
  unfolding lookup update
  lookup-update new old [] e = absurd (ground (arith, e))
  lookup-update new old ((k, v) ∷ t) e = elim (Bool-cases (str_eq k name)) [
    | inl here ↦ rw (here, here) refl
    | inr past ↦ rw (past, past) (lookup-update new old t (rw past at e))
  ]

  pub lookup-delete :
      (other : String) (table : Map V)
      → str_eq other name ≡ false
      → lookup name (delete other table) ≡ lookup name table
  unfolding lookup delete
  lookup-delete other [] apart = refl
  lookup-delete other ((k, v) ∷ t) apart = elim (Bool-cases (str_eq k other)) [
    | inl here ↦
        let past : str_eq k name ≡ false =
          ap (λ x. str_eq x name) ((eq_iff k other).0 here) ∙ apart in
        rw (here, past) refl
    | inr on ↦ elim (Bool-cases (str_eq k name)) [
      | inl same ↦ rw (on, same) refl
      | inr past ↦ rw (on, past) (lookup-delete other t apart)
    ]
  ]

  pub keys_without : (table : Map V) → lookup name table ≡ none → tally (is name) (keys table) ≡ 0
  unfolding lookup
  keys_without [] e = refl
  keys_without ((k, v) ∷ t) e = elim (Bool-cases (str_eq k name)) [
    | inl same ↦ absurd (ground (arith, rw same at e))
    | inr past ↦ omega (arith, ap bit past, keys_without t (rw past at e))
  ]

  pub lookup-update_other :
      (other : String) (new : V) (table : Map V)
      → str_eq other name ≡ false
      → lookup name (update other new table) ≡ lookup name table
  unfolding lookup update
  lookup-update_other other new [] apart = refl
  lookup-update_other other new ((k, v) ∷ t) apart = elim (Bool-cases (str_eq k other)) [
    | inl here ↦
        let past : str_eq k name ≡ false =
          ap (λ x. str_eq x name) ((eq_iff k other).0 here) ∙ apart in
        rw (here, past) refl
    | inr on ↦ elim (Bool-cases (str_eq k name)) [
      | inl same ↦ rw (on, same) refl
      | inr past ↦ rw (on, past) (lookup-update_other other new t apart)
    ]
  ]

  pub lookup-insert : (new : V) (table : Map V) → lookup name (insert name new table) ≡ some new
  unfolding lookup insert
  lookup-insert new [] = rw ((eq_iff name name).1 refl) refl
  lookup-insert new ((k, v) ∷ t) = elim (Bool-cases (str_eq k name)) [
    | inl here ↦ rw (here, here) refl
    | inr past ↦ rw (past, past) (lookup-insert new t)
  ]

  pub lookup-insert_other :
      (other : String) (new : V) (table : Map V)
      → str_eq other name ≡ false
      → lookup name (insert other new table) ≡ lookup name table
  unfolding lookup insert
  lookup-insert_other other new [] apart = rw apart refl
  lookup-insert_other other new ((k, v) ∷ t) apart = elim (Bool-cases (str_eq k other)) [
    | inl here ↦
        let past : str_eq k name ≡ false =
          ap (λ x. str_eq x name) ((eq_iff k other).0 here) ∙ apart in
        rw (here, past) refl
    | inr on ↦ elim (Bool-cases (str_eq k name)) [
      | inl same ↦ rw (on, same) refl
      | inr past ↦ rw (on, past) (lookup-insert_other other new t apart)
    ]
  ]
