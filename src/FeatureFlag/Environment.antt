-- ===== src/FeatureFlag/Environment.antt =====
-- The flags that a value of the environment sets.
use juju_utils.Common.{
  ℕ, ◌≡◌, ◌≢◌, refl, ap, sym, ◌∙◌, subst, arith, Bool, true, false, ◌||◌, ◌&&◌, not, some, List, [],
  ◌∷◌, ◌==◌, All, Bool-cases, inl, inr,
}
use juju_utils.Common.Bytes.{Bytes, bytes_eq, bytes_order}
use juju_utils.GoMap.{Map, lookup, insert, IsMap, insert-IsMap}
use juju_utils.GoMap.Keys.{elem, keys}
use juju_utils.Set.{contains, values, IsWellFormed}
use juju_utils.Set.Algebra.{has, has-insert}
use juju_utils.Sorting.{sort-All}
use juju_utils.Set.Strings.{Strings, sorted_values, sorted_values_members}
use juju_utils.Text.Fields.{
  split, join, trim_space, to_lower, split-join, split-All, trim_space-All, trim_space_idem,
  IsLower, to_lower-All, to_lower-same, join-All,
}
use juju_utils.FeatureFlag.{add_flags, set_flags_from_environment, enabled, as_environment_value}

-- A flag has been trimmed, is not empty, and has no comma and no capital.
abbrev pub IsFlagChar : ℕ → Type 0
IsFlagChar c = IsLower c × (c ≢ b',')

pub record IsFlag (flag : Bytes) : Type 0 where
  pub trimmed : trim_space flag ≡ flag
  pub not_empty : (flag == []) ≡ false
  pub chars : All IsFlagChar flag

-- Whether a flag is one of the fields.
abbrev pub names : Bytes → List Bytes → Bool
names j [] = false
names j (field ∷ fields) =
    (not (trim_space field == []) && (trim_space field == j)) || names j fields

keys-insert :
    (P : Bytes → Type 0) (k : Bytes) (v : Bool) (m : Map Bytes Bool)
    → P k
    → All P (keys m)
    → All P (keys (insert k v m))
unfolding keys insert
keys-insert P k v [] p h = (p, tt)
keys-insert P k v ((j, w) ∷ m) p h = elim (Bool-cases (j == k)) [
  | inl same ↦ rw same h
  | inr other ↦ rw other (h.0, keys-insert P k v m p h.1)
]

-- The loop ends without a panic: its set is well formed, holds flags, and has the fields' flags.
abbrev Added : List Bytes → Map Bytes Bool → Type 0
Added fields m =
    (n : Map Bytes Bool) × (add_flags fields (some m) ≡ some (some n))
    × IsMap n
    × All IsFlag (keys n)
    × ((j : Bytes) → has j n ≡ (has j m || names j fields))

add_flags_lem :
    (fields : List Bytes) (m : Map Bytes Bool)
    → All (All IsFlagChar) fields
    → IsMap m
    → All IsFlag (keys m)
    → Added fields m
unfolding add_flags
add_flags_lem [] m h w f = (m, refl, w, f, λ j. ground arith)
add_flags_lem (field ∷ fields) m h w f = elim (Bool-cases (trim_space field == [])) [
  | inl empty ↦
      let (n, run, wn, fn, same) = add_flags_lem fields m h.1 w f in
      (n, rw empty run, wn, fn, λ j. ground (arith, same j))
  | inr some_flag ↦
      let k : Bytes = trim_space field in
      let flag : IsFlag k = record {
        trimmed = trim_space_idem field;
        not_empty = some_flag;
        chars = trim_space-All IsFlagChar field h.0;
      } in
      let (n, run, wn, fn, same) =
        add_flags_lem fields (insert k true m) h.1 (insert-IsMap k true m w)
          (keys-insert IsFlag k true m flag f) in
      (n, rw some_flag run, wn, fn, λ j. ground (arith, same j, has-insert k j m))
]

-- `SetFlagsFromEnvironment` does not panic. Its set is well formed and holds flags, and `Enabled` says
-- of a name, in any case and with any space around it, whether it is one of the value's fields.
pub set_flags_lem :
    (value : Bytes)
    → (flags : Strings) × (set_flags_from_environment value ≡ some flags)
      × IsWellFormed flags
      × All IsFlag (values flags)
      × ((name : Bytes)
          → enabled name flags ≡ names (trim_space (to_lower name)) (split b',' (to_lower value)))
unfolding set_flags_from_environment values enabled contains keys
set_flags_lem value =
    let (n, run, wn, fn, same) =
      add_flags_lem (split b',' (to_lower value)) []
        (split-All IsLower b',' (to_lower value) (to_lower-All value)) tt tt in
    (some n, run, wn, fn, λ name. unfold lookup in same (trim_space (to_lower name)))

names-flags : (j : Bytes) (flags : List Bytes) → All IsFlag flags → names j flags ≡ elem j flags
unfolding elem
names-flags j [] h = refl
names-flags j (flag ∷ flags) h = rw (h.0.trimmed, h.0.not_empty, names-flags j flags h.1) refl

sorted-IsFlag : (flags : Strings) → All IsFlag (values flags) → All IsFlag (sorted_values flags)
unfolding sorted_values
sorted-IsFlag flags h = sort-All IsFlag (values flags) h

flag_chars : (flags : List Bytes) → All IsFlag flags → All (All IsFlagChar) flags
flag_chars [] h = tt
flag_chars (flag ∷ flags) h = (h.0.chars, flag_chars flags h.1)

IsLower-chars : (s : Bytes) → All IsFlagChar s → All IsLower s
IsLower-chars [] h = tt
IsLower-chars (c ∷ s) h = (h.0.0, IsLower-chars s h.1)

IsLower-fields : (fields : List Bytes) → All (All IsFlagChar) fields → All (All IsLower) fields
IsLower-fields [] h = tt
IsLower-fields (s ∷ fields) h = (IsLower-chars s h.0, IsLower-fields fields h.1)

no_comma : (s : Bytes) → All IsFlagChar s → All (λ c. c ≢ b',') s
no_comma [] h = tt
no_comma (c ∷ s) h = (h.0.1, no_comma s h.1)

no_commas :
    (fields : List Bytes) → All (All IsFlagChar) fields → All (λ t. All (λ c. c ≢ b',') t) fields
no_commas [] h = tt
no_commas (s ∷ fields) h = (no_comma s h.0, no_commas fields h.1)

-- The fields of the joined flags are the flags; for no flags, one empty field.
names-join :
    (j : Bytes) (flags : List Bytes)
    → All IsFlag flags
    → names j (split b',' (to_lower (join b',' flags))) ≡ elem j flags
unfolding join to_lower split elem trim_space
names-join j [] h = refl
names-join j (flag ∷ flags) h =
    let chars = flag_chars (flag ∷ flags) h in
    ap (λ (s : Bytes). names j (split b',' s))
      (to_lower-same (join b',' (flag ∷ flags))
        (join-All IsLower b',' (flag ∷ flags) refl (IsLower-fields (flag ∷ flags) chars)))
    ∙ ap (names j) (split-join b',' flag flags (no_commas (flag ∷ flags) chars))
    ∙ names-flags j (flag ∷ flags) h

same_some : {A : Type 0} {a b : A} → some a ≡ some b → a ≡ b
same_some e = cc

-- What `AsEnvironmentValue` gives for flags that were read from the environment sets the same flags
-- again.
pub environment_round_trip :
    (value : Bytes) (flags : Strings)
    → set_flags_from_environment value ≡ some flags
    → (again : Strings) × (set_flags_from_environment (as_environment_value flags) ≡ some again)
      × ((name : Bytes) → contains name again ≡ contains name flags)
unfolding set_flags_from_environment as_environment_value
environment_round_trip value flags e =
    let (flags', run', w', f', _) = set_flags_lem value in
    let same_flags : flags' ≡ flags = same_some (sym run' ∙ e) in
    let wf : IsWellFormed flags = subst IsWellFormed same_flags w' in
    let all_flags : All IsFlag (values flags) =
      subst (λ (s : Strings). All IsFlag (values s)) same_flags f' in
    let sorted : List Bytes = sorted_values flags in
    let s : Bytes = to_lower (join b',' sorted) in
    let (n, run, wn, fn, same) =
      add_flags_lem (split b',' s) [] (split-All IsLower b',' s (to_lower-All (join b',' sorted)))
        tt (unfold keys in tt) in
    (
      some n,
      run,
      λ name.
          let field : contains name (some n) ≡ names name (split b',' s) =
            unfold contains lookup in same name in
          field
          ∙ names-join name sorted (sorted-IsFlag flags all_flags)
          ∙ (sorted_values_members flags wf).1 name,
    )
