-- ===== src/Set/Tags.antt =====
-- set/tags.go: the set of `Set` at the tags of the package github.com/juju/names. That package is a
-- parameter: its tags, their equality, `String` and `ParseTag`.
pub mod Operations
use juju_utils.Common.{
  inr, true, length-map, inl, ◌||◌, subst, sym, Bool, ap, length, refl, ◌∙◌, ◌==◌, ap₂, All, arith,
  ◌≡◌, Option, none, some, List, [], ◌∷◌, Eq, map,
}
use juju_utils.Common.Bytes.{bytes_beq_iff, bytes_beq, Bytes, bytes_eq, bytes_order}
use juju_utils.Common.Results.{Result-cases, Result, ok, err}
use juju_utils.Set.{entries, IsWellFormed, size, contains, SetOf, make, values, add}
use juju_utils.Sorting.{length-sort, elem-sort, sort-IsAscending, sort-All, IsAscending, sort}
use juju_utils.GoMap.Keys.{length-keys, elem-keys, keys-Distinct, keys, elem, Distinct}
use juju_utils.GoMap.{insert-IsMap, insert, IsMap, Map, lookup}
use juju_utils.Set.Algebra.{has-insert, has}

-- What the code uses of github.com/juju/names: `ParseTag` reads back what `String` prints.
pub record Names : Type 1 where
  pub Tag : Type 0
  pub Error : Type 0
  pub tag_eq : Eq Tag
  pub string : Tag → Bytes
  pub parse_tag : Bytes → Result Error Tag
  -- `errors.Trace` of github.com/juju/errors
  pub trace : Error → Error
  pub parse_tag-string : (t : Tag) → parse_tag (string t) ≡ ok t

module _ (names : Names) where
  open names use {Tag, Error, tag_eq, string, parse_tag, trace, parse_tag-string}

  instance abbrev pub key_eq : Eq Tag
  key_eq = tag_eq

  abbrev pub Tags : Type 0
  Tags = SetOf Tag

  -- The loop of `NewTagsFromStrings`; the outer `none` is a panic of `Add`.
  from_strings : List Bytes → Tags → Option (Tags × Option Error)
  from_strings [] result = some (result, none)
  from_strings (value ∷ rest) result = elim (parse_tag value) [
    | err e ↦ some (result, some (trace e))
    | ok tag ↦ elim (add tag result) [ none ↦ none | some result' ↦ from_strings rest result' ]
  ]

  unfoldable pub new_tags_from_strings : List Bytes → Option (Tags × Option Error)
  unfolding from_strings
  new_tags_from_strings initial = from_strings initial make

  -- `stringValues`.
  unfoldable pub string_values : Tags → List Bytes
  string_values t = map string (values t)

  -- `tag, _ := names.ParseTag(value)`: the nil tag, `none`, where the string does not parse.
  tag_or_nil : Bytes → Option Tag
  tag_or_nil value = elim (parse_tag value) [ ok tag ↦ some tag | err _ ↦ none ]

  -- `SortedValues`.
  unfoldable pub sorted_values : Tags → List (Option Tag)
  unfolding string_values tag_or_nil
  sorted_values t = map tag_or_nil (sort (string_values t))

  string-injective : (a b : Tag) → string a ≡ string b → a ≡ b
  string-injective a b h = ground (arith, parse_tag-string a, parse_tag-string b)

  beq-string : (a b : Tag) → bytes_beq (string a) (string b) ≡ (a == b)
  beq-string a b =
      ground (arith, bytes_beq_iff (string a) (string b), tag_eq.beq_iff a b, string-injective a b)

  elem-map-string : (j : Tag) (ts : List Tag) → elem (string j) (map string ts) ≡ elem j ts
  unfolding elem
  elem-map-string j [] = refl
  elem-map-string j (t ∷ ts) = rw (beq-string t j, elem-map-string j ts)

  map-string-Distinct : (ts : List Tag) → Distinct ts → Distinct (map string ts)
  map-string-Distinct [] d = tt
  map-string-Distinct (t ∷ ts) d = (elem-map-string t ts ∙ d.0, map-string-Distinct ts d.1)

  -- A string that some tag prints.
  abbrev IsPrinted : Bytes → Type 0
  IsPrinted s = (t : Tag) × (string t ≡ s)

  map-string-IsPrinted : (ts : List Tag) → All IsPrinted (map string ts)
  map-string-IsPrinted [] = tt
  map-string-IsPrinted (t ∷ ts) = ((t, refl), map-string-IsPrinted ts)

  tags_of_printed : (ss : List Bytes) → All IsPrinted ss → (ts : List Tag) × (map string ts ≡ ss)
  tags_of_printed [] _ = ([], refl)
  tags_of_printed (s ∷ ss) ((t, e), rest) =
      let (ts, es) = tags_of_printed ss rest in (t ∷ ts, ap₂ ◌∷◌ e es)

  map-tag_or_nil : (ts : List Tag) → map tag_or_nil (map string ts) ≡ map some ts
  unfolding tag_or_nil
  map-tag_or_nil [] = refl
  map-tag_or_nil (t ∷ ts) = ap₂ ◌∷◌ (rw (parse_tag-string t, tag_or_nil)) (map-tag_or_nil ts)

  -- `SortedValues` has no nil in it: it is the members, each once, in the order of their strings.
  pub sorted_values_tags :
      (s : Tags)
      → IsWellFormed s
      → (ts : List Tag) × (sorted_values s ≡ map some ts)
        × IsAscending (map string ts)
        × ((j : Tag) → elem j ts ≡ contains j s)
        × (length ts ≡ size s)
  unfolding sorted_values string_values values contains size
  sorted_values_tags s w =
      let names_of : List Bytes = map string (keys (entries s)) in
      let (ts, e) =
        tags_of_printed (sort names_of)
          (sort-All IsPrinted names_of (map-string-IsPrinted (keys (entries s)))) in
      (
        ts,
        ap (map tag_or_nil) (sym e) ∙ map-tag_or_nil ts,
        subst (λ l. IsAscending l) (sym e)
            (sort-IsAscending names_of
              (map-string-Distinct (keys (entries s)) (keys-Distinct (entries s) w))),
        λ j.
            sym (elem-map-string j ts)
            ∙ ap (elem (string j)) e
            ∙ elem-sort (string j) names_of
            ∙ elem-map-string j (keys (entries s))
            ∙ elem-keys j (entries s),
        sym (length-map ts string)
            ∙ ap length e
            ∙ length-sort names_of
            ∙ length-map (keys (entries s)) string
            ∙ length-keys (entries s),
      )

  -- What the loop reads before the first string that does not parse, and that string's error.
  pub parsed : List Bytes → List Tag
  parsed [] = []
  parsed (v ∷ vs) = elim (parse_tag v) [ ok t ↦ t ∷ parsed vs | err _ ↦ [] ]

  pub first_error : List Bytes → Option Error
  first_error [] = none
  first_error (v ∷ vs) = elim (parse_tag v) [ ok _ ↦ first_error vs | err e ↦ some (trace e) ]

  from_strings_lem :
      (vs : List Bytes) (m : Map Tag Bool)
      → IsMap m
      → (n : Map Tag Bool) × (from_strings vs (some m) ≡ some (some n, first_error vs))
        × IsMap n
        × ((j : Tag) → has j n ≡ (has j m || elem j (parsed vs)))
  unfolding from_strings first_error parsed elem add
  from_strings_lem [] m w = (m, refl, w, λ j. ground arith)
  from_strings_lem (v ∷ vs) m w = elim (Result-cases (parse_tag v)) [
    | inl (t, e) ↦
        let (n, run, wn, h) = from_strings_lem vs (insert t true m) (insert-IsMap t true m w) in
        (
          n,
          rw (e, from_strings, first_error) run,
          wn,
          λ j. rw (e, parsed, elem) (ground (arith, h j, has-insert t j m)),
        )
    | inr (x, e) ↦
        (m, rw (e, from_strings, first_error), w, λ j. rw (e, parsed, elem) (ground arith))
  ]

  -- `NewTagsFromStrings` never panics. Its set holds the tags that stand before the first string
  -- that does not parse, and its error is that string's, traced, or nil where all parse.
  pub new_tags_from_strings_lem :
      (initial : List Bytes)
      → (s : Tags) × (new_tags_from_strings initial ≡ some (s, first_error initial))
        × IsWellFormed s
        × ((j : Tag) → contains j s ≡ elem j (parsed initial))
  unfolding new_tags_from_strings contains lookup
  new_tags_from_strings_lem initial =
      let (n, run, wn, h) = from_strings_lem initial [] tt in (some n, run, wn, h)
