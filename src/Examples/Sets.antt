-- ===== src/Examples/Sets.antt =====
-- The sets of `Set`, and a small package of tags, at concrete inputs.
use juju_utils.Common.{ℕ, ◌≡◌, refl, true, some, arith, [], ◌∷◌, List, nat_eq}
use juju_utils.Common.Bytes.{bytes_beq_iff, Bytes, codes, bytes_eq}
use juju_utils.Common.Results.{Result, ok, err}
use juju_utils.Set.{add, contains, IsWellFormed}
use juju_utils.Set.Strings
use juju_utils.Set.Strings.{Strings, sorted_values_unique, sorted_values_members}
use juju_utils.Set.Tags.{Names, Tags}
use juju_utils.GoMap.{insert, lookup}

abbrev pears : Strings
pears = some ((codes "pear", true) ∷ (codes "fig", true) ∷ [])

abbrev figs : Strings
figs = some ((codes "fig", true) ∷ (codes "plum", true) ∷ [])

abbrev figs_first : Strings
figs_first = some ((codes "fig", true) ∷ (codes "pear", true) ∷ [])

pears-IsWellFormed : IsWellFormed pears
pears-IsWellFormed = unfold lookup in (refl, (refl, tt))

figs-IsWellFormed : IsWellFormed figs
figs-IsWellFormed = unfold lookup in (refl, (refl, tt))

figs_first-IsWellFormed : IsWellFormed figs_first
figs_first-IsWellFormed = unfold lookup in (refl, (refl, tt))

abbrev three : Strings
three = some ((codes "pear", true) ∷ (codes "fig", true) ∷ (codes "plum", true) ∷ [])

added_plum : add (codes "plum") pears ≡ some three
unfolding add insert
added_plum = refl

same_members : (j : Bytes) → contains j pears ≡ contains j figs_first
same_members j =
    unfold contains lookup in
    ground (arith, bytes_beq_iff (codes "pear") j, bytes_beq_iff (codes "fig") j)

sorted_values_unique_example : Strings.sorted_values pears ≡ Strings.sorted_values figs_first
sorted_values_unique_example =
    sorted_values_unique pears figs_first pears-IsWellFormed figs_first-IsWellFormed same_members

-- Tags that are numbers below 10, printed as one digit.
abbrev digit_parse : Bytes → Result ℕ ℕ
digit_parse [] = err 0
digit_parse (c ∷ []) = ok c
digit_parse (c ∷ d ∷ s) = err 1

abbrev digit_names : Names
digit_names = record {
  Tag = ℕ;
  Error = ℕ;
  tag_eq = nat_eq;
  string = λ n. n ∷ [];
  parse_tag = digit_parse;
  trace = λ e. e;
  parse_tag-string = λ t. refl;
}

abbrev machines : Tags digit_names
machines = some ((9, true) ∷ (3, true) ∷ [])

machines-IsWellFormed : IsWellFormed {K = ℕ} machines
machines-IsWellFormed = unfold lookup in (refl, (refl, tt))

abbrev two_good : List Bytes
two_good = (5 ∷ []) ∷ (4 ∷ []) ∷ [] ∷ (6 ∷ []) ∷ []
