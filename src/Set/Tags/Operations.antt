-- ===== src/Set/Tags/Operations.antt =====
-- The methods of set/tags.go that are those of set/strings.go, at tags.
use juju_utils.Common.{ℕ, ◌≡◌, Bool, ◌&&◌, ◌||◌, not, Option, List, Eq}
use juju_utils.Set
use juju_utils.Set.{SetOf}
use juju_utils.Set.Algebra.{set_operations}
use juju_utils.Set.Tags.{Names, Tags, key_eq}

module _ (names : Names) where
  open names use {Tag}

  instance abbrev tag_keys : Eq Tag
  tag_keys = key_eq names

  -- `NewTags`.
  unfoldable pub new_tags : List Tag → Option (Tags names)
  unfolding Set.new
  new_tags initial = Set.new initial

  unfoldable pub size : Tags names → ℕ
  unfolding Set.size
  size t = Set.size t

  unfoldable pub is_empty : Tags names → Bool
  unfolding Set.is_empty
  is_empty t = Set.is_empty t

  unfoldable pub add : Tag → Tags names → Option (Tags names)
  unfolding Set.add
  add value t = Set.add value t

  unfoldable pub remove : Tag → Tags names → Tags names
  unfolding Set.remove
  remove value t = Set.remove value t

  unfoldable pub contains : Tag → Tags names → Bool
  unfolding Set.contains
  contains value t = Set.contains value t

  unfoldable pub values : Tags names → List Tag
  unfolding Set.values
  values t = Set.values t

  unfoldable pub union : Tags names → Tags names → Tags names
  unfolding Set.union
  union t other = Set.union t other

  unfoldable pub intersection : Tags names → Tags names → Tags names
  unfolding Set.intersection
  intersection t other = Set.intersection t other

  unfoldable pub difference : Tags names → Tags names → Tags names
  unfolding Set.difference
  difference t other = Set.difference t other

  -- `Union`, `Intersection` and `Difference` of tags are the operations on members that their names say.
  pub tag_operations :
      (s t : Tags names) (j : Tag)
      → (contains j (union s t) ≡ (contains j s || contains j t))
        × (contains j (intersection s t) ≡ (contains j s && contains j t))
        × (contains j (difference s t) ≡ (contains j s && not (contains j t)))
  unfolding contains union intersection difference
  tag_operations s t j = set_operations s t j
