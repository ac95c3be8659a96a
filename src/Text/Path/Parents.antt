-- ===== src/Text/Path/Parents.antt =====
-- The directories on the way to a path, as `os.MkdirAll` makes them.
use juju_utils.Common.{
  Bool-cases, ◌≡◌, ◌⊎◌, inl, inr, refl, arith, ap, sym, subst, true, false, List, [], ◌∷◌, ◌++◌,
  map, if◌then◌else◌, All, ◌==◌,
}
use juju_utils.Common.Bytes.{Bytes, bytes_eq}
use juju_utils.Text.Fields.{split, split-join, join}
use juju_utils.Text.Path.{no_up, is_abs, elements, print, join_paths}
use juju_utils.Text.Path.Clean.{IsElement, elements-All}
use juju_utils.Text.Path.Under.{IsUnder, elements-join_paths}

-- The beginnings of a list, but for the empty one and the whole.
unfoldable pub inits : List Bytes → List (List Bytes)
inits [] = []
inits (e ∷ []) = []
inits (e ∷ f ∷ es) = (e ∷ []) ∷ map (λ l. e ∷ l) (inits (f ∷ es))

abbrev pub filled_texts : List (List Bytes) → List Bytes
filled_texts [] = []
filled_texts (l ∷ ls) =
    let rest = filled_texts ls in if join b'/' l == [] then rest else join b'/' l ∷ rest

-- The texts before the slashes of a path, but for the empty text before a first slash.
unfoldable pub parents : Bytes → List Bytes
unfolding inits split join
parents path = filled_texts (inits (split b'/' path))

-- A directory on the way to the root.
abbrev pub IsAbove : Bytes → Bytes → Type 0
IsAbove root p = (es fs : List Bytes) × (elements root ≡ es ++ fs) × (p ≡ print (is_abs root) es)

-- A list whose beginning is some list, which is not empty.
abbrev IsInit : List Bytes → List Bytes → Type 0
IsInit whole [] = ⊥
IsInit whole (e ∷ l) = (m : List Bytes) × (whole ≡ e ∷ l ++ m)

map-IsInit :
    (e : Bytes) (whole : List Bytes) (ls : List (List Bytes))
    → All (IsInit whole) ls
    → All (IsInit (e ∷ whole)) (map (λ l. e ∷ l) ls)
map-IsInit e whole [] h = tt
map-IsInit e whole ([] ∷ ls) h = absurd h.0
map-IsInit e whole ((f ∷ l) ∷ ls) h =
    let (m, eq) = h.0 in ((m, ap (λ (t : List Bytes). e ∷ t) eq), map-IsInit e whole ls h.1)

inits-IsInit : (es : List Bytes) → All (IsInit es) (inits es)
unfolding inits
inits-IsInit [] = tt
inits-IsInit (e ∷ []) = tt
inits-IsInit (e ∷ f ∷ es) =
    ((f ∷ es, refl), map-IsInit e (f ∷ es) (inits (f ∷ es)) (inits-IsInit (f ∷ es)))

filled_texts-All :
    (P : Bytes → Type 0) (ls : List (List Bytes))
    → All (λ l. (join b'/' l == []) ≡ false → P (join b'/' l)) ls
    → All P (filled_texts ls)
filled_texts-All P [] h = tt
filled_texts-All P (l ∷ ls) h = elim (Bool-cases (join b'/' l == [])) [
  | inl nothing ↦ rw nothing (filled_texts-All P ls h.1)
  | inr text ↦ rw text (h.0 text, filled_texts-All P ls h.1)
]

-- A beginning of two lists in a row.
split_init :
    (l m es fs : List Bytes)
    → l ++ m ≡ es ++ fs
    → ((x : List Bytes) × (es ≡ l ++ x)) ⊎ ((x : List Bytes) × (l ≡ es ++ x) × (fs ≡ x ++ m))
split_init [] m es fs h = inl (es, refl)
split_init (e ∷ l) m [] fs h = inr (e ∷ l, refl, sym h)
split_init (e ∷ l) m (f ∷ es) fs h = one_more (split_init l m es fs (ground arith))
  where
    one_more :
        ((x : List Bytes) × (es ≡ l ++ x)) ⊎ ((x : List Bytes) × (l ≡ es ++ x) × (fs ≡ x ++ m))
        → ((x : List Bytes) × (f ∷ es ≡ e ∷ l ++ x))
          ⊎ ((x : List Bytes) × (e ∷ l ≡ f ∷ es ++ x) × (fs ≡ x ++ m))
    one_more (inl (x, eq)) = inl (x, ground arith)
    one_more (inr (x, eq, rest)) = inr (x, ground arith, rest)

no_up-init : (x m : List Bytes) → no_up (x ++ m) ≡ true → no_up x ≡ true
unfolding no_up
no_up-init [] m h = refl
no_up-init (e ∷ x) m h = ground (arith, no_up-init x m)

-- A beginning of the elements under a root ends at the root, above it or under it.
init-IsUnder :
    (root : Bytes) (rest l m : List Bytes)
    → no_up rest ≡ true
    → l ++ m ≡ elements root ++ rest
    → IsUnder root (print (is_abs root) l) ⊎ IsAbove root (print (is_abs root) l)
init-IsUnder root rest l m down h = cases (split_init l m (elements root) rest h)
  where
    cases :
        ((x : List Bytes) × (elements root ≡ l ++ x))
          ⊎ ((x : List Bytes) × (l ≡ elements root ++ x) × (rest ≡ x ++ m))
        → IsUnder root (print (is_abs root) l) ⊎ IsAbove root (print (is_abs root) l)
    cases (inl (x, above)) = inr (l, x, above, refl)
    cases (inr (x, under, tail)) =
        inl (x, ap (print (is_abs root)) under, no_up-init x m (rw (sym tail) down))

-- A path under the root, or on the way to it.
abbrev pub IsNear : Bytes → Bytes → Type 0
IsNear root p = IsUnder root p ⊎ IsAbove root p

module _ (root : Bytes) (rest : List Bytes) (down : no_up rest ≡ true) where
  near :
      (l m : List Bytes) (p : Bytes)
      → elements root ++ rest ≡ l ++ m
      → p ≡ print (is_abs root) l
      → IsNear root p
  near l m p h printed = subst (IsNear root) (sym printed) (init-IsUnder root rest l m down (sym h))

  relative-IsNear :
      (ls : List (List Bytes))
      → is_abs root ≡ false
      → All (IsInit (elements root ++ rest)) ls
      → All (λ l. (join b'/' l == []) ≡ false → IsNear root (join b'/' l)) ls
  unfolding print
  relative-IsNear [] rel h = tt
  relative-IsNear ([] ∷ ls) rel h = absurd h.0
  relative-IsNear ((e ∷ l) ∷ ls) rel h =
      let (m, eq) = h.0 in
      (λ text. near (e ∷ l) m (join b'/' (e ∷ l)) eq (rw rel refl), relative-IsNear ls rel h.1)

  rooted-IsNear :
      (ls : List (List Bytes))
      → is_abs root ≡ true
      → All (IsInit (elements root ++ rest)) ls
      → All (λ l. (join b'/' l == []) ≡ false → IsNear root (join b'/' l)) (map (λ l. [] ∷ l) ls)
  unfolding print join
  rooted-IsNear [] abs h = tt
  rooted-IsNear ([] ∷ ls) abs h = absurd h.0
  rooted-IsNear ((e ∷ l) ∷ ls) abs h =
      let (m, eq) = h.0 in
      (λ text. near (e ∷ l) m (b'/' ∷ join b'/' (e ∷ l)) eq (rw abs refl), rooted-IsNear ls abs h.1)

  parents-print :
      (es : List Bytes)
      → elements root ++ rest ≡ es
      → All IsElement es
      → All (IsNear root) (parents (print (is_abs root) es))
  unfolding parents print inits split join
  parents-print es whole all = elim (Bool-cases (is_abs root)) [
    | inl abs ↦ rw abs (rooted es whole all abs)
    | inr rel ↦ rw rel (relative es whole all rel)
  ]
    where
      rooted :
          (es : List Bytes)
          → elements root ++ rest ≡ es
          → All IsElement es
          → is_abs root ≡ true
          → All (IsNear root) (parents (print true es))
      rooted [] whole all abs = tt
      rooted (e ∷ es) whole all abs = rw (split-join b'/' e es all) (
          filled_texts-All (IsNear root) (inits ([] ∷ e ∷ es)) (
            λ text. absurd (ground arith),
            rooted-IsNear (inits (e ∷ es)) abs (rw whole (inits-IsInit (e ∷ es))),
          ))

      relative :
          (es : List Bytes)
          → elements root ++ rest ≡ es
          → All IsElement es
          → is_abs root ≡ false
          → All (IsNear root) (parents (print false es))
      relative [] whole all rel = tt
      relative (e ∷ es) whole all rel = rw (split-join b'/' e es all) (
          filled_texts-All (IsNear root) (inits (e ∷ es))
            (relative-IsNear (inits (e ∷ es)) rel (rw whole (inits-IsInit (e ∷ es)))))

-- The directories on the way to a path under a root are under it or on the way to it.
pub parents-join_paths :
    (root path : Bytes)
    → (root == []) ≡ false
    → no_up (split b'/' path) ≡ true
    → All (IsNear root) (parents (join_paths root path))
parents-join_paths root path h down =
    let (rest, joined, parts, kept) = elements-join_paths root path h down in
    rw joined (
      parents-print root rest kept (elements root ++ rest) refl
        (subst (All IsElement) parts (elements-All (root ++ b'/' ∷ path))))
