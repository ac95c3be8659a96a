-- ===== src/Text/Path/Clean.antt =====
-- A cleaned path goes up only at its beginning.
use juju_utils.Common.{
  ◌≡◌, ◌≢◌, refl, arith, Bool, true, false, List, [], ◌∷◌, ◌++◌, if◌then◌else◌, All, All-append,
}
use juju_utils.Common.Bytes.{Bytes, bytes_eq}
use juju_utils.Text.Fields.{split, split-join, split-All}
use juju_utils.Text.Path.{
  is_up, no_up, all_up, drop_last, is_abs, add, resolve, elements, print, clean,
}

unfoldable pub ups_first : List Bytes → Bool
ups_first [] = true
ups_first (e ∷ es) = if is_up e then ups_first es else no_up es

-- Adding at the end.
no_up-snoc :
    (es : List Bytes) (e : Bytes) → no_up es ≡ true → is_up e ≡ false → no_up (es ++ e ∷ []) ≡ true
unfolding no_up
no_up-snoc [] e h he = ground (arith)
no_up-snoc (x ∷ es) e h he = ground (arith, no_up-snoc es e)

ups_first-snoc :
    (es : List Bytes) (e : Bytes)
    → ups_first es ≡ true
    → is_up e ≡ false
    → ups_first (es ++ e ∷ []) ≡ true
unfolding ups_first no_up
ups_first-snoc [] e h he = ground (arith)
ups_first-snoc (x ∷ es) e h he = ground (arith, ups_first-snoc es e, no_up-snoc es e)

ups_first-all_up :
    (es : List Bytes) (e : Bytes) → all_up es ≡ true → ups_first (es ++ e ∷ []) ≡ true
unfolding ups_first all_up no_up
ups_first-all_up [] e h = ground (arith)
ups_first-all_up (x ∷ es) e h = ground (arith, ups_first-all_up es e)

no_up-drop_last : (es : List Bytes) → no_up es ≡ true → no_up (drop_last es) ≡ true
unfolding no_up drop_last
no_up-drop_last [] h = refl
no_up-drop_last (x ∷ []) h = refl
no_up-drop_last (x ∷ y ∷ es) h = ground (arith, no_up-drop_last (y ∷ es))

ups_first-drop_last : (es : List Bytes) → ups_first es ≡ true → ups_first (drop_last es) ≡ true
unfolding ups_first drop_last
ups_first-drop_last [] h = refl
ups_first-drop_last (x ∷ []) h = refl
ups_first-drop_last (x ∷ y ∷ es) h =
    ground (arith, ups_first-drop_last (y ∷ es), no_up-drop_last (y ∷ es))

ups_first-add :
    (rooted : Bool) (kept : List Bytes) (e : Bytes)
    → ups_first kept ≡ true
    → ups_first (add rooted kept e) ≡ true
unfolding add
ups_first-add rooted kept e h =
    ground (arith, ups_first-snoc kept e, ups_first-all_up kept e, ups_first-drop_last kept)

no_up-add : (kept : List Bytes) (e : Bytes) → no_up kept ≡ true → no_up (add true kept e) ≡ true
unfolding add
no_up-add kept e h = ground (arith, no_up-snoc kept e, no_up-drop_last kept)

pub ups_first-resolve :
    (rooted : Bool) (kept es : List Bytes)
    → ups_first kept ≡ true
    → ups_first (resolve rooted kept es) ≡ true
unfolding resolve
ups_first-resolve rooted kept [] h = h
ups_first-resolve rooted kept (e ∷ es) h =
    ups_first-resolve rooted (add rooted kept e) es (ups_first-add rooted kept e h)

no_up-resolve : (kept es : List Bytes) → no_up kept ≡ true → no_up (resolve true kept es) ≡ true
unfolding resolve
no_up-resolve kept [] h = h
no_up-resolve kept (e ∷ es) h = no_up-resolve (add true kept e) es (no_up-add kept e h)

-- Elements hold no slash.
abbrev pub IsElement : Bytes → Type 0
IsElement = All (λ c. c ≢ b'/')

drop_last-All : (es : List Bytes) → All IsElement es → All IsElement (drop_last es)
unfolding drop_last
drop_last-All [] h = tt
drop_last-All (x ∷ []) h = tt
drop_last-All (x ∷ y ∷ es) h = (h.0, drop_last-All (y ∷ es) h.1)

add-All :
    (rooted : Bool) (kept : List Bytes) (e : Bytes)
    → All IsElement kept
    → IsElement e
    → All IsElement (add rooted kept e)
unfolding add
add-All rooted kept e h he =
    let more = All-append IsElement kept (e ∷ []) h (he, tt) in
    let less = drop_last-All kept h in ground arith

resolve-All :
    (rooted : Bool) (kept es : List Bytes)
    → All IsElement kept
    → All IsElement es
    → All IsElement (resolve rooted kept es)
unfolding resolve
resolve-All rooted kept [] h hs = h
resolve-All rooted kept (e ∷ es) h hs =
    resolve-All rooted (add rooted kept e) es (add-All rooted kept e h hs.0) hs.1

any_byte : (s : Bytes) → All (λ c. c ≡ c) s
any_byte [] = tt
any_byte (c ∷ s) = (refl, any_byte s)

unpaired : (ts : List Bytes) → All (All (λ c. (c ≡ c) × (c ≢ b'/'))) ts → All IsElement ts
unpaired [] h = tt
unpaired (t ∷ ts) h = (unpaired_bytes t h.0, unpaired ts h.1)
  where
    unpaired_bytes : (s : Bytes) → All (λ c. (c ≡ c) × (c ≢ b'/')) s → IsElement s
    unpaired_bytes [] h = tt
    unpaired_bytes (c ∷ s) h = (h.0.1, unpaired_bytes s h.1)

pub elements-All : (s : Bytes) → All IsElement (elements s)
unfolding elements
elements-All s =
    resolve-All (is_abs s) [] (split b'/' s) tt
      (unpaired _ (split-All (λ c. c ≡ c) b'/' s (any_byte s)))

split-print :
    (rooted : Bool) (es : List Bytes)
    → All IsElement es
    → (if rooted then no_up es else ups_first es) ≡ true
    → ups_first (split b'/' (print rooted es)) ≡ true
unfolding print ups_first no_up split
split-print true [] all h = refl
split-print true (e ∷ es) all h = rw (split-join b'/' e es all) h
split-print false [] all h = refl
split-print false (e ∷ es) all h = rw (split-join b'/' e es all) h

resolve-ups_first :
    (rooted : Bool) (es : List Bytes)
    → (if rooted then no_up (resolve rooted [] es) else ups_first (resolve rooted [] es)) ≡ true
unfolding ups_first no_up
resolve-ups_first true es = no_up-resolve [] es refl
resolve-ups_first false es = ups_first-resolve false [] es refl

-- The elements of a cleaned path that go up are its first ones.
pub split-clean : (s : Bytes) → ups_first (split b'/' (clean s)) ≡ true
unfolding clean elements
split-clean s =
    split-print (is_abs s) (elements s) (elements-All s)
      (resolve-ups_first (is_abs s) (split b'/' s))
