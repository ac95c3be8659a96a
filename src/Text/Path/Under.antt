-- ===== src/Text/Path/Under.antt =====
-- Which paths lie under a root.
use juju_utils.Common.{
  ap₂, ℕ, ◌≡◌, refl, arith, ap, sym, Bool, true, false, List, [], ◌∷◌, ◌++◌, if◌then◌else◌, nat_beq,
  ◌==◌, append_assoc, append-nil, Bool-cases, inl, inr,
}
use juju_utils.Common.Bytes.{Bytes, bytes_eq}
use juju_utils.Text.Fields.{split, longer}
use juju_utils.Text.Path.{
  is_up, is_skipped, no_up, is_abs, add, resolve, elements, print, clean, join_paths,
}
use juju_utils.Text.Path.Clean.{ups_first}

-- The path of the root, followed by elements that do not go up.
abbrev pub IsUnder : Bytes → Bytes → Type 0
IsUnder root path =
    (rest : List Bytes) × (path ≡ print (is_abs root) (elements root ++ rest)) × (no_up rest ≡ true)

-- Whether the first element goes up.
abbrev pub starts_up : List Bytes → Bool
starts_up [] = false
starts_up (e ∷ es) = is_up e

pub no_up-ups_first :
    (es : List Bytes) → ups_first es ≡ true → starts_up es ≡ false → no_up es ≡ true
unfolding ups_first no_up
no_up-ups_first [] h hs = refl
no_up-ups_first (e ∷ es) h hs = ground arith

longer-append :
    (c : ℕ) (f : Bytes) (fs ts : List Bytes) → longer c ((f ∷ fs) ++ ts) ≡ longer c (f ∷ fs) ++ ts
longer-append c f fs ts = refl

pub split-cons : (s : Bytes) → (f : Bytes) × (fs : List Bytes) × (split b'/' s ≡ f ∷ fs)
unfolding split
split-cons [] = ([], [], refl)
split-cons (c ∷ s) = elim (Bool-cases (nat_beq c b'/')) [
  | inl here ↦ rw here ([], split b'/' s, refl)
  | inr other ↦ let (f, fs, e) = split-cons s in rw (other, e) (c ∷ f, fs, refl)
]

-- A text that begins with other text and a slash.
pub split-slash : (a b : Bytes) → split b'/' (a ++ b'/' ∷ b) ≡ split b'/' a ++ split b'/' b
unfolding split
split-slash [] b = refl
split-slash (c ∷ a) b = elim (Bool-cases (nat_beq c b'/')) [
  | inl here ↦ rw here (ap (λ (ts : List Bytes). [] ∷ ts) (split-slash a b))
  | inr other ↦ let (f, fs, e) = split-cons a in rw (other, split-slash a b, e) refl
]

pub resolve-append :
    (rooted : Bool) (kept es fs : List Bytes)
    → resolve rooted kept (es ++ fs) ≡ resolve rooted (resolve rooted kept es) fs
unfolding resolve
resolve-append rooted kept [] fs = refl
resolve-append rooted kept (e ∷ es) fs = resolve-append rooted (add rooted kept e) es fs

-- Elements that do not go up stay, but for those that `Clean` skips.
abbrev kept_of : List Bytes → List Bytes
kept_of [] = []
kept_of (e ∷ es) = let rest = kept_of es in if is_skipped e then rest else e ∷ rest

resolve-no_up :
    (rooted : Bool) (kept es : List Bytes)
    → no_up es ≡ true
    → resolve rooted kept es ≡ kept ++ kept_of es
unfolding resolve add no_up
resolve-no_up rooted kept [] h = sym (append-nil kept)
resolve-no_up rooted kept (e ∷ es) h = elim (Bool-cases (is_skipped e)) [
  | inl skipped ↦ rw (skipped, resolve-no_up rooted kept es (ground arith)) refl
  | inr other ↦
      let down : is_up e ≡ false = ground arith in
      rw
        (
          other,
          down,
          resolve-no_up rooted (kept ++ e ∷ []) es (ground arith),
          append_assoc kept (e ∷ []) (kept_of es),
        )
        refl
]

no_up-kept_of : (es : List Bytes) → no_up es ≡ true → no_up (kept_of es) ≡ true
unfolding no_up
no_up-kept_of [] h = refl
no_up-kept_of (e ∷ es) h = ground (arith, no_up-kept_of es)

pub is_abs-append : (root s : Bytes) → (root == []) ≡ false → is_abs (root ++ s) ≡ is_abs root
is_abs-append [] s h = absurd (ground arith)
is_abs-append (c ∷ root) s h = refl

elements-append :
    (root path : Bytes)
    → (root == []) ≡ false
    → no_up (split b'/' path) ≡ true
    → elements (root ++ b'/' ∷ path) ≡ elements root ++ kept_of (split b'/' path)
unfolding elements
elements-append root path h down =
    rw
      (
        is_abs-append root (b'/' ∷ path) h,
        split-slash root path,
        resolve-append (is_abs root) [] (split b'/' root) (split b'/' path),
        resolve-no_up (is_abs root) (resolve (is_abs root) [] (split b'/' root)) (split b'/' path)
            down,
      )
      refl

-- The elements of a path joined to a root, none of which goes up, are those of the root and others.
pub elements-join_paths :
    (root path : Bytes)
    → (root == []) ≡ false
    → no_up (split b'/' path) ≡ true
    → (rest : List Bytes) × (join_paths root path ≡ print (is_abs root) (elements root ++ rest))
      × (elements (root ++ b'/' ∷ path) ≡ elements root ++ rest)
      × (no_up rest ≡ true)
unfolding join_paths clean
elements-join_paths root path h down = (
  kept_of (split b'/' path),
  rw h (ap₂ print (is_abs-append root (b'/' ∷ path) h) (elements-append root path h down)),
  elements-append root path h down,
  no_up-kept_of (split b'/' path) down,
)

-- A path joined to a root lies under it, unless an element of the path goes up.
pub join_paths-IsUnder :
    (root path : Bytes)
    → (root == []) ≡ false
    → no_up (split b'/' path) ≡ true
    → IsUnder root (join_paths root path)
join_paths-IsUnder root path h down =
    let (rest, joined, parts, kept) = elements-join_paths root path h down in (rest, joined, kept)
