-- ===== src/Text/Path.antt =====
-- What the code uses of `path` and `path/filepath`, where the separator is the slash.
pub mod Clean
pub mod Under
pub mod Printed
pub mod Parents
use juju_utils.Common.{
  ℕ, ◌≡◌, Bool, true, false, ◌&&◌, ◌||◌, not, Option, none, some, List, [], ◌∷◌, ◌++◌, map,
  if◌then◌else◌, nat_beq, ◌==◌,
}
use juju_utils.Common.Bytes.{Bytes, bytes_eq}
use juju_utils.Text.Fields.{split, join}

abbrev pub is_up : Bytes → Bool
is_up e = e == b'.' ∷ b'.' ∷ []

abbrev pub is_skipped : Bytes → Bool
is_skipped e = e == [] || e == b'.' ∷ []

-- No, or only, elements that go up.
unfoldable pub no_up : List Bytes → Bool
no_up [] = true
no_up (e ∷ es) = not (is_up e) && no_up es

unfoldable pub all_up : List Bytes → Bool
all_up [] = true
all_up (e ∷ es) = is_up e && all_up es

unfoldable pub drop_last : List Bytes → List Bytes
drop_last [] = []
drop_last (e ∷ []) = []
drop_last (e ∷ f ∷ es) = e ∷ drop_last (f ∷ es)

abbrev pub is_abs : Bytes → Bool
is_abs [] = false
is_abs (c ∷ s) = nat_beq c b'/'

-- One element more, after those that `Clean` keeps already.
unfoldable pub add : Bool → List Bytes → Bytes → List Bytes
unfolding all_up drop_last
add rooted kept e =
    if is_skipped e
    then kept
    else if not (is_up e)
    then kept ++ e ∷ []
    else if not (all_up kept)
    then drop_last kept
    else if rooted
    then kept
    else kept ++ e ∷ []

unfoldable pub resolve : Bool → List Bytes → List Bytes → List Bytes
unfolding add
resolve rooted kept [] = kept
resolve rooted kept (e ∷ es) = resolve rooted (add rooted kept e) es

-- The elements of a cleaned path.
unfoldable pub elements : Bytes → List Bytes
unfolding resolve split
elements s = resolve (is_abs s) [] (split b'/' s)

unfoldable pub print : Bool → List Bytes → Bytes
unfolding join
print true es = b'/' ∷ join b'/' es
print false [] = b'.' ∷ []
print false (e ∷ es) = join b'/' (e ∷ es)

-- `Clean`.
unfoldable pub clean : Bytes → Bytes
unfolding elements print
clean s = print (is_abs s) (elements s)

-- `Join` of two elements.
unfoldable pub join_paths : Bytes → Bytes → Bytes
unfolding clean
join_paths a b =
    if not (a == []) then clean (a ++ b'/' ∷ b) else if not (b == []) then clean b else []

-- The text up to its last slash.
unfoldable pub up_to_slash : Bytes → Bytes
up_to_slash [] = []
up_to_slash (c ∷ s) =
    let rest = up_to_slash s in if rest == [] && not (nat_beq c b'/') then [] else c ∷ rest

-- `Dir`.
unfoldable pub dir : Bytes → Bytes
unfolding up_to_slash clean
dir s = clean (up_to_slash s)

-- `Rel`, by the elements; `none` is its error.
unfoldable pub rel_elements : List Bytes → List Bytes → Option (List Bytes)
rel_elements [] ts = some ts
rel_elements (b ∷ bs) [] = if is_up b then none else some (map (λ _. b'.' ∷ b'.' ∷ []) (b ∷ bs))
rel_elements (b ∷ bs) (t ∷ ts) =
    let rest = rel_elements bs ts in
    if b == t
    then rest
    else if is_up b
    then none
    else some (map (λ _. b'.' ∷ b'.' ∷ []) (b ∷ bs) ++ t ∷ ts)

abbrev pub printed : Option (List Bytes) → Option Bytes
printed none = none
printed (some es) = some (print false es)

unfoldable pub rel : Bytes → Bytes → Option Bytes
unfolding rel_elements elements print
rel base target =
    if (if is_abs base then is_abs target else not (is_abs target))
    then printed (rel_elements (elements base) (elements target))
    else none
