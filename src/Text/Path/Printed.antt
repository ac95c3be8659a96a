-- ===== src/Text/Path/Printed.antt =====
-- The paths of files: texts of names, which are printed with slashes.
use juju_utils.Common.{
  ◌≡◌, ◌≢◌, refl, arith, ap, sym, ◌∙◌, Bool, true, false, List, [], ◌∷◌, ◌++◌, All, ◌==◌,
  append_assoc, append-nil,
}
use juju_utils.Common.Bytes.{Bytes, bytes_eq}
use juju_utils.Text.Fields.{split, split-join, join}
use juju_utils.Text.Path.{
  is_up, is_skipped, is_abs, add, resolve, elements, print, clean, join_paths,
}
use juju_utils.Text.Path.Under.{is_abs-append, resolve-append, split-slash}

-- The name of a file in a directory.
abbrev pub IsName : Bytes → Type 0
IsName e = All (λ c. c ≢ b'/') e × (is_skipped e ≡ false) × (is_up e ≡ false)

names-lack : (es : List Bytes) → All IsName es → All (λ t. All (λ c. c ≢ b'/') t) es
names-lack [] h = tt
names-lack (e ∷ es) h = (h.0.0, names-lack es h.1)

resolve-names :
    (rooted : Bool) (kept es : List Bytes) → All IsName es → resolve rooted kept es ≡ kept ++ es
unfolding resolve add
resolve-names rooted kept [] h = sym (append-nil kept)
resolve-names rooted kept (e ∷ es) h =
    rw (h.0.1, h.0.2) (resolve-names rooted (kept ++ e ∷ []) es h.1 ∙ append_assoc kept (e ∷ []) es)

-- Texts of at least one name.
is_abs-join : (e : Bytes) (es : List Bytes) → IsName e → is_abs (join b'/' (e ∷ es)) ≡ false
unfolding join
is_abs-join [] es h = absurd (ground (arith, h.1))
is_abs-join (c ∷ e) [] h = ground (arith, h.0.0)
is_abs-join (c ∷ e) (f ∷ es) h = ground (arith, h.0.0)

pub is_abs-print :
    (rooted : Bool) (es : List Bytes) → All IsName es → is_abs (print rooted es) ≡ rooted
unfolding print
is_abs-print true es h = refl
is_abs-print false [] h = ground arith
is_abs-print false (e ∷ es) h = is_abs-join e es h.0

split-print :
    (rooted : Bool) (es : List Bytes)
    → All IsName es
    → resolve rooted [] (split b'/' (print rooted es)) ≡ es
unfolding print split resolve add
split-print true [] h = refl
split-print true (e ∷ es) h =
    rw (split-join b'/' e es (names-lack (e ∷ es) h)) (resolve-names true [] (e ∷ es) h)
split-print false [] h = refl
split-print false (e ∷ es) h =
    rw (split-join b'/' e es (names-lack (e ∷ es) h)) (resolve-names false [] (e ∷ es) h)

pub elements-print :
    (rooted : Bool) (es : List Bytes) → All IsName es → elements (print rooted es) ≡ es
unfolding elements
elements-print rooted es h = rw (is_abs-print rooted es h) (split-print rooted es h)

print-not_empty :
    (rooted : Bool) (es : List Bytes) → All IsName es → (print rooted es == []) ≡ false
unfolding print join
print-not_empty true es h = refl
print-not_empty false [] h = refl
print-not_empty false ([] ∷ es) h = absurd (ground (arith, h.0.1))
print-not_empty false ((c ∷ e) ∷ []) h = refl
print-not_empty false ((c ∷ e) ∷ f ∷ es) h = refl

split-name : (name : Bytes) → IsName name → split b'/' name ≡ name ∷ []
unfolding join
split-name name h = split-join b'/' name [] (h.0, tt)

pub join_paths-print :
    (rooted : Bool) (es : List Bytes) (name : Bytes)
    → All IsName es
    → IsName name
    → join_paths (print rooted es) name ≡ print rooted (es ++ name ∷ [])
unfolding join_paths clean elements
join_paths-print rooted es name h hn =
    rw
      (
        print-not_empty rooted es h,
        is_abs-append (print rooted es) (b'/' ∷ name) (print-not_empty rooted es h),
        is_abs-print rooted es h,
        split-slash (print rooted es) name,
        resolve-append rooted [] (split b'/' (print rooted es)) (split b'/' name),
        split-print rooted es h,
        split-name name hn,
        resolve-names rooted es (name ∷ []) (hn, tt),
      )
      refl

-- The rest of a longer text.
join-append :
    (e : Bytes) (es fs : List Bytes)
    → (s : Bytes) × (join b'/' ((e ∷ es) ++ fs) ≡ join b'/' (e ∷ es) ++ s)
unfolding join
join-append e [] [] = ([], sym (append-nil e))
join-append e [] (f ∷ fs) = (b'/' ∷ join b'/' (f ∷ fs), refl)
join-append e (f ∷ es) fs =
    let (s, h) = join-append f es fs in
    (s, rw h (sym (append_assoc e (b'/' ∷ join b'/' (f ∷ es)) s)))

pub print-append :
    (rooted : Bool) (es fs : List Bytes)
    → (print rooted es == b'.' ∷ []) ≡ false
    → (s : Bytes) × (print rooted (es ++ fs) ≡ print rooted es ++ s)
unfolding print
print-append true [] fs h = (join b'/' fs, refl)
print-append true (e ∷ es) fs h =
    let (s, j) = join-append e es fs in (s, ap (λ (t : Bytes). b'/' ∷ t) j)
print-append false [] fs h = absurd (ground arith)
print-append false (e ∷ es) fs h = join-append e es fs
