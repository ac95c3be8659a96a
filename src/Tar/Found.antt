-- ===== src/Tar/Found.antt =====
-- What FindFile finds in the archive that TarFiles writes for a tree.
use juju_utils.Common.{
  append_assoc, ◌≡◌, refl, arith, ap, sym, ◌∙◌, subst, Bool, true, false, Option, none, some, List,
  [], ◌∷◌, ◌++◌, All, All-append, ◌==◌, Bool-cases, inl, inr,
}
use juju_utils.Common.Bytes.{bytes_beq, Bytes, bytes_eq, bytes_beq_iff}
use juju_utils.Common.Results.{Result, ok, err}
use juju_utils.FsCopy.{Node}
use juju_utils.Text.Path.{print, elements}
use juju_utils.Text.Path.Printed.{IsName, elements-print, print-append}
use juju_utils.Tar.{Entry, System, trim_prefix}
use juju_utils.Tar.Listing.{
  Listing, listing, IsNamed, lookup, lookup-listing, at, same_path, same_path_iff,
}
use juju_utils.Tar.Stored.{IsEntry, AreEntries}
use juju_utils.Tar.Reading.{FindError, not_found, find_file}
use juju_utils.Tar.{tar_files}
use juju_utils.Hashing.{Hash}
use juju_utils.Zip.{after_prefix}
use juju_utils.Zip.{after_prefix}
use juju_utils.Tar.Succeeds.{tar_files_ok, write_contents_ok}

after_prefix-append : (p s : Bytes) → after_prefix p (p ++ s) ≡ some s
unfolding after_prefix
after_prefix-append [] s = refl
after_prefix-append (c ∷ p) s = ground (arith, after_prefix-append p s)

trim_prefix-append : (p s : Bytes) → trim_prefix (p ++ s) p ≡ s
unfolding trim_prefix
trim_prefix-append p s = rw (after_prefix-append p s) refl

append-injective : (es : List Bytes) {fs gs : List Bytes} → es ++ fs ≡ es ++ gs → fs ≡ gs
append-injective [] h = h
append-injective (e ∷ es) h = append-injective es (ground arith)

module _ {E : Type 0} (s : System E) (strip : Bytes) (rooted : Bool) where
  -- What FindFile is to find: the entry of the file, if there is one.
  abbrev pub Finds : Option Node → Bytes → Result (FindError E) Entry → Type 0
  Finds none path r = r ≡ err (not_found (trim_prefix path strip))
  Finds (some n) path r = (e : Entry) × IsEntry s strip n path e × (r ≡ ok e)

  module _ (root : List Bytes) (hr : All IsName root)
      (dot : (print rooted root == b'.' ∷ []) ≡ false) (below : Bytes)
      (at_strip : print rooted root ≡ strip ++ below) where
    -- The prefix stands before each path, so names are different where paths are.
    under_strip : (x : List Bytes) → (y : Bytes) × (print rooted (root ++ x) ≡ strip ++ y)
    under_strip x =
        let (t, h) = print-append rooted root x dot in
        (below ++ t, h ∙ ap (λ (p : Bytes). p ++ t) at_strip ∙ append_assoc strip below t)

    names_differ :
        (x y : List Bytes)
        → All IsName x
        → All IsName y
        → trim_prefix (print rooted (root ++ x)) strip
          ≡ trim_prefix (print rooted (root ++ y)) strip
        → x ≡ y
    names_differ x y hx hy same =
        let (t, ht) = under_strip x in
        let (u, hu) = under_strip y in
        let rests : t ≡ u =
          sym (trim_prefix-append strip t)
          ∙ rw (sym ht, sym hu) same
          ∙ trim_prefix-append strip u in
        let paths : print rooted (root ++ x) ≡ print rooted (root ++ y) = ht ∙ rw rests (sym hu) in
        append-injective root (
          sym (elements-print rooted (root ++ x) (All-append IsName root x hr hx))
          ∙ ap elements paths
          ∙ elements-print rooted (root ++ y) (All-append IsName root y hr hy))

    differ :
        (x y : List Bytes) (name : Bytes)
        → name ≡ trim_prefix (print rooted (root ++ y)) strip
        → All IsName x
        → All IsName y
        → name ≡ trim_prefix (print rooted (root ++ x)) strip
        → same_path y x ≡ false
        → ⊥
    differ x y name hn hx hy found other =
        let same : same_path y x ≡ true =
          (same_path_iff y x).1 (names_differ y x hy hx (sym hn ∙ found)) in
        ground arith

    find_file-AreEntries :
        (x : List Bytes) (ls : Listing) (es : List Entry)
        → All IsName x
        → AreEntries s strip rooted root ls es
        → Finds
            (lookup x ls)
            (print rooted (root ++ x))
            (find_file es none (trim_prefix (print rooted (root ++ x)) strip))
    unfolding find_file
    find_file-AreEntries x [] [] hx h = refl
    find_file-AreEntries x [] (e ∷ es) hx h = absurd h
    find_file-AreEntries x (l ∷ ls) [] hx h = absurd h
    find_file-AreEntries x ((y, n) ∷ ls) (e ∷ es) hx h =
        let (header, described, entry) = h.1 in
        let named : e.0.name ≡ trim_prefix (print rooted (root ++ y)) strip =
          ap (λ (e : Entry). e.0.name) entry in
        elim (Bool-cases (same_path y x)) [
          | inl here ↦
              let same : y ≡ x = (same_path_iff y x).0 here in
              let found : (e.0.name == trim_prefix (print rooted (root ++ x)) strip) ≡ true =
                (bytes_beq_iff _ _).1 (
                  named
                  ∙ ap (λ (p : List Bytes). trim_prefix (print rooted (root ++ p)) strip) same) in
              rw (here, found)
                (
                  e,
                  subst (λ (p : List Bytes). IsEntry s strip n (print rooted (root ++ p)) e) same
                      h.1,
                  refl,
                )
          | inr other ↦
              let passed : (e.0.name == trim_prefix (print rooted (root ++ x)) strip) ≡ false =
                elim (Bool-cases
                  (bytes_beq e.0.name (trim_prefix (print rooted (root ++ x)) strip))) [
                    | inl found ↦
                        absurd
                          (differ x y e.0.name named hx h.0 ((bytes_beq_iff _ _).0 found) other)
                    | inr passed ↦ passed
                  ] in
              rw (other, passed) (find_file-AreEntries x ls es hx h.2)
        ]

  -- If `TarFiles` returns a sum for a tree whose directories hold proper names, none of them twice, then
  -- `FindFile` finds in the archive just the files of the tree: under the path of each, without the prefix, the
  -- entry that describes it, with its data; and under a path of the tree where no file stands, nothing. The
  -- path of the root is a clean one that is not the dot, and begins with the prefix.
  pub find_file-tar_files :
      (hash : Hash) (printed : List Entry → Bytes) (root : List Bytes) (below : Bytes) (n : Node)
      (close_error : Option E) (x : List Bytes) {sum : Bytes} {es : List Entry}
      → All IsName root
      → (print rooted root == b'.' ∷ []) ≡ false
      → print rooted root ≡ strip ++ below
      → IsNamed n
      → All IsName x
      → tar_files s strip hash printed ((print rooted root, n) ∷ []) close_error ≡ (ok sum, es)
      → Finds
          (at x n)
          (print rooted (root ++ x))
          (find_file es none (trim_prefix (print rooted (root ++ x)) strip))
  find_file-tar_files hash printed root below n close_error x {es = es} hr dot at_strip hn hx
        stored =
      rw (sym (lookup-listing x n hn)) (
        find_file-AreEntries root hr dot below at_strip x (listing n) es hx (
          write_contents_ok s strip rooted root n hr hn
            (tar_files_ok s strip rooted hash printed n (print rooted root) close_error stored)))
