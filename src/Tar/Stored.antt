-- ===== src/Tar/Stored.antt =====
-- The entries that are written for a tree.
use juju_utils.Common.{
  Bool, ℕ, ◌≡◌, refl, ap, ap₂, sym, subst, Option, none, some, List, [], ◌∷◌, ◌++◌, append_assoc,
  append-nil, All,
}
use juju_utils.Common.Bytes.{Bytes}
use juju_utils.Common.Results.{Result, ok, err, ◌>>=◌}
use juju_utils.FsCopy.{Node, file, dir, link, special}
use juju_utils.Text.Path.{print}
use juju_utils.Text.Path.Printed.{IsName}
use juju_utils.Tar.{
  Header, Entry, System, TarError, Stored, unless_fault, with_value, then_stored, copy_file,
  write_header, opened, trim_prefix,
}
use juju_utils.Tar.Listing.{Listing, prefixed}

module _ {E : Type 0} where
  -- What a chain that succeeds has come to.
  pub unless_fault_ok :
      (wrap : E → TarError E) (e : Option E) (r : Stored E) {es : List Entry}
      → unless_fault wrap e r ≡ (none, es)
      → r ≡ (none, es)
  unfolding unless_fault
  unless_fault_ok wrap none r h = h
  unless_fault_ok wrap (some e) r h = cc

  pub with_value_ok {ℓ} :
      {A : Type ℓ} (wrap : E → TarError E) (v : Result E A) (next : A → Stored E) {es : List Entry}
      → with_value wrap v next ≡ (none, es)
      → (a : A) × (v ≡ ok a) × (next a ≡ (none, es))
  unfolding with_value
  with_value_ok wrap (ok a) next h = (a, refl, h)
  with_value_ok wrap (err e) next h = absurd (cc)

  pub then_stored_ok :
      (r rest : Stored E) {es : List Entry}
      → then_stored r rest ≡ (none, es)
      → (fs gs : List Entry) × (r ≡ (none, fs)) × (rest ≡ (none, gs)) × (fs ++ gs ≡ es)
  unfolding then_stored
  then_stored_ok (some e, fs) rest h = absurd (cc)
  then_stored_ok (none, fs) (e, gs) h = (
    fs,
    gs,
    refl,
    ap₂ (λ (a : Option (TarError E)) (b : List Entry). (a, b)) (ap (λ (r : Stored E). r.0) h) refl,
    ap (λ (r : Stored E). r.1) h,
  )

  pub copy_file_ok :
      (path : Bytes) (h : Header) (contents : Bytes) (e : Option (ℕ × E)) {es : List Entry}
      → copy_file path h contents e ≡ (none, es)
      → es ≡ (h, contents) ∷ []
  unfolding copy_file
  copy_file_ok path h contents none eq = ap (λ (r : Stored E). r.1) (sym eq)
  copy_file_ok path h contents (some (n, e)) eq = absurd (cc)

  module _ (s : System E) (strip : Bytes) where
    -- How a file is described, and what is read from it.
    abbrev pub header_of : Node → Bytes → Result E Header
    header_of (file contents mode) path = s.file_info_header (file contents mode) []
    header_of (link target) path = s.eval_symlinks path >>= s.file_info_header (link target)
    header_of (special mode) path = s.file_info_header (special mode) []
    header_of (dir mode ns) path = s.file_info_header (dir mode ns) []

    abbrev pub contents_of : Node → Bytes → Bytes
    contents_of (file contents mode) path = contents
    contents_of (link target) path = []
    contents_of (special mode) path = s.device path
    contents_of (dir mode ns) path = []

    -- The entry of the file at a path: its header with the path without the prefix, and what it holds.
    abbrev pub IsEntry : Node → Bytes → Entry → Type 0
    IsEntry n path e =
        (h : Header) × (header_of n path ≡ ok h)
        × (e ≡ (record h { name = trim_prefix path strip }, contents_of n path))

    pub write_header_ok :
        (n : Node) (path target : Bytes) (next : Header → Stored E) {es : List Entry}
        → write_header s strip n path target next ≡ (none, es)
        → (h : Header) × (s.file_info_header n target ≡ ok h)
          × (next (record h { name = trim_prefix path strip }) ≡ (none, es))
    unfolding write_header
    write_header_ok n path target next eq =
        let (h, described, written) = with_value_ok _ (s.file_info_header n target) _ eq in
        (h, described, unless_fault_ok _ _ _ written)

    pub opened_ok :
        (path : Bytes) (r : Stored E) {es : List Entry}
        → opened s strip path r ≡ (none, es)
        → r ≡ (none, es)
    unfolding opened
    opened_ok path r h = unless_fault_ok _ _ _ (unless_fault_ok _ _ _ h)

    module _ (rooted : Bool) where
      -- The entries of the files that are listed below `root`, in this order.
      abbrev pub AreEntries : List Bytes → Listing → List Entry → Type 0
      AreEntries root [] [] = Unit
      AreEntries root [] (e ∷ es) = ⊥
      AreEntries root (l ∷ ls) [] = ⊥
      AreEntries root ((x, n) ∷ ls) (e ∷ es) =
          All IsName x × IsEntry n (print rooted (root ++ x)) e × AreEntries root ls es

      pub AreEntries-append :
          (root : List Bytes) (ls ms : Listing) (es fs : List Entry)
          → AreEntries root ls es
          → AreEntries root ms fs
          → AreEntries root (ls ++ ms) (es ++ fs)
      AreEntries-append root [] ms [] fs h hs = hs
      AreEntries-append root [] ms (e ∷ es) fs h hs = absurd h
      AreEntries-append root (l ∷ ls) ms [] fs h hs = absurd h
      AreEntries-append root ((x, n) ∷ ls) ms (e ∷ es) fs h hs =
          (h.0, h.1, AreEntries-append root ls ms es fs h.2 hs)

      pub AreEntries-prefixed :
          (root : List Bytes) (name : Bytes) (ls : Listing) (es : List Entry)
          → IsName name
          → AreEntries (root ++ name ∷ []) ls es
          → AreEntries root (prefixed name ls) es
      AreEntries-prefixed root name [] [] named h = tt
      AreEntries-prefixed root name [] (e ∷ es) named h = absurd h
      AreEntries-prefixed root name (l ∷ ls) [] named h = absurd h
      AreEntries-prefixed root name ((x, n) ∷ ls) (e ∷ es) named h = (
        (named, h.0),
        subst (λ (p : List Bytes). IsEntry n (print rooted p) e) (append_assoc root (name ∷ []) x)
            h.1,
        AreEntries-prefixed root name ls es named h.2,
      )

      -- The entry of the root itself, with those of what is below it.
      pub AreEntries-root :
          (root : List Bytes) (n : Node) (ls : Listing) (e : Entry) (es : List Entry)
          → IsEntry n (print rooted root) e
          → AreEntries root ls es
          → AreEntries root (([], n) ∷ ls) (e ∷ es)
      AreEntries-root root n ls e es h hs = (
        tt,
        subst (λ (p : List Bytes). IsEntry n (print rooted p) e) (sym (append-nil root)) h,
        hs,
      )
