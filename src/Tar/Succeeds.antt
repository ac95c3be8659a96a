-- ===== src/Tar/Succeeds.antt =====
-- What TarFiles has written when it succeeds.
use juju_utils.Common.{
  ℕ, suc, ◌≡◌, refl, ap, sym, ◌∙◌, Bool, Option, none, some, List, [], ◌∷◌, ◌++◌, append-nil, All,
  All-append,
}
use juju_utils.Common.Bytes.{Bytes, bytes_eq}
use juju_utils.Common.Results.{ok}
use juju_utils.FsCopy.{Node, Nodes, file, dir, link, special, end, child}
use juju_utils.Text.Path.{print}
use juju_utils.Text.Path.Printed.{IsName, join_paths-print}
use juju_utils.Tar.{
  Header, Entry, System, Stored, copy_file, write_header, write_contents, write_children,
  trim_prefix,
}
use juju_utils.Tar.Listing.{prefixed, listing, listing_nodes, IsNamed, AreNamed}
use juju_utils.Tar.Stored.{
  AreEntries, AreEntries-append, AreEntries-prefixed, AreEntries-root, unless_fault_ok,
  with_value_ok, then_stored_ok, copy_file_ok, write_header_ok, opened_ok,
}
use juju_utils.Tar.{tar_files, tar_and_hash, summed, check_close, write_all, write_failed_if}
use juju_utils.Hashing.{Hash}

module _ {E : Type 0} (s : System E) (strip : Bytes) (rooted : Bool) where
  -- A header and the data after it.
  copied_ok :
      (n : Node) (path contents : Bytes) {es : List Entry}
      → write_header s strip n path [] (λ h. copy_file path h contents (s.copy_error path))
        ≡ (none, es)
      → (h : Header) × (s.file_info_header n [] ≡ ok h)
        × (es ≡ (record h { name = trim_prefix path strip }, contents) ∷ [])
  copied_ok n path contents eq =
      let (h, described, written) = write_header_ok s strip n path [] _ eq in
      (h, described, copy_file_ok path _ contents _ written)

  write_failed_ok :
      (r : Stored E) {es : List Entry} → write_failed_if r ≡ (none, es) → r ≡ (none, es)
  unfolding write_failed_if
  write_failed_ok (none, es) h = h
  write_failed_ok (some e, es) h = absurd (cc)

  check_close_ok :
      (close_error : Option E) (r : Stored E) {es : List Entry}
      → check_close s strip close_error r ≡ (none, es)
      → r ≡ (none, es)
  unfolding check_close
  check_close_ok none (none, es) h = h
  check_close_ok (some e) (none, es) h = absurd (cc)
  check_close_ok none (some e, es) h = h
  check_close_ok (some d) (some e, es) h = h

  summed_ok :
      (hash : Hash) (printed : List Entry → Bytes) (r : Stored E) {sum : Bytes} {es : List Entry}
      → summed s strip hash printed r ≡ (ok sum, es)
      → r ≡ (none, es)
  summed_ok hash printed (none, es) h = cc
  summed_ok hash printed (some e, es) h = absurd (cc)

  -- A sum is returned for all of the entries.
  pub tar_files_ok :
      (hash : Hash) (printed : List Entry → Bytes) (n : Node) (path : Bytes)
      (close_error : Option E) {sum : Bytes} {es : List Entry}
      → tar_files s strip hash printed ((path, n) ∷ []) close_error ≡ (ok sum, es)
      → write_contents s strip n path ≡ (none, es)
  unfolding tar_files tar_and_hash write_all
  tar_files_ok hash printed n path close_error h =
      let (fs, gs, first, rest, whole) =
        then_stored_ok _ _ (check_close_ok close_error _ (summed_ok hash printed _ h)) in
      let nothing : [] ≡ gs = ap (λ (r : Stored E). r.1) rest in
      write_failed_ok (write_contents s strip n path) first
      ∙ ap (λ (es : List Entry). (none, es)) (sym (append-nil fs) ∙ rw nothing whole)

  mutual
    unfolding write_contents listing IsNamed

    pub write_contents_ok :
        (root : List Bytes) (n : Node) {es : List Entry}
        → All IsName root
        → IsNamed n
        → write_contents s strip n (print rooted root) ≡ (none, es)
        → AreEntries s strip rooted root (listing n) es
    write_contents_ok root (file contents mode) hr hn eq =
        let path = print rooted root in
        let (h, described, written) =
          copied_ok (file contents mode) path contents (opened_ok s strip path _ eq) in
        rw written
          (AreEntries-root s strip rooted root (file contents mode) [] _ [] (h, described, refl) tt)
    write_contents_ok root (special mode) hr hn eq =
        let path = print rooted root in
        let (h, described, written) =
          copied_ok (special mode) path (s.device path) (opened_ok s strip path _ eq) in
        rw written
          (AreEntries-root s strip rooted root (special mode) [] _ [] (h, described, refl) tt)
    write_contents_ok root (link target) hr hn eq =
        let path = print rooted root in
        let (led, evaluated, stored) =
          with_value_ok _ (s.eval_symlinks path) _ (opened_ok s strip path _ eq) in
        let (h, described, written) = write_header_ok s strip (link target) path led _ stored in
        rw (sym (ap (λ (r : Stored E). r.1) written)) (
          AreEntries-root s strip rooted root (link target) [] _ []
            (h, rw evaluated described, refl) tt)
    write_contents_ok root (dir mode ns) hr hn eq =
        let path = print rooted root in
        let (h, described, stored) =
          write_header_ok s strip (dir mode ns) path [] _ (opened_ok s strip path _ eq) in
        let (fs, gs, first, rest, whole) = then_stored_ok _ _ stored in
        rw (sym whole, sym (ap (λ (r : Stored E). r.1) first))
          (AreEntries-root s strip rooted root (dir mode ns) (listing_nodes ns) _ gs
            (h, described, refl) (write_children_ok root ns 0 hr hn rest))

    write_children_ok :
        (root : List Bytes) (ns : Nodes) (i : ℕ) {es : List Entry}
        → All IsName root
        → AreNamed ns
        → write_children s strip ns (print rooted root) i ≡ (none, es)
        → AreEntries s strip rooted root (listing_nodes ns) es
    write_children_ok root end i hr hn eq =
        rw (sym (ap (λ (r : Stored E). r.1) (unless_fault_ok _ _ _ eq))) tt
    write_children_ok root (child name n rest) i hr hn eq =
        let (fs, gs, here, others, whole) = then_stored_ok _ _ (unless_fault_ok _ _ _ eq) in
        rw (sym whole) (
          AreEntries-append s strip rooted root (prefixed name (listing n)) (listing_nodes rest) fs
            gs
            (AreEntries-prefixed s strip rooted root name (listing n) fs hn.0 (
              write_contents_ok (root ++ name ∷ []) n
                (All-append IsName root (name ∷ []) hr (hn.0, tt)) hn.2
                (ap (write_contents s strip n) (sym (join_paths-print rooted root name hr hn.0))
                  ∙ here)))
            (write_children_ok root rest (suc i) hr hn.3 others))
