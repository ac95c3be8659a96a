-- ===== src/Tar/Total.antt =====
-- TarFiles succeeds if no call fails.
use juju_utils.Common.{ℕ, suc, ◌≡◌, refl, none, List, [], ◌∷◌, ◌++◌}
use juju_utils.Common.Bytes.{Bytes}
use juju_utils.Common.Results.{ok}
use juju_utils.Hashing.{Hash}
use juju_utils.FsCopy.{Node, Nodes, file, dir, link, special, end, child}
use juju_utils.Text.Path.{join_paths}
use juju_utils.Text.Base64.{encode}
use juju_utils.Tar.{
  Header, Entry, System, Call, opens, lstats, writes_header, reads, unless_fault, with_value,
  then_stored, copy_file, write_header, opened, write_contents, write_children, write_all,
  write_failed_if, check_close, tar_and_hash, tar_files, trim_prefix,
}

module _ {E : Type 0} (s : System E) (strip : Bytes) where
  module _ (calm : (call : Call) (path : Bytes) → s.fault call path ≡ none)
      (copies : (path : Bytes) → s.copy_error path ≡ none)
      (leads : (path : Bytes) → (led : Bytes) × (s.eval_symlinks path ≡ ok led))
      (describes : (n : Node) (led : Bytes)
        → (h : Header) × (s.file_info_header n led ≡ ok h)) where
    mutual
      unfolding write_contents opened write_header unless_fault with_value copy_file then_stored

      write_contents_succeeds :
          (n : Node) (path : Bytes)
          → (es : List Entry) × (write_contents s strip n path ≡ (none, es))
      write_contents_succeeds (file contents mode) path =
          let (h, described) = describes (file contents mode) [] in
          (
            (record h { name = trim_prefix path strip }, contents) ∷ [],
            rw (calm opens path, calm lstats path, described, calm writes_header path, copies path)
                refl,
          )
      write_contents_succeeds (special mode) path =
          let (h, described) = describes (special mode) [] in
          (
            (record h { name = trim_prefix path strip }, s.device path) ∷ [],
            rw (calm opens path, calm lstats path, described, calm writes_header path, copies path)
                refl,
          )
      write_contents_succeeds (link target) path =
          let (led, leading) = leads path in
          let (h, described) = describes (link target) led in
          (
            (record h { name = trim_prefix path strip }, []) ∷ [],
            rw (calm opens path, calm lstats path, leading, described, calm writes_header path)
                refl,
          )
      write_contents_succeeds (dir mode ns) path =
          let (h, described) = describes (dir mode ns) [] in
          let (es, written) = write_children_succeeds ns path 0 in
          (
            (record h { name = trim_prefix path strip }, []) ∷ es,
            rw (calm opens path, calm lstats path, described, calm writes_header path, written)
                refl,
          )

      write_children_succeeds :
          (ns : Nodes) (path : Bytes) (i : ℕ)
          → (es : List Entry) × (write_children s strip ns path i ≡ (none, es))
      write_children_succeeds end path i = ([], rw (calm (reads i) path) refl)
      write_children_succeeds (child name n rest) path i =
          let (es, here) = write_contents_succeeds n (join_paths path name) in
          let (fs, others) = write_children_succeeds rest path (suc i) in
          (es ++ fs, rw (calm (reads i) path, here, others) refl)

    write_all_succeeds :
        (files : List (Bytes × Node)) → (es : List Entry) × (write_all s strip files ≡ (none, es))
    unfolding write_all write_failed_if then_stored
    write_all_succeeds [] = ([], refl)
    write_all_succeeds ((path, n) ∷ files) =
        let (es, here) = write_contents_succeeds n path in
        let (fs, others) = write_all_succeeds files in (es ++ fs, rw (here, others) refl)

    -- If no call fails, and every link leads to a file and every file can be described, then `TarFiles` stores
    -- any trees, and returns the sum of what it has written.
    pub tar_files_succeeds :
        (hash : Hash) (printed : List Entry → Bytes) (files : List (Bytes × Node))
        → (es : List Entry) × (tar_files s strip hash printed files none
            ≡ (ok (encode (hash.sum (hash.write (printed es) hash.new))), es))
    unfolding tar_files tar_and_hash check_close
    tar_files_succeeds hash printed files =
        let (es, written) = write_all_succeeds files in (es, rw written refl)
