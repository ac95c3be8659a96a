-- ===== src/Examples/Tars.antt =====
-- Archives at concrete inputs.
use juju_utils.Common.{All, map, ℕ, ◌≡◌, refl, arith, true, none, some, List, [], ◌∷◌}
use juju_utils.Common.Bytes.{Bytes, bytes_eq, codes}
use juju_utils.Common.Results.{Result, ok, err}
use juju_utils.FsCopy.{Node, file, dir, link, special, end, child}
use juju_utils.Text.Base64.{encode}
use juju_utils.Text.Fields.{split, join}
use juju_utils.Text.Path.{no_up, join_paths, print}
use juju_utils.Text.Path.Printed.{IsName}
use juju_utils.Examples.Hashes.{counting}
use juju_utils.Tar.{
  Header, regular, directory, symlink, Entry, System, tar_files, tar_and_hash, write_all,
  write_contents, write_header, opened, unless_fault, with_value, then_stored, copy_file,
  check_close, write_failed_if, trim_prefix,
}
use juju_utils.Tar.Listing.{at, IsNamed}
use juju_utils.Tar.Found.{Finds, find_file-tar_files}
use juju_utils.Tar.Reading.{
  makes_dir, make_missing, mkdir_all, find_file, creates, writes, changes_mode, Disk, untar_files,
  extract_entry, create_and_fill, done, filled, then_extracted, wrap_error,
}
use juju_utils.Tar.Reading.Contained.{IsContained, untar_files-IsContained}
use juju_utils.Text.Path.Parents.{parents}

abbrev info_header : Node → Bytes → Result ℕ Header
info_header (file contents mode) led =
    ok (record { name = []; mode = mode; typeflag = regular; link_name = [] })
info_header (dir mode ns) led =
    ok (record { name = []; mode = mode; typeflag = directory; link_name = [] })
info_header (link target) led =
    ok (record { name = []; mode = 0o777; typeflag = symlink; link_name = led })
info_header (special mode) led = err 1

abbrev calm : System ℕ
calm = record {
  fault = λ call path. none;
  copy_error = λ path. none;
  device = λ path. [];
  eval_symlinks = λ path. ok (codes "/d/a");
  file_info_header = info_header;
}

abbrev small : Node
small =
    dir 0o755
      (child (codes "a") (file (codes "hi") 0o644) (child (codes "l") (link (codes "a")) end))

abbrev small_entries : List Entry
small_entries =
    (record { name = codes "d"; mode = 0o755; typeflag = directory; link_name = [] }, [])
    ∷ (record { name = codes "d/a"; mode = 0o644; typeflag = regular; link_name = [] }, codes "hi")
    ∷ (
      record { name = codes "d/l"; mode = 0o777; typeflag = symlink; link_name = codes "/d/a" },
      [],
    )
    ∷ []

small_stored :
    tar_files calm (codes "/") counting (λ es. []) ((codes "/d", small) ∷ []) none
    ≡ (ok (encode (0 ∷ [])), small_entries)
unfolding tar_files tar_and_hash write_all write_contents write_header opened unless_fault
    with_value then_stored copy_file check_close write_failed_if trim_prefix join_paths
small_stored = refl

a-IsName : IsName (codes "a")
a-IsName = ((ground arith, tt), refl, refl)

l-IsName : IsName (codes "l")
l-IsName = ((ground arith, tt), refl, refl)

d-IsName : IsName (codes "d")
d-IsName = ((ground arith, tt), refl, refl)

find_file-tar_files_example :
    Finds calm
      (codes "/")
      true
      (some (file (codes "hi") 0o644))
      (codes "/d/a")
      (find_file small_entries none (codes "d/a"))
unfolding at IsNamed print join trim_prefix
find_file-tar_files_example =
    find_file-tar_files calm (codes "/") true counting (λ es. []) (codes "d" ∷ []) (codes "d") small
      none (codes "a" ∷ []) (d-IsName, tt) refl refl (a-IsName, refl, tt, (l-IsName, refl, tt, tt))
      (a-IsName, tt) small_stored

abbrev no_fault : Disk ℕ
no_fault = record { fault = λ c. none; copy_error = λ path. none; missing = λ left path. true }

untar_files-IsContained_example :
    All (IsContained (codes "/out")) (untar_files no_fault small_entries none (codes "/out")).1
unfolding no_up split
untar_files-IsContained_example =
    untar_files-IsContained no_fault small_entries none (codes "/out") refl
      (refl, (refl, (refl, tt)))

-- A directory with the missing ones on the way to it.
deep_directory :
    (untar_files no_fault
      ((record { name = codes "a/b"; mode = 0o755; typeflag = directory; link_name = [] }, []) ∷ [])
      none
      (codes "/out")).1
    ≡ makes_dir (codes "/out") 0o755
      ∷ makes_dir (codes "/out/a") 0o755
      ∷ makes_dir (codes "/out/a/b") 0o755
      ∷ []
unfolding untar_files extract_entry mkdir_all make_missing done then_extracted join_paths parents
deep_directory = refl

-- A name that leads up is followed out of the folder.
abbrev escaping : Entry
escaping =
    (record { name = codes "../x"; mode = 0o644; typeflag = regular; link_name = [] }, codes "hi")

escapes : untar_files no_fault (escaping ∷ []) none (codes "/out") ≡ (
  none,
  creates (codes "/x") ∷ writes (codes "/x") (codes "hi") ∷ changes_mode (codes "/x") 0o644 ∷ [],
)
unfolding untar_files extract_entry create_and_fill done filled then_extracted wrap_error join_paths
escapes = refl

-- With the prefix `.`, two files of the directory `.` are stored under one name.
abbrev two_dots : Node
two_dots =
    dir 0o755
      (child (codes "x") (file (codes "1") 0o644) (child (codes ".x") (file (codes "2") 0o644) end))

one_name :
    map
      (λ (e : Entry). e.0.name)
      (tar_files calm (codes ".") counting (λ es. []) ((codes ".", two_dots) ∷ []) none).1
    ≡ [] ∷ codes "x" ∷ codes "x" ∷ []
unfolding tar_files tar_and_hash write_all write_contents write_header opened unless_fault
    with_value then_stored copy_file check_close write_failed_if trim_prefix join_paths
one_name = refl
