-- ===== src/Examples/Zips.antt =====
-- Archives at concrete inputs.
use juju_utils.Common.{◌==◌, ℕ, ◌≡◌, refl, false, none, some, List, [], ◌∷◌, All, inl}
use juju_utils.Common.Bytes.{bytes_eq, codes}
use juju_utils.Common.Results.{err}
use juju_utils.Text.Fields.{split, join}
use juju_utils.Text.Path.{
  add, all_up, drop_last, resolve, elements, print, clean, join_paths, dir, up_to_slash, rel,
  rel_elements,
}
use juju_utils.Zip.{
  File, directory, symlink, regular, is_sane_path, after_prefix, target_path, Made, makes_dir,
  makes_link, makes_file, out_of_scope, check_symlink, make, extract_files, extract, source_of,
}
use juju_utils.Zip.Contained.{IsContained, extract-IsContained}

abbrev archive : List (File ℕ)
archive =
    record {
      name = codes "charm/";
      kind = directory;
      perm = 0o755;
      contents = [];
      read_error = none;
    }
    ∷ record {
      name = codes "charm/hooks/../run";
      kind = regular;
      perm = 0o700;
      contents = codes "x";
      read_error = none;
    }
    ∷ record {
      name = codes "charm/lib/link";
      kind = symlink;
      perm = 0o777;
      contents = codes "../run";
      read_error = none;
    }
    ∷ record {
      name = codes "other";
      kind = regular;
      perm = 0o600;
      contents = [];
      read_error = none;
    }
    ∷ []

abbrev made : List Made
made =
    makes_dir (codes "/tmp/t") 0o755
    ∷ makes_file (codes "/tmp/t/run") (codes "x") 0o700
    ∷ makes_link (codes "/tmp/t/lib/link") (codes "../run")
    ∷ []

archive_extracted : extract archive (codes "/tmp/t") (codes "charm") ≡ (made, none)
unfolding extract extract_files target_path make check_symlink clean elements resolve add all_up
    drop_last print split join join_paths dir up_to_slash rel rel_elements is_sane_path after_prefix
archive_extracted = refl

charm_named : (source_of (clean (codes "charm")) == []) ≡ false
unfolding clean elements resolve add all_up drop_last print split join
charm_named = refl

extract-IsContained_example :
    All (IsContained (codes "/tmp/t")) (extract archive (codes "/tmp/t") (codes "charm")).0
extract-IsContained_example =
    extract-IsContained archive (codes "/tmp/t") (codes "charm") refl
      (inl charm_named, (inl charm_named, (inl charm_named, (inl charm_named, tt))))

-- With no source root, a name that leads up is extracted to a path outside the target root.
name_leads_out :
    target_path (record { target_root = codes "/tmp/t"; source_root = [] }) (codes "../x")
    ≡ some (codes "/tmp/x")
unfolding target_path clean elements resolve add all_up drop_last print split join join_paths
name_leads_out = refl

-- A link that leads out is refused.
link_refused :
    check_symlink {E = ℕ}
      (record { target_root = codes "/tmp/t"; source_root = [] })
      (codes "/tmp/t/a")
      (codes "../b")
      none
    ≡ err (out_of_scope (codes "../b"))
unfolding check_symlink clean elements resolve add all_up drop_last print split join join_paths dir
    up_to_slash rel rel_elements is_sane_path after_prefix
link_refused = refl
