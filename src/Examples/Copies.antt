-- ===== src/Examples/Copies.antt =====
-- Copies at concrete inputs.
use juju_utils.Common.{ℕ, ◌≡◌, refl, Option, none, some, []}
use juju_utils.Common.Bytes.{bytes_eq, codes}
use juju_utils.FsCopy.{
  Node, file, dir, link, end, child, System, will_not_overwrite, copy, start, unless_fault,
  unless_there, unless_unread, copy_dir, copy_file, copy_link, copy_data, close_dir, accessible,
}
use juju_utils.FsCopy.Complete.{whole, copy-whole}
use juju_utils.FsCopy.Succeeds.{IsCopyable, copy_complete}

abbrev fault_free : System ℕ
fault_free = record { fault = λ call path. none; copy_error = λ path. none; umask = λ mode. mode }

abbrev project : Node
project = dir 0o755 (
    child (codes "README") (file (codes "hi") 0o644)
      (child (codes "src") (dir 0o700 (child (codes "main") (link (codes "../README")) end)) end))

copied_project : copy fault_free project [] none ≡ (none, some project)
unfolding copy start unless_fault unless_there unless_unread copy_dir copy_file copy_link copy_data
    close_dir accessible
copied_project = refl

copy_complete_example : copy fault_free project [] none ≡ (none, some (whole project))
unfolding IsCopyable
copy_complete_example =
    copy_complete fault_free (λ call path. refl) (λ path. refl) project []
      (tt, refl, ((tt, refl, tt), refl, tt))

copy-whole_example : (◌≡◌ {A = Option Node} none none) × (some project ≡ some (whole project))
copy-whole_example = copy-whole fault_free project [] none (some project) copied_project

-- A directory that its owner may neither read nor enter is copied with another mode.
mode_changed : copy fault_free (dir 0o070 end) [] none ≡ (none, some (dir 0o570 end))
unfolding copy start unless_fault unless_there unless_unread copy_dir close_dir accessible
mode_changed = refl

kept : copy fault_free project [] (some project) ≡ (some (will_not_overwrite []), some project)
unfolding copy start unless_fault unless_there
kept = refl
