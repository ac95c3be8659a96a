-- ===== src/Examples/Links.antt =====
-- Replaced links at concrete inputs.
use juju_utils.Common.{ℕ, ◌≡◌, refl, true, Option, none, some, ◌==◌, if◌then◌else◌}
use juju_utils.Common.Bytes.{bytes_eq, codes}
use juju_utils.Common.Results.{ok}
use juju_utils.Text.Path.{dir, join_paths}
use juju_utils.Zip.{after_prefix}
use juju_utils.Symlink.{
  Entry, link_to, Disk, Shown, Calls, ReplaceError, cannot_update, replace, remove_all,
}
use juju_utils.Symlink.Replaced.{ShowsOldOrNew, replace-ShowsOldOrNew}

abbrev before : Disk
before path = if path == codes "/t/tools" then some (link_to (codes "/old")) else none

-- The rename fails.
abbrev no_rename : Calls ℕ
no_rename = record {
  uuid = ok (codes "1");
  stat_ok = true;
  file_exists = 17;
  new_error = none;
  remove_error = none;
  rename_error = some 5;
}

replace-ShowsOldOrNew_example :
    ShowsOldOrNew true
      (some (link_to (codes "/old")))
      (codes "/new")
      (codes "/t/tools")
      (replace (codes "/t/tools") (codes "/new") no_rename before).1
unfolding dir join_paths after_prefix
replace-ShowsOldOrNew_example =
    replace-ShowsOldOrNew (codes "/t/tools") (codes "/new") (codes "1") no_rename before refl refl
      refl refl

-- Then the old link is lost, and the new one stays under another name.
abbrev seen :
    Option (ReplaceError ℕ) × Shown → Option (ReplaceError ℕ) × Option Entry × Option Entry
seen (e, w) = (e, w.disk (codes "/t/tools"), w.disk (codes "/t/tmpfile1"))

link_lost :
    seen (replace (codes "/t/tools") (codes "/new") no_rename before)
    ≡ (some (cannot_update 5), none, some (link_to (codes "/new")))
unfolding replace remove_all dir join_paths after_prefix
link_lost = refl
