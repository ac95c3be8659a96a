-- ===== src/Symlink.antt =====
-- symlink/symlink.go and symlink/symlink_posix.go. The disk is a function from paths to what stands there, and
-- each call of the operating system that succeeds shows a new disk.
pub mod Replaced
use juju_utils.Common.{
  is_some, ℕ, ◌≡◌, refl, arith, ap, ◌∙◌, sym, Bool, true, false, ◌||◌, Option, none, some,
  some-injective, List, [], ◌∷◌, ◌++◌, if◌then◌else◌, ◌==◌, beq_refl, All, Option-cases, inl, inr,
  ◌⊎◌,
}
use juju_utils.Common.Bytes.{Bytes, bytes_eq, codes}
use juju_utils.Common.Results.{Result, ok, err}
use juju_utils.Text.Path.{dir, join_paths}
use juju_utils.Zip.{after_prefix}

-- A link with its text, or anything else.
pub data Entry : Type 0 where
  link_to : Bytes → Entry
  something : ℕ → Entry

abbrev pub Disk : Type 0
Disk = Bytes → Option Entry

abbrev pub put : Bytes → Option Entry → Disk → Disk
put path entry d other = if other == path then entry else d other

-- The disk, and the disks that there were before, the last one first.
pub record Shown : Type 0 where
  pub disk : Disk
  pub before : List Disk

abbrev pub becomes : Disk → Shown → Shown
becomes d w = record { disk = d; before = w.disk ∷ w.before }

-- How the calls end: the text of the new UUID; whether `os.Stat` finds a file; the errors of the calls; and
-- what a removal that fails has removed.
pub record Calls (E : Type 0) : Type 0 where
  pub uuid : Result E Bytes
  pub stat_ok : Bool
  pub file_exists : E
  pub new_error : Option E
  pub remove_error : Option (E × Disk)
  pub rename_error : Option E

pub data ReplaceError (E : Type 0) : Type 0 where
  failed : E → ReplaceError E
  cannot_create : E → ReplaceError E
  cannot_update : E → ReplaceError E

-- `os.RemoveAll` of a path, with what is below it.
unfoldable pub remove_all : Bytes → Disk → Disk
unfolding after_prefix
remove_all path d other =
    if other == path || is_some (after_prefix (path ++ b'/' ∷ []) other) then none else d other

-- The name of the new link, in the directory of the old one.
abbrev pub tmp_file : Bytes → Bytes → Bytes
tmp_file link uuid = join_paths (dir link) (codes "tmpfile" ++ uuid)

module _ {E : Type 0} where
  -- `New`.
  abbrev pub new : E → Bytes → Bytes → Option E → Option Entry → Shown → Option E × Shown
  new exists target path (some e) there w = (some e, w)
  new exists target path none (some entry) w = (some exists, w)
  new exists target path none none w = (none, becomes (put path (some (link_to target)) w.disk) w)

  -- `os.Rename`.
  abbrev pub renamed : Bytes → Bytes → Option E → Shown → Option (ReplaceError E) × Shown
  renamed tmp link (some e) w = (some (cannot_update e), w)
  renamed tmp link none w = (none, becomes (put link (w.disk tmp) (put tmp none w.disk)) w)

  abbrev pub removed :
      Bytes
      → Option (E × Disk)
      → Shown
      → (Shown → Option (ReplaceError E) × Shown)
      → Option (ReplaceError E) × Shown
  removed link (some (e, d)) w next = (some (failed e), becomes d w)
  removed link none w next = next (becomes (remove_all link w.disk) w)

  -- What follows `os.Stat`.
  abbrev pub after_stat : Bytes → Bytes → Calls E → Bool → Shown → Option (ReplaceError E) × Shown
  after_stat tmp link calls found w =
      if found
      then removed link calls.remove_error w (renamed tmp link calls.rename_error)
      else renamed tmp link calls.rename_error w

  -- What follows `New`.
  abbrev pub made : Bytes → Bytes → Calls E → Option E × Shown → Option (ReplaceError E) × Shown
  made tmp link calls (some e, w) = (some (cannot_create e), w)
  made tmp link calls (none, w) = after_stat tmp link calls calls.stat_ok w

  abbrev pub with_uuid :
      Bytes → Bytes → Calls E → Result E Bytes → Disk → Option (ReplaceError E) × Shown
  with_uuid link newpath calls (err e) d = (some (failed e), record { disk = d; before = [] })
  with_uuid link newpath calls (ok uuid) d =
      let tmp = tmp_file link uuid in
      made tmp link calls (
        new calls.file_exists newpath tmp calls.new_error (d tmp)
          (record { disk = d; before = [] }))

  -- `Replace`, with the disks that other processes see.
  unfoldable pub replace : Bytes → Bytes → Calls E → Disk → Option (ReplaceError E) × Shown
  unfolding remove_all
  replace link newpath calls d = with_uuid link newpath calls calls.uuid d
