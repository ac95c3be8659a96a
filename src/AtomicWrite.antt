-- ===== src/AtomicWrite.antt =====
-- `AtomicWriteFile` and `AtomicWriteFileAndChange` of file.go. Each call of the operating system is
-- one step, and the other processes see the disk after each step.
pub mod AllOrNothing
use juju_utils.Common.{
  ℕ, Bool, true, false, Option, none, some, List, [], ◌∷◌, if◌then◌else◌, take, map, ◌==◌,
}
use juju_utils.Common.Bytes.{Bytes, bytes_eq}
use juju_utils.Common.Results.{Result, ok, err}

pub record File : Type 0 where
  pub contents : Bytes
  pub perms : ℕ

-- The files by their names.
abbrev pub Disk : Type 0
Disk = Bytes → Option File

abbrev pub put : Bytes → Option File → Disk → Disk
put name file d other = if other == name then file else d other

-- The disk, and the disks that there were before, the last one first.
pub record Shown : Type 0 where
  pub disk : Disk
  pub before : List Disk

abbrev pub becomes : Disk → Shown → Shown
becomes d w = record { disk = d; before = w.disk ∷ w.before }

-- How the calls of the operating system end: the name of the new file, how many bytes are written
-- before an error, and the errors of the rename and of the removal.
pub record Calls (E : Type 0) : Type 0 where
  pub temp_file : Result E Bytes
  pub write_error : Option (ℕ × E)
  pub rename_error : Option E
  pub remove_error : Option E

pub data WriteError (E : Type 0) : Type 0 where
  cannot_create : E → WriteError E
  cannot_write : Bytes → E → WriteError E
  cannot_change : E → WriteError E
  cannot_replace : Bytes → Bytes → E → WriteError E

-- The function that changes the temporary file, given its name. What it does is shown as one step.
abbrev pub Change : Type 0 → Type 0
Change E = Bytes → Disk → Disk × Option E

abbrev pub chmod_file : ℕ → Option File → Option File
chmod_file perms none = none
chmod_file perms (some f) = some (record f { perms = perms })

-- The temporary file with what has been written to it.
abbrev pub hold : Bytes → Bytes → Disk → Disk
hold tmp contents = put tmp (some (record { contents = contents; perms = 0o600 }))

module _ {E : Type 0} where
  -- `ReplaceFile` on unix.
  abbrev pub replace_file : Bytes → Bytes → Option E → Shown → Option (WriteError E) × Shown
  replace_file tmp filename (some e) w = (some (cannot_replace tmp filename e), w)
  replace_file tmp filename none w =
      (none, becomes (put filename (w.disk tmp) (put tmp none w.disk)) w)

  -- After the call of `change`.
  abbrev pub changed :
      Bytes → Bytes → Option E → Disk × Option E → Shown → Option (WriteError E) × Shown
  changed tmp filename rename_error (d, some e) w = (some (cannot_change e), becomes d w)
  changed tmp filename rename_error (d, none) w =
      replace_file tmp filename rename_error (becomes d w)

  -- The write to the temporary file, and what follows it.
  abbrev pub written :
      Change E
      → Bytes
      → Bytes
      → Bytes
      → Option E
      → Option (ℕ × E)
      → Shown
      → Option (WriteError E) × Shown
  written change tmp filename contents rename_error (some (n, e)) w =
      (some (cannot_write filename e), becomes (hold tmp (take n contents) w.disk) w)
  written change tmp filename contents rename_error none w =
      let full = hold tmp contents w.disk in
      changed tmp filename rename_error (change tmp full) (becomes full w)

  -- The deferred removal. Its error is dropped.
  abbrev pub clean_up :
      Bytes → Option E → Option (WriteError E) × Shown → Option (WriteError E) × Shown
  clean_up tmp remove_error (none, w) = (none, w)
  clean_up tmp (some _) (some e, w) = (some e, w)
  clean_up tmp none (some e, w) = (some e, becomes (put tmp none w.disk) w)

  abbrev pub write_to :
      Calls E → Bytes → Bytes → Change E → Result E Bytes → Shown → Option (WriteError E) × Shown
  write_to calls filename contents change (err e) w = (some (cannot_create e), w)
  write_to calls filename contents change (ok tmp) w = clean_up tmp calls.remove_error (
      written change tmp filename contents calls.rename_error calls.write_error
        (becomes (hold tmp [] w.disk) w))

  -- `AtomicWriteFileAndChange`.
  unfoldable pub atomic_write_file_and_change :
      Calls E → Bytes → Bytes → Change E → Disk → Option (WriteError E) × Shown
  atomic_write_file_and_change calls filename contents change d =
      write_to calls filename contents change calls.temp_file (record { disk = d; before = [] })

  -- The change that `AtomicWriteFile` makes: `os.Chmod`.
  abbrev pub chmod : ℕ → Option E → Change E
  chmod perms (some e) tmp d = (d, some e)
  chmod perms none tmp d = (put tmp (chmod_file perms (d tmp)) d, none)

  -- `AtomicWriteFile`.
  unfoldable pub atomic_write_file :
      Calls E → Option E → Bytes → Bytes → ℕ → Disk → Option (WriteError E) × Shown
  unfolding atomic_write_file_and_change
  atomic_write_file calls chmod_error filename contents perms d =
      atomic_write_file_and_change calls filename contents (chmod perms chmod_error) d
