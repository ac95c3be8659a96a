-- ===== src/AtomicWrite/AllOrNothing.antt =====
-- Nobody sees a part of a file that `AtomicWriteFile` writes, and an error changes nothing.
use juju_utils.Common.{
  ℕ, ◌≡◌, ◌⊎◌, inl, inr, refl, arith, false, Option, none, some, [], ◌∷◌, ◌==◌, beq_refl, All,
}
use juju_utils.Common.Bytes.{Bytes, bytes_eq}
use juju_utils.Common.Results.{Result, ok, err}
use juju_utils.AtomicWrite.{
  File, Disk, put, Shown, becomes, Calls, WriteError, chmod, hold, written, clean_up, write_to,
  atomic_write_file, atomic_write_file_and_change,
}

-- `TempFile` gives a name that is new, and longer than the name that it is made from.
abbrev pub IsFresh : {E : Type 0} → Bytes → Disk → Result E Bytes → Type 0
IsFresh filename d (err e) = Unit
IsFresh filename d (ok tmp) = (d tmp ≡ none) × ((filename == tmp) ≡ false)

module _ (filename contents : Bytes) (perms : ℕ) (d : Disk) where
  abbrev pub new_file : Option File
  new_file = some (record { contents = contents; perms = perms })

  -- A disk with the file as it was, or with the whole new file.
  abbrev pub IsWhole : Disk → Type 0
  IsWhole d' = (d' filename ≡ d filename) ⊎ (d' filename ≡ new_file)

  -- The disk after a result.
  abbrev pub expected : {E : Type 0} → Option (WriteError E) → Disk
  expected none = put filename new_file d
  expected (some e) = d

  module _ {E : Type 0} where
    run : Bytes → Option E → Option (ℕ × E) → Option E → Option E → Option (WriteError E) × Shown
    run tmp chmod_error write_error rename_error remove_error = clean_up tmp remove_error (
        written (chmod perms chmod_error) tmp filename contents rename_error write_error
          (becomes (hold tmp [] d) (record { disk = d; before = [] })))

    run-IsWhole :
        (tmp : Bytes) (ce : Option E) (we : Option (ℕ × E)) (re rm : Option E)
        → (filename == tmp) ≡ false
        → let w = (run tmp ce we re rm).1 in All IsWhole (w.disk ∷ w.before)
    unfolding run
    run-IsWhole tmp ce (some (n, e)) re none h =
        rw h (inl refl, (inl refl, (inl refl, (inl refl, tt))))
    run-IsWhole tmp ce (some (n, e)) re (some x) h = rw h (inl refl, (inl refl, (inl refl, tt)))
    run-IsWhole tmp (some c) none re none h =
        rw h (inl refl, (inl refl, (inl refl, (inl refl, (inl refl, tt)))))
    run-IsWhole tmp (some c) none re (some x) h =
        rw h (inl refl, (inl refl, (inl refl, (inl refl, tt))))
    run-IsWhole tmp none none (some e) none h =
        rw h (inl refl, (inl refl, (inl refl, (inl refl, (inl refl, tt)))))
    run-IsWhole tmp none none (some e) (some x) h =
        rw h (inl refl, (inl refl, (inl refl, (inl refl, tt))))
    run-IsWhole tmp none none none rm h =
        rw (h, beq_refl tmp, beq_refl filename)
          (inr refl, (inl refl, (inl refl, (inl refl, (inl refl, tt)))))

    run-expected :
        (tmp : Bytes) (ce : Option E) (we : Option (ℕ × E)) (re : Option E) (name : Bytes)
        → d tmp ≡ none
        → (filename == tmp) ≡ false
        → let (r, w) = run tmp ce we re none in w.disk name ≡ expected r name
    unfolding run
    run-expected tmp ce (some (n, e)) re name new h = ground (arith, bytes_eq.beq_iff name tmp)
    run-expected tmp (some c) none re name new h = ground (arith, bytes_eq.beq_iff name tmp)
    run-expected tmp none none (some e) name new h = ground (arith, bytes_eq.beq_iff name tmp)
    run-expected tmp none none none name new h =
        rw (beq_refl tmp) (ground (arith, bytes_eq.beq_iff name tmp))

    write_to-IsWhole :
        (calls : Calls E) (ce : Option E) (t : Result E Bytes)
        → IsFresh filename d t
        → let w =
            (write_to calls filename contents
              (chmod perms ce)
              t
              (record { disk = d; before = [] })).1 in
          All IsWhole (w.disk ∷ w.before)
    unfolding run
    write_to-IsWhole calls ce (err e) h = (inl refl, tt)
    write_to-IsWhole calls ce (ok tmp) h =
        run-IsWhole tmp ce calls.write_error calls.rename_error calls.remove_error h.1

    -- Whatever calls fail, on each disk that another process sees while `AtomicWriteFile` runs, the
    -- file is as it was or is the new file with all its contents and its permissions.
    pub atomic_write_file-IsWhole :
        (calls : Calls E) (chmod_error : Option E)
        → IsFresh filename d calls.temp_file
        → let w = (atomic_write_file calls chmod_error filename contents perms d).1 in
          All IsWhole (w.disk ∷ w.before)
    unfolding atomic_write_file atomic_write_file_and_change
    atomic_write_file-IsWhole calls chmod_error h =
        write_to-IsWhole calls chmod_error calls.temp_file h

    write_to-expected :
        (calls : Calls E) (ce : Option E) (t : Result E Bytes) (name : Bytes)
        → IsFresh filename d t
        → calls.remove_error ≡ none
        → let (r, w) =
            write_to calls filename contents
              (chmod perms ce)
              t
              (record { disk = d; before = [] }) in
          w.disk name ≡ expected r name
    unfolding run
    write_to-expected calls ce (err e) name h removed = refl
    write_to-expected calls ce (ok tmp) name h removed =
        rw removed (run-expected tmp ce calls.write_error calls.rename_error name h.0 h.1)

    -- If the temporary file can be removed, then after an error of `AtomicWriteFile` the disk is as it
    -- was, and after a success it differs only in the new file.
    pub atomic_write_file-expected :
        (calls : Calls E) (chmod_error : Option E) (name : Bytes)
        → IsFresh filename d calls.temp_file
        → calls.remove_error ≡ none
        → let (r, w) = atomic_write_file calls chmod_error filename contents perms d in
          w.disk name ≡ expected r name
    unfolding atomic_write_file atomic_write_file_and_change
    atomic_write_file-expected calls chmod_error name h removed =
        write_to-expected calls chmod_error calls.temp_file name h removed
