-- ===== src/Symlink/Replaced.antt =====
-- What `Replace` shows at the path of a link.
use juju_utils.Common.{
  Bool-cases, ◌≡◌, refl, arith, sym, Bool, true, false, Option, none, some, [], ◌∷◌, ◌++◌, ◌==◌,
  beq_refl, All, inl, inr, ◌⊎◌, is_some,
}
use juju_utils.Common.Bytes.{bytes_beq_iff, Bytes, bytes_eq, bytes_beq}
use juju_utils.Common.Results.{ok}
use juju_utils.Zip.{after_prefix}
use juju_utils.Symlink.{
  Entry, link_to, Disk, put, Shown, becomes, Calls, remove_all, new, renamed, made, after_stat,
  tmp_file, replace,
}

-- If every call succeeds and the new name is free, the link leads to the new path, nothing stands at the other
-- name, and what is neither there nor below the link is as it was.
pub replace_succeeds :
    {E : Type 0} (link newpath uuid : Bytes) (calls : Calls E) (d : Disk) (p : Bytes)
    → calls.uuid ≡ ok uuid
    → calls.new_error ≡ none
    → calls.remove_error ≡ none
    → calls.rename_error ≡ none
    → d (tmp_file link uuid) ≡ none
    → (tmp_file link uuid == link) ≡ false
    → is_some (after_prefix (link ++ b'/' ∷ []) (tmp_file link uuid)) ≡ false
    → (p == link) ≡ false
    → (p == tmp_file link uuid) ≡ false
    → is_some (after_prefix (link ++ b'/' ∷ []) p) ≡ false
    → let (e, w) = replace link newpath calls d in
      (e ≡ none)
      × (w.disk link ≡ some (link_to newpath))
      × (w.disk (tmp_file link uuid) ≡ none)
      × (w.disk p ≡ d p)
unfolding replace remove_all
replace_succeeds link newpath uuid calls d p hu hn hr hm free apart beside pl pt pb =
    let same = beq_refl (tmp_file link uuid) in
    let own = beq_refl link in
    elim (Bool-cases calls.stat_ok) [
      | inl there ↦
          rw (hu, hn, hr, hm, free, there, own, same, apart, beside, pl, pt, pb)
            (refl, refl, refl, refl)
      | inr nothing ↦
          rw (hu, hn, hm, free, nothing, own, same, apart, pl, pt) (refl, refl, refl, refl)
    ]

differ_sym : (a b : Bytes) → (a == b) ≡ false → (b == a) ≡ false
differ_sym a b h = elim (Bool-cases (bytes_beq b a)) [
  | inl same ↦
      let e = (bytes_beq_iff b a).0 same in
      let f = (bytes_beq_iff a b).1 (sym e) in absurd (ground arith)
  | inr other ↦ other
]

-- The entry is as it was, or it is the new link, or it has been removed because there was a file.
abbrev pub IsOldOrNew : Bool → Option Entry → Bytes → Option Entry → Type 0
IsOldOrNew found old newpath now =
    (now ≡ old) ⊎ ((now ≡ some (link_to newpath)) ⊎ ((now ≡ none) × (found ≡ true)))

abbrev pub ShowsOldOrNew : Bool → Option Entry → Bytes → Bytes → Shown → Type 0
ShowsOldOrNew found old newpath link w =
    All (λ (d : Disk). IsOldOrNew found old newpath (d link)) (w.disk ∷ w.before)

-- The disks when the new link has been made.
abbrev with_tmp : Bytes → Bytes → Disk → Shown
with_tmp newpath tmp d =
    becomes (put tmp (some (link_to newpath)) d) (record { disk = d; before = [] })

module _ {E : Type 0} (link newpath tmp : Bytes) (apart : (link == tmp) ≡ false) (d : Disk) where
  renamed-ShowsOldOrNew :
      (found : Bool) (w : Shown) (e : Option E)
      → ShowsOldOrNew found (d link) newpath link w
      → w.disk tmp ≡ some (link_to newpath)
      → ShowsOldOrNew found (d link) newpath link (renamed tmp link e w).1
  renamed-ShowsOldOrNew found w (some e) h there = h
  renamed-ShowsOldOrNew found w none h there = (rw (beq_refl link) (inr (inl there)), h)

  after_stat-ShowsOldOrNew :
      (calls : Calls E) (found : Bool)
      → calls.remove_error ≡ none
      → is_some (after_prefix (link ++ b'/' ∷ []) tmp) ≡ false
      → ShowsOldOrNew found
          (d link)
          newpath
          link
          (after_stat tmp link calls found (with_tmp newpath tmp d)).1
  unfolding remove_all
  after_stat-ShowsOldOrNew calls true hr beside = rw hr (
      renamed-ShowsOldOrNew true
        (becomes (remove_all link (with_tmp newpath tmp d).disk) (with_tmp newpath tmp d))
        calls.rename_error
        (rw (beq_refl link) (inr (inr (refl, refl))), (inl (rw apart refl), (inl refl, tt)))
        (rw (differ_sym link tmp apart, beside, beq_refl tmp) refl))
  after_stat-ShowsOldOrNew calls false hr beside =
      renamed-ShowsOldOrNew false (with_tmp newpath tmp d) calls.rename_error
        (inl (rw apart refl), (inl refl, tt)) (rw (beq_refl tmp) refl)

  new-ShowsOldOrNew :
      (calls : Calls E) (e : Option E) (there : Option Entry)
      → calls.remove_error ≡ none
      → is_some (after_prefix (link ++ b'/' ∷ []) tmp) ≡ false
      → ShowsOldOrNew calls.stat_ok
          (d link)
          newpath
          link
          (made tmp link calls
            (new calls.file_exists newpath tmp e there (record { disk = d; before = [] }))).1
  new-ShowsOldOrNew calls (some e) there hr beside = (inl refl, tt)
  new-ShowsOldOrNew calls none (some entry) hr beside = (inl refl, tt)
  new-ShowsOldOrNew calls none none hr beside =
      after_stat-ShowsOldOrNew calls calls.stat_ok hr beside

-- Whatever calls fail but `os.RemoveAll` and that for the UUID, and if the name of the new link is neither that
-- of the old one nor below it: on each disk that other processes see, the entry at the path of the link is as
-- it was, or it is the new link, or, only where `os.Stat` has found a file, it is missing.
pub replace-ShowsOldOrNew :
    {E : Type 0} (link newpath uuid : Bytes) (calls : Calls E) (d : Disk)
    → calls.uuid ≡ ok uuid
    → calls.remove_error ≡ none
    → (link == tmp_file link uuid) ≡ false
    → is_some (after_prefix (link ++ b'/' ∷ []) (tmp_file link uuid)) ≡ false
    → ShowsOldOrNew calls.stat_ok (d link) newpath link (replace link newpath calls d).1
unfolding replace
replace-ShowsOldOrNew link newpath uuid calls d hu hr apart beside = rw hu (
    new-ShowsOldOrNew link newpath (tmp_file link uuid) apart d calls calls.new_error
      (d (tmp_file link uuid)) hr beside)
