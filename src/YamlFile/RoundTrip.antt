-- ===== src/YamlFile/RoundTrip.antt =====
-- What `ReadYaml` reads after `WriteYaml`.
use juju_utils.Common.{
  ℕ, zero, suc, ◌≤◌, ◌≡◌, ◌⊎◌, inl, inr, refl, arith, ap, ◌∙◌, false, Option, none, some, [], ◌∷◌,
  ◌++◌, ◌==◌, beq_refl, All, drop, length, length-append, append-nil, is_false,
}
use juju_utils.Common.Bytes.{Bytes, bytes_eq, codes}
use juju_utils.Common.Results.{ok}
use juju_utils.AtomicWrite.{Disk}
use juju_utils.YamlFile.{
  Yaml, Calls, preparing, contents_of, overwritten, opened, write_yaml, parsed, read_yaml,
}

path_not_preparing : (path : Bytes) → (path == preparing path) ≡ false
path_not_preparing path = is_false (path == preparing path) (λ h.
    let e =
      ap length ((bytes_eq.beq_iff path (preparing path)).0 h)
      ∙ length-append path (codes ".preparing") in
    absurd (omega (arith, e)))

module _ (path text : Bytes) (d : Disk) where
  -- The file as it was, or with new contents: these, and what was left in the file that was prepared.
  abbrev pub HasOldOrNew : Disk → Type 0
  HasOldOrNew d' =
      (d' path ≡ d path)
      ⊎ (◌≡◌ {A = Bytes} (contents_of (d' path))
          (text ++ drop (length text) (contents_of (d (preparing path)))))

  module _ {E : Type 0} where
    opened-HasOldOrNew :
        (open_error : Option E) (write_error : Option (ℕ × E)) (rename_error : Option E)
        → let calls : Calls E = record {
          open_error = open_error;
          write_error = write_error;
          rename_error = rename_error;
        } in
          let w = (opened path text calls open_error (record { disk = d; before = [] })).1 in
          All HasOldOrNew (w.disk ∷ w.before)
    opened-HasOldOrNew (some e) we re = (inl refl, tt)
    opened-HasOldOrNew none (some (n, e)) re =
        rw (path_not_preparing path) (inl refl, (inl refl, (inl refl, tt)))
    opened-HasOldOrNew none none (some e) =
        rw (path_not_preparing path) (inl refl, (inl refl, (inl refl, tt)))
    opened-HasOldOrNew none none none =
        rw (path_not_preparing path, beq_refl path, beq_refl (preparing path))
          (inr refl, (inl refl, (inl refl, (inl refl, tt))))

    -- `opened` with the calls as a record.
    opened-shows :
        (calls : Calls E)
        → let w = (opened path text calls calls.open_error (record { disk = d; before = [] })).1 in
          All HasOldOrNew (w.disk ∷ w.before)
    opened-shows calls = opened-HasOldOrNew calls.open_error calls.write_error calls.rename_error

    -- If every call succeeds.
    opened_succeeds :
        (calls : Calls E)
        → calls.open_error ≡ none
        → calls.write_error ≡ none
        → calls.rename_error ≡ none
        → let (r, w) = opened path text calls calls.open_error (record { disk = d; before = [] }) in
          (r ≡ none) × (w.disk path ≡ overwritten text (d (preparing path)))
    opened_succeeds calls o w r =
        rw (o, w, r, path_not_preparing path, beq_refl path, beq_refl (preparing path)) (refl, refl)

drop_all : (n : ℕ) (xs : Bytes) → length xs ≤ n → drop n xs ≡ []
drop_all zero [] h = refl
drop_all zero (x ∷ xs) h = absurd (omega arith)
drop_all (suc n) [] h = refl
drop_all (suc n) (x ∷ xs) h = drop_all n xs (omega arith)

module _ (yaml : Yaml) where
  open yaml use {Object, Error, marshal, unmarshal}

  -- Whatever calls fail, on each disk that another process sees while `WriteYaml` writes an object, the
  -- file is as it was, or it holds all of the object's text and after it what a longer file with the
  -- suffix .preparing held before.
  pub write_yaml-shows :
      (path : Bytes) (obj : Object) (text : Bytes) (calls : Calls Error) (d : Disk)
      → marshal obj ≡ ok text
      → let w = (write_yaml yaml path obj calls d).1 in
        All (HasOldOrNew path text d) (w.disk ∷ w.before)
  unfolding write_yaml
  write_yaml-shows path obj text calls d h = rw h (opened-shows path text d calls)

  -- If no longer file with the suffix .preparing was left, and every call succeeds, `ReadYaml` of an
  -- object does with it what `Unmarshal` does on exactly the text that `Marshal` has made of the object
  -- that `WriteYaml` wrote, and returns its error.
  pub read_yaml-write_yaml :
      (path : Bytes) (obj into : Object) (text : Bytes) (calls : Calls Error) (d : Disk)
      (missing : Error)
      → marshal obj ≡ ok text
      → length (contents_of (d (preparing path))) ≤ length text
      → calls.open_error ≡ none
      → calls.write_error ≡ none
      → calls.rename_error ≡ none
      → let (r, w) = write_yaml yaml path obj calls d in
        (r ≡ none) × (read_yaml yaml missing path into w.disk ≡ unmarshal text into)
  unfolding write_yaml read_yaml
  read_yaml-write_yaml path obj into text calls d missing h short o w r =
      let (ended, there) = opened_succeeds path text d calls o w r in
      rw h (
        ended,
        ap (parsed yaml missing into) there
            ∙ ap (λ (b : Bytes). unmarshal b into)
                (ap (λ (l : Bytes). text ++ l)
                    (drop_all (length text) (contents_of (d (preparing path))) short)
                  ∙ append-nil text),
      )
