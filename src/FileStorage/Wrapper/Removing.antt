-- ===== src/FileStorage/Wrapper/Removing.antt =====
-- `Remove` and the link between files and metadata.
use juju_utils.Common.{inr, inl, ◌≡◌, true, none, if◌then◌else◌, is_some, arith}
use juju_utils.Common.Bytes.{Bytes, bytes_beq, bytes_beq_iff}
use juju_utils.Common.Results.{Result-cases, ok}
use juju_utils.FileStorage.Wrapper.{Stores, remove}
use juju_utils.FileStorage.Wrapper.Laws.{IsStore}

module _ (st : Stores) (laws : IsStore st) where
  -- A stored file always has a metadata value stored.
  abbrev pub IsCovered : st.World → Type 0
  IsCovered w = (j : Bytes) → is_some (laws.files w j) ≡ true → is_some (laws.metas w j) ≡ true

  -- After a successful `Remove` neither the metadata nor the file is there, and nothing else has
  -- changed.
  pub remove_lem :
      (id : Bytes) (w : st.World)
      → (remove st id w).0 ≡ ok tt
      → (j : Bytes)
      → (laws.metas (remove st id w).1 j ≡ (if bytes_beq id j then none else laws.metas w j))
        × (laws.files (remove st id w).1 j ≡ (if bytes_beq id j then none else laws.files w j))
  unfolding remove
  remove_lem id w h j =
      let w1 : st.World = (st.raw_remove id w).1 in
      elim (Result-cases (st.raw_remove id w).0) [
        | inl (u, e) ↦ ground (
          arith,
          laws.remove_raw_files id j w,
          laws.remove_raw_metas id j w,
          laws.remove_meta_metas id j w1,
          laws.remove_meta_files id j w1,
        )
        | inr (x, e) ↦ ground (
          arith,
          laws.remove_raw_files id j w,
          laws.remove_raw_metas id j w,
          laws.remove_meta_metas id j w1,
          laws.remove_meta_files id j w1,
          laws.remove_raw_missing id x w,
          bytes_beq_iff id j,
        )
      ]

  -- `Remove` never leaves a file with no metadata, however it ends.
  pub remove-IsCovered : (id : Bytes) (w : st.World) → IsCovered w → IsCovered (remove st id w).1
  unfolding remove
  remove-IsCovered id w covered j held =
      let w1 : st.World = (st.raw_remove id w).1 in
      elim (Result-cases (st.raw_remove id w).0) [
        | inl (u, e) ↦ ground (
          arith,
          covered j,
          laws.remove_raw_files id j w,
          laws.remove_raw_metas id j w,
          laws.remove_meta_metas id j w1,
          laws.remove_meta_files id j w1,
        )
        | inr (x, e) ↦ ground (
          arith,
          covered j,
          laws.remove_raw_files id j w,
          laws.remove_raw_metas id j w,
          laws.remove_meta_metas id j w1,
          laws.remove_meta_files id j w1,
          laws.remove_raw_missing id x w,
          bytes_beq_iff id j,
        )
      ]
