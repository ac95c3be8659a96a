-- ===== src/FileStorage/Wrapper/Reading.antt =====
-- `Metadata`, `Get` and `SetFile`.
use juju_utils.Common.{◌≡◌, true, none, some, if◌then◌else◌, is_some, arith, inl, inr}
use juju_utils.Common.Bytes.{Bytes, bytes_beq, bytes_beq_iff}
use juju_utils.Common.Results.{ok, Result-cases}
use juju_utils.FileStorage.Wrapper.{Stores, get, set_file}
use juju_utils.FileStorage.Wrapper.Laws.{IsStore}
use juju_utils.FileStorage.Wrapper.Removing.{IsCovered}

module _ (st : Stores) (laws : IsStore st) where
  -- `Get` changes nothing. What it returns is the metadata and the file that are stored under the
  -- id, and the metadata says that a file was stored.
  pub get_lem :
      (id : Bytes) (w : st.World) (m : st.Metadata) (f : st.Reader)
      → (get st id w).0 ≡ ok (m, f)
      → (laws.metas w id ≡ some m) × (laws.files w id ≡ some f) × (is_some (st.stored m) ≡ true)
  unfolding get
  get_lem id w m f h =
      let w1 : st.World = (st.meta_metadata id w).1 in
      elim (Result-cases (st.meta_metadata id w).0) [
        | inl (m', e) ↦ elim (Result-cases (st.raw_file id w1).0) [
          | inl (f', e') ↦
              ground (
                arith,
                laws.read_meta id m' w,
                laws.read_file id f' w1,
                laws.read_meta_files id id w,
              )
          | inr (x, e') ↦ ground arith
        ]
        | inr (x, e) ↦ ground arith
      ]

  pub get_same :
      (id j : Bytes) (w : st.World)
      → (laws.metas (get st id w).1 j ≡ laws.metas w j)
        × (laws.files (get st id w).1 j ≡ laws.files w j)
  unfolding get
  get_same id j w =
      let w1 : st.World = (st.meta_metadata id w).1 in
      ground (
        arith,
        laws.read_meta_metas id j w,
        laws.read_meta_files id j w,
        laws.read_file_metas id j w1,
        laws.read_file_files id j w1,
      )

  -- `SetFile` stores a file only under an id that has metadata and no file; it keeps every file
  -- covered by its metadata, however it ends.
  pub set_file-IsCovered :
      (id : Bytes) (f : st.Reader) (w : st.World)
      → IsCovered st laws w
      → IsCovered st laws (set_file st id f w).1
  unfolding set_file
  set_file-IsCovered id f w covered j held =
      let w1 : st.World = (st.meta_metadata id w).1 in
      elim (Result-cases (st.meta_metadata id w).0) [
        | inl (m, e) ↦
            let w2 : st.World = (st.raw_add id f (st.size m) w1).1 in
            ground (
              arith,
              covered j,
              laws.read_meta id m w,
              laws.read_meta_metas id j w,
              laws.read_meta_files id j w,
              laws.add_raw_files id j f (st.size m) w1,
              laws.add_raw_metas id j f (st.size m) w1,
              laws.set_stored_entry id j w2,
              laws.set_stored_files id j w2,
              bytes_beq_iff id j,
            )
        | inr (x, e) ↦
            ground (arith, covered j, laws.read_meta_metas id j w, laws.read_meta_files id j w)
      ]

  -- After a success the file is stored, where none was, and no other file has changed.
  pub set_file_lem :
      (id : Bytes) (f : st.Reader) (w : st.World)
      → (set_file st id f w).0 ≡ ok tt
      → (laws.files w id ≡ none)
        × ((j : Bytes)
            → laws.files (set_file st id f w).1 j
              ≡ (if bytes_beq id j then some f else laws.files w j))
  unfolding set_file
  set_file_lem id f w h = elim (Result-cases (st.meta_metadata id w).0) [
    | inl (m, e) ↦
        let w1 : st.World = (st.meta_metadata id w).1 in
        let w2 : st.World = (st.raw_add id f (st.size m) w1).1 in
        (
          ground (arith, laws.add_raw id f (st.size m) w1, laws.read_meta_files id id w),
          λ j. ground (
            arith,
            laws.read_meta_files id j w,
            laws.add_raw_files id j f (st.size m) w1,
            laws.set_stored_files id j w2,
          ),
        )
    | inr (x, e) ↦ (ground arith, λ j. ground arith)
  ]
