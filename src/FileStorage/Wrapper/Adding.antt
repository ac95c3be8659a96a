-- ===== src/FileStorage/Wrapper/Adding.antt =====
-- `Add`: what it stores, and what it takes back when it fails.
use juju_utils.Common.{◌≡◌, true, false, Option, none, some, is_some, arith, inl, inr}
use juju_utils.Common.Bytes.{Bytes, bytes_beq, bytes_beq_iff}
use juju_utils.Common.Results.{ok, Result-cases, is_ok}
use juju_utils.FileStorage.Wrapper.{Stores, add}
use juju_utils.FileStorage.Wrapper.Laws.{IsStore}

module _ (st : Stores) (laws : IsStore st) where
  add-made :
      (m : st.Metadata) (f : st.Reader) (id : Bytes) (w : st.World)
      → (add st m (some f) w).0 ≡ ok id
      → (st.meta_add m w).0 ≡ ok id
  unfolding add
  add-made m f id w h = ground arith

  -- After a success the new id has metadata and the file, where the stores held neither, and
  -- nothing has changed under any other id `j`.
  pub add_lem :
      (m : st.Metadata) (f : st.Reader) (id j : Bytes) (w : st.World)
      → bytes_beq id j ≡ false
      → (add st m (some f) w).0 ≡ ok id
      → (is_some (laws.metas (add st m (some f) w).1 id) ≡ true)
        × (laws.files (add st m (some f) w).1 id ≡ some f)
        × (laws.metas w id ≡ none)
        × (laws.files w id ≡ none)
        × (laws.metas (add st m (some f) w).1 j ≡ laws.metas w j)
        × (laws.files (add st m (some f) w).1 j ≡ laws.files w j)
  unfolding add
  add_lem m f id j w other h =
      let w1 : st.World = (st.meta_add m w).1 in
      let w2 : st.World = (st.raw_add id f (st.size m) w1).1 in
      let made : (st.meta_add m w).0 ≡ ok id = add-made m f id w h in
      let (fresh, entered) = laws.add_meta m id w made in
      (
        ground (arith, laws.add_raw_metas id id f (st.size m) w1, laws.set_stored_entry id id w2),
        ground (
          arith,
          laws.add_raw_files id id f (st.size m) w1,
          laws.set_stored_files id id w2,
          bytes_beq_iff id id,
        ),
        fresh,
        ground (arith, laws.add_raw id f (st.size m) w1, laws.add_meta_files m id w),
        ground (
          arith,
          laws.add_raw_metas id j f (st.size m) w1,
          laws.set_stored_metas id j w2,
          laws.add_meta_others m id j w,
        ),
        ground (
          arith,
          laws.add_raw_files id j f (st.size m) w1,
          laws.set_stored_files id j w2,
          laws.add_meta_files m j w,
        ),
      )

  -- A failure leaves the metadata as it was, if the store can remove the entry that it has just made.
  pub add-error_metas :
      (m : st.Metadata) (f : Option st.Reader) (w : st.World)
      → is_ok (add st m f w).0 ≡ false
      → ((id : Bytes) (v : st.World)
          → is_some (laws.metas v id) ≡ true
          → is_ok (st.meta_remove id v).0 ≡ true)
      → (j : Bytes) → laws.metas (add st m f w).1 j ≡ laws.metas w j
  unfolding add
  add-error_metas m none w h removes j = ground (arith, laws.add_meta_fails m j w)
  add-error_metas m (some f) w h removes j =
      let w1 : st.World = (st.meta_add m w).1 in
      elim (Result-cases (st.meta_add m w).0) [
        | inr (x, e) ↦ ground (arith, laws.add_meta_fails m j w)
        | inl (id, e) ↦
            let w2 : st.World = (st.raw_add id f (st.size m) w1).1 in
            let w3 : st.World = (st.meta_set_stored id w2).1 in
            let (fresh, entered) = laws.add_meta m id w e in
            ground (
              arith,
              removes id w2,
              removes id w3,
              bytes_beq_iff id j,
              laws.add_meta_others m id j w,
              laws.add_raw_metas id j f (st.size m) w1,
              laws.add_raw_metas id id f (st.size m) w1,
              laws.set_stored_metas id j w2,
              laws.set_stored_entry id id w2,
              laws.remove_meta_metas id j w2,
              laws.remove_meta_metas id j w3,
            )
      ]

  -- If the store cannot mark the entry as stored, `Add` fails and takes back the metadata, but the
  -- raw file stays stored: the comment on `Add` says that neither will be.
  pub add-error_keeps_file :
      (m : st.Metadata) (f : st.Reader) (id : Bytes) (w : st.World)
      → (st.meta_add m w).0 ≡ ok id
      → is_ok (st.raw_add id f (st.size m) (st.meta_add m w).1).0 ≡ true
      → is_ok (st.meta_set_stored id (st.raw_add id f (st.size m) (st.meta_add m w).1).1).0 ≡ false
      → (is_ok (add st m (some f) w).0 ≡ false)
        × (laws.files w id ≡ none)
        × (laws.files (add st m (some f) w).1 id ≡ some f)
  unfolding add
  add-error_keeps_file m f id w made written unmarked =
      let w1 : st.World = (st.meta_add m w).1 in
      let w2 : st.World = (st.raw_add id f (st.size m) w1).1 in
      let w3 : st.World = (st.meta_set_stored id w2).1 in
      (
        ground arith,
        ground (arith, laws.add_raw id f (st.size m) w1, laws.add_meta_files m id w),
        ground (
          arith,
          laws.add_raw_files id id f (st.size m) w1,
          laws.set_stored_files id id w2,
          laws.remove_meta_files id id w3,
          bytes_beq_iff id id,
        ),
      )
