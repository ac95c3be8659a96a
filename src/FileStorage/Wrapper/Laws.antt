-- ===== src/FileStorage/Wrapper/Laws.antt =====
-- What the comments of filestorage/interfaces.go ask of the two stores, over a view of what each
-- one holds: the metadata and the raw file under each id.
use juju_utils.Common.{◌≡◌, true, false, Option, none, some, if◌then◌else◌, is_some, ◌&&◌}
use juju_utils.Common.Bytes.{Bytes, bytes_beq}
use juju_utils.Common.Results.{ok, err, is_ok}
use juju_utils.Common.Int.{ℤ}
use juju_utils.FileStorage.Wrapper.{Stores}

pub record IsStore (st : Stores) : Type 0 where
  pub metas : st.World → Bytes → Option st.Metadata
  pub files : st.World → Bytes → Option st.Reader
  -- reading changes nothing, and a read that succeeds returns what is there
  pub read_meta :
      (id : Bytes) (m : st.Metadata) (w : st.World)
      → (st.meta_metadata id w).0 ≡ ok m
      → metas w id ≡ some m
  pub read_meta_metas :
      (id j : Bytes) (w : st.World) → metas (st.meta_metadata id w).1 j ≡ metas w j
  pub read_meta_files :
      (id j : Bytes) (w : st.World) → files (st.meta_metadata id w).1 j ≡ files w j
  pub read_file :
      (id : Bytes) (f : st.Reader) (w : st.World)
      → (st.raw_file id w).0 ≡ ok f
      → files w id ≡ some f
  pub read_file_metas : (id j : Bytes) (w : st.World) → metas (st.raw_file id w).1 j ≡ metas w j
  pub read_file_files : (id j : Bytes) (w : st.World) → files (st.raw_file id w).1 j ≡ files w j
  -- a new entry has a generated id, which no entry had
  pub add_meta :
      (m : st.Metadata) (id : Bytes) (w : st.World)
      → (st.meta_add m w).0 ≡ ok id
      → (metas w id ≡ none) × (is_some (metas (st.meta_add m w).1 id) ≡ true)
  pub add_meta_others :
      (m : st.Metadata) (id j : Bytes) (w : st.World)
      → (st.meta_add m w).0 ≡ ok id
      → bytes_beq id j ≡ false
      → metas (st.meta_add m w).1 j ≡ metas w j
  pub add_meta_fails :
      (m : st.Metadata) (j : Bytes) (w : st.World)
      → is_ok (st.meta_add m w).0 ≡ false
      → metas (st.meta_add m w).1 j ≡ metas w j
  pub add_meta_files :
      (m : st.Metadata) (j : Bytes) (w : st.World) → files (st.meta_add m w).1 j ≡ files w j
  -- a removal that fails removes nothing
  pub remove_meta_metas :
      (id j : Bytes) (w : st.World)
      → metas (st.meta_remove id w).1 j
        ≡ (if is_ok (st.meta_remove id w).0 && bytes_beq id j then none else metas w j)
  pub remove_meta_files :
      (id j : Bytes) (w : st.World) → files (st.meta_remove id w).1 j ≡ files w j
  -- an entry stays an entry, and the others stay as they are
  pub set_stored_metas :
      (id j : Bytes) (w : st.World)
      → bytes_beq id j ≡ false
      → metas (st.meta_set_stored id w).1 j ≡ metas w j
  pub set_stored_entry :
      (id j : Bytes) (w : st.World)
      → is_some (metas (st.meta_set_stored id w).1 j) ≡ is_some (metas w j)
  pub set_stored_files :
      (id j : Bytes) (w : st.World) → files (st.meta_set_stored id w).1 j ≡ files w j
  -- a second file for an id is refused, and a refused file is not stored
  pub add_raw :
      (id : Bytes) (f : st.Reader) (n : ℤ) (w : st.World)
      → is_ok (st.raw_add id f n w).0 ≡ true
      → files w id ≡ none
  pub add_raw_files :
      (id j : Bytes) (f : st.Reader) (n : ℤ) (w : st.World)
      → files (st.raw_add id f n w).1 j
        ≡ (if is_ok (st.raw_add id f n w).0 && bytes_beq id j then some f else files w j)
  pub add_raw_metas :
      (id j : Bytes) (f : st.Reader) (n : ℤ) (w : st.World)
      → metas (st.raw_add id f n w).1 j ≡ metas w j
  -- a removal says that there is no file only if there is none
  pub remove_raw_files :
      (id j : Bytes) (w : st.World)
      → files (st.raw_remove id w).1 j
        ≡ (if is_ok (st.raw_remove id w).0 && bytes_beq id j then none else files w j)
  pub remove_raw_missing :
      (id : Bytes) (e : st.Error) (w : st.World)
      → (st.raw_remove id w).0 ≡ err e
      → st.is_not_found e ≡ true
      → files w id ≡ none
  pub remove_raw_metas : (id j : Bytes) (w : st.World) → metas (st.raw_remove id w).1 j ≡ metas w j
