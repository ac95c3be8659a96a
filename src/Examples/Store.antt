-- ===== src/Examples/Store.antt =====
-- Two stores in memory that meet what filestorage asks of them; one flag makes the metadata store
-- refuse to mark an entry as stored.
use juju_utils.Common.{
  ℕ, ◌+◌, ◌≡◌, Bool, true, false, Option, none, some, if◌then◌else◌, is_some, arith, [], ◌∷◌,
}
use juju_utils.Common.Bytes.{Bytes, bytes_beq, bytes_beq_iff, codes}
use juju_utils.Common.Results.{is_ok, Result, ok, err}
use juju_utils.Common.Int.{ℤ, pos}
use juju_utils.FileStorage.Metadata.{FileMetadata, new_metadata}
use juju_utils.FileStorage.Wrapper.{Stores}
use juju_utils.FileStorage.Wrapper.Laws.{IsStore}
use juju_utils.FileStorage.Wrapper.Removing.{IsCovered}

pub record Disk : Type 0 where
  pub metas : Bytes → Option FileMetadata
  pub files : Bytes → Option Bytes
  pub next : ℕ
  pub broken : Bool

pub data DiskError : Type 0 where
  missing exists refused both : DiskError

abbrev pub update : {V : Type 0} → (Bytes → Option V) → Bytes → Option V → Bytes → Option V
update f id v j = if bytes_beq id j then v else f j

abbrev new_id : Disk → Bytes
new_id w = w.next ∷ []

abbrev pub read : {V : Type 0} → Option V → Disk → Result DiskError V × Disk
read none w = (err missing, w)
read (some v) w = (ok v, w)

abbrev meta_add : FileMetadata → Disk → Result DiskError Bytes × Disk
meta_add m w =
    if is_some (w.metas (new_id w))
    then (err exists, w)
    else (ok (new_id w), record w { metas = update w.metas (new_id w) (some m); next = w.next + 1 })

abbrev meta_remove : Bytes → Disk → Result DiskError (Unit {0}) × Disk
meta_remove id w =
    if is_some (w.metas id)
    then (ok tt, record w { metas = update w.metas id none })
    else (err missing, w)

abbrev mark : Option FileMetadata → Option FileMetadata
mark none = none
mark (some m) = some (record m { stored = some 7 })

abbrev meta_set_stored : Bytes → Disk → Result DiskError (Unit {0}) × Disk
meta_set_stored id w =
    if w.broken
    then (err refused, w)
    else if is_some (w.metas id)
    then (ok tt, record w { metas = update w.metas id (mark (w.metas id)) })
    else (err missing, w)

abbrev raw_add : Bytes → Bytes → ℤ → Disk → Result DiskError (Unit {0}) × Disk
raw_add id f n w =
    if is_some (w.files id)
    then (err exists, w)
    else (ok tt, record w { files = update w.files id (some f) })

abbrev raw_remove : Bytes → Disk → Result DiskError (Unit {0}) × Disk
raw_remove id w =
    if is_some (w.files id)
    then (ok tt, record w { files = update w.files id none })
    else (err missing, w)

abbrev is_missing : DiskError → Bool
is_missing missing = true
is_missing _ = false

abbrev pub disk : Stores
disk = record {
  World = Disk;
  Metadata = FileMetadata;
  Reader = Bytes;
  Error = DiskError;
  size = λ m. m.size;
  stored = λ m. m.stored;
  is_not_found = is_missing;
  not_found = λ _. missing;
  trace = λ e. e;
  annotate = λ e. e;
  wrap = λ e _. e;
  both_failed = λ _ _. both;
  meta_metadata = λ id w. read (w.metas id) w;
  meta_list = λ w. (ok [], w);
  meta_add = meta_add;
  meta_remove = meta_remove;
  meta_set_stored = meta_set_stored;
  meta_close = λ w. (none, w);
  raw_file = λ id w. read (w.files id) w;
  raw_add = raw_add;
  raw_remove = raw_remove;
  raw_close = λ w. (none, w);
}

pub disk-IsStore : IsStore disk
disk-IsStore = record {
  metas = λ w. w.metas;
  files = λ w. w.files;
  read_meta = λ id m w h. ground arith;
  read_meta_metas = λ id j w. ground arith;
  read_meta_files = λ id j w. ground arith;
  read_file = λ id f w h. ground arith;
  read_file_metas = λ id j w. ground arith;
  read_file_files = λ id j w. ground arith;
  add_meta = λ m id w h. (ground arith, ground (arith, bytes_beq_iff (w.next ∷ []) id));
  add_meta_others = λ m id j w h other. ground arith;
  add_meta_fails = λ m j w h. ground arith;
  add_meta_files = λ m j w. ground arith;
  remove_meta_metas = λ id j w. ground arith;
  remove_meta_files = λ id j w. ground arith;
  set_stored_metas = λ id j w other. ground arith;
  set_stored_entry = λ id j w. ground (arith, bytes_beq_iff id j);
  set_stored_files = λ id j w. ground arith;
  add_raw = λ id f n w h. ground arith;
  add_raw_files = λ id j f n w. ground arith;
  add_raw_metas = λ id j f n w. ground arith;
  remove_raw_files = λ id j w. ground arith;
  remove_raw_missing = λ id e w h k. ground arith;
  remove_raw_metas = λ id j w. ground arith;
}

abbrev pub note : FileMetadata
note = record new_metadata { size = pos 5; stored = some 1 }

-- One entry, "n", with its file.
abbrev pub start : Disk
start = record {
  metas = update (λ _. none) (codes "n") (some note);
  files = update (λ _. none) (codes "n") (some (codes "hello"));
  next = 0;
  broken = false;
}

-- The same with a metadata store that cannot mark an entry.
abbrev pub worn : Disk
worn = record start { broken = true }

pub start-IsCovered : IsCovered disk disk-IsStore start
unfolding disk-IsStore
start-IsCovered j held = ground arith

pub disk_removes :
    (id : Bytes) (v : Disk)
    → is_some (disk-IsStore.metas v id) ≡ true
    → is_ok (meta_remove id v).0 ≡ true
unfolding disk-IsStore
disk_removes id v h = ground arith
