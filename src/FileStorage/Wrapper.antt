-- ===== src/FileStorage/Wrapper.antt =====
-- filestorage/wrapper.go: a metadata store and a raw file store behind one interface.
pub mod Laws
pub mod Adding
pub mod Removing
pub mod Reading
use juju_utils.Common.{
  ℕ, ◌≡◌, Bool, true, false, ◌&&◌, ◌||◌, not, Option, none, some, List, if◌then◌else◌, is_some,
}
use juju_utils.Common.Int.{ℤ}
use juju_utils.Common.Bytes.{Bytes}
use juju_utils.Common.Results.{Result, ok, err}

-- The interfaces `MetadataStorage` and `RawFileStorage`, over one world that both stores are part
-- of, and what the code uses of github.com/juju/errors.
pub record Stores : Type 1 where
  pub World : Type 0
  pub Metadata : Type 0
  pub Reader : Type 0
  pub Error : Type 0
  pub size : Metadata → ℤ
  pub stored : Metadata → Option ℕ
  pub is_not_found : Error → Bool
  pub not_found : Bytes → Error
  pub trace : Error → Error
  pub annotate : Error → Error
  pub wrap : Error → Error → Error
  pub both_failed : Error → Error → Error
  pub meta_metadata : Bytes → World → Result Error Metadata × World
  pub meta_list : World → Result Error (List Metadata) × World
  pub meta_add : Metadata → World → Result Error Bytes × World
  pub meta_remove : Bytes → World → Result Error (Unit {0}) × World
  pub meta_set_stored : Bytes → World → Result Error (Unit {0}) × World
  pub meta_close : World → Option Error × World
  pub raw_file : Bytes → World → Result Error Reader × World
  pub raw_add : Bytes → Reader → ℤ → World → Result Error (Unit {0}) × World
  pub raw_remove : Bytes → World → Result Error (Unit {0}) × World
  pub raw_close : World → Option Error × World

-- A method: what it changed stays changed when it fails.
abbrev pub Exec : Type 0 → Type 0 → Type 0 → Type 0
Exec W E A = W → Result E A × W

abbrev pub continue : {W E A B : Type 0} → Result E A × W → (A → Exec W E B) → Result E B × W
continue (ok a, w) f = f a w
continue (err e, w) f = (err e, w)

infixl 5 ◌>>=◌ ◌>>◌
abbrev pub ◌>>=◌ : {W E A B : Type 0} → Exec W E A → (A → Exec W E B) → Exec W E B
◌>>=◌ m f w = continue (m w) f

abbrev pub ◌>>◌ : {W E B : Type 0} → Exec W E (Unit {0}) → Exec W E B → Exec W E B
m >> k = m >>= λ _. k

abbrev pub pure : {W E A : Type 0} → A → Exec W E A
pure a w = (ok a, w)

abbrev pub fail : {W E A : Type 0} → E → Exec W E A
fail e w = (err e, w)

-- `if err != nil { return …, errors.Trace(err) }` after a call.
abbrev pub failing : {W E A : Type 0} → (E → E) → Result E A × W → Result E A × W
failing f (ok a, w) = (ok a, w)
failing f (err e, w) = (err (f e), w)

abbrev pub traced : {W E A : Type 0} → (E → E) → Exec W E A → Exec W E A
traced f m w = failing f (m w)

module _ (st : Stores) where
  open st use {
    World, Metadata, Reader, Error, size, stored, is_not_found, not_found, trace, annotate, wrap,
    both_failed, meta_metadata, meta_list, meta_add, meta_remove, meta_set_stored, meta_close,
    raw_file, raw_add, raw_remove, raw_close,
  }

  unfoldable pub metadata : Bytes → Exec World Error Metadata
  metadata id = traced trace (meta_metadata id)

  abbrev require_stored : Bytes → Metadata → Exec World Error (Unit {0})
  require_stored id meta = elim (stored meta) [ none ↦ fail (not_found id) | some _ ↦ pure tt ]

  unfoldable pub get : Bytes → Exec World Error (Metadata × Reader)
  unfolding metadata
  get id = do
    meta ← traced trace (metadata id)
    require_stored id meta
    file ← traced trace (raw_file id)
    pure (meta, file)

  unfoldable pub list : Exec World Error (List Metadata)
  list = meta_list

  unfoldable pub add_file : Bytes → ℤ → Reader → Exec World Error (Unit {0})
  add_file id size file = do traced trace (raw_add id file size); traced trace (meta_set_stored id)

  -- The error branch of `Add`: the metadata is removed again.
  abbrev undo : Error → Result Error (Unit {0}) × World → Result Error Bytes × World
  undo context (ok _, w) = (err (trace context), w)
  undo context (err e, w) = (err (wrap context (annotate e)), w)

  abbrev added : Bytes → Result Error (Unit {0}) × World → Result Error Bytes × World
  added id (ok _, w) = (ok id, w)
  added id (err context, w) = undo context (meta_remove id w)

  abbrev store_file : Bytes → Metadata → Option Reader → Exec World Error Bytes
  store_file id meta none w = (ok id, w)
  store_file id meta (some file) w = added id (add_file id (size meta) file w)

  -- `Add`; a nil reader adds the metadata alone.
  unfoldable pub add : Metadata → Option Reader → Exec World Error Bytes
  unfolding add_file
  add meta file = do id ← traced trace (meta_add meta); store_file id meta file

  unfoldable pub set_file : Bytes → Reader → Exec World Error (Unit {0})
  unfolding add_file metadata
  set_file id file = do
    meta ← traced trace (metadata id)
    traced trace (add_file id (size meta) file)

  -- `err != nil && !errors.IsNotFound(err)` after the removal of the raw file.
  abbrev unless_missing : Result Error (Unit {0}) × World → Result Error (Unit {0}) × World
  unless_missing (ok _, w) = (ok tt, w)
  unless_missing (err e, w) = if is_not_found e then (ok tt, w) else (err (trace e), w)

  unfoldable pub remove : Bytes → Exec World Error (Unit {0})
  remove id = do λ w. unless_missing (raw_remove id w); traced trace (meta_remove id)

  abbrev close_error : Option Error → Option Error → Option Error
  close_error none none = none
  close_error none (some merr) = some (trace merr)
  close_error (some ferr) none = some (trace ferr)
  close_error (some ferr) (some merr) = some (both_failed merr ferr)

  -- `Close` closes both stores, whatever the first reports.
  unfoldable pub close : World → Option Error × World
  close w =
      let (ferr, w1) = raw_close w in let (merr, w2) = meta_close w1 in (close_error ferr merr, w2)
