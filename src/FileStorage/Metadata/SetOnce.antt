-- ===== src/FileStorage/Metadata/SetOnce.antt =====
-- The information on a file is set at most once, and its checksum and format come together.
use juju_utils.Common.{
  refl, inr, inl, ◌⊎◌, Bool, sym, ◌∙◌, ap, ◌≡◌, ◌↔◌, true, false, none, some, [], nat_eq,
  if◌then◌else◌, arith,
}
use juju_utils.Common.Int.{beq_ℤ_iff, ℤ, pos, beq_ℤ}
use juju_utils.Common.Bytes.{Bytes, bytes_beq, bytes_beq_iff}
use juju_utils.FileStorage.Metadata.{FileMetadata, InfoError, set_file_info, set_info}

-- A checksum has a format, and a format a checksum.
abbrev pub IsPaired : FileMetadata → Type 0
IsPaired m = (m.checksum ≡ []) ↔ (m.checksum_format ≡ [])

-- No value that was set has changed from `m` to `m'`, each argument that was given is in place, the
-- checksum has a format exactly if there is one, and the id and the time of storing are as before.
pub record IsSetOnce (size : ℤ) (checksum format : Bytes) (m m' : FileMetadata) : Type 0 where
  pub size_kept : (m.size ≡ pos 0) ⊎ (m'.size ≡ m.size)
  pub checksum_kept : (m.checksum ≡ []) ⊎ (m'.checksum ≡ m.checksum)
  pub format_kept : (m.checksum_format ≡ []) ⊎ (m'.checksum_format ≡ m.checksum_format)
  pub size_given : (size ≡ pos 0) ⊎ (m'.size ≡ size)
  pub checksum_given : (checksum ≡ []) ⊎ (m'.checksum ≡ checksum)
  pub format_given : (format ≡ []) ⊎ (m'.checksum_format ≡ format)
  pub paired : IsPaired m'
  pub doc_same : m'.doc ≡ m.doc
  pub stored_same : m'.stored ≡ m.stored

pub set_file_info-error :
    (size : ℤ) (checksum format : Bytes) (m : FileMetadata) (e : InfoError)
    → (set_file_info size checksum format m).1 ≡ some e
    → (set_file_info size checksum format m).0 ≡ m
unfolding set_file_info set_info
set_file_info-error size checksum format m e h = ground arith

-- What a success of the tests says of the three merged values.
record IsAccepted (s : ℤ) (c f : Bytes) (m m' : FileMetadata) : Type 0 where
  result : m' ≡ record m { size = s; checksum = c; checksum_format = f }
  together : bytes_beq c [] ≡ bytes_beq f []
  same_size : beq_ℤ m.size (pos 0) ≡ false → beq_ℤ s m.size ≡ true
  same_checksum : bytes_beq m.checksum [] ≡ false → bytes_beq c m.checksum ≡ true
  same_format : bytes_beq m.checksum_format [] ≡ false → bytes_beq f m.checksum_format ≡ true

set_info-IsAccepted :
    (s : ℤ) (c f : Bytes) (m : FileMetadata)
    → (set_info s c f m).1 ≡ none
    → IsAccepted s c f m (set_info s c f m).0
unfolding set_info
set_info-IsAccepted s c f m h = ground arith

given : {A : Type 0} (new old : A) {b : Bool} → b ≡ false → (if b then old else new) ≡ new
given new old h = rw h

either : {P Q : Type 0} (b : Bool) → (b ≡ true → P) → (b ≡ false → Q) → P ⊎ Q
either true f g = inl (f refl)
either false f g = inr (g refl)

accepted-IsSetOnce :
    (size : ℤ) (checksum format : Bytes) (m m' : FileMetadata)
    → IsAccepted
        (if beq_ℤ size (pos 0) then m.size else size)
        (if bytes_beq checksum [] then m.checksum else checksum)
        (if bytes_beq format [] then m.checksum_format else format)
        m
        m'
    → IsSetOnce size checksum format m m'
accepted-IsSetOnce size checksum format m m' a =
    let s : ℤ = if beq_ℤ size (pos 0) then m.size else size in
    let c : Bytes = if bytes_beq checksum [] then m.checksum else checksum in
    let f : Bytes = if bytes_beq format [] then m.checksum_format else format in
    let es : m'.size ≡ s = ap (λ r. r.size) a.result in
    let ec : m'.checksum ≡ c = ap (λ r. r.checksum) a.result in
    let ef : m'.checksum_format ≡ f = ap (λ r. r.checksum_format) a.result in
    record {
      size_kept =
          either (beq_ℤ m.size (pos 0)) (beq_ℤ_iff m.size (pos 0)).0
            (λ h. es ∙ (beq_ℤ_iff s m.size).0 (a.same_size h));
      checksum_kept =
          either (bytes_beq m.checksum []) (bytes_beq_iff m.checksum []).0
            (λ h. ec ∙ (bytes_beq_iff c m.checksum).0 (a.same_checksum h));
      format_kept =
          either (bytes_beq m.checksum_format []) (bytes_beq_iff m.checksum_format []).0
            (λ h. ef ∙ (bytes_beq_iff f m.checksum_format).0 (a.same_format h));
      size_given =
          either (beq_ℤ size (pos 0)) (beq_ℤ_iff size (pos 0)).0 (λ h. es ∙ given size m.size h);
      checksum_given =
          either (bytes_beq checksum []) (bytes_beq_iff checksum []).0
            (λ h. ec ∙ given checksum m.checksum h);
      format_given =
          either (bytes_beq format []) (bytes_beq_iff format []).0
            (λ h. ef ∙ given format m.checksum_format h);
      paired = (
        λ h. ef ∙ (bytes_beq_iff f []).0 (sym a.together ∙ (bytes_beq_iff c []).1 (sym ec ∙ h)),
        λ h. ec ∙ (bytes_beq_iff c []).0 (a.together ∙ (bytes_beq_iff f []).1 (sym ef ∙ h)),
      );
      doc_same = ap (λ r. r.doc) a.result;
      stored_same = ap (λ r. r.stored) a.result;
    }

-- A successful `SetFileInfo` sets what was given, keeps what was set, and leaves a checksum with a
-- format or neither.
pub set_file_info-IsSetOnce :
    (size : ℤ) (checksum format : Bytes) (m : FileMetadata)
    → (set_file_info size checksum format m).1 ≡ none
    → IsSetOnce size checksum format m (set_file_info size checksum format m).0
unfolding set_file_info
set_file_info-IsSetOnce size checksum format m h =
    accepted-IsSetOnce size checksum format m _ (set_info-IsAccepted _ _ _ m h)
