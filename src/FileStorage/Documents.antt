-- ===== src/FileStorage/Documents.antt =====
-- filestorage/metadata_store.go: metadata from a storage of documents. The metadata is of any type `M`,
-- and `D` is the type of the documents that are no metadata.
use juju_utils.Common.{◌↔◌, ◌≡◌, refl, arith, ap, List, [], ◌∷◌, map}
use juju_utils.Common.Results.{Result, ok, err}

-- A `Document` as it is in fact; `nil` is the nil interface.
pub data Document (D M : Type 0) : Type 0 where
  nil : Document D M
  metadata : M → Document D M
  other : D → Document D M

-- `errors.Trace` adds a place to an error, not a reason, so it is left out.
pub data DocError (E D M : Type 0) : Type 0 where
  storage : E → DocError E D M
  expected_metadata : Document D M → DocError E D M

module _ {D M : Type 0} where
  -- The documents that are not nil.
  abbrev pub present : List (Document D M) → List (Document D M)
  present [] = []
  present (nil ∷ docs) = present docs
  present (metadata m ∷ docs) = metadata m ∷ present docs
  present (other d ∷ docs) = other d ∷ present docs

module _ {E D M : Type 0} where
  -- `Convert`.
  unfoldable pub convert : Document D M → Result (DocError E D M) M
  convert nil = err (expected_metadata nil)
  convert (metadata m) = ok m
  convert (other d) = err (expected_metadata (other d))

  -- `Metadata`, from what `Doc` returns.
  unfoldable pub metadata_of : Result E (Document D M) → Result (DocError E D M) M
  unfolding convert
  metadata_of (err e) = err (storage e)
  metadata_of (ok doc) = convert doc

  abbrev pub also : M → Result (DocError E D M) (List M) → Result (DocError E D M) (List M)
  also m (err e) = err e
  also m (ok ms) = ok (m ∷ ms)

  -- The loop of `ListMetadata`.
  unfoldable pub convert_all : List (Document D M) → Result (DocError E D M) (List M)
  convert_all [] = ok []
  convert_all (nil ∷ docs) = convert_all docs
  convert_all (metadata m ∷ docs) = also m (convert_all docs)
  convert_all (other d ∷ docs) = err (expected_metadata (other d))

  -- `ListMetadata`, from what `ListDocs` returns.
  unfoldable pub list_metadata : Result E (List (Document D M)) → Result (DocError E D M) (List M)
  unfolding convert_all
  list_metadata (err e) = err (storage e)
  list_metadata (ok docs) = convert_all docs

  also_ok :
      (m : M) (r : Result (DocError E D M) (List M)) (ms : List M)
      → also m r ≡ ok ms
      → (rest : List M) × (r ≡ ok rest) × (ms ≡ m ∷ rest)
  also_ok m (err e) ms h = absurd (ground arith)
  also_ok m (ok rest) ms h = (rest, refl, ground arith)

  list_metadata_ok :
      (docs : List (Document D M)) (ms : List M)
      → list_metadata (ok docs) ≡ ok ms
      → present docs ≡ map metadata ms
  unfolding list_metadata
  list_metadata_ok [] [] h = refl
  list_metadata_ok [] (m ∷ ms) h = absurd (ground arith)
  list_metadata_ok (nil ∷ docs) ms h = list_metadata_ok docs ms h
  list_metadata_ok (metadata m ∷ docs) ms h =
      let (rest, e, same) = also_ok m (convert_all docs) ms h in
      rw same (ap (λ (ds : List (Document D M)). metadata m ∷ ds) (list_metadata_ok docs rest e))
  list_metadata_ok (other d ∷ docs) ms h = absurd (ground arith)

  list_metadata-present :
      (docs : List (Document D M)) (ms : List M)
      → present docs ≡ map metadata ms
      → list_metadata (ok docs) ≡ ok ms
  unfolding list_metadata
  list_metadata-present [] [] h = refl
  list_metadata-present [] (m ∷ ms) h = absurd (ground arith)
  list_metadata-present (nil ∷ docs) ms h = list_metadata-present docs ms h
  list_metadata-present (metadata m ∷ docs) [] h = absurd (ground arith)
  list_metadata-present (metadata m ∷ docs) (n ∷ ms) h =
      let (same, rest) : (m ≡ n) × (present docs ≡ map metadata ms) = ground arith in
      rw (list_metadata-present docs ms rest, same) refl
  list_metadata-present (other d ∷ docs) [] h = absurd (ground arith)
  list_metadata-present (other d ∷ docs) (n ∷ ms) h = absurd (ground arith)

  -- `ListMetadata` succeeds exactly if all the documents that are not nil are metadata, and then it
  -- gives them all in their order.
  pub list_metadata_iff :
      (docs : List (Document D M)) (ms : List M)
      → (list_metadata (ok docs) ≡ ok ms) ↔ (present docs ≡ map metadata ms)
  list_metadata_iff docs ms = (list_metadata_ok docs ms, list_metadata-present docs ms)
