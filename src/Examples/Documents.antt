-- ===== src/Examples/Documents.antt =====
-- Documents at concrete inputs.
use juju_utils.Common.{ℕ, ◌≡◌, refl, List, [], ◌∷◌}
use juju_utils.Common.Results.{ok, err}
use juju_utils.FileStorage.Documents.{
  Document, nil, metadata, other, expected_metadata, convert_all, list_metadata,
}

abbrev documents : List (Document ℕ ℕ)
documents = metadata 3 ∷ nil ∷ metadata 5 ∷ []

foreign_document :
    list_metadata {E = ℕ} (ok (other 1 ∷ documents)) ≡ err (expected_metadata (other 1))
unfolding list_metadata convert_all
foreign_document = refl
