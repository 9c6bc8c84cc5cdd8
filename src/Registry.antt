-- ===== src/Registry.antt =====
-- The model registry: backend/app/registry/local.py, the endpoints of backend/app/api/models.py, and
-- `load_model` of backend/app/serving/model_loader.py. The artifacts' directory is a tree; a name is
-- the name of one entry of a directory. The parser of JSON and `joblib.load` are parameters.
pub mod Lookup
pub mod Listing
use modelops_control_plane.Base.{
  ℕ, Bool, true, false, Option, none, some, List, [], ◌∷◌, Result, ok, err, ◌>>=◌, ◌>>◌,
  if◌then◌else◌, Word, word_eq, word_leb, sort_by, length, ltb, where_, not,
}

-- The exceptions of the registry, and any other that a call of a library raises.
pub data RegistryError : Type 0 where
  model_not_found artifact_not_found corrupt_artifact other_error : RegistryError

-- `REQUIRED_ARTIFACT_FILES`
pub data ArtifactFile : Type 0 where
  model_joblib metadata_json evaluation_json : ArtifactFile

abbrev pub file_name : ArtifactFile → Word
file_name model_joblib = 109 ∷ 111 ∷ 100 ∷ 101 ∷ 108 ∷ 46 ∷ 106 ∷ 111 ∷ 98 ∷ 108 ∷ 105 ∷ 98 ∷ []
file_name metadata_json =
    109 ∷ 101 ∷ 116 ∷ 97 ∷ 100 ∷ 97 ∷ 116 ∷ 97 ∷ 46 ∷ 106 ∷ 115 ∷ 111 ∷ 110 ∷ []
file_name evaluation_json =
    101 ∷ 118 ∷ 97 ∷ 108 ∷ 117 ∷ 97 ∷ 116 ∷ 105 ∷ 111 ∷ 110 ∷ 46 ∷ 106 ∷ 115 ∷ 111 ∷ 110 ∷ []

abbrev pub required_artifact_files : List ArtifactFile
required_artifact_files = model_joblib ∷ metadata_json ∷ evaluation_json ∷ []

abbrev pub sorted : List Word → List Word
sorted = sort_by word_leb

-- A file has contents of the type `Contents`.
mutual
  pub data Entry (Contents : Type 0) : Type 0 where
    file : Contents → Entry Contents
    folder : Folder Contents → Entry Contents

  pub data Folder (Contents : Type 0) : Type 0 where
    empty : Folder Contents
    entry : Word → Entry Contents → Folder Contents → Folder Contents

module _ {Contents : Type 0} where
  -- `directory / name`
  abbrev pub child : Word → Folder Contents → Option (Entry Contents)
  child name empty = none
  child name (entry n e rest) = if word_eq name n then some e else child name rest

  -- `path.is_dir()`, with the directory; `path.is_file()`, with the file.
  abbrev pub as_dir : Option (Entry Contents) → Option (Folder Contents)
  as_dir (some (folder f)) = some f
  as_dir _ = none

  abbrev pub as_file : Option (Entry Contents) → Option Contents
  as_file (some (file c)) = some c
  as_file _ = none

  abbrev pub is_file : Word → Folder Contents → Bool
  is_file name f = elim (as_file (child name f)) [ none ↦ false | some c ↦ true ]

  -- The names of a directory's own directories, in the directory's order.
  abbrev pub dir_names : Folder Contents → List Word
  dir_names empty = []
  dir_names (entry n (file c) rest) = dir_names rest
  dir_names (entry n (folder f) rest) = n ∷ dir_names rest

  -- `artifacts_dir` may not be there, or be no directory.
  unfoldable pub list_models : Option (Entry Contents) → List Word
  list_models root = elim (as_dir root) [ none ↦ [] | some f ↦ sorted (dir_names f) ]

  abbrev pub child_of : Word → Option (Entry Contents) → Option (Entry Contents)
  child_of name place = elim (as_dir place) [ none ↦ none | some f ↦ child name f ]

  unfoldable pub model_dir : Option (Entry Contents) → Word → Result RegistryError (Folder Contents)
  model_dir root model = elim (as_dir (child_of model root)) [
    | none ↦ err model_not_found
    | some f ↦ ok f
  ]

  unfoldable pub list_versions : Option (Entry Contents) → Word → Result RegistryError (List Word)
  list_versions root model = do f ← model_dir root model; ok (sorted (dir_names f))

  abbrev pub missing : Folder Contents → List ArtifactFile
  missing f = where_ (λ a. not (is_file (file_name a) f)) required_artifact_files

  unfoldable pub version_dir :
      Option (Entry Contents) → (model version : Word) → Result RegistryError (Folder Contents)
  version_dir root model version = do
    m ← model_dir root model
    elim (as_dir (child version m)) [
      | none ↦ err artifact_not_found
      | some f ↦ if ltb 0 (length (missing f)) then err artifact_not_found else ok f
    ]

  abbrev pub read_text : ArtifactFile → Folder Contents → Result RegistryError Contents
  read_text a f = elim (as_file (child (file_name a) f)) [ none ↦ err other_error | some c ↦ ok c ]

  -- A path is its file here.
  unfoldable pub get_model_path :
      Option (Entry Contents) → (model version : Word) → Result RegistryError Contents
  get_model_path root model version = do
    f ← version_dir root model version
    elim (as_file (child (file_name model_joblib) f)) [
      | none ↦ err artifact_not_found
      | some c ↦ ok c
    ]

-- `loads` is `json.loads`, on what a file holds.
module _ {Contents Document : Type 0} (loads : Contents → Option Document) where
  unfoldable pub read_json :
      Option (Entry Contents)
      → (model version : Word) → ArtifactFile
      → Result RegistryError Document
  read_json root model version name = do
    f ← version_dir root model version
    text ← read_text name f
    elim (loads text) [ none ↦ err corrupt_artifact | some d ↦ ok d ]

  abbrev pub get_model_metadata :
      Option (Entry Contents) → (model version : Word) → Result RegistryError Document
  get_model_metadata root model version = read_json root model version metadata_json

  abbrev pub get_evaluation :
      Option (Entry Contents) → (model version : Word) → Result RegistryError Document
  get_evaluation root model version = read_json root model version evaluation_json

-- The codes of the endpoints: what is not there is a 404, and a file that cannot be read a 500.
abbrev pub error_status : RegistryError → ℕ
error_status model_not_found = 404
error_status artifact_not_found = 404
error_status corrupt_artifact = 500
error_status other_error = 500

abbrev pub list_versions_status : RegistryError → ℕ
list_versions_status model_not_found = 404
list_versions_status _ = 500

abbrev pub respond_with {ℓ} :
    {A : Type ℓ} → (RegistryError → ℕ) → Result RegistryError A → Result ℕ A
respond_with code (ok a) = ok a
respond_with code (err e) = err (code e)

module _ {Contents Document : Type 0} (loads : Contents → Option Document) where
  abbrev pub get_version_metadata :
      Option (Entry Contents) → (model version : Word) → Result ℕ Document
  get_version_metadata root model version =
      respond_with error_status (get_model_metadata loads root model version)

  abbrev pub get_version_evaluation :
      Option (Entry Contents) → (model version : Word) → Result ℕ Document
  get_version_evaluation root model version =
      respond_with error_status (get_evaluation loads root model version)

abbrev pub get_versions :
    {Contents : Type 0} → Option (Entry Contents) → (model : Word) → Result ℕ (List Word)
get_versions root model = respond_with list_versions_status (list_versions root model)

-- `joblib` is `joblib.load`.
pub record LoadedArtifact (Document Pipeline : Type 0) : Type 0 where
  pub pipeline : Pipeline
  pub metadata : Document
  pub evaluation : Document

module _ {Contents Document Pipeline : Type 0} (loads : Contents → Option Document)
    (joblib : Contents → Option Pipeline) where
  unfoldable pub load_model :
      Option (Entry Contents)
      → (model version : Word) → Result RegistryError (LoadedArtifact Document Pipeline)
  load_model root model version = do
    metadata ← get_model_metadata loads root model version
    evaluation ← get_evaluation loads root model version
    path ← get_model_path root model version
    elim (joblib path) [
      | none ↦ err other_error
      | some p ↦ ok (record { pipeline = p; metadata = metadata; evaluation = evaluation })
    ]
