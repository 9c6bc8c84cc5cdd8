-- ===== src/Registry/Lookup.antt =====
-- What the registry's endpoints answer, by the paths of the files that they read.
use modelops_control_plane.Base.{
  ℕ, ◌≡◌, refl, ap, Bool, true, false, ◌&&◌, Option, none, some, List, [], ◌∷◌, all, Result, ok,
  is_ok, err, Bool-cases, Option-cases, arith, inl, inr, Word,
}
use modelops_control_plane.Registry.{
  RegistryError, ArtifactFile, model_joblib, metadata_json, evaluation_json, file_name,
  required_artifact_files, Entry, Folder, child, child_of, as_dir, as_file, model_dir, version_dir,
  read_json, error_status, get_model_path, load_model,
}

abbrev pub is_some {ℓ} : {A : Type ℓ} → Option A → Bool
is_some none = false
is_some (some a) = true

-- The contents of a file, if it is there, can be read.
abbrev pub is_read {ℓ κ} : {A : Type ℓ} {B : Type κ} → (A → Option B) → Option A → Bool
is_read read none = false
is_read read (some text) = is_some (read text)

module _ {Contents : Type 0} where
  -- The entry at a path below a place.
  abbrev pub at_path : List Word → Option (Entry Contents) → Option (Entry Contents)
  at_path [] place = place
  at_path (name ∷ names) place = at_path names (child_of name place)

  -- What the file of a version holds.
  abbrev pub artifact :
      Option (Entry Contents) → (model version : Word) → ArtifactFile → Option Contents
  artifact root model version a = as_file (at_path (model ∷ version ∷ file_name a ∷ []) root)

  -- The three required files are there.
  abbrev pub is_complete : Option (Entry Contents) → (model version : Word) → Bool
  is_complete root model version =
      all (λ a. is_some (artifact root model version a)) required_artifact_files

  pub child_of-dir :
      (name : Word) (place : Option (Entry Contents)) (f : Folder Contents)
      → as_dir place ≡ some f
      → child_of name place ≡ child name f
  child_of-dir name place f h = ground arith

  artifact-dir :
      (root : Option (Entry Contents)) (model version : Word) (m f : Folder Contents)
      (a : ArtifactFile)
      → as_dir (child_of model root) ≡ some m
      → as_dir (child version m) ≡ some f
      → artifact root model version a ≡ as_file (child (file_name a) f)
  artifact-dir root model version m f a q q' =
      let first = child_of-dir version (child_of model root) m q in
      ap as_file
        (child_of-dir (file_name a) (child_of version (child_of model root)) f (rw first q'))

  version_dir_complete :
      (root : Option (Entry Contents)) (model version : Word)
      → is_complete root model version ≡ true
      → (f : Folder Contents) × version_dir root model version ≡ ok f
        × ((a : ArtifactFile) → artifact root model version a ≡ as_file (child (file_name a) f))
  unfolding version_dir model_dir
  version_dir_complete root model version h = elim (Option-cases (as_dir (child_of model root))) [
    | inl q ↦ absurd (ground arith)
    | inr (m, q) ↦ elim (Option-cases (as_dir (child version m))) [
      | inl q' ↦ absurd (ground arith)
      | inr (f, q') ↦ (f, ground arith, λ a. artifact-dir root model version m f a q q')
    ]
  ]

  version_dir_incomplete :
      (root : Option (Entry Contents)) (model version : Word)
      → is_complete root model version ≡ false
      → (e : RegistryError) × version_dir root model version ≡ err e × error_status e ≡ 404
  unfolding version_dir model_dir
  version_dir_incomplete root model version h = elim (Option-cases (as_dir (child_of model root))) [
    | inl q ↦ (RegistryError.model_not_found, ground arith, refl)
    | inr (m, q) ↦ elim (Option-cases (as_dir (child version m))) [
      | inl q' ↦ (RegistryError.artifact_not_found, ground arith, refl)
      | inr (f, q') ↦ (RegistryError.artifact_not_found, ground arith, refl)
    ]
  ]

  module _ {Document : Type 0} (loads : Contents → Option Document) where
    -- What the path of a document says about the answer.
    abbrev pub document_at : Option Contents → Result ℕ Document
    document_at none = err 404
    document_at (some text) = elim (loads text) [ none ↦ err 500 | some d ↦ ok d ]

    module _ {Pipeline : Type 0} (joblib : Contents → Option Pipeline) where
      -- A serving process loads its model exactly where the three files are at their paths, both
      -- documents parse, and the pipeline loads.
      pub load_model-is_ok :
          (root : Option (Entry Contents)) (model version : Word)
          → is_ok (load_model loads joblib root model version) ≡ (
              is_complete root model version
              && is_read loads (artifact root model version metadata_json)
              && is_read loads (artifact root model version evaluation_json)
              && is_read joblib (artifact root model version model_joblib))
      unfolding load_model get_model_path read_json
      load_model-is_ok root model version = elim (Bool-cases (is_complete root model version)) [
        | inl q ↦
            let (f, q', at) = version_dir_complete root model version q in
            let m = at metadata_json in
            let e = at evaluation_json in let p = at model_joblib in ground arith
        | inr q ↦ let (e, q', code) = version_dir_incomplete root model version q in ground arith
      ]
