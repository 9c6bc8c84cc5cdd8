-- ===== src/Registry/Listing.antt =====
-- The registry's lists: their order, and that they name what the other endpoints serve.
use modelops_control_plane.Base.{
  sort_by-any, IsOrdered, sort_by-IsOrdered, ◌≡◌, Bool, true, Option, none, some, List, [], any, ok,
  Result-cases, Option-cases, arith, inl, inr, Word, word_eq, word_leb, word_leb_total,
}
use modelops_control_plane.Registry.{
  Entry, file, folder, Folder, empty, entry, child, as_dir, dir_names, sorted, list_models,
  list_versions, model_dir, version_dir, read_json, get_version_metadata, get_versions,
}

abbrev pub names : Word → List Word → Bool
names w = any (word_eq w)

sorted-names : (x : Word) (ws : List Word) → names x (sorted ws) ≡ names x ws
sorted-names x ws = sort_by-any word_leb (word_eq x) ws

-- Each name is before the next one, in the order of strings.
abbrev pub IsSorted : List Word → Type 0
IsSorted = IsOrdered word_leb

sorted-IsSorted : (ws : List Word) → IsSorted (sorted ws)
sorted-IsSorted = sort_by-IsOrdered word_leb word_leb_total

module _ {Contents : Type 0} where
  child-names :
      (name : Word) (f g : Folder Contents)
      → as_dir (child name f) ≡ some g
      → names name (dir_names f) ≡ true
  child-names name empty g h = absurd (ground arith)
  child-names name (entry n (file c) rest) g h = let there = child-names name rest g in ground arith
  child-names name (entry n (folder f) rest) g h =
      let there = child-names name rest g in ground arith

  model_dir-names :
      (root : Option (Entry Contents)) (model : Word) (m : Folder Contents)
      → model_dir root model ≡ ok m
      → names model (list_models root) ≡ true
  unfolding model_dir list_models
  model_dir-names root model m h = elim (Option-cases (as_dir root)) [
    | inl q ↦ absurd (ground arith)
    | inr (f, q) ↦
        let found = child-names model f m in
        let same = sorted-names model (dir_names f) in ground arith
  ]

  list_models-IsSorted : (root : Option (Entry Contents)) → IsSorted (list_models root)
  unfolding list_models
  list_models-IsSorted root =
      elim (as_dir root) as (λ d. IsSorted (elim d [ none ↦ [] | some f ↦ sorted (dir_names f) ])) [
        | none ↦ tt
        | some f ↦ sorted-IsSorted (dir_names f)
      ]

  module _ {Document : Type 0} (loads : Contents → Option Document) where
    -- A version whose metadata is served stands in the list of its model's versions, that list is
    -- sorted, and the model stands in the list of models, which is sorted too.
    pub served-is_listed :
        (root : Option (Entry Contents)) (model version : Word) (d : Document)
        → get_version_metadata loads root model version ≡ ok d
        → names model (list_models root) ≡ true
          × IsSorted (list_models root)
          × (vs : List Word) × get_versions root model ≡ ok vs
          × names version vs ≡ true
          × IsSorted vs
    unfolding read_json version_dir list_versions list_models
    served-is_listed root model version d h = elim (Result-cases (model_dir root model)) [
      | inr (e, q) ↦ absurd (ground arith)
      | inl (m, q) ↦ elim (Option-cases (as_dir (child version m))) [
        | inl q' ↦ absurd (ground arith)
        | inr (f, q') ↦
            let found = child-names version m f q' in
            let same = sorted-names version (dir_names m) in
            (
              model_dir-names root model m q,
              list_models-IsSorted root,
              sorted (dir_names m),
              ground arith,
              ground arith,
              sorted-IsSorted (dir_names m),
            )
      ]
    ]
