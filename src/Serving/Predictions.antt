-- ===== src/Serving/Predictions.antt =====
-- What a prediction says, and what it depends on.
use modelops_control_plane.Base.{
  ◌≡◌, refl, sym, subst, Option, none, some, List, [], ◌∷◌, All, ok, Result-cases, Option-cases,
  >>=-eq-ok, arith, inl, inr,
}
use modelops_control_plane.Serving.{
  Server, predict, predicted, PredictionResponse, FeatureType, Feature, feature_type, LoadedModel,
  Chance, lookup, field_value, predict_with, request_row, respond,
}

module _ {Value Cell : Type 0} (validate : FeatureType → Value → Option Cell) where
  -- A row that holds, for each feature in its place, the payload's value, validated at the type of
  -- the feature.
  abbrev pub IsRow : List Feature → List (Feature × Value) → List Cell → Type 0
  IsRow [] payload [] = Unit
  IsRow [] payload (cell ∷ row) = ⊥
  IsRow (f ∷ fs) payload [] = ⊥
  IsRow (f ∷ fs) payload (cell ∷ row) =
      ((v : Value) × lookup f payload ≡ some v × validate (feature_type f) v ≡ some cell)
      × IsRow fs payload row

  field_value-ok :
      (f : Feature) (found : Option Value) (cell : Cell)
      → field_value Value Cell validate f found ≡ ok cell
      → (v : Value) × found ≡ some v × validate (feature_type f) v ≡ some cell
  field_value-ok f none cell h = absurd (ground arith)
  field_value-ok f (some v) cell h = (v, refl, ground arith)

  request_row-IsRow :
      (fs : List Feature) (payload : List (Feature × Value)) (row : List Cell)
      → request_row Value Cell validate fs payload ≡ ok row
      → IsRow fs payload row
  unfolding request_row
  request_row-IsRow [] payload [] h = tt
  request_row-IsRow [] payload (cell ∷ row) h = absurd (ground arith)
  request_row-IsRow (f ∷ fs) payload row h =
      let (cell, q, rest) = >>=-eq-ok (field_value Value Cell validate f (lookup f payload)) _ h in
      let (cells, q', last) = >>=-eq-ok (request_row Value Cell validate fs payload) _ rest in
      let here = field_value-ok f (lookup f payload) cell q in
      let there = request_row-IsRow fs payload cells q' in
      let e : row ≡ cell ∷ cells = ground arith in
      subst (λ r. IsRow (f ∷ fs) payload r) (sym e) (here, there)

  -- Where a prediction is answered, a model is loaded, the row given to its pipeline holds exactly the
  -- model's own features, each one present in the payload and valid, the answer is the pipeline's, and
  -- it names the process's own model and version.
  pub predicted-IsRow :
      (server : Server Value Cell) (payload : List (Feature × Value)) (chance : Chance)
      (p : PredictionResponse)
      → (respond Value Cell validate server (predict payload chance)).0 ≡ predicted p
      → (m : LoadedModel Value Cell) × (row : List Cell) × server.loaded_model ≡ some m
        × IsRow m.features payload row
        × m.pipeline row ≡ some (p.prediction, p.fraud_probability)
        × p.model_name ≡ server.settings.model_name
        × p.model_version ≡ server.settings.model_version
  unfolding respond predict_with
  predicted-IsRow server payload chance p h = elim (Option-cases server.loaded_model) [
    | inl q ↦ absurd (ground arith)
    | inr (m, q) ↦ elim (Result-cases (request_row Value Cell validate m.features payload)) [
      | inr (r, q') ↦ absurd (ground arith)
      | inl (row, q') ↦
          let is_row = request_row-IsRow m.features payload row q' in
          (m, row, q, is_row, ground arith, ground arith, ground arith)
    ]
  ]

  -- Two payloads that agree on some features.
  abbrev pub AgreeOn : List Feature → List (Feature × Value) → List (Feature × Value) → Type 0
  AgreeOn fs payload payload' = All (λ f. lookup f payload ≡ lookup f payload') fs

  request_row-AgreeOn :
      (fs : List Feature) (payload payload' : List (Feature × Value))
      → AgreeOn fs payload payload'
      → request_row Value Cell validate fs payload ≡ request_row Value Cell validate fs payload'
  unfolding request_row
  request_row-AgreeOn [] payload payload' h = refl
  request_row-AgreeOn (f ∷ fs) payload payload' h =
      let here = h.0 in
      let there = request_row-AgreeOn fs payload payload' h.1 in rw here (rw there refl)

  -- A model reads only its own features: two payloads that agree on them get the same answer,
  -- whichever other keys they have.
  pub predict-AgreeOn :
      (server : Server Value Cell) (m : LoadedModel Value Cell)
      (payload payload' : List (Feature × Value)) (chance : Chance)
      → server.loaded_model ≡ some m
      → AgreeOn m.features payload payload'
      → respond Value Cell validate server (predict payload chance)
        ≡ respond Value Cell validate server (predict payload' chance)
  unfolding respond predict_with
  predict-AgreeOn server m payload payload' chance loaded h =
      let same = request_row-AgreeOn m.features payload payload' h in ground arith
