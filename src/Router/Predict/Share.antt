-- ===== src/Router/Predict/Share.antt =====
-- The share of the requests that each version gets: of the draws below the total of the weights, a
-- version is chosen by as many as its weight.
use modelops_control_plane.Base.{
  ℕ, zero, suc, ◌+◌, ◌-◌, ◌<◌, ◌≡◌, refl, ap, ◌∙◌, Bool, false, Option, none, some, List, [], ◌∷◌,
  ◌==◌, arith, if◌then◌else◌,
}
use modelops_control_plane.Store.{Target}
use modelops_control_plane.Router.{sum_weights}
use modelops_control_plane.Router.Predict.{choose_target}

-- How many numbers below a bound pass a test.
abbrev pub tally_below : ℕ → (ℕ → Bool) → ℕ
tally_below zero p = 0
tally_below (suc n) p = tally_below n p + (if p n then 1 else 0)

abbrev pub is_version : ℕ → Option Target → Bool
is_version v none = false
is_version v (some t) = t.version == v

-- The weights of the targets of a version.
abbrev pub version_weight : ℕ → List Target → ℕ
version_weight v [] = 0
version_weight v (t ∷ ts) = (if t.version == v then t.weight else 0) + version_weight v ts

tally_below-ext :
    (n : ℕ) (p q : ℕ → Bool) → ((i : ℕ) → i < n → p i ≡ q i) → tally_below n p ≡ tally_below n q
tally_below-ext zero p q h = refl
tally_below-ext (suc n) p q h =
    let rest = tally_below-ext n p q (λ i lt. h i (omega (arith, lt))) in
    let here = h n (omega arith) in ground arith

tally_below-add :
    (a b : ℕ) (p : ℕ → Bool)
    → tally_below (a + b) p ≡ tally_below a p + tally_below b (λ i. p (a + i))
tally_below-add a zero p =
    let e : a + 0 ≡ a = omega arith in ap (λ n. tally_below n p) e ∙ omega arith
tally_below-add a (suc b) p =
    let e : a + suc b ≡ suc (a + b) = omega arith in
    let rest = tally_below-add a b p in ap (λ n. tally_below n p) e ∙ omega (arith, rest)

tally_below-const : (n : ℕ) (b : Bool) → tally_below n (λ i. b) ≡ (if b then n else 0)
tally_below-const zero b = ground arith
tally_below-const (suc n) b = let rest = tally_below-const n b in ground arith

picks_first :
    (v : ℕ) (t u : Target) (ts : List Target) (draw : ℕ)
    → draw < t.weight
    → is_version v (choose_target (t ∷ u ∷ ts) draw) ≡ (t.version == v)
unfolding choose_target
picks_first v t u ts draw lt = ground arith

picks_later :
    (v : ℕ) (t u : Target) (ts : List Target) (i : ℕ)
    → is_version v (choose_target (t ∷ u ∷ ts) (t.weight + i))
      ≡ is_version v (choose_target (u ∷ ts) i)
unfolding choose_target
picks_later v t u ts i =
    let e : t.weight + i - t.weight ≡ i = omega arith in
    let same = ap (λ n. choose_target (u ∷ ts) n) e in ground arith

-- Of the draws below the total of the weights, exactly as many choose a version as the version's
-- weight: its share of the requests is its share of the weights, and a weight of 0 is never chosen.
pub choose_target-share :
    (v : ℕ) (ts : List Target)
    → tally_below (sum_weights ts) (λ draw. is_version v (choose_target ts draw))
      ≡ version_weight v ts
unfolding choose_target
choose_target-share v [] = refl
choose_target-share v (t ∷ []) =
    let e : t.weight + 0 ≡ t.weight = omega arith in
    ap (λ n. tally_below n (λ draw. t.version == v)) e
    ∙ tally_below-const t.weight (t.version == v)
    ∙ omega arith
choose_target-share v (t ∷ u ∷ ts) =
    let rest = choose_target-share v (u ∷ ts) in
    let w = t.weight in
    let total = sum_weights (u ∷ ts) in
    let here = tally_below-ext w _ (λ draw. t.version == v) (λ i lt. picks_first v t u ts i lt) in
    let there = tally_below-ext total _ _ (λ i lt. picks_later v t u ts i) in
    tally_below-add w total (λ draw. is_version v (choose_target (t ∷ u ∷ ts) draw))
    ∙ omega (arith, here, there, tally_below-const w (t.version == v), rest)
