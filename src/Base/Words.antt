-- ===== src/Base/Words.antt =====
-- Strings, as the codes of their characters: equality, the order, and the lower case of ASCII.
use Prim.Native.Nat.{ℕ, ◌+◌}
use mathlib.Core.Path.{◌≡◌, refl}
use mathlib.Core.Bool.{Bool, true, false, ◌&&◌}
use mathlib.Core.List.{List, [], ◌∷◌, map}
use native.Mathlib.Omega.{arith}
use modelops_control_plane.Base.Tests.{if◌then◌else◌, leb, ltb, ◌==◌}

abbrev pub Word : Type 0
Word = List ℕ

abbrev pub lower_char : ℕ → ℕ
lower_char c = if leb 65 c && leb c 90 then c + 32 else c

abbrev pub lower : Word → Word
lower = map lower_char

abbrev pub word_eq : Word → Word → Bool
word_eq [] [] = true
word_eq (c ∷ cs) (d ∷ ds) = (c == d) && word_eq cs ds
word_eq _ _ = false

pub word_eq_refl : (w : Word) → word_eq w w ≡ true
word_eq_refl [] = refl
word_eq_refl (c ∷ cs) = let rest = word_eq_refl cs in ground arith

pub word_eq-true : (v w : Word) → word_eq v w ≡ true → v ≡ w
word_eq-true [] [] h = refl
word_eq-true [] (d ∷ ds) h = absurd (ground arith)
word_eq-true (c ∷ cs) [] h = absurd (ground arith)
word_eq-true (c ∷ cs) (d ∷ ds) h =
    let rest = word_eq-true cs ds in let same : c ≡ d = ground arith in ground arith

-- The order of strings.
abbrev pub word_leb : Word → Word → Bool
word_leb [] w = true
word_leb (c ∷ cs) [] = false
word_leb (c ∷ cs) (d ∷ ds) =
    let rest = word_leb cs ds in if ltb c d then true else if c == d then rest else false

pub word_leb_total : (v w : Word) → word_leb v w ≡ false → word_leb w v ≡ true
word_leb_total [] w h = absurd (ground arith)
word_leb_total (c ∷ cs) [] h = refl
word_leb_total (c ∷ cs) (d ∷ ds) h = let rest = word_leb_total cs ds in ground arith
