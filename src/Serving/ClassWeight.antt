-- ===== src/Serving/ClassWeight.antt =====
-- `normalize_class_weight` of backend/app/serving/model_loader.py, with the strings that JSON makes of
-- a dict's integer keys. A digit is an ASCII one.
pub mod Roundtrip
use modelops_control_plane.Base.{
  ℕ, zero, suc, ◌+◌, ◌-◌, ◌*◌, ◌/◌, ◌%◌, ◌<◌, ◌≤◌, ◌≡◌, refl, sym, ap, ◌∙◌, Bool, true, false, ◌&&◌,
  Option, none, some, List, [], ◌∷◌, ◌++◌, map, all, any, Result, ok, err, ◌>>=◌, if◌then◌else◌,
  ltb, leb, ◌==◌, ==_refl, arith, Word, Bool-cases, inl, inr,
}

pub data ℤ : Type 0 where
  pos negsuc : ℕ → ℤ

abbrev pub int_eq : ℤ → ℤ → Bool
int_eq (pos m) (pos n) = m == n
int_eq (negsuc m) (negsuc n) = m == n
int_eq _ _ = false

-- A value of a hyperparameter: a dict with the keys that JSON gives, or with integer keys, or no dict.
pub data ClassWeight (V : Type 0) : Type 0 where
  str_keyed : List (Word × V) → ClassWeight V
  int_keyed : List (ℤ × V) → ClassWeight V
  no_dict : V → ClassWeight V

abbrev pub is_digit : ℕ → Bool
is_digit c = leb 48 c && leb c 57

-- `k.isdigit()`
abbrev pub is_digits : Word → Bool
is_digits [] = false
is_digits (c ∷ cs) = is_digit c && all is_digit cs

-- `k.lstrip("-")`
abbrev pub strip_dashes : Word → Word
strip_dashes [] = []
strip_dashes (c ∷ cs) = let rest = strip_dashes cs in if c == 45 then rest else c ∷ cs

abbrev pub is_int_key : Word → Bool
is_int_key k = is_digits (strip_dashes k)

abbrev pub value : ℕ → Word → ℕ
value n [] = n
value n (c ∷ cs) = value (10 * n + (c - 48)) cs

abbrev pub minus : ℕ → ℤ
minus zero = pos 0
minus (suc n) = negsuc n

-- `int(k)`; `none` is a ValueError.
abbrev pub parse_int : Word → Option ℤ
parse_int [] = none
parse_int (c ∷ cs) =
    if c == 45
    then (if is_digits cs then some (minus (value 0 cs)) else none)
    else if is_digits (c ∷ cs)
    then some (pos (value 0 (c ∷ cs)))
    else none

-- `str(n)`: as many steps as there are digits, which are at most n + 1.
abbrev pub digits : ℕ → ℕ → Word
digits zero n = []
digits (suc steps) n =
    let rest = digits steps (n / 10) in
    if ltb n 10 then (48 + n) ∷ [] else rest ++ ((48 + n % 10) ∷ [])

abbrev pub str_of_int : ℤ → Word
str_of_int (pos n) = digits (suc n) n
str_of_int (negsuc n) = 45 ∷ digits (suc (suc n)) (suc n)

module _ {V : Type 0} where
  -- A key of a dict keeps its place, and takes the last value that it is given.
  abbrev pub put : ℤ → V → List (ℤ × V) → List (ℤ × V)
  put k v [] = (k, v) ∷ []
  put k v ((j, u) ∷ rest) =
      let more = put k v rest in if int_eq j k then (j, v) ∷ rest else (j, u) ∷ more

  -- `{int(k): v for k, v in value.items()}`, after the entries that are there.
  unfoldable pub int_items : List (Word × V) → List (ℤ × V) → Option (List (ℤ × V))
  int_items [] made = some made
  int_items ((k, v) ∷ rest) made = elim (parse_int k) [
    | none ↦ none
    | some i ↦ int_items rest (put i v made)
  ]

  -- `none` is a ValueError.
  unfoldable pub normalize_class_weight : ClassWeight V → Option (ClassWeight V)
  normalize_class_weight (str_keyed items) =
      let made = int_items items [] in
      if all (λ kv. is_int_key kv.0) items
      then elim made [ none ↦ none | some ints ↦ some (int_keyed ints) ]
      else some (str_keyed items)
  normalize_class_weight (int_keyed items) = some (int_keyed items)
  normalize_class_weight (no_dict v) = some (no_dict v)

  -- What `json.load` gives for what `json.dump` writes of a dict with integer keys.
  abbrev pub through_json : List (ℤ × V) → ClassWeight V
  through_json items = str_keyed (map (λ kv. (str_of_int kv.0, kv.1)) items)
