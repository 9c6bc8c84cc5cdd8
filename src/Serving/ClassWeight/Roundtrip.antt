-- ===== src/Serving/ClassWeight/Roundtrip.antt =====
-- Integers through their strings, and a dict with integer keys through JSON.
use modelops_control_plane.Base.{
  ℕ, zero, suc, ◌+◌, ◌-◌, ◌*◌, ◌/◌, ◌%◌, ◌<◌, ◌≤◌, ◌≡◌, refl, sym, ap, ◌∙◌, Bool, true, false, some,
  List, [], ◌∷◌, ◌++◌, map, all, any, All, ltb, arith, Word, Bool-cases, inl, inr,
}
use modelops_control_plane.Serving.ClassWeight.{
  ℤ, pos, negsuc, int_eq, int_keyed, is_digit, is_digits, strip_dashes, is_int_key, value, minus,
  parse_int, digits, str_of_int, put, int_items, normalize_class_weight, through_json,
}

value-snoc : (n : ℕ) (w : Word) (c : ℕ) → value n (w ++ (c ∷ [])) ≡ 10 * value n w + (c - 48)
value-snoc n [] c = refl
value-snoc n (d ∷ ds) c = value-snoc (10 * n + (d - 48)) ds c

small_digits : (steps n : ℕ) → ltb n 10 ≡ true → digits (suc steps) n ≡ (48 + n) ∷ []
small_digits steps n h = ground arith

large_digits :
    (steps n : ℕ)
    → ltb n 10 ≡ false
    → digits (suc steps) n ≡ digits steps (n / 10) ++ ((48 + n % 10) ∷ [])
large_digits steps n h = ground arith

value-digits : (steps n : ℕ) → n < steps → value 0 (digits steps n) ≡ n
value-digits zero n h = absurd (omega (arith, h))
value-digits (suc steps) n h = elim (Bool-cases (ltb n 10)) [
  | inl small ↦ ap (value 0) (small_digits steps n small) ∙ omega arith
  | inr large ↦
      let above : 10 ≤ n = ground arith in
      let rest = value-digits steps (n / 10) (omega (arith, h, above)) in
      let last = value-snoc 0 (digits steps (n / 10)) (48 + n % 10) in
      ap (value 0) (large_digits steps n large) ∙ omega (arith, rest, last)
]

all-snoc :
    (w : Word) (c : ℕ)
    → all is_digit w ≡ true
    → is_digit c ≡ true
    → (all is_digit (w ++ (c ∷ [])) ≡ true) × (is_digits (w ++ (c ∷ [])) ≡ true)
all-snoc [] c h h' = (ground arith, ground arith)
all-snoc (d ∷ ds) c h h' = let rest = all-snoc ds c in (ground arith, ground arith)

digits-all : (steps n : ℕ) → all is_digit (digits steps n) ≡ true
digits-all zero n = refl
digits-all (suc steps) n = elim (Bool-cases (ltb n 10)) [
  | inl small ↦
      let few : n < 10 = ground arith in
      ap (all is_digit) (small_digits steps n small) ∙ ground arith
  | inr large ↦
      let digit : is_digit (48 + n % 10) ≡ true = ground arith in
      ap (all is_digit) (large_digits steps n large)
      ∙ (all-snoc (digits steps (n / 10)) (48 + n % 10) (digits-all steps (n / 10)) digit).0
]

digits-is_digits : (steps n : ℕ) → is_digits (digits (suc steps) n) ≡ true
digits-is_digits steps n = elim (Bool-cases (ltb n 10)) [
  | inl small ↦
      let few : n < 10 = ground arith in ap is_digits (small_digits steps n small) ∙ ground arith
  | inr large ↦
      let digit : is_digit (48 + n % 10) ≡ true = ground arith in
      ap is_digits (large_digits steps n large)
      ∙ (all-snoc (digits steps (n / 10)) (48 + n % 10) (digits-all steps (n / 10)) digit).1
]

parse_digits : (w : Word) → is_digits w ≡ true → parse_int w ≡ some (pos (value 0 w))
parse_digits [] h = absurd (ground arith)
parse_digits (c ∷ cs) h = ground arith

strip_digits : (w : Word) → is_digits w ≡ true → strip_dashes w ≡ w
strip_digits [] h = refl
strip_digits (c ∷ cs) h = ground arith

-- The string of an integer is an integer key, and is read as the integer.
pub parse_int-str_of_int :
    (k : ℤ) → (parse_int (str_of_int k) ≡ some k) × (is_int_key (str_of_int k) ≡ true)
parse_int-str_of_int (pos n) =
    let w = digits (suc n) n in
    let shape = digits-is_digits n n in
    let read = value-digits (suc n) n (omega arith) in
    (
      parse_digits w shape ∙ ap (λ m. some (pos m)) read,
      ap is_digits (strip_digits w shape) ∙ shape,
    )
parse_int-str_of_int (negsuc n) =
    let w = digits (suc (suc n)) (suc n) in
    let shape = digits-is_digits (suc n) (suc n) in
    let read = value-digits (suc (suc n)) (suc n) (omega arith) in
    let parsed : parse_int (45 ∷ w) ≡ some (minus (value 0 w)) = ground arith in
    (parsed ∙ ap (λ m. some (minus m)) read, ap is_digits (strip_digits w shape) ∙ shape)

module _ {V : Type 0} where
  abbrev pub key_in : ℤ → List (ℤ × V) → Bool
  key_in k = any (λ kv. int_eq kv.0 k)

  -- A dict has each key once.
  abbrev pub IsDict : List (ℤ × V) → Type 0
  IsDict [] = Unit
  IsDict ((k, v) ∷ rest) = All (λ kv. int_eq k kv.0 ≡ false) rest × IsDict rest

  put-new :
      (k : ℤ) (v : V) (made : List (ℤ × V))
      → key_in k made ≡ false
      → put k v made ≡ made ++ ((k, v) ∷ [])
  put-new k v [] h = refl
  put-new k v ((j, u) ∷ rest) h = let more = put-new k v rest in ground arith

  key_in-snoc :
      (k j : ℤ) (v : V) (made : List (ℤ × V))
      → key_in k made ≡ false
      → int_eq j k ≡ false
      → key_in k (made ++ ((j, v) ∷ [])) ≡ false
  key_in-snoc k j v [] h h' = ground arith
  key_in-snoc k j v ((i, u) ∷ rest) h h' = let more = key_in-snoc k j v rest in ground arith

  snoc-append : (xs ys : List (ℤ × V)) (x : ℤ × V) → (xs ++ (x ∷ [])) ++ ys ≡ xs ++ (x ∷ ys)
  snoc-append [] ys x = refl
  snoc-append (z ∷ zs) ys x = ap (λ l. z ∷ l) (snoc-append zs ys x)

  append_nil : (xs : List (ℤ × V)) → xs ++ [] ≡ xs
  append_nil [] = refl
  append_nil (x ∷ xs) = ap (λ l. x ∷ l) (append_nil xs)

  still_new :
      (k : ℤ) (v : V) (made items : List (ℤ × V))
      → All (λ kv. key_in kv.0 made ≡ false) items
      → All (λ kv. int_eq k kv.0 ≡ false) items
      → All (λ kv. key_in kv.0 (made ++ ((k, v) ∷ [])) ≡ false) items
  still_new k v made [] h h' = tt
  still_new k v made ((j, u) ∷ items) h h' =
      (key_in-snoc j k v made h.0 h'.0, still_new k v made items h.1 h'.1)

  int_items-json :
      (items made : List (ℤ × V))
      → All (λ kv. key_in kv.0 made ≡ false) items
      → IsDict items
      → int_items (map (λ kv. (str_of_int kv.0, kv.1)) items) made ≡ some (made ++ items)
  unfolding int_items
  int_items-json [] made new dict = ap some (sym (append_nil made))
  int_items-json ((k, v) ∷ items) made new dict =
      let read = (parse_int-str_of_int k).0 in
      let placed = put-new k v made new.0 in
      let rest =
        int_items-json items (made ++ ((k, v) ∷ [])) (still_new k v made items new.1 dict.0)
          dict.1 in
      let joined = snoc-append made items (k, v) in ground arith

  keys_ok :
      (items : List (ℤ × V))
      → all (λ (kv : Word × V). is_int_key kv.0) (map (λ kv. (str_of_int kv.0, kv.1)) items) ≡ true
  keys_ok [] = refl
  keys_ok ((k, v) ∷ items) =
      let here = (parse_int-str_of_int k).1 in let rest = keys_ok items in ground arith

  all_new : (items : List (ℤ × V)) → All (λ kv. key_in kv.0 [] ≡ false) items
  all_new [] = tt
  all_new (kv ∷ items) = (refl, all_new items)

  -- A dict with integer keys, positive, zero or negative, that goes through JSON, where its keys become
  -- strings, is given back as it was, in its order.
  pub normalize_class_weight-through_json :
      (items : List (ℤ × V))
      → IsDict items
      → normalize_class_weight (through_json items) ≡ some (int_keyed items)
  unfolding normalize_class_weight
  normalize_class_weight-through_json items dict =
      let keys = keys_ok items in
      let made = int_items-json items [] (all_new items) dict in ground arith
