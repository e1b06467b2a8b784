-- ===== src/Prelude/Lists.antt =====
-- Lists measured and indexed by native numbers, under the library's names, and the operations of
-- JavaScript arrays that the program uses.
use Prim.Native.Nat.{ℕ, zero, suc, ◌+◌, ◌-◌, ◌≤◌, ◌<◌, min}
use mathlib.Core.Path.{◌≡◌, refl, ap}
use mathlib.Core.List.{List, [], ◌∷◌, ◌++◌}
use mathlib.Core.Option.{Option, none, some}
use native.Mathlib.Omega.{arith}
use stream_machine.Prelude.Int.{ℤ, pos, negsuc}

-- How a.slice reads one of its bounds: from the end if negative, and no further than the ends.
abbrev pub slice_bound : ℕ → ℤ → ℕ
slice_bound n (pos k) = min k n
slice_bound n (negsuc k) = n - suc k

module _ {ℓ} {A : Type ℓ} where
  abbrev pub length : List A → ℕ
  length [] = 0
  length (x ∷ xs) = suc (length xs)

  abbrev pub get_elem? : List A → ℕ → Option A
  get_elem? [] i = none
  get_elem? (x ∷ xs) zero = some x
  get_elem? (x ∷ xs) (suc i) = get_elem? xs i

  abbrev pub take : ℕ → List A → List A
  take zero xs = []
  take (suc n) [] = []
  take (suc n) (x ∷ xs) = x ∷ take n xs

  abbrev pub drop : ℕ → List A → List A
  drop zero xs = xs
  drop (suc n) [] = []
  drop (suc n) (x ∷ xs) = drop n xs

  -- a[a.length - 1]
  abbrev pub last? : List A → Option A
  last? [] = none
  last? (x ∷ []) = some x
  last? (x ∷ y ∷ ys) = last? (y ∷ ys)

  -- a[0]
  abbrev pub head? : List A → Option A
  head? [] = none
  head? (x ∷ xs) = some x

  -- a[i]: `undefined` below zero and past the end.
  abbrev pub at_index : List A → ℤ → Option A
  at_index xs (pos i) = get_elem? xs i
  at_index xs (negsuc i) = none

module _ {ℓ} {A : Type ℓ} where
  -- a.slice(start, end)
  abbrev pub slice : List A → ℤ → ℤ → List A
  slice xs start end =
      let i = slice_bound (length xs) start in take (slice_bound (length xs) end - i) (drop i xs)

  pub length-append : (xs ys : List A) → length (xs ++ ys) ≡ length xs + length ys
  length-append [] ys = omega arith
  length-append (x ∷ xs) ys = omega (arith, length-append xs ys)

  pub length-take : (n : ℕ) (xs : List A) → length (take n xs) ≡ min n (length xs)
  length-take zero xs = omega arith
  length-take (suc n) [] = omega arith
  length-take (suc n) (x ∷ xs) = omega (arith, length-take n xs)

  pub length-drop : (n : ℕ) (xs : List A) → length (drop n xs) ≡ length xs - n
  length-drop zero xs = omega arith
  length-drop (suc n) [] = omega arith
  length-drop (suc n) (x ∷ xs) = omega (arith, length-drop n xs)

  pub get_elem?-none : (xs : List A) (i : ℕ) → length xs ≤ i → get_elem? xs i ≡ none
  get_elem?-none [] i h = refl
  get_elem?-none (x ∷ xs) zero h = elim h [ ]
  get_elem?-none (x ∷ xs) (suc i) h = get_elem?-none xs i (omega arith)

  pub get_elem?-some : (xs : List A) (i : ℕ) → i < length xs → (x : A) × (get_elem? xs i ≡ some x)
  get_elem?-some [] i h = elim h [ ]
  get_elem?-some (x ∷ xs) zero h = (x, refl)
  get_elem?-some (x ∷ xs) (suc i) h = get_elem?-some xs i (omega arith)

  pub slice_within :
      (xs : List A) (i j : ℕ)
      → i ≤ j
      → j ≤ length xs
      → slice xs (pos i) (pos j) ≡ take (j - i) (drop i xs)
  slice_within xs i j h k =
      let e : min i (length xs) ≡ i = omega arith in
      let e' : min j (length xs) ≡ j = omega arith in rw (e, e')

  pub last?-drop : (i : ℕ) (xs : List A) → i < length xs → last? (drop i xs) ≡ last? xs
  last?-drop zero xs h = refl
  last?-drop (suc i) [] h = elim h [ ]
  last?-drop (suc i) (x ∷ []) h = absurd (omega arith)
  last?-drop (suc i) (x ∷ y ∷ ys) h = last?-drop i (y ∷ ys) (omega arith)

  pub take-last? :
      (k : ℕ) (xs : List A) (x : A)
      → length xs ≡ suc k
      → last? xs ≡ some x
      → xs ≡ take k xs ++ x ∷ []
  take-last? k [] x h l = absurd (omega arith)
  take-last? zero (y ∷ []) x h l = ground arith
  take-last? zero (y ∷ z ∷ zs) x h l = absurd (omega arith)
  take-last? (suc k) (y ∷ []) x h l = absurd (omega arith)
  take-last? (suc k) (y ∷ z ∷ zs) x h l = ap (λ t. y ∷ t) (take-last? k (z ∷ zs) x (omega arith) l)

  pub cons_of_pos_length :
      (xs : List A) → 0 < length xs → (x : A) × (rest : List A) × (xs ≡ x ∷ rest)
  cons_of_pos_length [] h = elim h [ ]
  cons_of_pos_length (x ∷ rest) h = (x, rest, refl)
