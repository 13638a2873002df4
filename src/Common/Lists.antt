-- ===== src/Common/Lists.antt =====
-- Lists measured and indexed by native numbers, under the library's names.
use Prim.Native.Nat.{ℕ, zero, suc, ◌+◌, ◌-◌, ◌≤◌, ◌<◌}
use mathlib.Core.Path.{◌≡◌, refl, ap, ap₂}
use mathlib.Core.List.{List, [], ◌∷◌, ◌++◌}
use mathlib.Core.Logic.{◌⊎◌, inl, inr}
use mathlib.Core.Option.{Option, none, some}
use native.Mathlib.Omega.{arith}

module _ {ℓ} {A : Type ℓ} where
  abbrev pub length : List A → ℕ
  length [] = 0
  length (x ∷ xs) = suc (length xs)

  abbrev pub get_elem? : List A → ℕ → Option A
  get_elem? [] i = none
  get_elem? (x ∷ xs) zero = some x
  get_elem? (x ∷ xs) (suc i) = get_elem? xs i

  abbrev pub get_or : List A → ℕ → A → A
  get_or [] i d = d
  get_or (x ∷ xs) zero d = x
  get_or (x ∷ xs) (suc i) d = get_or xs i d

  abbrev pub take : ℕ → List A → List A
  take zero xs = []
  take (suc n) [] = []
  take (suc n) (x ∷ xs) = x ∷ take n xs

  abbrev pub drop : ℕ → List A → List A
  drop zero xs = xs
  drop (suc n) [] = []
  drop (suc n) (x ∷ xs) = drop n xs

  abbrev pub replicate : ℕ → A → List A
  replicate zero x = []
  replicate (suc n) x = x ∷ replicate n x

  pub length-replicate : (n : ℕ) (x : A) → length (replicate n x) ≡ n
  length-replicate zero x = refl
  length-replicate (suc n) x = omega (arith, length-replicate n x)

  pub drop-replicate :
      (k n : ℕ) (x : A) (ys : List A)
      → k ≤ n
      → drop k (replicate n x ++ ys) ≡ replicate (n - k) x ++ ys
  drop-replicate zero n x ys le = let e : n - 0 ≡ n = omega arith in rw e refl
  drop-replicate (suc k) zero x ys le = absurd (omega arith)
  drop-replicate (suc k) (suc n) x ys le =
      let e : suc n - suc k ≡ n - k = omega arith in rw e (drop-replicate k n x ys (omega arith))

  pub length-take : (n : ℕ) (xs : List A) → n ≤ length xs → length (take n xs) ≡ n
  length-take zero xs h = refl
  length-take (suc n) [] h = absurd (omega arith)
  length-take (suc n) (x ∷ xs) h = omega (arith, length-take n xs (omega arith))

  pub length-drop : (n : ℕ) (xs : List A) → length (drop n xs) ≡ length xs - n
  length-drop zero xs = omega arith
  length-drop (suc n) [] = omega arith
  length-drop (suc n) (x ∷ xs) = omega (arith, length-drop n xs)

  -- All of a list, and the front of two.
  pub take-length : (n : ℕ) (xs : List A) → n ≡ length xs → take n xs ≡ xs
  take-length zero [] e = refl
  take-length zero (x ∷ xs) e = absurd (omega arith)
  take-length (suc n) [] e = absurd (omega arith)
  take-length (suc n) (x ∷ xs) e = ap (λ (ys : List A). x ∷ ys) (take-length n xs (omega arith))

  pub drop-append : (n : ℕ) (xs ys : List A) → n ≡ length xs → drop n (xs ++ ys) ≡ ys
  drop-append zero [] ys e = refl
  drop-append zero (x ∷ xs) ys e = absurd (omega arith)
  drop-append (suc n) [] ys e = absurd (omega arith)
  drop-append (suc n) (x ∷ xs) ys e = drop-append n xs ys (omega arith)

  pub drop-length : (n : ℕ) (xs : List A) → n ≡ length xs → drop n xs ≡ []
  drop-length zero [] e = refl
  drop-length zero (x ∷ xs) e = absurd (omega arith)
  drop-length (suc n) [] e = refl
  drop-length (suc n) (x ∷ xs) e = drop-length n xs (omega arith)

  pub take-append : (n : ℕ) (xs ys : List A) → n ≡ length xs → take n (xs ++ ys) ≡ xs
  take-append zero [] ys e = refl
  take-append zero (x ∷ xs) ys e = absurd (omega arith)
  take-append (suc n) [] ys e = absurd (omega arith)
  take-append (suc n) (x ∷ xs) ys e =
      ap (λ (zs : List A). x ∷ zs) (take-append n xs ys (omega arith))

  pub length-append : (xs ys : List A) → length (xs ++ ys) ≡ length xs + length ys
  length-append [] ys = omega arith
  length-append (x ∷ xs) ys = omega (arith, length-append xs ys)

  pub get_or-append_lt :
      (xs ys : List A) (i : ℕ) (d : A) → i < length xs → get_or (xs ++ ys) i d ≡ get_or xs i d
  get_or-append_lt [] ys i d h = absurd (omega arith)
  get_or-append_lt (x ∷ xs) ys zero d h = refl
  get_or-append_lt (x ∷ xs) ys (suc i) d h = get_or-append_lt xs ys i d (omega arith)

  pub get_or-append_length :
      (xs : List A) (y : A) (ys : List A) (d : A) → get_or (xs ++ y ∷ ys) (length xs) d ≡ y
  get_or-append_length [] y ys d = refl
  get_or-append_length (x ∷ xs) y ys d = get_or-append_length xs y ys d

  -- An element of a list with one more at its end is the last one or stands in the front.
  pub get_elem?-snoc :
      (xs : List A) (y : A) (i : ℕ) (x : A)
      → get_elem? (xs ++ y ∷ []) i ≡ some x
      → ((i < length xs) × (get_elem? xs i ≡ some x)) ⊎ ((i ≡ length xs) × (x ≡ y))
  get_elem?-snoc [] y zero x e = inr (refl, cc (e))
  get_elem?-snoc [] y (suc i) x e = cc (e)
  get_elem?-snoc (z ∷ xs) y zero x e = inl (omega arith, e)
  get_elem?-snoc (z ∷ xs) y (suc i) x e = elim (get_elem?-snoc xs y i x e) [
    | inl front ↦ inl (omega (arith, front.0), front.1)
    | inr last ↦ inr (omega (arith, last.0), last.1)
  ]

  pub get_elem?-lt : (xs : List A) (i : ℕ) (x : A) → get_elem? xs i ≡ some x → i < length xs
  get_elem?-lt [] i x e = cc (e)
  get_elem?-lt (y ∷ xs) zero x e = omega arith
  get_elem?-lt (y ∷ xs) (suc i) x e = omega (arith, get_elem?-lt xs i x e)

-- Two lists of one length with the same elements.
pub eq_of_get_or :
    (xs ys : List ℕ)
    → length xs ≡ length ys
    → ((j : ℕ) → j < length xs → get_or xs j 0 ≡ get_or ys j 0)
    → xs ≡ ys
eq_of_get_or [] [] e h = refl
eq_of_get_or [] (y ∷ ys) e h = absurd (omega (arith, e))
eq_of_get_or (x ∷ xs) [] e h = absurd (omega (arith, e))
eq_of_get_or (x ∷ xs) (y ∷ ys) e h =
    ap₂ (λ (z : ℕ) (zs : List ℕ). z ∷ zs) (h 0 (omega arith))
      (eq_of_get_or xs ys (omega (arith, e)) (λ j hj. h (suc j) (omega arith)))
