-- ===== src/Prelude/Lists.antt =====
-- Lists measured and sliced by native numbers, under the library's names.
use Prim.Native.Nat.{ℕ, zero, suc, ◌+◌, ◌-◌, ◌≤◌, min}
use mathlib.Core.Bool.{Bool, true, false}
use mathlib.Core.List.{List, [], ◌∷◌, ◌++◌}
use mathlib.Core.Path.{◌≡◌, refl, ap}
use native.Mathlib.Omega.{arith}

module _ {ℓ} {A : Type ℓ} where
  abbrev pub length : List A → ℕ
  length [] = 0
  length (x ∷ xs) = suc (length xs)

  abbrev pub take : ℕ → List A → List A
  take zero xs = []
  take (suc n) [] = []
  take (suc n) (x ∷ xs) = x ∷ take n xs

  abbrev pub drop : ℕ → List A → List A
  drop zero xs = xs
  drop (suc n) [] = []
  drop (suc n) (x ∷ xs) = drop n xs

  pub length-append : (xs ys : List A) → length (xs ++ ys) ≡ length xs + length ys
  length-append [] ys = omega arith
  length-append (x ∷ xs) ys = omega (arith, length-append xs ys)

  pub length-take : (n : ℕ) (xs : List A) → length (take n xs) ≡ min n (length xs)
  length-take zero xs = omega arith
  length-take (suc n) [] = omega arith
  length-take (suc n) (x ∷ xs) = omega (arith, length-take n xs)

  pub length-drop : (n : ℕ) (xs : List A) → length (drop n xs) ≡ length xs - n
  length-drop zero xs = omega arith
  length-drop (suc n) [] = omega arith
  length-drop (suc n) (x ∷ xs) = omega (arith, length-drop n xs)

module _ {ℓ} {A : Type ℓ} where
  -- `drop` after `drop`, with the sum given as a variable because `m + n` is stuck.
  pub drop-drop : (m n k : ℕ) (xs : List A) → k ≡ m + n → drop n (drop m xs) ≡ drop k xs
  drop-drop zero n k xs e = ap (λ j. drop j xs) (let e' : n ≡ k = omega arith in e')
  drop-drop (suc m) zero zero xs e = absurd (omega arith)
  drop-drop (suc m) (suc n) zero xs e = absurd (omega arith)
  drop-drop (suc m) zero (suc k) [] e = refl
  drop-drop (suc m) (suc n) (suc k) [] e = refl
  drop-drop (suc m) zero (suc k) (x ∷ xs) e = drop-drop m zero k xs (omega arith)
  drop-drop (suc m) (suc n) (suc k) (x ∷ xs) e = drop-drop m (suc n) k xs (omega arith)

  -- A longer prefix is the shorter one and the piece behind it.
  pub take-add : (m n k : ℕ) (xs : List A) → k ≡ m + n → take k xs ≡ take m xs ++ take n (drop m xs)
  take-add zero n k xs e = ap (λ j. take j xs) (let e' : k ≡ n = omega arith in e')
  take-add (suc m) n zero xs e = absurd (omega arith)
  take-add (suc m) zero (suc k) [] e = refl
  take-add (suc m) (suc n) (suc k) [] e = refl
  take-add (suc m) n (suc k) (x ∷ xs) e = ap (◌∷◌ x) (take-add m n k xs (omega arith))

  pub drop-append : (xs ys : List A) → drop (length xs) (xs ++ ys) ≡ ys
  drop-append [] ys = refl
  drop-append (x ∷ xs) ys = drop-append xs ys

  pub take-append : (xs ys : List A) → take (length xs) (xs ++ ys) ≡ xs
  take-append [] ys = refl
  take-append (x ∷ xs) ys = ap (◌∷◌ x) (take-append xs ys)

  pub drop-nil : (n : ℕ) (xs : List A) → length xs ≤ n → drop n xs ≡ []
  drop-nil zero [] h = refl
  drop-nil zero (x ∷ xs) h = absurd (omega arith)
  drop-nil (suc n) [] h = refl
  drop-nil (suc n) (x ∷ xs) h = drop-nil n xs (omega arith)

abbrev pub is_nil {ℓ} : {A : Type ℓ} → List A → Bool
is_nil [] = true
is_nil (_ ∷ _) = false
