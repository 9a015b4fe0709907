-- ===== src/Prelude/Sorting.antt =====
-- What `sort.Slice` relies on and what it promises.
use mathlib.Core.Bool.{Bool, true, false}
use mathlib.Core.List.{List, [], ◌∷◌}
use mathlib.Core.Path.{◌≡◌}
use sentanyl_core_readonly.Prelude.Distinct.{All}

-- A comparison that sorts: a strict weak order.
pub record IsStrictWeak {A : Type 0} (less : A → A → Bool) : Type 0 where
  pub irreflexive : (x : A) → less x x ≡ false
  pub transitive : (x y z : A) → less x y ≡ true → less y z ≡ true → less x z ≡ true
  pub cotransitive : (x y z : A) → less x y ≡ false → less y z ≡ false → less x z ≡ false

-- No item is less than one before it.
abbrev pub IsSorted : {A : Type 0} → (A → A → Bool) → List A → Type 0
IsSorted less [] = Unit
IsSorted less (x ∷ xs) = All (λ y. less y x ≡ false) xs × IsSorted less xs

-- The same items, each as often, in any order.
pub data Permutes {A : Type 0} : List A → List A → Type 0 where
  none_left : Permutes [] []
  both : (x : A) {xs ys : List A} → Permutes xs ys → Permutes (x ∷ xs) (x ∷ ys)
  swapped : (x y : A) (xs : List A) → Permutes (x ∷ y ∷ xs) (y ∷ x ∷ xs)
  chained : {xs ys zs : List A} → Permutes xs ys → Permutes ys zs → Permutes xs zs

pub Permutes-same : {A : Type 0} (xs : List A) → Permutes xs xs
Permutes-same [] = none_left
Permutes-same (x ∷ xs) = both x (Permutes-same xs)

-- The result has the same items and, for a strict weak order, is sorted.
pub record SortsTo {A : Type 0} (less : A → A → Bool) (xs ys : List A) : Type 0 where
  pub permuted : Permutes xs ys
  pub sorted : IsStrictWeak less → IsSorted less ys
