-- ===== src/Tests/Sorting.antt =====
-- Insertion sort, for the runs.
use sentanyl_core_readonly.Prelude.Distinct.{All, All-map}
use sentanyl_core_readonly.Prelude.Sorting.{
  IsSorted, IsStrictWeak, Permutes, Permutes-same, SortsTo, both, chained, none_left, swapped,
}
use sentanyl_core_readonly.Prelude.{
  Bool, Bool-cases, true, false, if◌then◌else◌, if_rule, List, [], ◌∷◌, ◌≡◌, inl, inr,
}

module _ {A : Type 0} (less : A → A → Bool) where
  abbrev put : A → List A → List A
  put x [] = x ∷ []
  put x (y ∷ ys) = let rest = put x ys in if less x y then x ∷ y ∷ ys else y ∷ rest

  abbrev pub sorting : List A → List A
  sorting [] = []
  sorting (x ∷ xs) = put x (sorting xs)

  put-Permutes : (x : A) (ys : List A) → Permutes (x ∷ ys) (put x ys)
  put-Permutes x [] = Permutes-same (x ∷ [])
  put-Permutes x (y ∷ ys) =
      if_rule (λ (l : List A). Permutes (x ∷ y ∷ ys) l) (less x y) (λ _. Permutes-same (x ∷ y ∷ ys))
        λ _. chained (swapped x y ys) (both y (put-Permutes x ys))

  sorting-Permutes : (xs : List A) → Permutes xs (sorting xs)
  sorting-Permutes [] = none_left
  sorting-Permutes (x ∷ xs) = chained (both x (sorting-Permutes xs)) (put-Permutes x (sorting xs))

  module _ (order : IsStrictWeak less) where
    put-All : (P : A → Type 0) (x : A) (ys : List A) → P x → All P ys → All P (put x ys)
    put-All P x [] p h = (p, tt)
    put-All P x (y ∷ ys) p h =
        if_rule (λ (l : List A). All P l) (less x y) (λ _. (p, (h.0, h.1)))
          λ _. (h.0, put-All P x ys p h.1)

    not_after : (x y : A) → less x y ≡ true → less y x ≡ false
    not_after x y h = elim (Bool-cases (less y x)) [
      | inl k ↦ let a = order.transitive x y x h k in let b = order.irreflexive x in absurd (cc)
      | inr k ↦ k
    ]

    put-IsSorted : (x : A) (ys : List A) → IsSorted less ys → IsSorted less (put x ys)
    put-IsSorted x [] h = (tt, tt)
    put-IsSorted x (y ∷ ys) h =
        if_rule (λ (l : List A). IsSorted less l) (less x y)
          (λ e.
            let n = not_after x y e in
            ((n, All-map _ _ (λ z k. order.cotransitive z y x k n) ys h.0), h))
          λ e. (put-All (λ z. less z y ≡ false) x ys e h.0, put-IsSorted x ys h.1)

    sorting-IsSorted : (xs : List A) → IsSorted less (sorting xs)
    sorting-IsSorted [] = tt
    sorting-IsSorted (x ∷ xs) = put-IsSorted x (sorting xs) (sorting-IsSorted xs)

  pub sorting-SortsTo : (xs : List A) → SortsTo less xs (sorting xs)
  sorting-SortsTo xs = record {
    permuted = sorting-Permutes xs;
    sorted = λ order. sorting-IsSorted order xs;
  }
