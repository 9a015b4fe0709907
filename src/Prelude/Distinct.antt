-- ===== src/Prelude/Distinct.antt =====
-- Items that differ from one another, and how a loop that keeps a set of what it has seen finds
-- out.
use mathlib.Core.Bool.{Bool, true, false, ◌||◌}
use mathlib.Core.List.{List, [], ◌∷◌, ◌++◌}
use mathlib.Core.Logic.{◌≢◌, ◌↔◌, ◌⊎◌, inl, inr}
use mathlib.Core.Path.{◌≡◌, refl, subst}
use native.Mathlib.Omega.{arith}
use sentanyl_core_readonly.Prelude.Equality.{Eq}

-- A predicate at every item of a list.
abbrev pub All {ℓ κ} : {A : Type ℓ} → (A → Type κ) → List A → Type κ
All P [] = Unit
All P (x ∷ xs) = P x × All P xs

pub All-map {ℓ κ μ} :
    {A : Type ℓ} (P : A → Type κ) (Q : A → Type μ)
    → ((x : A) → P x → Q x)
    → (xs : List A) → All P xs
    → All Q xs
All-map P Q f [] h = tt
All-map P Q f (x ∷ xs) h = (f x h.0, All-map P Q f xs h.1)

pub All-both {ℓ κ μ} :
    {A : Type ℓ} (P : A → Type κ) (Q : A → Type μ) (xs : List A)
    → All P xs
    → All Q xs
    → All (λ x. P x × Q x) xs
All-both P Q [] h k = tt
All-both P Q (x ∷ xs) h k = ((h.0, k.0), All-both P Q xs h.1 k.1)

-- The list has the item.
abbrev pub Has : {A : Type 0} → A → List A → Type 0
Has y [] = ⊥
Has y (x ∷ xs) = (x ≡ y) ⊎ Has y xs

pub All-at : {A : Type 0} (P : A → Type 0) {y : A} (xs : List A) → All P xs → Has y xs → P y
All-at P [] a h = elim h [ ]
All-at P (x ∷ xs) a (inl e) = subst P e a.0
All-at P (x ∷ xs) a (inr h) = All-at P xs a.1 h

-- No two items are equal.
abbrev pub AllDifferent {ℓ} : {A : Type ℓ} → List A → Type ℓ
AllDifferent [] = Unit
AllDifferent (x ∷ xs) = All (λ y. y ≢ x) xs × AllDifferent xs

module _ {ℓ} {A : Type ℓ} ⦃e : Eq A⦄ where
  -- The set with one item more.
  abbrev pub adding : A → (A → Bool) → A → Bool
  adding x K y = e.beq x y || K y

  -- The set with the items of a list.
  abbrev pub adding_all : List A → (A → Bool) → A → Bool
  adding_all [] K = K
  adding_all (x ∷ xs) K = adding_all xs (adding x K)

  -- Each item is new to the set `K` and to the items before it.
  abbrev pub Fresh : (A → Bool) → List A → Type 0
  Fresh K [] = Unit
  Fresh K (x ∷ xs) = (K x ≡ false) × Fresh (adding x K) xs

  pub Fresh-append :
      (K : A → Bool) (xs ys : List A)
      → Fresh K (xs ++ ys) ↔ (Fresh K xs × Fresh (adding_all xs K) ys)
  Fresh-append K [] ys = (λ h. (tt, h), λ h. h.1)
  Fresh-append K (x ∷ xs) ys =
      let r = Fresh-append (adding x K) xs ys in
      (λ h. let q = r.0 h.1 in ((h.0, q.0), q.1), λ h. (h.0.0, r.1 (h.0.1, h.1)))

  pub adding_all-append :
      (K : A → Bool) (xs ys : List A) → adding_all (xs ++ ys) K ≡ adding_all ys (adding_all xs K)
  adding_all-append K [] ys = refl
  adding_all-append K (x ∷ xs) ys = adding_all-append (adding x K) xs ys

  adding-false : (x y : A) (K : A → Bool) → adding x K y ≡ false ↔ ((y ≢ x) × (K y ≡ false))
  adding-false x y K = ground (arith, e.beq_iff x y)

  -- Items are fresh exactly if they differ from one another and none is in the set.
  pub Fresh-iff :
      (K : A → Bool) (xs : List A) → Fresh K xs ↔ (AllDifferent xs × All (λ y. K y ≡ false) xs)
  Fresh-iff K [] = (λ _. (tt, tt), λ _. tt)
  Fresh-iff K (x ∷ xs) =
      let r = Fresh-iff (adding x K) xs in
      (
        λ h.
            let q = r.0 h.1 in
            (
              (All-map _ _ (λ y k. ((adding-false x y K).0 k).0) xs q.1, q.0),
              (h.0, All-map _ _ (λ y k. ((adding-false x y K).0 k).1) xs q.1),
            ),
        λ h. (
          h.1.0,
          r.1 (
            h.0.1,
            All-map _ _ (λ y k. (adding-false x y K).1 k) xs (All-both _ _ xs h.0.0 h.1.1),
          ),
        ),
      )

  abbrev pub nothing : A → Bool
  nothing _ = false

  All-outside : (xs : List A) → All (λ y. nothing y ≡ false) xs
  All-outside [] = tt
  All-outside (x ∷ xs) = (refl, All-outside xs)

  -- From the empty set: the items differ from one another.
  pub Fresh-nothing : (xs : List A) → Fresh nothing xs ↔ AllDifferent xs
  Fresh-nothing xs = let r = Fresh-iff nothing xs in (λ h. (r.0 h).0, λ h. r.1 (h, All-outside xs))

module _ {A : Type 0} ⦃e : Eq A⦄ where
  adding-true : (x y : A) (K : A → Bool) → adding x K y ≡ true ↔ ((x ≡ y) ⊎ (K y ≡ true))
  adding-true x y K = ground (arith, e.beq_iff x y)

  -- The set with the items of a list has those items and what it had before.
  pub adding_all-Has :
      (K : A → Bool) (xs : List A) (y : A) → adding_all xs K y ≡ true ↔ (Has y xs ⊎ (K y ≡ true))
  adding_all-Has K [] y = (λ h. inr h, λ h. elim h [ inl n ↦ elim n [ ] | inr k ↦ k ])
  adding_all-Has K (x ∷ xs) y =
      let r = adding_all-Has (adding x K) xs y in
      (
        λ h. elim (r.0 h) [
          | inl m ↦ inl (inr m)
          | inr k ↦ elim ((adding-true x y K).0 k) [ inl p ↦ inl (inl p) | inr q ↦ inr q ]
        ],
        λ h. r.1 (elim h [
          | inl m ↦ elim m [ inl p ↦ inr ((adding-true x y K).1 (inl p)) | inr q ↦ inl q ]
          | inr k ↦ inr ((adding-true x y K).1 (inr k))
        ]),
      )
