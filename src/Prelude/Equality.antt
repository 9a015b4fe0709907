-- ===== src/Prelude/Equality.antt =====
-- Decidable equality as an interface, and maps with keys of such a type.
use mathlib.Core.Bool.{Bool, true, false, ◌||◌}
use mathlib.Core.List.{List, [], ◌∷◌}
use mathlib.Core.Logic.{◌↔◌}
use mathlib.Core.Option.{Option, none, some}
use mathlib.Core.Path.{◌≡◌}
use native.Mathlib.Omega.{arith}
use sentanyl_core_readonly.Prelude.Strings.{Str, str_eq, str_eq_iff}
use sentanyl_core_readonly.Prelude.Tests.{if◌then◌else◌}

pub record Eq {ℓ} (A : Type ℓ) : Type ℓ where
  pub beq : A → A → Bool
  pub beq_iff : (a b : A) → (beq a b ≡ true) ↔ (a ≡ b)

instance abbrev pub str_instance : Eq Str
str_instance = record { beq = str_eq; beq_iff = str_eq_iff }

-- A Go map, which the program reads by key only.
abbrev pub Map {ℓ κ} : Type ℓ → Type κ → Type (ℓ ⊔ κ)
Map K V = List (K × V)

module _ {ℓ κ} {K : Type ℓ} {V : Type κ} ⦃e : Eq K⦄ where
  -- `m[k]`, with `ok`.
  unfoldable pub lookup : K → Map K V → Option V
  lookup k [] = none
  lookup k ((j, v) ∷ m) = if e.beq j k then some v else lookup k m

  -- `m[k] = v`.
  unfoldable pub insert : K → V → Map K V → Map K V
  insert k v [] = (k, v) ∷ []
  insert k v ((j, w) ∷ m) = if e.beq j k then (k, v) ∷ m else (j, w) ∷ insert k v m

  -- Whether the map has the key.
  unfoldable pub has_key : K → Map K V → Bool
  unfolding lookup
  has_key k m = elim (lookup k m) [ none ↦ false | some _ ↦ true ]

  pub has_key-insert :
      (k j : K) (v : V) (m : Map K V) → has_key j (insert k v m) ≡ (e.beq k j || has_key j m)
  unfolding has_key insert
  has_key-insert k j v [] = ground arith
  has_key-insert k j v ((i, w) ∷ m) =
      ground (arith, e.beq_iff i k, e.beq_iff i j, e.beq_iff k j, has_key-insert k j v m)
