-- ===== src/Validator/Structure/Words.antt =====
-- The Boolean tests of pass 3 say what the specification says.
use Prim.Native.String.{String}
use mathlib.Core.Bool.{false≢true}
use sentanyl_core_readonly.Prelude.Int.{ℤ, pos, negsuc, not_positive}
use sentanyl_core_readonly.Prelude.{
  zero, suc, true, false, not, List, [], ◌∷◌, Str, bytes, str_eq, str_eq_iff, ◌≡◌, ◌≢◌, inl, inr,
  ◌↔◌, refl, sym, arith, Bool-cases, or_true,
}
use sentanyl_core_readonly.Validator.Spec.{IsOneOf, IsPositive}
use sentanyl_core_readonly.Validator.Structure.{one_of}
use sentanyl_core_readonly.Validator.{is_empty}

pub one_of_iff : (ws : List String) (s : Str) → one_of ws s ≡ true ↔ IsOneOf ws s
unfolding one_of
one_of_iff [] s = (λ h. absurd (false≢true h), λ h. elim h [ ])
one_of_iff (w ∷ ws) s =
    let r = one_of_iff ws s in
    (
      λ h. elim (Bool-cases (str_eq (bytes w) s)) [
        | inl e ↦ inl ((str_eq_iff (bytes w) s).0 e)
        | inr e ↦ inr (r.0 (rw e at h))
      ],
      λ h. elim h [
        | inl e ↦ rw ((str_eq_iff (bytes w) s).1 e)
        | inr k ↦ rw (r.1 k) (or_true (str_eq (bytes w) s))
      ],
    )

pub not-one_of_iff : (ws : List String) (s : Str) → not (one_of ws s) ≡ false ↔ IsOneOf ws s
not-one_of_iff ws s =
    (λ h. (one_of_iff ws s).0 (ground arith), λ h. let t = (one_of_iff ws s).1 h in ground arith)

pub not_positive_iff : (n : ℤ) → not_positive n ≡ false ↔ IsPositive n
not_positive_iff (pos zero) = (λ h. absurd (false≢true (sym h)), λ h. elim h [ ])
not_positive_iff (pos (suc n)) = (λ _. tt, λ _. refl)
not_positive_iff (negsuc n) = (λ h. absurd (false≢true (sym h)), λ h. elim h [ ])

pub is_empty_iff {ℓ} : {A : Type ℓ} (xs : List A) → is_empty xs ≡ false ↔ (xs ≢ [])
is_empty_iff [] = (λ h. absurd (false≢true (sym h)), λ h. absurd (h refl))
is_empty_iff (x ∷ xs) = (λ _ e. cc, λ _. refl)
