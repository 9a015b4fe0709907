-- ===== src/Diagnostic.antt =====
-- scripting/diagnostics.go: diagnostics and their collections. A message is the format string of
-- the call with the values that it is given; the text that `fmt.Sprintf` makes is not modelled.
pub mod Messages
use mathlib.Core.Bool.{false≢true}
use sentanyl_core_readonly.Prelude.{
  Bool, true, false, List, [], ◌∷◌, ◌++◌, if◌then◌else◌, ◌≡◌, ◌↔◌, refl, sym, ap,
}
use sentanyl_core_readonly.Diagnostic.Messages.{Message}
use sentanyl_core_readonly.Token.{Pos}

pub data DiagLevel : Type 0 where
  diag_error diag_warning diag_info : DiagLevel

pub record Diagnostic : Type 0 where
  pub pos : Pos
  pub message : Message
  pub level : DiagLevel

-- `d.Level == DiagError`.
abbrev pub is_error : DiagLevel → Bool
is_error diag_error = true
is_error _ = false

-- `Diagnostics.HasErrors`.
unfoldable pub has_errors : List Diagnostic → Bool
has_errors [] = false
has_errors (d ∷ ds) = if is_error d.level then true else has_errors ds

-- `Diagnostics.Errors`.
unfoldable pub errors_of : List Diagnostic → List Diagnostic
errors_of [] = []
errors_of (d ∷ ds) = let rest = errors_of ds in if is_error d.level then d ∷ rest else rest

abbrev is_cons {ℓ} : {A : Type ℓ} → List A → Bool
is_cons [] = false
is_cons (_ ∷ _) = true

pub has_errors-append :
    (ds es : List Diagnostic)
    → has_errors (ds ++ es) ≡ false ↔ (has_errors ds ≡ false) × (has_errors es ≡ false)
unfolding has_errors
has_errors-append [] es = (λ h. (refl, h), λ h. h.1)
has_errors-append (d ∷ ds) es = at (has_errors-append ds es) (is_error d.level)
  where
    at :
        (has_errors (ds ++ es) ≡ false ↔ (has_errors ds ≡ false) × (has_errors es ≡ false))
        → (b : Bool)
        → (if b then true else has_errors (ds ++ es)) ≡ false
          ↔ ((if b then true else has_errors ds) ≡ false) × (has_errors es ≡ false)
    at _ true = (λ h. absurd (false≢true (sym h)), λ h. absurd (false≢true (sym h.0)))
    at rest false = rest

-- A list of diagnostics has no errors exactly if `Errors` keeps none of them.
pub has_errors-errors_of : (ds : List Diagnostic) → has_errors ds ≡ false ↔ errors_of ds ≡ []
unfolding has_errors errors_of
has_errors-errors_of [] = (λ _. refl, λ _. refl)
has_errors-errors_of (d ∷ ds) = at (has_errors-errors_of ds) (is_error d.level)
  where
    at :
        (has_errors ds ≡ false ↔ errors_of ds ≡ [])
        → (b : Bool)
        → (if b then true else has_errors ds) ≡ false
          ↔ (if b then d ∷ errors_of ds else errors_of ds) ≡ []
    at _ true = (λ h. absurd (false≢true (sym h)), λ h. absurd (false≢true (sym (ap is_cons h))))
    at rest false = rest
