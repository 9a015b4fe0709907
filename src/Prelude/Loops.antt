-- ===== src/Prelude/Loops.antt =====
-- Loops with `break`: each round goes on with a new state or stops with a final one.
use Prim.Native.Nat.{ℕ, zero, suc, ◌<◌}
use mathlib.Core.Path.{◌≡◌}
use native.Mathlib.Omega.{arith}

pub data Flow {ℓ} (S : Type ℓ) : Type ℓ where
  again : S → Flow S
  stop : S → Flow S

-- `for { s = step(s) }`, at most `fuel` rounds.
unfoldable pub loop {ℓ} : {S : Type ℓ} → ℕ → (S → Flow S) → S → S
loop zero step s = s
loop (suc fuel) step s = elim (step s) [ again t ↦ loop fuel step t | stop t ↦ t ]

-- What one round has to guarantee: an invariant `P` and a smaller measure when the loop goes on,
-- the result `Q` when it stops.
pub data Round {ℓ κ} {S : Type ℓ} (P Q : S → Type κ) (measure : S → ℕ) (n : ℕ)
    : Flow S → Type (ℓ ⊔ κ) where
  goes : {t : S} → P t → measure t < n → Round P Q measure n (again t)
  ends : {t : S} → Q t → Round P Q measure n (stop t)

-- The value of a loop after one round, from what the round guarantees.
Round-result {ℓ κ} :
    {S : Type ℓ} {P Q : S → Type κ} {measure : S → ℕ} {n : ℕ} {f : Flow S} (rest : S → S)
    → Round P Q measure n f
    → ((t : S) → P t → measure t < n → Q (rest t))
    → Q (elim f [ again t ↦ rest t | stop t ↦ t ])
Round-result rest (goes {t} p d) next = next t p d
Round-result rest (ends q) next = q

-- With more fuel than the measure the loop ends by a `stop`, and so its result has `Q`.
pub loop_rule {ℓ κ} :
    {S : Type ℓ} (P Q : S → Type κ) (measure : S → ℕ) (step : S → Flow S)
    → ((s : S) → P s → Round P Q measure (measure s) (step s))
    → (fuel : ℕ) (s : S) → measure s < fuel
    → P s
    → Q (loop fuel step s)
unfolding loop
loop_rule P Q measure step keep zero s m h = absurd (omega arith)
loop_rule P Q measure step keep (suc fuel) s m h =
    Round-result {Q = Q} (loop fuel step) (keep s h)
      λ t p d. loop_rule P Q measure step keep fuel t (omega arith) p

pub loop-again {ℓ} :
    {S : Type ℓ} (fuel : ℕ) (step : S → Flow S) {s t : S}
    → step s ≡ again t
    → loop (suc fuel) step s ≡ loop fuel step t
unfolding loop
loop-again fuel step e = rw (e, loop)

pub loop-stop {ℓ} :
    {S : Type ℓ} (fuel : ℕ) (step : S → Flow S) {s t : S}
    → step s ≡ stop t
    → loop (suc fuel) step s ≡ t
unfolding loop
loop-stop fuel step e = rw (e, loop)
