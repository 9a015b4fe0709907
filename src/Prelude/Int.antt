-- ===== src/Prelude/Int.antt =====
-- Go's `int`, as an integer: the program that is modelled only compares them.
use mathlib.Core.Bool.{Bool, true, false}
use mathlib.Core.Logic.{◌↔◌}
use mathlib.Core.Path.{◌≡◌, refl}
use native.Mathlib.Omega.{arith}
use Prim.Native.Nat.{ℕ, zero, suc, ◌+◌, ◌-◌, ◌*◌, ◌%◌, ◌^◌}
use sentanyl_core_readonly.Prelude.Tests.{◌==◌, ltb, leb, if◌then◌else◌}
use sentanyl_core_readonly.Prelude.Equality.{Eq}
use sentanyl_core_readonly.Prelude.Sorting.{IsStrictWeak}

-- `negsuc n` is -(n + 1).
pub data ℤ : Type 0 where
  pos : ℕ → ℤ
  negsuc : ℕ → ℤ

unfoldable pub int_eq : ℤ → ℤ → Bool
int_eq (pos a) (pos b) = a == b
int_eq (negsuc a) (negsuc b) = a == b
int_eq _ _ = false

pub int_eq_iff : (a b : ℤ) → (int_eq a b ≡ true) ↔ (a ≡ b)
unfolding int_eq
int_eq_iff (pos a) (pos b) = ground arith
int_eq_iff (negsuc a) (negsuc b) = ground arith
int_eq_iff (pos a) (negsuc b) = ground arith
int_eq_iff (negsuc a) (pos b) = ground arith

instance abbrev pub int_instance : Eq ℤ
int_instance = record { beq = int_eq; beq_iff = int_eq_iff }

-- `n <= 0`.
abbrev pub not_positive : ℤ → Bool
not_positive (pos zero) = true
not_positive (pos (suc n)) = false
not_positive (negsuc n) = true

-- The integer that 64 bits stand for.
unfoldable pub wrapped : ℕ → ℤ
wrapped r = if ltb r (2 ^ 63) then pos r else negsuc (2 ^ 64 - 1 - r)

-- The `int64` that a value wraps to.
unfoldable pub int64 : ℤ → ℤ
unfolding wrapped
int64 (pos n) = wrapped (n % 2 ^ 64)
int64 (negsuc n) = wrapped (2 ^ 64 - 1 - n % 2 ^ 64)

-- `k * n` as an `int64`, for a positive `k`.
unfoldable pub scale : ℕ → ℤ → ℤ
unfolding int64
scale k (pos n) = int64 (pos (k * n))
scale k (negsuc n) = int64 (negsuc (k * suc n - 1))

-- `a + n <= b`, for a natural number `a`.
unfoldable pub reached : ℕ → ℤ → ℕ → Bool
reached a (pos n) b = leb (a + n) b
reached a (negsuc n) b = leb a (b + suc n)

unfoldable pub int_lt : ℤ → ℤ → Bool
int_lt (pos a) (pos b) = ltb a b
int_lt (negsuc a) (negsuc b) = ltb b a
int_lt (negsuc _) (pos _) = true
int_lt (pos _) (negsuc _) = false

-- The order of integers as a test for sorting.
pub int_lt-IsStrictWeak : IsStrictWeak int_lt
unfolding int_lt
int_lt-IsStrictWeak = record { irreflexive = irr; transitive = trans; cotransitive = cotrans }
  where
    irr : (a : ℤ) → int_lt a a ≡ false
    irr (pos a) = ground arith
    irr (negsuc a) = ground arith

    trans : (a b c : ℤ) → int_lt a b ≡ true → int_lt b c ≡ true → int_lt a c ≡ true
    trans (pos a) (pos b) (pos c) h k = ground arith
    trans (negsuc a) (negsuc b) (negsuc c) h k = ground arith
    trans (negsuc a) b (pos c) h k = refl
    trans (pos a) (negsuc b) c h k = absurd (cc)
    trans (pos a) (pos b) (negsuc c) h k = absurd (cc)
    trans (negsuc a) (pos b) (negsuc c) h k = absurd (cc)

    cotrans : (a b c : ℤ) → int_lt a b ≡ false → int_lt b c ≡ false → int_lt a c ≡ false
    cotrans (pos a) (pos b) (pos c) h k = ground arith
    cotrans (negsuc a) (negsuc b) (negsuc c) h k = ground arith
    cotrans (pos a) b (negsuc c) h k = refl
    cotrans (negsuc a) (pos b) c h k = absurd (cc)
    cotrans (negsuc a) (negsuc b) (pos c) h k = absurd (cc)
    cotrans (pos a) (negsuc b) (pos c) h k = absurd (cc)
