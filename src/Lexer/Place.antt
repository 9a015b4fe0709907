-- ===== src/Lexer/Place.antt =====
-- Lines and columns read off the bytes, with no lexer: what the counters of the lexer should be.
use sentanyl_core_readonly.Lexer.{Lexer}
use sentanyl_core_readonly.Prelude.{
  ℕ, suc, ◌+◌, ◌==◌, if◌then◌else◌, Str, [], ◌∷◌, ◌++◌, length, take, arith, ◌≡◌, refl,
}
use sentanyl_core_readonly.Token.{Pos}
use sentanyl_core_readonly.Utf8.Newlines.{IsPlain}

-- The newlines among the bytes.
unfoldable pub newlines : Str → ℕ
newlines [] = 0
newlines (c ∷ cs) = if c == b'\n' then suc (newlines cs) else newlines cs

-- The bytes behind the last newline, after `n` bytes of a line that is already begun.
unfoldable pub trailing : ℕ → Str → ℕ
trailing n [] = n
trailing n (c ∷ cs) = trailing (if c == b'\n' then 0 else suc n) cs

-- The line and column of a byte offset, from 1.
abbrev pub IsPlace : Str → ℕ → ℕ → ℕ → Type 0
IsPlace src offset line col =
    (line ≡ suc (newlines (take offset src))) × (col ≡ suc (trailing 0 (take offset src)))

abbrev pub Located : Lexer → Type 0
Located l = IsPlace l.src l.pos l.line l.col

abbrev pub IsPlaced : Str → Pos → Type 0
IsPlaced src p = IsPlace src p.offset p.line p.col

pub newlines-append : (xs ys : Str) → newlines (xs ++ ys) ≡ newlines xs + newlines ys
unfolding newlines
newlines-append [] ys = omega arith
newlines-append (x ∷ xs) ys = ground (arith, newlines-append xs ys)

pub trailing-append : (n : ℕ) (xs ys : Str) → trailing n (xs ++ ys) ≡ trailing (trailing n xs) ys
unfolding trailing
trailing-append n [] ys = refl
trailing-append n (x ∷ xs) ys = trailing-append (if x == b'\n' then 0 else suc n) xs ys

pub newlines-IsPlain : (xs : Str) → IsPlain xs → newlines xs ≡ 0
unfolding newlines
newlines-IsPlain [] h = refl
newlines-IsPlain (x ∷ xs) h = ground (arith, newlines-IsPlain xs h.1)

pub trailing-IsPlain : (n : ℕ) (xs : Str) → IsPlain xs → trailing n xs ≡ n + length xs
unfolding trailing
trailing-IsPlain n [] h = omega arith
trailing-IsPlain n (x ∷ xs) h = rw (h.0, trailing-IsPlain (suc n) xs h.1) (omega arith)

pub newline_alone : (newlines (b'\n' ∷ []) ≡ 1) × ((n : ℕ) → trailing n (b'\n' ∷ []) ≡ 0)
unfolding newlines trailing
newline_alone = (refl, λ n. refl)
