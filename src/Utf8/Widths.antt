-- ===== src/Utf8/Widths.antt =====
-- The width of a decoded rune lies in the string, and a newline is one byte wide.
use sentanyl_core_readonly.Prelude.{ℕ, suc, ◌≤◌, Str, [], ◌∷◌, length, arith}
use sentanyl_core_readonly.Utf8.{decode2, decode3, decode4, decode_rune}

decode2-width :
    (b0 : ℕ) (rest : Str) → (1 ≤ (decode2 b0 rest).1) × ((decode2 b0 rest).1 ≤ suc (length rest))
unfolding decode2
decode2-width b0 [] = omega arith
decode2-width b0 (b1 ∷ rest) = ground arith

decode3-width :
    (b0 : ℕ) (rest : Str) → (1 ≤ (decode3 b0 rest).1) × ((decode3 b0 rest).1 ≤ suc (length rest))
unfolding decode3
decode3-width b0 [] = omega arith
decode3-width b0 (b1 ∷ []) = omega arith
decode3-width b0 (b1 ∷ b2 ∷ rest) = ground arith

decode4-width :
    (b0 : ℕ) (rest : Str) → (1 ≤ (decode4 b0 rest).1) × ((decode4 b0 rest).1 ≤ suc (length rest))
unfolding decode4
decode4-width b0 [] = omega arith
decode4-width b0 (b1 ∷ []) = omega arith
decode4-width b0 (b1 ∷ b2 ∷ []) = omega arith
decode4-width b0 (b1 ∷ b2 ∷ b3 ∷ rest) = ground arith

-- A non-empty string gives a rune of at least one byte and of no more bytes than there are.
pub decode_rune-width :
    (b0 : ℕ) (rest : Str)
    → (1 ≤ (decode_rune (b0 ∷ rest)).1) × ((decode_rune (b0 ∷ rest)).1 ≤ suc (length rest))
unfolding decode_rune
decode_rune-width b0 rest =
    ground (arith, decode2-width b0 rest, decode3-width b0 rest, decode4-width b0 rest)
