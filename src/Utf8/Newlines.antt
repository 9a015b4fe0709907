-- ===== src/Utf8/Newlines.antt =====
-- A decoded newline is the byte 10, and no other rune holds that byte.
use sentanyl_core_readonly.Prelude.{
  ℕ, ◌≤◌, true, false, ◌==◌, Str, [], ◌∷◌, if_rule, ltb, within, take, arith, ◌≡◌,
}
use sentanyl_core_readonly.Utf8.{decode2, decode3, decode4, decode_rune}

-- No byte of the list is a newline.
abbrev pub IsPlain : Str → Type 0
IsPlain [] = Unit
IsPlain (c ∷ cs) = (c == b'\n' ≡ false) × IsPlain cs

abbrev IsWide : ℕ → Str → ℕ × ℕ → Type 0
IsWide b0 rest d = (d.0 == b'\n' ≡ false) × IsPlain (take d.1 (b0 ∷ rest))

decode2-IsWide : (b0 : ℕ) (rest : Str) → 0xC2 ≤ b0 → b0 ≤ 0xDF → IsWide b0 rest (decode2 b0 rest)
unfolding decode2
decode2-IsWide b0 [] h k = ground arith
decode2-IsWide b0 (b1 ∷ rest) h k = ground arith

decode3-IsWide : (b0 : ℕ) (rest : Str) → 0xE0 ≤ b0 → b0 ≤ 0xEF → IsWide b0 rest (decode3 b0 rest)
unfolding decode3
decode3-IsWide b0 [] h k = ground arith
decode3-IsWide b0 (b1 ∷ []) h k = ground arith
decode3-IsWide b0 (b1 ∷ b2 ∷ rest) h k = ground arith

decode4-IsWide : (b0 : ℕ) (rest : Str) → 0xF0 ≤ b0 → b0 ≤ 0xF4 → IsWide b0 rest (decode4 b0 rest)
unfolding decode4
decode4-IsWide b0 [] h k = ground arith
decode4-IsWide b0 (b1 ∷ []) h k = ground arith
decode4-IsWide b0 (b1 ∷ b2 ∷ []) h k = ground arith
decode4-IsWide b0 (b1 ∷ b2 ∷ b3 ∷ rest) h k = ground arith

-- What a decoded rune says of the bytes that it takes: a newline is the one byte 10, and any other
-- rune is written without that byte.
abbrev pub IsRune : ℕ → Str → ℕ × ℕ → Type 0
IsRune b0 rest d =
    (d.0 == b'\n' ≡ false → IsPlain (take d.1 (b0 ∷ rest)))
    × (d.0 == b'\n' ≡ true → take d.1 (b0 ∷ rest) ≡ b'\n' ∷ [])

IsWide-IsRune : (b0 : ℕ) (rest : Str) (d : ℕ × ℕ) → IsWide b0 rest d → IsRune b0 rest d
IsWide-IsRune b0 rest d w = (λ _. w.1, λ h. cc (w.0, h))

pub decode_rune-IsRune : (b0 : ℕ) (rest : Str) → IsRune b0 rest (decode_rune (b0 ∷ rest))
unfolding decode_rune
decode_rune-IsRune b0 rest =
    let P = IsRune b0 rest in
    if_rule P (ltb b0 0x80) (λ _. (λ h. ground arith, λ h. ground arith))
      λ wide.
        if_rule P (within 0xC2 0xDF b0)
          (λ h. IsWide-IsRune b0 rest _ (decode2-IsWide b0 rest (ground arith) (ground arith)))
          λ _.
            if_rule P (within 0xE0 0xEF b0)
              (λ h. IsWide-IsRune b0 rest _ (decode3-IsWide b0 rest (ground arith) (ground arith)))
              λ _.
                if_rule P (within 0xF0 0xF4 b0)
                  (λ h.
                    IsWide-IsRune b0 rest _ (decode4-IsWide b0 rest (ground arith) (ground arith)))
                  λ _. (λ _. ground arith, λ h. absurd (ground arith))
