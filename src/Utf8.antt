-- ===== src/Utf8.antt =====
-- Go's `unicode/utf8` and `unicode`, as far as scripting/lexer.go uses them.
pub mod Widths
pub mod Newlines
use sentanyl_core_readonly.Prelude.{
  ℕ, ◌+◌, ◌*◌, ◌/◌, ◌%◌, Bool, ◌&&◌, ◌||◌, ltb, within, ◌==◌, if◌then◌else◌, Str, [], ◌∷◌,
}

abbrev pub rune_error : ℕ
rune_error = 0xFFFD

abbrev invalid : ℕ × ℕ
invalid = (rune_error, 1)

abbrev is_continuation : ℕ → Bool
is_continuation = within 0x80 0xBF

-- The least and the greatest second byte after a first byte: no overlong form, no surrogate, and
-- nothing beyond 0x10FFFF.
abbrev second_ok : ℕ → ℕ → Bool
second_ok b0 =
    within (if b0 == 0xE0 then 0xA0 else if b0 == 0xF0 then 0x90 else 0x80)
      (if b0 == 0xED then 0x9F else if b0 == 0xF4 then 0x8F else 0xBF)

unfoldable pub decode2 : ℕ → Str → ℕ × ℕ
decode2 b0 [] = invalid
decode2 b0 (b1 ∷ _) = if is_continuation b1 then (b0 % 32 * 64 + b1 % 64, 2) else invalid

unfoldable pub decode3 : ℕ → Str → ℕ × ℕ
decode3 b0 [] = invalid
decode3 b0 (b1 ∷ []) = invalid
decode3 b0 (b1 ∷ b2 ∷ _) =
    if second_ok b0 b1 && is_continuation b2
    then ((b0 % 16 * 64 + b1 % 64) * 64 + b2 % 64, 3)
    else invalid

unfoldable pub decode4 : ℕ → Str → ℕ × ℕ
decode4 b0 [] = invalid
decode4 b0 (b1 ∷ []) = invalid
decode4 b0 (b1 ∷ b2 ∷ []) = invalid
decode4 b0 (b1 ∷ b2 ∷ b3 ∷ _) =
    if second_ok b0 b1 && is_continuation b2 && is_continuation b3
    then (((b0 % 8 * 64 + b1 % 64) * 64 + b2 % 64) * 64 + b3 % 64, 4)
    else invalid

-- `utf8.DecodeRuneInString`: the first rune and its width in bytes.
unfoldable pub decode_rune : Str → ℕ × ℕ
unfolding decode2 decode3 decode4
decode_rune [] = (rune_error, 0)
decode_rune (b0 ∷ rest) =
    if ltb b0 0x80
    then (b0, 1)
    else if within 0xC2 0xDF b0
    then decode2 b0 rest
    else if within 0xE0 0xEF b0
    then decode3 b0 rest
    else if within 0xF0 0xF4 b0
    then decode4 b0 rest
    else invalid

-- `utf8.AppendRune`, `strings.Builder.WriteRune` and `string(r)`.
unfoldable pub encode_rune : ℕ → Str
encode_rune r =
    if ltb r 0x80
    then r ∷ []
    else if ltb r 0x800
    then (0xC0 + r / 64) ∷ (0x80 + r % 64) ∷ []
    else if ltb 0x10FFFF r || within 0xD800 0xDFFF r
    then 0xEF ∷ 0xBF ∷ 0xBD ∷ []
    else if ltb r 0x10000
    then (0xE0 + r / 4096) ∷ (0x80 + r / 64 % 64) ∷ (0x80 + r % 64) ∷ []
    else (0xF0 + r / 262144) ∷ (0x80 + r / 4096 % 64) ∷ (0x80 + r / 64 % 64) ∷ (0x80 + r % 64) ∷ []

-- The tables of `unicode` beyond Latin-1 are a parameter.
pub record UnicodeTables : Type 0 where
  pub wide_letter : ℕ → Bool
  pub wide_digit : ℕ → Bool

-- `unicode.IsLetter`.
unfoldable pub is_letter : UnicodeTables → ℕ → Bool
is_letter u r =
    if ltb 0xFF r
    then u.wide_letter r
    else within b'a' b'z' r
      || within b'A' b'Z' r
      || r == 0xAA
      || r == 0xB5
      || r == 0xBA
      || within 0xC0 0xD6 r
      || within 0xD8 0xF6 r
      || within 0xF8 0xFF r

-- `unicode.IsDigit`.
unfoldable pub is_digit : UnicodeTables → ℕ → Bool
is_digit u r = if ltb 0xFF r then u.wide_digit r else within b'0' b'9' r
