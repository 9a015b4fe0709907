-- ===== src/Lexer/Scan.antt =====
-- scripting/lexer.go: blanks and comments, strings, numbers and durations, identifiers.
use sentanyl_core_readonly.Diagnostic.Messages.{
  unterminated_block_comment, unterminated_string_literal, unterminated_escape_in_string,
}
use sentanyl_core_readonly.Lexer.{
  Lexer, more, peek, advance, cur_pos, make_token, errorf, byte_at, second_is, slice_from,
  remaining, advance_while,
}
use sentanyl_core_readonly.Prelude.{
  ℕ, suc, ◌+◌, ◌-◌, Bool, not, ◌&&◌, ◌||◌, ltb, leb, ◌==◌, within, if◌then◌else◌, [], ◌∷◌, ◌++◌,
  Str, length, drop,
}
use sentanyl_core_readonly.Prelude.Loops.{Flow, again, stop, loop}
use sentanyl_core_readonly.Token.Keywords.{lookup_ident}
use sentanyl_core_readonly.Token.{
  Pos, kind_eq, Token, tok_string, tok_int, tok_float, tok_bool, tok_duration, tok_true, tok_false,
}
use sentanyl_core_readonly.Utf8.{UnicodeTables, is_letter, is_digit, decode_rune, encode_rune}

abbrev pub is_blank : ℕ → Bool
is_blank r = r == b' ' || r == b'\t' || r == b'\r' || r == b'\n'

abbrev pub not_newline : ℕ → Bool
not_newline r = not (r == b'\n')

-- One round of the loop inside a block comment that began at `start`.
unfoldable pub block_step : Pos → Lexer → Flow Lexer
block_step start l =
    if not (more l)
    then stop l
    else if peek l == b'*' && second_is b'/' l
    then stop (advance (advance l))
    else if leb (length l.src - 1) l.pos
    then stop (advance (errorf start unterminated_block_comment l))
    else again (advance l)

unfoldable pub block_comment : Pos → Lexer → Lexer
unfolding loop block_step
block_comment start l = loop (suc (remaining l)) (block_step start) l

-- One round of the outer loop of `skipWhitespaceAndComments`.
unfoldable pub skip_step : Lexer → Flow Lexer
unfolding block_comment
skip_step l =
    if not (more l)
    then stop l
    else if is_blank (peek l)
    then again (advance l)
    else if peek l == b'#'
    then again (advance_while not_newline l)
    else if peek l == b'/' && second_is b'/' l
    then again (advance_while not_newline (advance (advance l)))
    else if peek l == b'/' && second_is b'*' l
    then again (block_comment (cur_pos l) (advance (advance l)))
    else stop l

unfoldable pub skip_whitespace_and_comments : Lexer → Lexer
unfolding loop skip_step
skip_whitespace_and_comments l = loop (suc (remaining l)) skip_step l

-- What `readString` writes for the character behind a backslash.
unfoldable pub unescape : ℕ → Str
unescape esc =
    if esc == b'"'
    then b'"' ∷ []
    else if esc == b'\\'
    then b'\\' ∷ []
    else if esc == b'n'
    then b'\n' ∷ []
    else if esc == b't'
    then b'\t' ∷ []
    else if esc == b'r'
    then b'\r' ∷ []
    else b'\\' ∷ encode_rune esc

-- The state of the loop of `readString`: the lexer and the builder.
pub record StringScan : Type 0 where
  pub lexer : Lexer
  pub built : Str

-- The case of a backslash, `l` standing behind it.
unfoldable pub escape_step : Pos → Lexer → Str → Flow StringScan
unfolding unescape
escape_step start l b =
    if not (more l)
    then stop (record { lexer = errorf start unterminated_escape_in_string l; built = b })
    else again (record { lexer = advance l; built = b ++ unescape (peek l) })

unfoldable pub string_step : Pos → StringScan → Flow StringScan
unfolding escape_step
string_step start s =
    if not (more s.lexer)
    then stop (record s { lexer = errorf start unterminated_string_literal s.lexer })
    else if peek s.lexer == b'"'
    then stop (record s { lexer = advance s.lexer })
    else if peek s.lexer == b'\\'
    then escape_step start (advance s.lexer) s.built
    else again (record { lexer = advance s.lexer; built = s.built ++ encode_rune (peek s.lexer) })

unfoldable pub scan_string : Pos → StringScan → StringScan
unfolding loop string_step
scan_string start s = loop (suc (remaining s.lexer)) (string_step start) s

unfoldable pub read_string : Pos → Lexer → Token × Lexer
unfolding scan_string
read_string start l =
    let s = scan_string start (record { lexer = advance l; built = [] }) in
    (make_token tok_string s.built start, s.lexer)

abbrev pub is_decimal : ℕ → Bool
is_decimal = within b'0' b'9'

abbrev pub is_unit : ℕ → Bool
is_unit r = r == b'd' || r == b'h' || r == b'm' || r == b's'

-- The state of the loop in `recalcLineCol`.
pub record LineScan : Type 0 where
  pub offset : ℕ
  pub line : ℕ
  pub col : ℕ

unfoldable pub line_step : Str → ℕ → LineScan → Flow LineScan
line_step src target s =
    if ltb s.offset target && ltb s.offset (length src)
    then (let (r, size) = decode_rune (drop s.offset src) in
        again (record {
          offset = s.offset + size;
          line = if r == b'\n' then s.line + 1 else s.line;
          col = if r == b'\n' then 1 else s.col + size;
        }))
    else stop s

unfoldable pub scan_lines : Str → ℕ → LineScan
unfolding loop line_step
scan_lines src target =
    loop (suc (length src)) (line_step src target) (record { offset = 0; line = 1; col = 1 })

unfoldable pub recalc_line_col : ℕ → Lexer → Lexer
unfolding scan_lines
recalc_line_col target l = record l {
  line = (scan_lines l.src target).line;
  col = (scan_lines l.src target).col;
}

-- One round of the loop over the further parts of a duration such as 1h30m.
unfoldable pub compound_step : Lexer → Flow Lexer
compound_step l =
    if more l && is_decimal (peek l)
    then again
        (if more (advance l) && is_unit (peek (advance l)) then advance (advance l) else advance l)
    else stop l

unfoldable pub compound : Lexer → Lexer
unfolding loop compound_step
compound l = loop (suc (remaining l)) compound_step l

module _ (u : UnicodeTables) where
  unfoldable pub is_ident_start : ℕ → Bool
  is_ident_start r = r == b'_' || is_letter u r

  unfoldable pub is_ident_continue : ℕ → Bool
  is_ident_continue r = r == b'_' || is_letter u r || is_digit u r

  -- Behind the digits, at a unit: a duration, or, before a letter, the integer alone.
  unfoldable pub read_duration : Pos → ℕ → Lexer → Token × Lexer
  unfolding compound recalc_line_col is_ident_start
  read_duration start num_start l =
      let d_start = l.pos in
      let l' = compound (advance l) in
      if more l' && is_ident_start (peek l')
      then (
        make_token tok_int (slice_from num_start (record l' { pos = d_start })) start,
        recalc_line_col num_start (record l' { pos = d_start }),
      )
      else (make_token tok_duration (slice_from num_start l') start, l')

  -- Behind the digits, at no unit: a float or an integer.
  unfoldable pub read_fraction : Pos → ℕ → Lexer → Token × Lexer
  read_fraction start num_start l =
      if more l
        && peek l == b'.'
        && ltb (l.pos + 1) (length l.src)
        && is_decimal (byte_at (l.pos + 1) l.src)
      then (let l' = advance_while is_decimal (advance l) in
          (make_token tok_float (slice_from num_start l') start, l'))
      else (make_token tok_int (slice_from num_start l) start, l)

  unfoldable pub read_number_or_duration : Pos → Lexer → Token × Lexer
  unfolding read_duration read_fraction
  read_number_or_duration start l =
      let l' = advance_while is_decimal l in
      if more l' && is_unit (peek l')
      then read_duration start l.pos l'
      else read_fraction start l.pos l'

  unfoldable pub read_ident_or_keyword : Pos → Lexer → Token × Lexer
  unfolding is_ident_continue
  read_ident_or_keyword start l =
      let l' = advance_while is_ident_continue l in
      let lit = slice_from l.pos l' in
      let kind = lookup_ident lit in
      if kind_eq kind tok_true || kind_eq kind tok_false
      then (make_token tok_bool lit start, l')
      else (make_token kind lit start, l')
