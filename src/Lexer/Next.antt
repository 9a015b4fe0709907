-- ===== src/Lexer/Next.antt =====
-- scripting/lexer.go: `next` and `Tokenize`.
use sentanyl_core_readonly.Diagnostic.Messages.{unexpected_character}
use sentanyl_core_readonly.Diagnostic.{Diagnostic}
use sentanyl_core_readonly.Lexer.Scan.{
  skip_whitespace_and_comments, read_string, read_number_or_duration, read_ident_or_keyword,
  is_ident_start, is_decimal,
}
use sentanyl_core_readonly.Lexer.{
  Lexer, new_lexer, more, peek, advance, cur_pos, make_token, errorf, byte_at,
}
use sentanyl_core_readonly.Prelude.{
  ℕ, suc, ◌+◌, ◌&&◌, not, ltb, ◌==◌, if◌then◌else◌, Option, none, some, List, [], ◌∷◌, ◌++◌, Str,
  length,
}
use sentanyl_core_readonly.Prelude.Loops.{Flow, again, stop, loop}
use sentanyl_core_readonly.Token.{
  Pos, TokenKind, kind_eq, Token, tok_eof, tok_illegal, tok_dot_dot, tok_dollar_lbrace, tok_lteq,
  tok_gteq, tok_eqeq, tok_neq, tok_amp_amp, tok_pipe_pipe, tok_lbrace, tok_rbrace, tok_lparen,
  tok_rparen, tok_lbracket, tok_rbracket, tok_comma, tok_dot, tok_colon, tok_equals, tok_bang,
  tok_lt, tok_gt, tok_plus, tok_minus, tok_star, tok_slash, tok_percent,
}
use sentanyl_core_readonly.Utf8.{UnicodeTables, encode_rune}

-- The switch over `two`, at its two bytes.
unfoldable pub two_char_operator : ℕ → ℕ → Option TokenKind
two_char_operator a b =
    if a == b'.' && b == b'.'
    then some tok_dot_dot
    else if a == b'$' && b == b'{'
    then some tok_dollar_lbrace
    else if a == b'<' && b == b'='
    then some tok_lteq
    else if a == b'>' && b == b'='
    then some tok_gteq
    else if a == b'=' && b == b'='
    then some tok_eqeq
    else if a == b'!' && b == b'='
    then some tok_neq
    else if a == b'&' && b == b'&'
    then some tok_amp_amp
    else if a == b'|' && b == b'|'
    then some tok_pipe_pipe
    else none

-- The switch over a single character.
unfoldable pub single_char_operator : ℕ → Option TokenKind
single_char_operator r =
    if r == b'{'
    then some tok_lbrace
    else if r == b'}'
    then some tok_rbrace
    else if r == b'('
    then some tok_lparen
    else if r == b')'
    then some tok_rparen
    else if r == b'['
    then some tok_lbracket
    else if r == b']'
    then some tok_rbracket
    else if r == b','
    then some tok_comma
    else if r == b'.'
    then some tok_dot
    else if r == b':'
    then some tok_colon
    else if r == b'='
    then some tok_equals
    else if r == b'!'
    then some tok_bang
    else if r == b'<'
    then some tok_lt
    else if r == b'>'
    then some tok_gt
    else if r == b'+'
    then some tok_plus
    else if r == b'-'
    then some tok_minus
    else if r == b'*'
    then some tok_star
    else if r == b'/'
    then some tok_slash
    else if r == b'%'
    then some tok_percent
    else none

-- Behind the single character `r`.
unfoldable pub finish_single : Pos → ℕ → Lexer → Option TokenKind → Token × Lexer
finish_single p r l (some kind) = (make_token kind (r ∷ []) p, l)
finish_single p r l none =
    (make_token tok_illegal (encode_rune r) p, errorf p (unexpected_character r) l)

unfoldable pub read_single : Pos → Lexer → Token × Lexer
unfolding finish_single single_char_operator
read_single p l = finish_single p (peek l) (advance l) (single_char_operator (peek l))

unfoldable pub finish_two : Pos → Lexer → Option TokenKind → Token × Lexer
unfolding read_single
finish_two p l (some kind) =
    (make_token kind (byte_at l.pos l.src ∷ byte_at (l.pos + 1) l.src ∷ []) p, advance (advance l))
finish_two p l none = read_single p l

unfoldable pub read_operator : Pos → Lexer → Token × Lexer
unfolding finish_two two_char_operator read_single
read_operator p l =
    if ltb (l.pos + 1) (length l.src)
    then finish_two p l (two_char_operator (byte_at l.pos l.src) (byte_at (l.pos + 1) l.src))
    else read_single p l

module _ (u : UnicodeTables) where
  -- `next` behind the blanks, with a character left.
  unfoldable pub read_token : Pos → Lexer → Token × Lexer
  unfolding read_string read_number_or_duration read_ident_or_keyword read_operator
  read_token p l =
      if peek l == b'"'
      then read_string p l
      else if is_decimal (peek l)
      then read_number_or_duration u p l
      else if is_ident_start u (peek l)
      then read_ident_or_keyword u p l
      else read_operator p l

  unfoldable pub next_from : Lexer → Token × Lexer
  unfolding read_token
  next_from l =
      if not (more l) then (make_token tok_eof [] (cur_pos l), l) else read_token (cur_pos l) l

  unfoldable pub next : Lexer → Token × Lexer
  unfolding next_from skip_whitespace_and_comments
  next l = next_from (skip_whitespace_and_comments l)

  -- One round of the loop of `Tokenize`.
  unfoldable pub tokenize_step : Lexer → Flow Lexer
  unfolding next
  tokenize_step l =
      let (tok, l') = next l in
      let l'' = record l' { tokens = l'.tokens ++ tok ∷ [] } in
      if kind_eq tok.kind tok_eof then stop l'' else again l''

  unfoldable pub tokenize : Str → List Token × List Diagnostic
  unfolding loop tokenize_step
  tokenize src =
      let l = loop (suc (suc (length src))) tokenize_step (new_lexer src) in (l.tokens, l.errors)
