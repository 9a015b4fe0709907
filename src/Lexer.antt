-- ===== src/Lexer.antt =====
-- scripting/lexer.go: the Lexer's state and the helpers that move it. The children hold the
-- scanning routines and what is proved of them.
pub mod Scan
pub mod Next
pub mod Place
pub mod Progress
pub mod Tokenize
pub mod Tokens
use sentanyl_core_readonly.Diagnostic.Messages.{Message}
use sentanyl_core_readonly.Diagnostic.{Diagnostic, diag_error}
use sentanyl_core_readonly.Prelude.{
  ℕ, zero, suc, ◌+◌, ◌-◌, Bool, true, false, ◌&&◌, ltb, leb, ◌==◌, if◌then◌else◌, List, [], ◌∷◌,
  ◌++◌, Str, length, take, drop,
}
use sentanyl_core_readonly.Prelude.Loops.{Flow, again, stop, loop}
use sentanyl_core_readonly.Token.{Pos, TokenKind, Token}
use sentanyl_core_readonly.Utf8.{decode_rune}

pub record Lexer : Type 0 where
  pub src : Str
  pub pos : ℕ
  pub line : ℕ
  pub col : ℕ
  pub tokens : List Token
  pub errors : List Diagnostic

-- `NewLexer`.
abbrev pub new_lexer : Str → Lexer
new_lexer src = record { src = src; pos = 0; line = 1; col = 1; tokens = []; errors = [] }

-- `l.pos < len(l.src)`.
abbrev pub more : Lexer → Bool
more l = ltb l.pos (length l.src)

-- `l.src[l.pos:]`.
abbrev pub rest_of : Lexer → Str
rest_of l = drop l.pos l.src

unfoldable pub peek : Lexer → ℕ
peek l = if leb (length l.src) l.pos then 0 else (decode_rune (rest_of l)).0

-- The state after a rune of the given width is read.
unfoldable pub move : ℕ → ℕ → Lexer → Lexer
move r size l =
    if r == b'\n'
    then record l { pos = l.pos + size; line = l.line + 1; col = 1 }
    else record l { pos = l.pos + size; col = l.col + size }

-- `advance` for its effect; the rune that it returns is `peek`.
unfoldable pub advance : Lexer → Lexer
unfolding move
advance l =
    if leb (length l.src) l.pos then l else let (r, size) = decode_rune (rest_of l) in move r size l

unfoldable pub cur_pos : Lexer → Pos
cur_pos l = record { line = l.line; col = l.col; offset = l.pos }

abbrev pub make_token : TokenKind → Str → Pos → Token
make_token kind lit p = record { kind = kind; literal = lit; pos = p }

unfoldable pub errorf : Pos → Message → Lexer → Lexer
errorf p message l = record l {
  errors = l.errors ++ (record { pos = p; message = message; level = diag_error } ∷ []);
}

-- `l.src[i]`, at an index that the caller has checked.
abbrev pub byte_at : ℕ → Str → ℕ
byte_at i [] = 0
byte_at zero (c ∷ cs) = c
byte_at (suc i) (c ∷ cs) = byte_at i cs

-- `l.pos+1 < len(l.src) && l.src[l.pos+1] == c`.
unfoldable pub second_is : ℕ → Lexer → Bool
second_is c l = ltb (l.pos + 1) (length l.src) && byte_at (l.pos + 1) l.src == c

-- `l.src[from:l.pos]`.
unfoldable pub slice_from : ℕ → Lexer → Str
slice_from from l = take (l.pos - from) (drop from l.src)

-- The bytes that are left: each round of a scanning loop reads one at least.
abbrev pub remaining : Lexer → ℕ
remaining l = length l.src - l.pos

-- `for l.pos < len(l.src) && test(l.peek()) { l.advance() }`.
unfoldable pub while_step : (ℕ → Bool) → Lexer → Flow Lexer
while_step test l = if more l && test (peek l) then again (advance l) else stop l

unfoldable pub advance_while : (ℕ → Bool) → Lexer → Lexer
unfolding loop while_step peek advance
advance_while test l = loop (suc (remaining l)) (while_step test) l
