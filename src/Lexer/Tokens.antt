-- ===== src/Lexer/Tokens.antt =====
-- What a token that is read carries: the position where it begins, and no end-of-file kind.
use sentanyl_core_readonly.Lexer.Next.{
  finish_single, read_single, finish_two, read_operator, read_token, single_char_operator,
  two_char_operator,
}
use sentanyl_core_readonly.Lexer.Scan.{
  read_string, is_decimal, is_unit, compound, is_ident_start, is_ident_continue, read_duration,
  read_fraction, read_number_or_duration, read_ident_or_keyword,
}
use sentanyl_core_readonly.Lexer.{Lexer, more, peek, advance, advance_while, byte_at, slice_from}
use sentanyl_core_readonly.Prelude.{
  ℕ, ◌+◌, false, ◌&&◌, ◌||◌, ltb, if_rule, ◌==◌, Option, some, none, ◌≡◌, refl, length, arith,
}
use sentanyl_core_readonly.Token.Keywords.{lookup_ident, lookup_ident-proper}
use sentanyl_core_readonly.Token.{
  Pos, Token, TokenKind, kind_eq, tok_eof, tok_bool, tok_true, tok_false,
}
use sentanyl_core_readonly.Utf8.{UnicodeTables}

-- The token begins at `p`, and is no end of file.
pub record IsTokenAt (p : Pos) (t : Token × Lexer) : Type 0 where
  pub begins : t.0.pos ≡ p
  pub no_end : kind_eq t.0.kind tok_eof ≡ false

single-no_end :
    (r : ℕ) (k : TokenKind) → single_char_operator r ≡ some k → kind_eq k tok_eof ≡ false
unfolding single_char_operator kind_eq
single-no_end r k h = ground arith

two-no_end : (a b : ℕ) (k : TokenKind) → two_char_operator a b ≡ some k → kind_eq k tok_eof ≡ false
unfolding two_char_operator kind_eq
two-no_end a b k h = ground arith

module _ (p : Pos) where
  finish_single-IsTokenAt :
      (r : ℕ) (l : Lexer) (o : Option TokenKind)
      → single_char_operator r ≡ o
      → IsTokenAt p (finish_single p r l o)
  unfolding finish_single
  finish_single-IsTokenAt r l (some k) h = record { begins = refl; no_end = single-no_end r k h }
  finish_single-IsTokenAt r l none h = record { begins = refl; no_end = unfold kind_eq in refl }

  read_single-IsTokenAt : (l : Lexer) → IsTokenAt p (read_single p l)
  unfolding read_single
  read_single-IsTokenAt l = finish_single-IsTokenAt (peek l) (advance l) _ refl

  finish_two-IsTokenAt :
      (l : Lexer) (a b : ℕ) (o : Option TokenKind)
      → two_char_operator a b ≡ o
      → IsTokenAt p (finish_two p l o)
  unfolding finish_two
  finish_two-IsTokenAt l a b (some k) h = record { begins = refl; no_end = two-no_end a b k h }
  finish_two-IsTokenAt l a b none h = read_single-IsTokenAt l

  read_operator-IsTokenAt : (l : Lexer) → IsTokenAt p (read_operator p l)
  unfolding read_operator
  read_operator-IsTokenAt l =
      if_rule (IsTokenAt p) (ltb (l.pos + 1) (length l.src))
        (λ _. finish_two-IsTokenAt l (byte_at l.pos l.src) (byte_at (l.pos + 1) l.src) _ refl)
        λ _. read_single-IsTokenAt l

  module _ (u : UnicodeTables) where
    read_duration-IsTokenAt : (from : ℕ) (l : Lexer) → IsTokenAt p (read_duration u p from l)
    unfolding read_duration kind_eq
    read_duration-IsTokenAt from l =
        let l' = compound (advance l) in
        if_rule (IsTokenAt p) (more l' && is_ident_start u (peek l'))
          (λ _. record { begins = refl; no_end = refl })
          λ _. record { begins = refl; no_end = refl }

    read_fraction-IsTokenAt : (from : ℕ) (l : Lexer) → IsTokenAt p (read_fraction u p from l)
    unfolding read_fraction kind_eq
    read_fraction-IsTokenAt from l =
        if_rule (IsTokenAt p)
          (more l
            && peek l == b'.'
            && ltb (l.pos + 1) (length l.src)
            && is_decimal (byte_at (l.pos + 1) l.src))
          (λ _. record { begins = refl; no_end = refl })
          λ _. record { begins = refl; no_end = refl }

    read_number-IsTokenAt : (l : Lexer) → IsTokenAt p (read_number_or_duration u p l)
    unfolding read_number_or_duration
    read_number-IsTokenAt l =
        let l' = advance_while is_decimal l in
        if_rule (IsTokenAt p) (more l' && is_unit (peek l')) (λ _. read_duration-IsTokenAt l.pos l')
          λ _. read_fraction-IsTokenAt l.pos l'

    bool-no_end : kind_eq tok_bool tok_eof ≡ false
    unfolding kind_eq
    bool-no_end = refl

    read_ident-IsTokenAt : (l : Lexer) → IsTokenAt p (read_ident_or_keyword u p l)
    unfolding read_ident_or_keyword
    read_ident-IsTokenAt l =
        let lit = slice_from l.pos (advance_while (is_ident_continue u) l) in
        if_rule (IsTokenAt p)
          (kind_eq (lookup_ident lit) tok_true || kind_eq (lookup_ident lit) tok_false)
          (λ _. record { begins = refl; no_end = bool-no_end })
          λ _. record { begins = refl; no_end = (lookup_ident-proper lit).0 }

    read_string-IsTokenAt : (l : Lexer) → IsTokenAt p (read_string p l)
    unfolding read_string kind_eq
    read_string-IsTokenAt l = record { begins = refl; no_end = refl }

    -- Whatever `next` reads behind the blanks begins where they end, and is no end of file.
    pub read_token-IsTokenAt : (l : Lexer) → IsTokenAt p (read_token u p l)
    unfolding read_token
    read_token-IsTokenAt l =
        if_rule (IsTokenAt p) (peek l == b'"') (λ _. read_string-IsTokenAt l)
          λ _.
            if_rule (IsTokenAt p) (is_decimal (peek l)) (λ _. read_number-IsTokenAt l)
              λ _.
                if_rule (IsTokenAt p) (is_ident_start u (peek l)) (λ _. read_ident-IsTokenAt l)
                  λ _. read_operator-IsTokenAt l
