-- ===== src/Lexer/Progress/Routines.antt =====
-- Each scanning routine moves forward, and `next` reads at least one byte unless it is at the end.
use sentanyl_core_readonly.Diagnostic.Messages.{unterminated_block_comment}
use sentanyl_core_readonly.Lexer.Progress.{
  Moves, Moves-refl, Moves-trans, advance-Moves, advance-lt, advance2-Moves, advance2-lt,
  errorf-Moves, RoundMoves, goes_on, halts, loop-Moves, more→lt, advance_while-Moves,
  advance_while-lt,
}
use sentanyl_core_readonly.Lexer.Scan.{
  is_blank, not_newline, block_step, block_comment, skip_step, skip_whitespace_and_comments,
}
use sentanyl_core_readonly.Lexer.{Lexer, more, peek, cur_pos, second_is, remaining}
use sentanyl_core_readonly.Prelude.Loops.{again}
use sentanyl_core_readonly.Prelude.{
  suc, ◌-◌, ◌<◌, Bool, true, false, not, ◌&&◌, leb, if_rule, ◌==◌, ◌≡◌, length, arith,
}
use sentanyl_core_readonly.Token.{Pos}

not-false : {b : Bool} → not b ≡ false → b ≡ true
not-false {b} h = ground arith

block_step-Moves : (start : Pos) (l : Lexer) → RoundMoves l (block_step start l)
unfolding block_step
block_step-Moves start l =
    if_rule (RoundMoves l) (not (more l)) (λ _. halts (Moves-refl l))
      λ m.
        let h = more→lt l (not-false m) in
        if_rule (RoundMoves l) (peek l == b'*' && second_is b'/' l) (λ _. halts (advance2-Moves l))
          λ _.
            if_rule (RoundMoves l) (leb (length l.src - 1) l.pos)
              (λ _.
                halts
                  (Moves-trans (errorf-Moves start unterminated_block_comment l) (advance-Moves _)))
              λ _. goes_on (advance-Moves l) h (advance-lt l h)

block_comment-Moves : (start : Pos) (l : Lexer) → Moves l (block_comment start l)
unfolding block_comment
block_comment-Moves start l =
    loop-Moves (block_step start) (block_step-Moves start) l (suc (remaining l)) l (omega arith)
      (Moves-refl l)

-- A round that reads something at once and then moves on.
goes_from :
    {s m t : Lexer}
    → Moves s m
    → s.pos < length s.src
    → s.pos < m.pos
    → Moves m t
    → RoundMoves s (again t)
goes_from a h d b = goes_on (Moves-trans a b) h (omega (arith, d, b.forward))

skip_step-Moves : (l : Lexer) → RoundMoves l (skip_step l)
unfolding skip_step
skip_step-Moves l =
    if_rule (RoundMoves l) (not (more l)) (λ _. halts (Moves-refl l))
      λ m.
        let h = more→lt l (not-false m) in
        let one = advance-Moves l in
        let two = advance2-Moves l in
        if_rule (RoundMoves l) (is_blank (peek l)) (λ _. goes_on one h (advance-lt l h))
          λ _.
            if_rule (RoundMoves l) (peek l == b'#')
              (λ p.
                goes_on (advance_while-Moves not_newline l) h
                  (advance_while-lt not_newline l h (ground arith)))
              λ _.
                if_rule (RoundMoves l) (peek l == b'/' && second_is b'/' l)
                  (λ _. goes_from two h (advance2-lt l h) (advance_while-Moves not_newline _))
                  λ _.
                    if_rule (RoundMoves l) (peek l == b'/' && second_is b'*' l)
                      (λ _. goes_from two h (advance2-lt l h) (block_comment-Moves (cur_pos l) _))
                      λ _. halts (Moves-refl l)

-- Skipping blanks and comments moves forward or not at all, stays inside a source that it started
-- in, keeps the source, the tokens and the diagnostics there are, and keeps correct counters of
-- line and column correct.
pub skip_whitespace_and_comments-Moves : (l : Lexer) → Moves l (skip_whitespace_and_comments l)
unfolding skip_whitespace_and_comments
skip_whitespace_and_comments-Moves l =
    loop-Moves skip_step skip_step-Moves l (suc (remaining l)) l (omega arith) (Moves-refl l)
