-- ===== src/Lexer/Progress/Tokens.antt =====
-- The readers of tokens move forward.
use mathlib.Core.Bool.{false≢true}
use mathlib.Core.Path.{subst}
use sentanyl_core_readonly.Lexer.Next.{
  finish_single, read_single, finish_two, read_operator, read_token, single_char_operator,
  two_char_operator,
}
use sentanyl_core_readonly.Lexer.Progress.{
  Reaches, Moves-weaken, Moves, Moves-refl, Moves-trans, advance-Moves, advance-lt, advance2-Moves,
  advance2-lt, errorf-Moves, RoundMoves, goes_on, halts, loop-Moves, more→lt, advance_while-Moves,
  advance_while-lt,
}
use sentanyl_core_readonly.Lexer.Scan.{
  StringScan, string_step, scan_string, read_string, is_decimal, is_unit, compound_step, compound,
  recalc_line_col, is_ident_start, is_ident_continue, read_duration, read_fraction,
  read_number_or_duration, read_ident_or_keyword,
}
use sentanyl_core_readonly.Lexer.{
  Lexer, make_token, slice_from, more, peek, advance, remaining, advance_while, byte_at,
}
use sentanyl_core_readonly.Prelude.Loops.{Flow, again, stop, Round, goes, ends, loop_rule}
use sentanyl_core_readonly.Prelude.{
  length-take, length-drop, drop, ℕ, suc, ◌+◌, ◌-◌, ◌≤◌, ◌<◌, Bool, true, false, not, ◌&&◌, ltb,
  leb, if_rule, ◌==◌, Option, some, none, ◌≡◌, refl, ap, sym, Str, length, arith, and_iff,
}
use sentanyl_core_readonly.Token.{Pos, Token, TokenKind, kind_eq, tok_int}
use sentanyl_core_readonly.Utf8.{UnicodeTables, decode_rune}

not-false : {b : Bool} → not b ≡ false → b ≡ true
not-false {b} h = ground arith

-- One round of the loop of `readString`.
data StringRound (s : StringScan) : Flow StringScan → Type 0 where
  string_goes :
      {t : StringScan}
      → Moves s.lexer t.lexer
      → s.lexer.pos < length s.lexer.src
      → s.lexer.pos < t.lexer.pos
      → StringRound s (again t)
  string_halts : {t : StringScan} → Moves s.lexer t.lexer → StringRound s (stop t)

string_step-Moves : (start : Pos) (s : StringScan) → StringRound s (string_step start s)
unfolding string_step
string_step-Moves start s =
    let l = s.lexer in
    if_rule (StringRound s) (not (more l)) (λ _. string_halts (errorf-Moves start _ l))
      λ m.
        let h = more→lt l (not-false m) in
        let d = advance-lt l h in
        if_rule (StringRound s) (peek l == b'"') (λ _. string_halts (advance-Moves l))
          λ _.
            if_rule (StringRound s) (peek l == b'\\')
              (λ _.
                if_rule (StringRound s) (not (more (advance l)))
                  (λ _. string_halts (Moves-trans (advance-Moves l) (errorf-Moves start _ _)))
                  λ _. string_goes (advance2-Moves l) h (advance2-lt l h))
              λ _. string_goes (advance-Moves l) h d

module _ (start : Pos) (l : Lexer) where
  string_round :
      (s : StringScan) (f : Flow StringScan)
      → Moves l s.lexer
      → StringRound s f
      → Round
          (λ t. Moves l t.lexer)
          (λ t. Moves l t.lexer)
          (λ t. remaining t.lexer)
          (remaining s.lexer)
          f
  string_round s _ a (string_goes {t} b h d) =
      goes (Moves-trans a b)
        (let e : length t.lexer.src ≡ length s.lexer.src = ap length b.same_src in omega arith)
  string_round s _ a (string_halts b) = ends (Moves-trans a b)

  scan_string-Moves : (s : StringScan) → Moves l s.lexer → Moves l (scan_string start s).lexer
  unfolding scan_string
  scan_string-Moves s =
      loop_rule (λ t. Moves l t.lexer) (λ t. Moves l t.lexer) (λ t. remaining t.lexer)
        (string_step start)
        (λ t a. string_round t (string_step start t) a (string_step-Moves start t))
        (suc (remaining s.lexer)) s (omega arith)

-- `m` is reached from `l` by reading one byte at least.
abbrev pub Reads : Bool → Lexer → Lexer → Type 0
Reads e l m = Reaches e l m × (l.pos < m.pos)

Reads-trans : {e : Bool} {l m n : Lexer} → Reads e l m → Reaches e m n → Reads e l n
Reads-trans a b = (Moves-trans a.0 b, omega (arith, a.1, b.forward))

advance-Reads : (l : Lexer) → l.pos < length l.src → Reads true l (advance l)
advance-Reads l h = (advance-Moves l, advance-lt l h)

read_string-Reads :
    (start : Pos) (l : Lexer) → l.pos < length l.src → Reads true l (read_string start l).1
unfolding read_string
read_string-Reads start l h =
    Reads-trans (advance-Reads l h) (scan_string-Moves start (advance l) _ (Moves-refl (advance l)))

compound_step-Moves : (l : Lexer) → RoundMoves l (compound_step l)
unfolding compound_step
compound_step-Moves l =
    if_rule (RoundMoves l) (more l && is_decimal (peek l))
      (λ c.
        let h = more→lt l ((and_iff (more l) (is_decimal (peek l))).0 c).0 in
        let r =
          if_rule (Reads true l) (more (advance l) && is_unit (peek (advance l)))
            (λ _. (advance2-Moves l, advance2-lt l h)) (λ _. advance-Reads l h) in
        goes_on r.0 h r.1)
      λ _. halts (Moves-refl l)

compound-Moves : (l : Lexer) → Moves l (compound l)
unfolding compound
compound-Moves l =
    loop-Moves compound_step compound_step-Moves l (suc (remaining l)) l (omega arith)
      (Moves-refl l)

-- Going back to a place between `l` and `m`, with the line and column counted again.
back-Reaches :
    (l m : Lexer) (pos target : ℕ)
    → Moves l m
    → l.pos ≤ pos
    → pos ≤ m.pos
    → Reaches false l (recalc_line_col target (record m { pos = pos }))
unfolding recalc_line_col
back-Reaches l m pos target a h k = record {
  same_src = a.same_src;
  same_tokens = a.same_tokens;
  added = a.added;
  kept = a.kept;
  forward = h;
  inside = λ b. omega (arith, a.inside b);
  located = λ e. absurd (false≢true e);
}

Reads-weaken : (e : Bool) {l m : Lexer} → Reads true l m → Reads e l m
Reads-weaken e a = (Moves-weaken e a.0, a.1)

-- An integer with the letter of a unit right behind it: where `readNumberOrDuration` has gone back.
unfoldable pub is_glued : Str → Token → Bool
is_glued src t =
    kind_eq t.kind tok_int && is_unit (decode_rune (drop (t.pos.offset + length t.literal) src)).0

-- What is read as `t` from `l`, exactly unless `t` is a glued integer.
abbrev pub ReadsToken : Lexer → Token × Lexer → Type 0
ReadsToken l (t, m) = Reads (not (is_glued l.src t)) l m

exactly : {l : Lexer} (t : Token × Lexer) → Reads true l t.1 → ReadsToken l t
exactly {l} (t, m) a = Reads-weaken (not (is_glued l.src t)) a

length-slice_from :
    (from : ℕ) (l : Lexer)
    → from ≤ l.pos
    → l.pos ≤ length l.src
    → from + length (slice_from from l) ≡ l.pos
unfolding slice_from
length-slice_from from l h k =
    omega (arith, length-take (l.pos - from) (drop from l.src), length-drop from l.src)

-- The integer that is left when the reader goes back to the unit at the position of `l`.
back-is_glued :
    (start : Pos) (l m : Lexer) (from : ℕ)
    → m.src ≡ l.src
    → m.pos ≡ l.pos
    → start.offset ≡ from
    → from ≤ l.pos
    → l.pos < length l.src
    → is_unit (peek l) ≡ true
    → is_glued l.src (make_token tok_int (slice_from from m) start) ≡ true
unfolding is_glued kind_eq peek
back-is_glued start l m from same at o h k unit =
    let lens : length m.src ≡ length l.src = ap length same in
    let place : start.offset + length (slice_from from m) ≡ l.pos =
      omega (arith, length-slice_from from m) in
    let past : leb (length l.src) l.pos ≡ false = ground arith in rw place (rw past at unit)

module _ (u : UnicodeTables) where
  read_duration-Reads :
      (start : Pos) (k l : Lexer)
      → start.offset ≡ k.pos
      → Reads true k l
      → l.pos < length l.src
      → is_unit (peek l) ≡ true
      → ReadsToken k (read_duration u start k.pos l)
  unfolding read_duration
  read_duration-Reads start k l o a h unit =
      let b = Moves-trans (advance-Moves l) (compound-Moves (advance l)) in
      let l' = compound (advance l) in
      if_rule (ReadsToken k) (more l' && is_ident_start u (peek l'))
        (λ _.
          let m = record l' { pos = l.pos } in
          let back = recalc_line_col k.pos m in
          let glued = back-is_glued start l m k.pos b.same_src refl o a.0.forward h unit in
          let glued' =
            subst (λ src. is_glued src (make_token tok_int (slice_from k.pos m) start) ≡ true)
              a.0.same_src glued in
          let r : Reads false k back =
            Reads-trans (Reads-weaken false a)
              (back-Reaches l l' l.pos k.pos b (omega arith) b.forward) in
          subst (λ e. Reads (not e) k back) (sym glued') r)
        λ _. exactly _ (Reads-trans a b)

  read_fraction-Moves :
      (start : Pos) (from : ℕ) (l : Lexer) → Moves l (read_fraction u start from l).1
  unfolding read_fraction
  read_fraction-Moves start from l =
      if_rule (λ (t : Token × Lexer). Moves l t.1)
        (more l
          && peek l == b'.'
          && ltb (l.pos + 1) (length l.src)
          && is_decimal (byte_at (l.pos + 1) l.src))
        (λ _. Moves-trans (advance-Moves l) (advance_while-Moves is_decimal (advance l)))
        λ _. Moves-refl l

  read_number-Reads :
      (start : Pos) (l : Lexer)
      → start.offset ≡ l.pos
      → l.pos < length l.src
      → is_decimal (peek l) ≡ true
      → ReadsToken l (read_number_or_duration u start l)
  unfolding read_number_or_duration
  read_number-Reads start l o h d =
      let l' = advance_while is_decimal l in
      let a : Reads true l l' =
        (advance_while-Moves is_decimal l, advance_while-lt is_decimal l h d) in
      if_rule (ReadsToken l) (more l' && is_unit (peek l'))
        (λ c.
          let c' = (and_iff (more l') (is_unit (peek l'))).0 c in
          read_duration-Reads start l l' o a (more→lt l' c'.0) c'.1)
        λ _.
          exactly (read_fraction u start l.pos l')
            (Reads-trans a (read_fraction-Moves start l.pos l'))

  start-continue : (r : ℕ) → is_ident_start u r ≡ true → is_ident_continue u r ≡ true
  unfolding is_ident_start is_ident_continue
  start-continue r h = ground arith

  read_ident-Reads :
      (start : Pos) (l : Lexer)
      → l.pos < length l.src
      → is_ident_start u (peek l) ≡ true
      → Reads true l (read_ident_or_keyword u start l).1
  unfolding read_ident_or_keyword
  read_ident-Reads start l h d =
      let test = is_ident_continue u in
      if_rule (λ (t : Token × Lexer). Reads true l t.1) _
        (λ _. (advance_while-Moves test l, advance_while-lt test l h (start-continue _ d)))
        λ _. (advance_while-Moves test l, advance_while-lt test l h (start-continue _ d))

  finish_single-Moves :
      (p : Pos) (r : ℕ) (l : Lexer) (o : Option TokenKind) → Moves l (finish_single p r l o).1
  unfolding finish_single
  finish_single-Moves p r l (some kind) = Moves-refl l
  finish_single-Moves p r l none = errorf-Moves p _ l

  read_single-Reads :
      (p : Pos) (l : Lexer) → l.pos < length l.src → Reads true l (read_single p l).1
  unfolding read_single
  read_single-Reads p l h =
      Reads-trans (advance-Reads l h)
        (finish_single-Moves p (peek l) (advance l) (single_char_operator (peek l)))

  finish_two-Reads :
      (p : Pos) (l : Lexer) (o : Option TokenKind)
      → l.pos < length l.src
      → Reads true l (finish_two p l o).1
  unfolding finish_two
  finish_two-Reads p l (some kind) h = (advance2-Moves l, advance2-lt l h)
  finish_two-Reads p l none h = read_single-Reads p l h

  read_operator-Reads :
      (p : Pos) (l : Lexer) → l.pos < length l.src → Reads true l (read_operator p l).1
  unfolding read_operator
  read_operator-Reads p l h =
      if_rule (λ (t : Token × Lexer). Reads true l t.1) (ltb (l.pos + 1) (length l.src))
        (λ _.
          finish_two-Reads p l (two_char_operator (byte_at l.pos l.src) (byte_at (l.pos + 1) l.src))
            h)
        λ _. read_single-Reads p l h

  -- A token that is read takes one byte at least, and keeps the counters correct unless it is a
  -- glued integer.
  pub read_token-Reads :
      (p : Pos) (l : Lexer)
      → p.offset ≡ l.pos
      → l.pos < length l.src
      → ReadsToken l (read_token u p l)
  unfolding read_token
  read_token-Reads p l o h =
      let P = ReadsToken l in
      if_rule P (peek l == b'"') (λ _. exactly (read_string p l) (read_string-Reads p l h))
        λ _.
          if_rule P (is_decimal (peek l)) (λ d. read_number-Reads p l o h d)
            λ _.
              if_rule P (is_ident_start u (peek l))
                (λ d. exactly (read_ident_or_keyword u p l) (read_ident-Reads p l h d))
                λ _. exactly (read_operator p l) (read_operator-Reads p l h)
