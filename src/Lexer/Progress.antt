-- ===== src/Lexer/Progress.antt =====
-- The lexer only moves forward and never behind the end of the source.
pub mod Routines
pub mod Tokens
use mathlib.Core.List.{append-nil, append_assoc}
use sentanyl_core_readonly.Lexer.{
  Lexer, more, rest_of, peek, move, advance, errorf, remaining, while_step, advance_while,
}
use sentanyl_core_readonly.Lexer.Place.{
  Located, newlines, trailing, newlines-append, newline_alone, trailing-append, newlines-IsPlain,
  trailing-IsPlain,
}
use sentanyl_core_readonly.Utf8.Newlines.{IsRune, IsPlain, decode_rune-IsRune}
use sentanyl_core_readonly.Prelude.Loops.{
  Flow, again, stop, loop, Round, goes, ends, loop_rule, loop-again,
}
use sentanyl_core_readonly.Prelude.{
  ℕ, zero, suc, ◌+◌, ◌-◌, ◌≤◌, ◌<◌, Bool, true, false, ◌&&◌, ltb, leb, if◌then◌else◌, ◌≡◌, refl,
  sym, ◌∙◌, ap, List, [], ◌∷◌, ◌++◌, Str, length, drop, arith, tests, Bool-cases, if_rule, ◌==◌,
  and_iff, ltb→lt, lt→ltb, ltb-false, take, take-add, length-take, inl, inr, length-drop,
}
use sentanyl_core_readonly.Diagnostic.{Diagnostic, diag_error}
use sentanyl_core_readonly.Diagnostic.Messages.{Message}
use sentanyl_core_readonly.Token.{Pos}
use sentanyl_core_readonly.Utf8.Widths.{decode_rune-width}
use sentanyl_core_readonly.Utf8.{decode_rune}

-- `m` is reached from `l`: the same source and tokens, no diagnostic lost, and a position between
-- that of `l` and the end. If the step is exact, correct counters of line and column stay correct.
pub record Reaches (exact : Bool) (l m : Lexer) : Type 0 where
  pub same_src : m.src ≡ l.src
  pub same_tokens : m.tokens ≡ l.tokens
  pub added : List Diagnostic
  pub kept : m.errors ≡ l.errors ++ added
  pub forward : l.pos ≤ m.pos
  pub inside : l.pos ≤ length l.src → m.pos ≤ length m.src
  pub located : exact ≡ true → Located l → Located m

abbrev pub Moves : Lexer → Lexer → Type 0
Moves = Reaches true

pub Moves-refl : (l : Lexer) → Moves l l
Moves-refl l = record {
  same_src = refl;
  same_tokens = refl;
  added = [];
  kept = sym (append-nil l.errors);
  forward = omega arith;
  inside = λ h. h;
  located = λ _ h. h;
}

pub Moves-trans : {e : Bool} {l m n : Lexer} → Reaches e l m → Reaches e m n → Reaches e l n
Moves-trans {e} {l} {m} {n} a b = record {
  same_src = b.same_src ∙ a.same_src;
  same_tokens = b.same_tokens ∙ a.same_tokens;
  added = a.added ++ b.added;
  kept = b.kept ∙ ap (λ e. e ++ b.added) a.kept ∙ append_assoc l.errors a.added b.added;
  forward = omega (arith, a.forward, b.forward);
  inside = λ h. b.inside (a.inside h);
  located = λ x h. b.located x (a.located x h);
}

-- An exact step serves where a step need not be exact.
pub Moves-weaken : (e : Bool) {l m : Lexer} → Moves l m → Reaches e l m
Moves-weaken e a = record {
  same_src = a.same_src;
  same_tokens = a.same_tokens;
  added = a.added;
  kept = a.kept;
  forward = a.forward;
  inside = a.inside;
  located = λ _ h. a.located refl h;
}

-- Behind a position before the end there is a byte.
rest-cons : (n : ℕ) (xs : Str) → n < length xs → (b : ℕ) × (r : Str) × (drop n xs ≡ b ∷ r)
rest-cons n [] h = elim h [ ]
rest-cons zero (x ∷ xs) h = (x, xs, refl)
rest-cons (suc n) (x ∷ xs) h = rest-cons n xs (omega arith)

pub width_bounds :
    (l : Lexer)
    → l.pos < length l.src
    → (1 ≤ (decode_rune (rest_of l)).1) × (l.pos + (decode_rune (rest_of l)).1 ≤ length l.src)
width_bounds l h =
    let (b, r, e) = rest-cons l.pos l.src h in
    let k = length-drop l.pos l.src in
    let lens : suc (length r) ≡ length l.src - l.pos = sym (ap length e) ∙ k in
    rw e (omega (arith, decode_rune-width b r, lens))

-- The counters after a piece of `size` bytes that is a newline or holds none.
move-Located :
    (r size : ℕ) (l : Lexer)
    → length (take size (rest_of l)) ≡ size
    → (r == b'\n' ≡ false → IsPlain (take size (rest_of l)))
    → (r == b'\n' ≡ true → take size (rest_of l) ≡ b'\n' ∷ [])
    → Located l
    → Located (move r size l)
unfolding move
move-Located r size l len plain nl (at_line, at_col) =
    let piece = take-add l.pos size (l.pos + size) l.src refl in
    let before = take l.pos l.src in
    let count = ap newlines piece ∙ newlines-append before (take size (rest_of l)) in
    let width = ap (trailing 0) piece ∙ trailing-append 0 before (take size (rest_of l)) in
    elim (Bool-cases (r == b'\n')) [
      | inl e ↦ rw e (
        omega (arith, count, ap newlines (nl e), newline_alone.0),
        sym (
            ap suc (
              width
              ∙ ap (trailing (trailing 0 before)) (nl e)
              ∙ newline_alone.1 (trailing 0 before))),
      )
      | inr e ↦ rw e (
        omega (arith, count, newlines-IsPlain _ (plain e)),
        omega (arith, width, trailing-IsPlain (trailing 0 before) _ (plain e)),
      )
    ]

-- A rune that is read keeps the counters correct.
advance-Located : (l : Lexer) → l.pos < length l.src → Located l → Located (advance l)
unfolding advance
advance-Located l h a =
    let (b, r, e) = rest-cons l.pos l.src h in
    let w = width_bounds l h in
    let size = (decode_rune (rest_of l)).1 in
    let rune : ((decode_rune (rest_of l)).0 == b'\n' ≡ false → IsPlain (take size (rest_of l)))
        × ((decode_rune (rest_of l)).0 == b'\n' ≡ true → take size (rest_of l) ≡ b'\n' ∷ []) =
      rw e (decode_rune-IsRune b r) in
    let past : leb (length l.src) l.pos ≡ false = ground arith in
    let len : length (take (decode_rune (rest_of l)).1 (rest_of l)) ≡ (decode_rune (rest_of l)).1 =
      omega (arith, length-take (decode_rune (rest_of l)).1 (rest_of l), length-drop l.pos l.src) in
    rw past (move-Located _ size l len rune.0 rune.1 a)

advance-end : (l : Lexer) → length l.src ≤ l.pos → advance l ≡ l
unfolding advance
advance-end l h = ground arith

pub advance-Moves : (l : Lexer) → Moves l (advance l)
unfolding advance
advance-Moves l = elim (Bool-cases (ltb l.pos (length l.src))) [
  | inr e ↦ rw (advance-end l (ltb-false _ _ e)) (Moves-refl l)
  | inl e ↦
      let h = ltb→lt _ _ e in
      let w = width_bounds l h in
      record {
        same_src = ground arith;
        same_tokens = ground arith;
        added = [];
        kept = ground (arith, append-nil l.errors);
        forward = ground arith;
        inside = λ _. ground arith;
        located = λ _. advance-Located l h;
      }
]

pub advance-lt : (l : Lexer) → l.pos < length l.src → l.pos < (advance l).pos
unfolding advance
advance-lt l h = ground (arith, width_bounds l h)

pub advance2-Moves : (l : Lexer) → Moves l (advance (advance l))
advance2-Moves l = Moves-trans (advance-Moves l) (advance-Moves (advance l))

pub advance2-lt : (l : Lexer) → l.pos < length l.src → l.pos < (advance (advance l)).pos
advance2-lt l h = omega (arith, advance-lt l h, (advance-Moves (advance l)).forward)

pub errorf-Moves : (p : Pos) (message : Message) (l : Lexer) → Moves l (errorf p message l)
unfolding errorf
errorf-Moves p message l = record {
  same_src = refl;
  same_tokens = refl;
  added = record { pos = p; message = message; level = diag_error } ∷ [];
  kept = refl;
  forward = omega arith;
  inside = λ h. h;
  located = λ _ h. h;
}

-- One round of a scanning loop from `s`.
pub data RoundMoves (s : Lexer) : Flow Lexer → Type 0 where
  goes_on : {t : Lexer} → Moves s t → s.pos < length s.src → s.pos < t.pos → RoundMoves s (again t)
  halts : {t : Lexer} → Moves s t → RoundMoves s (stop t)

module _ (step : Lexer → Flow Lexer) (round : (s : Lexer) → RoundMoves s (step s)) (l : Lexer) where
  Round-of :
      (s : Lexer) (f : Flow Lexer)
      → Moves l s
      → RoundMoves s f
      → Round (Moves l) (Moves l) (λ s. remaining s) (remaining s) f
  Round-of s _ a (goes_on {t} b h d) =
      goes (Moves-trans a b)
        (let e : length t.src ≡ length s.src = ap length b.same_src in omega arith)
  Round-of s _ a (halts b) = ends (Moves-trans a b)

  -- A loop of such rounds moves forward, on enough fuel.
  pub loop-Moves :
      (fuel : ℕ) (s : Lexer) → remaining s < fuel → Moves l s → Moves l (loop fuel step s)
  loop-Moves fuel s =
      loop_rule (Moves l) (Moves l) (λ s. remaining s) step (λ s a. Round-of s (step s) a (round s))
        fuel s

pub more→lt : (l : Lexer) → more l ≡ true → l.pos < length l.src
more→lt l h = ltb→lt _ _ h

pub while_step-Moves : (test : ℕ → Bool) (l : Lexer) → RoundMoves l (while_step test l)
unfolding while_step
while_step-Moves test l =
    if_rule (RoundMoves l) (more l && test (peek l))
      (λ h.
        let b = more→lt l ((and_iff (more l) (test (peek l))).0 h).0 in
        goes_on (advance-Moves l) b (advance-lt l b))
      λ _. halts (Moves-refl l)

pub advance_while-Moves : (test : ℕ → Bool) (l : Lexer) → Moves l (advance_while test l)
unfolding advance_while
advance_while-Moves test l =
    loop-Moves (while_step test) (while_step-Moves test) l (suc (remaining l)) l (omega arith)
      (Moves-refl l)

while_step-again :
    (test : ℕ → Bool) (l : Lexer)
    → l.pos < length l.src
    → test (peek l) ≡ true
    → while_step test l ≡ again (advance l)
unfolding while_step
while_step-again test l h t = rw (lt→ltb _ _ h, t)

-- At a rune that passes the test the loop reads at least that rune.
pub advance_while-lt :
    (test : ℕ → Bool) (l : Lexer)
    → l.pos < length l.src
    → test (peek l) ≡ true
    → l.pos < (advance_while test l).pos
unfolding advance_while
advance_while-lt test l h t =
    let e : length (advance l).src ≡ length l.src = ap length (advance-Moves l).same_src in
    let d = advance-lt l h in
    let rest =
      loop-Moves (while_step test) (while_step-Moves test) (advance l) (remaining l) (advance l)
        (omega arith) (Moves-refl (advance l)) in
    rw (loop-again (remaining l) (while_step test) (while_step-again test l h t))
      (omega (arith, d, rest.forward))
