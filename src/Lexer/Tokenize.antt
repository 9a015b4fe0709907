-- ===== src/Lexer/Tokenize.antt =====
-- `Tokenize` ends, and what the tokens that it returns look like as a sequence.
use sentanyl_core_readonly.Lexer.Next.{next_from, next, tokenize_step, tokenize, read_token}
use sentanyl_core_readonly.Lexer.Progress.Routines.{skip_whitespace_and_comments-Moves}
use sentanyl_core_readonly.Lexer.Progress.Tokens.{read_token-Reads, is_glued}
use mathlib.Core.Path.{subst}
use sentanyl_core_readonly.Lexer.Place.{Located, IsPlaced, newlines, trailing}
use sentanyl_core_readonly.Lexer.Progress.{Moves-weaken, Reaches, Moves, Moves-trans}
use sentanyl_core_readonly.Lexer.Tokens.{read_token-IsTokenAt}
use sentanyl_core_readonly.Lexer.{Lexer, new_lexer, more, cur_pos, remaining}
use sentanyl_core_readonly.Prelude.Loops.{again, stop, loop, Round, goes, ends, loop_rule}
use sentanyl_core_readonly.Prelude.{
  ℕ, suc, ◌≤◌, ◌<◌, true, false, not, if_rule, if◌then◌else◌, List, [], ◌∷◌, ◌++◌, ◌≡◌, refl, sym,
  ap, ◌∙◌, Str, length, arith,
}
use sentanyl_core_readonly.Token.{Pos, Token, kind_eq, tok_eof}
use sentanyl_core_readonly.Utf8.{UnicodeTables}

-- Tokens that are no end of file and begin at strictly rising offsets from `lo` up, below `hi`.
abbrev pub Ascending : ℕ → List Token → ℕ → Type 0
Ascending lo [] hi = lo ≤ hi
Ascending lo (t ∷ ts) hi =
    (lo ≤ t.pos.offset) × (kind_eq t.kind tok_eof ≡ false) × Ascending (suc t.pos.offset) ts hi

Ascending-concat :
    (lo mid hi : ℕ) (ts : List Token) (t : Token)
    → Ascending lo ts mid
    → mid ≤ t.pos.offset
    → kind_eq t.kind tok_eof ≡ false
    → t.pos.offset < hi
    → Ascending lo (ts ++ t ∷ []) hi
Ascending-concat lo mid hi [] t a h n k = (omega arith, n, omega arith)
Ascending-concat lo mid hi (s ∷ ts) t a h n k =
    (a.0, a.1, Ascending-concat (suc s.pos.offset) mid hi ts t a.2 h n k)

-- The tokens end with one end of file, at the end of the source, and with no other before it.
pub record IsTokenStream (src : Str) (tokens : List Token) : Type 0 where
  pub before : List Token
  pub last : Token
  pub splits : tokens ≡ before ++ last ∷ []
  pub ascending : Ascending 0 before (length src)
  pub last_kind : kind_eq last.kind tok_eof ≡ true
  pub last_offset : last.pos.offset ≡ length src

-- No token is a glued integer.
abbrev Unglued : Str → List Token → Type 0
Unglued src [] = Unit
Unglued src (t ∷ ts) = (is_glued src t ≡ false) × Unglued src ts

-- The line and column of each token are those of its offset, up to the first glued integer, that
-- integer included.
abbrev pub PlacedUntil : Str → List Token → Type 0
PlacedUntil src [] = Unit
PlacedUntil src (t ∷ ts) = IsPlaced src t.pos × (is_glued src t ≡ false → PlacedUntil src ts)

PlacedUntil-concat :
    (src : Str) (ts : List Token) (t : Token)
    → PlacedUntil src ts
    → (Unglued src ts → IsPlaced src t.pos)
    → PlacedUntil src (ts ++ t ∷ [])
PlacedUntil-concat src [] t a h = (h tt, λ _. tt)
PlacedUntil-concat src (s ∷ ts) t a h =
    (a.0, λ g. PlacedUntil-concat src ts t (a.1 g) λ u. h (g, u))

Unglued-concat :
    (src : Str) (ts : List Token) (t : Token)
    → Unglued src (ts ++ t ∷ [])
    → Unglued src ts × (is_glued src t ≡ false)
Unglued-concat src [] t h = (tt, h.0)
Unglued-concat src (s ∷ ts) t h = let r = Unglued-concat src ts t h.1 in ((h.0, r.0), r.1)

-- What holds of the lexer between two calls of `next`.
record Scanning (src : Str) (l : Lexer) : Type 0 where
  same_src : l.src ≡ src
  inside : l.pos ≤ length src
  ascending : Ascending 0 l.tokens l.pos
  placed : PlacedUntil src l.tokens
  located : Unglued src l.tokens → Located l

-- The outcome of `next` from `l`.
data Nexts (l : Lexer) : Token × Lexer → Type 0 where
  finished :
      {t : Token} {m : Lexer}
      → Moves l m
      → kind_eq t.kind tok_eof ≡ true
      → t.pos.offset ≡ m.pos
      → length m.src ≤ m.pos
      → (Located l → IsPlaced l.src t.pos)
      → Nexts l (t, m)
  found :
      {t : Token} {m : Lexer}
      → Reaches (not (is_glued l.src t)) l m
      → kind_eq t.kind tok_eof ≡ false
      → l.pos ≤ t.pos.offset
      → t.pos.offset < m.pos
      → (Located l → IsPlaced l.src t.pos)
      → Nexts l (t, m)

Ascending-weaken :
    (lo mid hi : ℕ) (ts : List Token) → Ascending lo ts mid → mid ≤ hi → Ascending lo ts hi
Ascending-weaken lo mid hi [] a h = omega arith
Ascending-weaken lo mid hi (s ∷ ts) a h = (a.0, a.1, Ascending-weaken _ mid hi ts a.2 h)

Located-new_lexer : (src : Str) → Located (new_lexer src)
unfolding newlines trailing
Located-new_lexer src = (refl, refl)

eof-eof : kind_eq tok_eof tok_eof ≡ true
unfolding kind_eq
eof-eof = refl

module _ (u : UnicodeTables) where
  next_from-Nexts : (k l : Lexer) → Moves k l → Nexts k (next_from u l)
  unfolding next_from cur_pos
  next_from-Nexts k l a =
      let start : Located k → IsPlaced k.src (cur_pos l) =
        λ h. subst (λ src. IsPlaced src (cur_pos l)) a.same_src (a.located refl h) in
      if_rule (Nexts k) (not (more l)) (λ h. finished a eof-eof refl (ground arith) start)
        λ h.
          let inside : l.pos < length l.src = ground arith in
          let r = read_token-Reads u (cur_pos l) l refl inside in
          let at = read_token-IsTokenAt (cur_pos l) u l in
          let o : (read_token u (cur_pos l) l).0.pos.offset ≡ l.pos =
            ap (λ (p : Pos). p.offset) at.begins in
          let exact = not (is_glued l.src (read_token u (cur_pos l) l).0) in
          found
            (subst
              (λ src.
                Reaches (not (is_glued src (read_token u (cur_pos l) l).0)) k
                  (read_token u (cur_pos l) l).1)
              a.same_src (Moves-trans (Moves-weaken exact a) r.0))
            at.no_end (omega (arith, o, a.forward)) (omega (arith, o, r.1))
            (λ h. subst (λ p. IsPlaced k.src p) (sym at.begins) (start h))

  next-Nexts : (l : Lexer) → Nexts l (next u l)
  unfolding next
  next-Nexts l = next_from-Nexts l _ (skip_whitespace_and_comments-Moves l)

  module _ (src : Str) where
    abbrev Done : Lexer → Type 0
    Done l = IsTokenStream src l.tokens × PlacedUntil src l.tokens

    Round-tokenize :
        (l : Lexer) (n : Token × Lexer)
        → Scanning src l
        → Nexts l n
        → Round
            (Scanning src)
            Done
            (λ m. remaining m)
            (remaining l)
            (let m = record n.1 { tokens = n.1.tokens ++ n.0 ∷ [] } in
              if kind_eq n.0.kind tok_eof then stop m else again m)
    Round-tokenize l _ s (finished {t} {m} a k o e pl) =
        let e0 : length l.src ≡ length src = ap length s.same_src in
        let e1 : length m.src ≡ length src = ap length (a.same_src ∙ s.same_src) in
        let e2 : l.pos ≤ length l.src = omega (arith, s.inside) in
        let e3 : m.pos ≡ length src = omega (arith, a.inside e2, e) in
        let places = λ (u : Unglued src l.tokens).
          subst (λ r. IsPlaced r t.pos) s.same_src (pl (s.located u)) in
        rw k (
          ends (
            record {
              before = l.tokens;
              last = t;
              splits = ap (λ ts. ts ++ t ∷ []) a.same_tokens;
              ascending = Ascending-weaken 0 l.pos (length src) l.tokens s.ascending s.inside;
              last_kind = k;
              last_offset = o ∙ e3;
            },
            rw a.same_tokens (PlacedUntil-concat src l.tokens t s.placed places),
          ))
    Round-tokenize l _ s (found {t} {m} a k o d pl) =
        let e0 : length l.src ≡ length src = ap length s.same_src in
        let e1 : length m.src ≡ length src = ap length (a.same_src ∙ s.same_src) in
        let e2 : l.pos ≤ length l.src = omega (arith, s.inside) in
        let e3 : m.pos ≤ length src = omega (arith, a.inside e2) in
        let places = λ (u : Unglued src l.tokens).
          subst (λ r. IsPlaced r t.pos) s.same_src (pl (s.located u)) in
        rw k (
          goes
            (record {
              same_src = a.same_src ∙ s.same_src;
              inside = e3;
              ascending =
                  rw a.same_tokens (Ascending-concat 0 l.pos m.pos l.tokens t s.ascending o k d);
              placed = rw a.same_tokens (PlacedUntil-concat src l.tokens t s.placed places);
              located = λ g.
                  let g' = Unglued-concat src l.tokens t (rw a.same_tokens at g) in
                  let exact : not (is_glued l.src t) ≡ true =
                    subst (λ r. not (is_glued r t) ≡ true) (sym s.same_src) (ap not g'.1) in
                  a.located exact (s.located g'.0);
            })
            (omega arith))

    tokenize_step-Round :
        (l : Lexer)
        → Scanning src l
        → Round (Scanning src) Done (λ m. remaining m) (remaining l) (tokenize_step u l)
    unfolding tokenize_step
    tokenize_step-Round l s = Round-tokenize l (next u l) s (next-Nexts l)

    tokenize-Done : Done (loop (suc (suc (length src))) (tokenize_step u) (new_lexer src))
    tokenize-Done =
        loop_rule (Scanning src) Done (λ m. remaining m) (tokenize_step u)
          (λ l s. tokenize_step-Round l s) (suc (suc (length src))) (new_lexer src) (omega arith)
          (record {
            same_src = refl;
            inside = omega arith;
            ascending = omega arith;
            placed = tt;
            located = λ _. Located-new_lexer src;
          })

    -- `Tokenize` ends on every source. The tokens that it returns begin at strictly rising
    -- offsets inside the source, exactly the last of them is an end of file, and that one stands
    -- at the end of the source.
    pub tokenize-IsTokenStream : IsTokenStream src (tokenize u src).0
    unfolding tokenize
    tokenize-IsTokenStream = tokenize-Done.0

    -- The line and the column of each token are one more than the newlines before its offset and
    -- the bytes behind the last of these, up to and including the first integer that has the
    -- letter of a time unit right behind it.
    pub tokenize-PlacedUntil : PlacedUntil src (tokenize u src).0
    unfolding tokenize
    tokenize-PlacedUntil = tokenize-Done.1
