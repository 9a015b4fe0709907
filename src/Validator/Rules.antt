-- ===== src/Validator/Rules.antt =====
-- What one statement of a pass does to the validator, and how such facts combine along the code.
use mathlib.Core.Bool.{false≢true}
use sentanyl_core_readonly.Diagnostic.Messages.{Message}
use sentanyl_core_readonly.Diagnostic.{Diagnostic, is_error, has_errors, diag_error, diag_warning}
use sentanyl_core_readonly.Prelude.{
  Bool, true, false, ◌↔◌, ◌||◌, Option, some, none, List, [], ◌∷◌, ◌++◌, ◌≡◌, refl, sym, ◌∙◌, arith,
}
use sentanyl_core_readonly.Prelude.Distinct.{All}
use sentanyl_core_readonly.Token.{Pos}
use sentanyl_core_readonly.Validator.{
  SymbolTable, Validator, errorf, warnf, error_if, warn_if, for_each, if_some,
}

-- A predicate at an item that may be missing.
abbrev pub AllSome {ℓ κ} : {A : Type ℓ} → (A → Type κ) → Option A → Type κ
AllSome P none = Unit
AllSome P (some x) = P x

-- No diagnostic is an error.
abbrev pub IsClean : Validator → Type 0
IsClean v = has_errors v.errors ≡ false

has_errors-concat :
    (ds : List Diagnostic) (d : Diagnostic)
    → has_errors (ds ++ d ∷ []) ≡ (has_errors ds || is_error d.level)
unfolding has_errors
has_errors-concat [] d = ground arith
has_errors-concat (x ∷ ds) d = ground (arith, has_errors-concat ds d)

pub errorf-not-IsClean :
    (p : Pos) (m : Message) (v : Validator) → has_errors (errorf p m v).errors ≡ true
unfolding errorf
errorf-not-IsClean p m v =
    ground (arith, has_errors-concat v.errors (record { pos = p; message = m; level = diag_error }))

warnf-errors :
    (p : Pos) (m : Message) (v : Validator) → has_errors (warnf p m v).errors ≡ has_errors v.errors
unfolding warnf
warnf-errors p m v =
    ground
      (arith, has_errors-concat v.errors (record { pos = p; message = m; level = diag_warning }))

-- From `v`, at the symbols `s`, the code reaches `w`: the symbols stay, and no error is reported
-- exactly if `P` holds.
pub record Checked (s : SymbolTable) (P : Type 0) (v w : Validator) : Type 0 where
  pub keeps : v.symbols ≡ s → w.symbols ≡ s
  pub sound : v.symbols ≡ s → IsClean w → IsClean v × P
  pub complete : v.symbols ≡ s → IsClean v → P → IsClean w

module _ {s : SymbolTable} where
  pub Checked-refl : (v : Validator) → Checked s (Unit {0}) v v
  Checked-refl v = record { keeps = λ h. h; sound = λ _ c. (c, tt); complete = λ _ c _. c }

  pub Checked-seq :
      {P Q : Type 0} {v w x : Validator} → Checked s P v w → Checked s Q w x → Checked s (P × Q) v x
  Checked-seq a b = record {
    keeps = λ h. b.keeps (a.keeps h);
    sound = λ h c. let q = b.sound (a.keeps h) c in let p = a.sound h q.0 in (p.0, (p.1, q.1));
    complete = λ h c (p, q). b.complete (a.keeps h) (a.complete h c p) q;
  }

  pub Checked-map :
      {P Q : Type 0} {v w : Validator} → (P → Q) → (Q → P) → Checked s P v w → Checked s Q v w
  Checked-map f g a = record {
    keeps = a.keeps;
    sound = λ h c. let p = a.sound h c in (p.0, f p.1);
    complete = λ h c q. a.complete h c (g q);
  }

  -- A statement that reports no error may be left out of the account.
  pub Checked-skip :
      {P : Type 0} {v w x : Validator}
      → Checked s P v w
      → Checked s (Unit {0}) w x
      → Checked s P v x
  Checked-skip a b = Checked-map (λ h. h.0) (λ h. (h, tt)) (Checked-seq a b)

  pub Checked-after :
      {P : Type 0} {v w x : Validator}
      → Checked s (Unit {0}) v w
      → Checked s P w x
      → Checked s P v x
  Checked-after a b = Checked-map (λ h. h.1) (λ h. (tt, h)) (Checked-seq a b)

  pub Checked-error_if :
      (cond : Bool) (p : Pos) (m : Message) (v : Validator)
      → Checked s (cond ≡ false) v (error_if cond p m v)
  unfolding error_if
  Checked-error_if true p m v = record {
    keeps = λ h. unfold errorf in h;
    sound = λ _ c. absurd (false≢true (sym c ∙ errorf-not-IsClean p m v));
    complete = λ _ _ e. absurd (false≢true (sym e));
  }
  Checked-error_if false p m v = record {
    keeps = λ h. h;
    sound = λ _ c. (c, refl);
    complete = λ _ c _. c;
  }

  pub Checked-warn_if :
      (cond : Bool) (p : Pos) (m : Message) (v : Validator)
      → Checked s (Unit {0}) v (warn_if cond p m v)
  unfolding warn_if
  Checked-warn_if true p m v = record {
    keeps = λ h. unfold warnf in h;
    sound = λ _ c. (sym (warnf-errors p m v) ∙ c, tt);
    complete = λ _ c _. warnf-errors p m v ∙ c;
  }
  Checked-warn_if false p m v = Checked-refl v

  pub Checked-each {ℓ} :
      {A : Type ℓ} {P : A → Type 0} (f : A → Validator → Validator)
      → ((x : A) (v : Validator) → Checked s (P x) v (f x v))
      → (xs : List A) (v : Validator) → Checked s (All P xs) v (for_each f xs v)
  unfolding for_each
  Checked-each f h [] v = Checked-refl v
  Checked-each f h (x ∷ xs) v = Checked-seq (h x v) (Checked-each f h xs (f x v))

  pub Checked-if_some {ℓ} :
      {A : Type ℓ} {P : A → Type 0} (f : A → Validator → Validator)
      → ((x : A) (v : Validator) → Checked s (P x) v (f x v))
      → (o : Option A) (v : Validator) → Checked s (AllSome P o) v (if_some f o v)
  unfolding if_some
  Checked-if_some f h none v = Checked-refl v
  Checked-if_some f h (some x) v = h x v

  -- A test that looks at the symbols.
  pub Checked-error_when :
      {P : Type 0} (cond : Bool) (p : Pos) (m : Message) (v : Validator)
      → (v.symbols ≡ s → cond ≡ false ↔ P)
      → Checked s P v (error_if cond p m v)
  Checked-error_when cond p m v f =
      let a = Checked-error_if cond p m v in
      record {
        keeps = a.keeps;
        sound = λ h c. let r = a.sound h c in (r.0, (f h).0 r.1);
        complete = λ h c q. a.complete h c ((f h).1 q);
      }
