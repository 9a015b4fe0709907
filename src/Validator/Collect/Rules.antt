-- ===== src/Validator/Collect/Rules.antt =====
-- What one statement of pass 1 does: the names that it declares, and whether they are new.
use mathlib.Core.Bool.{false≢true}
use mathlib.Core.List.{append-nil}
use mathlib.Core.Path.{fun_ext, subst}
use sentanyl_core_readonly.Diagnostic.Messages.{Message}
use sentanyl_core_readonly.Prelude.Distinct.{
  adding, adding_all, adding_all-append, Fresh, Fresh-append,
}
use sentanyl_core_readonly.Prelude.Equality.{Eq, lookup, has_key, has_key-insert, str_instance}
use sentanyl_core_readonly.Prelude.{
  ℕ, zero, suc, Bool, true, false, ◌&&◌, ◌||◌, ◌==◌, ==_iff, and_iff, Option, some, none, List, [],
  ◌∷◌, ◌++◌, Str, str_eq, str_eq_iff, ◌≡◌, ◌↔◌, refl, sym, ◌∙◌, ap, arith,
}
use sentanyl_core_readonly.Token.{Pos}
use sentanyl_core_readonly.Validator.Collect.{report_duplicate, declare}
use sentanyl_core_readonly.Validator.Rules.{IsClean, errorf-not-IsClean}
use sentanyl_core_readonly.Validator.Spec.{Declared, each}
use sentanyl_core_readonly.Validator.{
  SymbolTable, Kind, story_kind, storyline_kind, enactment_kind, scene_kind, funnel_kind,
  route_kind, stage_kind, page_kind, form_kind, site_kind, names_of, set_name, Validator, errorf,
  for_each, if_some,
}

unfoldable pub kind_index : Kind → ℕ
kind_index story_kind = 0
kind_index storyline_kind = 1
kind_index enactment_kind = 2
kind_index scene_kind = 3
kind_index funnel_kind = 4
kind_index route_kind = 5
kind_index stage_kind = 6
kind_index page_kind = 7
kind_index form_kind = 8
kind_index site_kind = 9

kinds : List Kind
kinds =
    story_kind ∷ storyline_kind ∷ enactment_kind ∷ scene_kind ∷ funnel_kind ∷ route_kind
    ∷ stage_kind ∷ page_kind ∷ form_kind ∷ site_kind ∷ []

kind_at : ℕ → List Kind → Kind
kind_at n [] = story_kind
kind_at zero (k ∷ ks) = k
kind_at (suc n) (k ∷ ks) = kind_at n ks

kind_at-index : (k : Kind) → kind_at (kind_index k) kinds ≡ k
unfolding kind_at kinds kind_index
kind_at-index story_kind = refl
kind_at-index _ = refl

kind_injective : (a b : Kind) → kind_index a ≡ kind_index b → a ≡ b
kind_injective a b e = sym (kind_at-index a) ∙ ap (λ n. kind_at n kinds) e ∙ kind_at-index b

unfoldable pub declared_eq : Declared → Declared → Bool
unfolding kind_index
declared_eq (k, x) (j, y) = kind_index k == kind_index j && str_eq x y

pub declared_eq_iff : (a b : Declared) → (declared_eq a b ≡ true) ↔ (a ≡ b)
unfolding declared_eq
declared_eq_iff (k, x) (j, y) = (
  λ h.
      let r = (and_iff (kind_index k == kind_index j) (str_eq x y)).0 h in
      cc (kind_injective k j ((==_iff _ _).0 r.0), (str_eq_iff x y).0 r.1),
  λ e. (and_iff (kind_index k == kind_index j) (str_eq x y)).1 (
    (==_iff _ _).1 (ap (λ (d : Declared). kind_index d.0) e),
    (str_eq_iff x y).1 (ap (λ (d : Declared). d.1) e),
  ),
)

instance abbrev pub declared_instance : Eq Declared
declared_instance = record { beq = declared_eq; beq_iff = declared_eq_iff }

-- The names that a symbol table has.
abbrev pub names : SymbolTable → Declared → Bool
names s d = has_key d.1 (names_of d.0 s)

names-set_name-at :
    (k j : Kind) (x y : Str) (p : Pos) (s : SymbolTable)
    → names (set_name k x p s) (j, y) ≡ (declared_eq (k, x) (j, y) || names s (j, y))
unfolding names_of set_name declared_eq
names-set_name-at story_kind story_kind x y p s =
    ground (arith, has_key-insert x y p (names_of story_kind s))
names-set_name-at k j x y p s = ground (arith, has_key-insert x y p (names_of j s))

names-set_name :
    (k : Kind) (x : Str) (p : Pos) (s : SymbolTable)
    → names (set_name k x p s) ≡ adding (k, x) (names s)
names-set_name k x p s = fun_ext λ d. names-set_name-at k d.0 x d.1 p s

-- From `v` the code reaches `w`, declaring the names `ds`; it reports no error exactly if each is
-- new.
pub record Collected (ds : List Declared) (v w : Validator) : Type 0 where
  pub known : names w.symbols ≡ adding_all ds (names v.symbols)
  pub sound : IsClean w → IsClean v × Fresh (names v.symbols) ds
  pub complete : IsClean v → Fresh (names v.symbols) ds → IsClean w

pub Collected-refl : (v : Validator) → Collected [] v v
Collected-refl v = record { known = refl; sound = λ c. (c, tt); complete = λ c _. c }

-- A change of the symbols that leaves the names alone.
pub Collected-same :
    (v w : Validator) → names w.symbols ≡ names v.symbols → w.errors ≡ v.errors → Collected [] v w
Collected-same v w n e = record {
  known = n;
  sound = λ c. (rw e at c, tt);
  complete = λ c _. rw e c;
}

pub Collected-seq :
    {ds es : List Declared} {v w x : Validator}
    → Collected ds v w
    → Collected es w x
    → Collected (ds ++ es) v x
Collected-seq {ds} {es} {v} {w} a b =
    let f = Fresh-append (names v.symbols) ds es in
    record {
      known =
          b.known ∙ ap (adding_all es) a.known ∙ sym (adding_all-append (names v.symbols) ds es);
      sound = λ c.
          let q = b.sound c in
          let p = a.sound q.0 in (p.0, f.1 (p.1, subst (λ K. Fresh K es) a.known q.1));
      complete = λ c h.
          let r = f.0 h in
          b.complete (a.complete c r.0) (subst (λ K. Fresh K es) (sym a.known) r.1);
    }

pub Collected-skip :
    {ds : List Declared} {v w x : Validator}
    → Collected ds v w
    → Collected [] w x
    → Collected ds v x
Collected-skip {ds} {v} {w} {x} a b =
    subst (λ es. Collected es v x) (append-nil ds) (Collected-seq a b)

pub Collected-each {ℓ} :
    {A : Type ℓ} (ds : A → List Declared) (f : A → Validator → Validator)
    → ((x : A) (v : Validator) → Collected (ds x) v (f x v))
    → (xs : List A) (v : Validator) → Collected (each ds xs) v (for_each f xs v)
unfolding for_each
Collected-each ds f h [] v = Collected-refl v
Collected-each ds f h (x ∷ xs) v = Collected-seq (h x v) (Collected-each ds f h xs (f x v))

pub Collected-each_none {ℓ} :
    {A : Type ℓ} (f : A → Validator → Validator)
    → ((x : A) (v : Validator) → Collected [] v (f x v))
    → (xs : List A) (v : Validator) → Collected [] v (for_each f xs v)
unfolding for_each
Collected-each_none f h [] v = Collected-refl v
Collected-each_none f h (x ∷ xs) v = Collected-skip (h x v) (Collected-each_none f h xs (f x v))

pub Collected-if_some {ℓ} :
    {A : Type ℓ} (f : A → Validator → Validator)
    → ((x : A) (v : Validator) → Collected [] v (f x v))
    → (o : Option A) (v : Validator) → Collected [] v (if_some f o v)
unfolding if_some
Collected-if_some f h none v = Collected-refl v
Collected-if_some f h (some x) v = h x v

-- `declare` reports an error exactly if the name is there already.
report_duplicate-IsClean :
    (p : Pos) (m : Pos → Message) (o : Option Pos) (v : Validator)
    → IsClean (report_duplicate p m o v)
      ↔ (IsClean v × (elim o [ none ↦ false | some _ ↦ true ] ≡ false))
unfolding report_duplicate
report_duplicate-IsClean p m none v = (λ c. (c, refl), λ h. h.0)
report_duplicate-IsClean p m (some existing) v = (
  λ c. absurd (false≢true (sym c ∙ errorf-not-IsClean p (m existing) v)),
  λ h. absurd (false≢true (sym h.1)),
)

report_duplicate-symbols :
    (p : Pos) (m : Pos → Message) (o : Option Pos) (v : Validator)
    → (report_duplicate p m o v).symbols ≡ v.symbols
unfolding report_duplicate errorf
report_duplicate-symbols p m none v = refl
report_duplicate-symbols p m (some existing) v = refl

pub declare-Collected :
    (kind : Kind) (key : Str) (p : Pos) (m : Pos → Message) (v : Validator)
    → Collected ((kind, key) ∷ []) v (declare kind key p m v)
unfolding declare has_key
declare-Collected kind key p m v =
    let o = lookup key (names_of kind v.symbols) in
    let r = report_duplicate-IsClean p m o v in
    record {
      known =
          ap (λ s. names (set_name kind key p s)) (report_duplicate-symbols p m o v)
          ∙ names-set_name kind key p v.symbols;
      sound = λ c. let q = r.0 c in (q.0, (q.1, tt));
      complete = λ c h. r.1 (c, h.0);
    }
