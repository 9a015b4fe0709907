-- ===== src/Validator.antt =====
-- scripting/validator.go: the symbol table, the validator's state and the helpers of its passes.
-- `Collect`, `Resolve` and `Structure` hold the three passes.

pub mod Rules
pub mod Spec
pub mod Collect
pub mod Resolve
pub mod Structure
pub mod Validate
use sentanyl_core_readonly.Diagnostic.Messages.{Message}
use sentanyl_core_readonly.Diagnostic.{DiagLevel, Diagnostic, diag_error, diag_warning}
use sentanyl_core_readonly.Prelude.Equality.{Map, lookup, insert, str_instance}
use sentanyl_core_readonly.Prelude.Int.{ℤ}
use sentanyl_core_readonly.Prelude.{
  ℕ, Bool, true, false, if◌then◌else◌, Option, some, none, List, [], ◌∷◌, ◌++◌, Str, bytes, ◌==◌,
}
use sentanyl_core_readonly.Token.{Pos}

pub record SymbolTable : Type 0 where
  pub story_names : Map Str Pos
  pub storyline_names : Map Str Pos
  pub storyline_order : Map Str ℤ
  pub enactment_names : Map Str Pos
  pub enactment_levels : Map Str ℤ
  pub enactment_orders : Map Str ℤ
  pub scene_names : Map Str Pos
  pub funnel_names : Map Str Pos
  pub route_names : Map Str Pos
  pub stage_names : Map Str Pos
  pub page_names : Map Str Pos
  pub form_names : Map Str Pos
  pub site_names : Map Str Pos
  pub badge_names : Map Str Bool
  pub tag_names : Map Str Bool
  pub template_names : Map Str Bool

-- `newSymbolTable`.
abbrev pub new_symbol_table : SymbolTable
new_symbol_table = record {
  story_names = [];
  storyline_names = [];
  storyline_order = [];
  enactment_names = [];
  enactment_levels = [];
  enactment_orders = [];
  scene_names = [];
  funnel_names = [];
  route_names = [];
  stage_names = [];
  page_names = [];
  form_names = [];
  site_names = [];
  badge_names = [];
  tag_names = [];
  template_names = [];
}

-- The maps from names to positions, and access to them.
pub data Kind : Type 0 where
  story_kind storyline_kind enactment_kind scene_kind : Kind
  funnel_kind route_kind stage_kind page_kind form_kind site_kind : Kind

unfoldable pub names_of : Kind → SymbolTable → Map Str Pos
names_of story_kind s = s.story_names
names_of storyline_kind s = s.storyline_names
names_of enactment_kind s = s.enactment_names
names_of scene_kind s = s.scene_names
names_of funnel_kind s = s.funnel_names
names_of route_kind s = s.route_names
names_of stage_kind s = s.stage_names
names_of page_kind s = s.page_names
names_of form_kind s = s.form_names
names_of site_kind s = s.site_names

unfoldable pub set_name : Kind → Str → Pos → SymbolTable → SymbolTable
set_name story_kind k p s = record s { story_names = insert k p s.story_names }
set_name storyline_kind k p s = record s { storyline_names = insert k p s.storyline_names }
set_name enactment_kind k p s = record s { enactment_names = insert k p s.enactment_names }
set_name scene_kind k p s = record s { scene_names = insert k p s.scene_names }
set_name funnel_kind k p s = record s { funnel_names = insert k p s.funnel_names }
set_name route_kind k p s = record s { route_names = insert k p s.route_names }
set_name stage_kind k p s = record s { stage_names = insert k p s.stage_names }
set_name page_kind k p s = record s { page_names = insert k p s.page_names }
set_name form_kind k p s = record s { form_names = insert k p s.form_names }
set_name site_kind k p s = record s { site_names = insert k p s.site_names }

-- `Validator`, but its `ast`, which is an argument of each pass.
pub record Validator : Type 0 where
  pub symbols : SymbolTable
  pub errors : List Diagnostic

abbrev pub new_validator : Validator
new_validator = record { symbols = new_symbol_table; errors = [] }

unfoldable pub report : DiagLevel → Pos → Message → Validator → Validator
report level p message v = record v {
  errors = v.errors ++ (record { pos = p; message = message; level = level } ∷ []);
}

-- `errorf` and `warnf`.
unfoldable pub errorf : Pos → Message → Validator → Validator
unfolding report
errorf = report diag_error

unfoldable pub warnf : Pos → Message → Validator → Validator
unfolding report
warnf = report diag_warning

-- `if cond { v.errorf(…) }` and `if cond { v.warnf(…) }`.
unfoldable pub error_if : Bool → Pos → Message → Validator → Validator
unfolding errorf
error_if cond p message v = if cond then errorf p message v else v

unfoldable pub warn_if : Bool → Pos → Message → Validator → Validator
unfolding warnf
warn_if cond p message v = if cond then warnf p message v else v

-- Statements in order.
infixl 20 ◌▸◌
abbrev pub ◌▸◌ {ℓ} : {S : Type ℓ} → S → (S → S) → S
v ▸ f = f v

-- `for _, x := range xs { … }`.
unfoldable pub for_each {ℓ κ} : {A : Type ℓ} {S : Type κ} → (A → S → S) → List A → S → S
for_each f [] v = v
for_each f (x ∷ xs) v = for_each f xs (f x v)

-- `if x != nil { … }`.
unfoldable pub if_some {ℓ κ} : {A : Type ℓ} {S : Type κ} → (A → S → S) → Option A → S → S
if_some f none v = v
if_some f (some x) v = f x v

-- `s == ""` and `len(xs) == 0`.
abbrev pub is_empty {ℓ} : {A : Type ℓ} → List A → Bool
is_empty [] = true
is_empty (x ∷ xs) = false

-- `a + ":" + b`.
abbrev pub key_of : Str → Str → Str
key_of a b = a ++ b':' ∷ b
