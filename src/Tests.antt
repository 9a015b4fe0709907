-- ===== src/Tests.antt =====
-- Runs of the model, and the theorems at these inputs.
mod Data
mod Memory
mod Sorting
mod World
mod Stories
mod Plans
mod Members
mod Owners
use sentanyl_core_readonly.Ast.{EnactmentNode, StorylineNode}
use sentanyl_core_readonly.Diagnostic.{
  Diagnostic, diag_error, diag_warning, has_errors, errors_of, has_errors-errors_of,
}
use sentanyl_core_readonly.Diagnostic.Messages.{complete_and_failed, unterminated_block_comment}
use sentanyl_core_readonly.Lexer.Next.{tokenize, read_token}
use sentanyl_core_readonly.Lexer.Progress.Routines.{skip_whitespace_and_comments-Moves}
use sentanyl_core_readonly.Lexer.Progress.Tokens.{ReadsToken, read_token-Reads}
use sentanyl_core_readonly.Lexer.Progress.{Moves}
use sentanyl_core_readonly.Lexer.Scan.{skip_whitespace_and_comments}
use sentanyl_core_readonly.Lexer.Tokenize.{
  IsTokenStream, PlacedUntil, tokenize-IsTokenStream, tokenize-PlacedUntil,
}
use sentanyl_core_readonly.Lexer.Tokens.{IsTokenAt, read_token-IsTokenAt}
use sentanyl_core_readonly.Lexer.{
  new_lexer, cur_pos, peek, slice_from, advance_while, second_is, errorf,
}
use sentanyl_core_readonly.Utf8.{decode_rune, is_letter, is_digit}
use sentanyl_core_readonly.Pipeline.{Stages}
use sentanyl_core_readonly.Prelude.Distinct.{All, AllDifferent}
use sentanyl_core_readonly.Prelude.{
  ℕ, Bool, true, false, List, [], ◌∷◌, ◌≡◌, ◌↔◌, ◌⊎◌, refl, Str, bytes, length, arith,
}
use sentanyl_core_readonly.Token.Keywords.{lookup_ident, lookup_ident-name, lookup_ident-proper}
use sentanyl_core_readonly.Token.Names.{token_name}
use sentanyl_core_readonly.Token.{
  Pos, Token, TokenKind, kind_eq, tok_ident, tok_enactment, tok_eof, tok_illegal,
}
use sentanyl_core_readonly.Validator.Collect.Rules.{Collected}
use sentanyl_core_readonly.Validator.Collect.Sound.{collect_names-Collected}
use sentanyl_core_readonly.Validator.Collect.{collect_names}
use sentanyl_core_readonly.Validator.Resolve.Sound.{HasNames, resolve_references-Checked}
use sentanyl_core_readonly.Validator.Resolve.{resolve_references}
use sentanyl_core_readonly.Validator.Rules.{Checked}
use sentanyl_core_readonly.Validator.Spec.{
  declarations, IsResolvedStory, IsStructured, IsTrigger, IsWellFormed, numbers,
}
use sentanyl_core_readonly.Validator.Structure.Actions.{validate_trigger-Checked}
use sentanyl_core_readonly.Validator.Structure.Orders.{
  validate_story_orders-Checked, validate_enactment_orders-Checked,
}
use sentanyl_core_readonly.Validator.Structure.Sound.{validate_structure-Checked}
use sentanyl_core_readonly.Validator.Structure.{
  validate_structure, validate_trigger, validate_story_orders, validate_enactment_orders,
}
use sentanyl_core_readonly.Validator.Validate.{validate, validate_decides, collect_names-HasNames}
use sentanyl_core_readonly.Validator.{Validator, new_validator}
use Data.{no_tables, short_source, origin, on_click, storyline, story, good_script, lost_script}

-- The offsets, lines and columns of tokens.
abbrev places : List Token → List (ℕ × ℕ × ℕ)
places [] = []
places (t ∷ ts) = (t.pos.offset, t.pos.line, t.pos.col) ∷ places ts

-- Behind `5` the column is the one of `5` itself.
glued-places :
    places (tokenize no_tables (bytes "x 5dx 7")).0
    ≡ (0, 1, 1) ∷ (2, 1, 3) ∷ (3, 1, 3) ∷ (6, 1, 6) ∷ (7, 1, 7) ∷ []
unfolding tokenize kind_eq peek decode_rune is_letter lookup_ident slice_from advance_while is_digit
    second_is errorf cur_pos
glued-places = refl

-- A comment that is opened by the last two bytes is not reported.
open_comment-silent : (tokenize no_tables (bytes "x /*")).1 ≡ []
unfolding tokenize kind_eq peek decode_rune is_letter lookup_ident slice_from advance_while is_digit
    second_is errorf cur_pos
open_comment-silent = refl

-- One that is opened before them is.
open_comment-reported : has_errors (tokenize no_tables (bytes "x /* y")).1 ≡ true
unfolding tokenize has_errors kind_eq peek decode_rune is_letter lookup_ident slice_from
    advance_while is_digit second_is errorf cur_pos
open_comment-reported = refl

validate_decides_example : has_errors (validate good_script).1 ≡ false ↔ IsWellFormed good_script
validate_decides_example = validate_decides good_script

-- A parser and an expander that answer with one script.
abbrev fixed_stages : Stages
fixed_stages = record { parse = λ _. (good_script, []); expand = λ ast. (ast, []) }

tokenize-IsTokenStream_example : IsTokenStream short_source (tokenize no_tables short_source).0
tokenize-IsTokenStream_example = tokenize-IsTokenStream no_tables short_source

tokenize-PlacedUntil_example : PlacedUntil short_source (tokenize no_tables short_source).0
tokenize-PlacedUntil_example = tokenize-PlacedUntil no_tables short_source

abbrev collected : Validator
collected = collect_names good_script new_validator

collect_names-Collected_example : Collected (declarations good_script) new_validator collected
collect_names-Collected_example = collect_names-Collected good_script new_validator

resolve_references-Checked_example :
    Checked collected.symbols
      (All (IsResolvedStory (declarations good_script)) good_script.stories)
      collected
      (resolve_references good_script collected)
resolve_references-Checked_example =
    resolve_references-Checked collected.symbols (declarations good_script)
      (collect_names-HasNames good_script) good_script collected

validate_structure-Checked_example :
    Checked collected.symbols
      (IsStructured good_script)
      collected
      (validate_structure good_script collected)
validate_structure-Checked_example =
    validate_structure-Checked collected.symbols good_script collected

validate_trigger-Checked_example :
    Checked new_validator.symbols
      (IsTrigger (on_click (bytes "hot")))
      new_validator
      (validate_trigger (on_click (bytes "hot")) new_validator)
validate_trigger-Checked_example =
    validate_trigger-Checked new_validator.symbols (on_click (bytes "hot")) new_validator

validate_story_orders-Checked_example :
    Checked new_validator.symbols
      (AllDifferent (numbers (λ (sl : StorylineNode). sl.order) (story (bytes "hot")).storylines))
      new_validator
      (validate_story_orders (story (bytes "hot")) new_validator)
validate_story_orders-Checked_example =
    validate_story_orders-Checked new_validator.symbols (story (bytes "hot")) new_validator

validate_enactment_orders-Checked_example :
    Checked new_validator.symbols
      (AllDifferent
          (numbers (λ (en : EnactmentNode). en.level) (storyline (bytes "hot")).enactments)
        × AllDifferent
            (numbers (λ (en : EnactmentNode). en.order) (storyline (bytes "hot")).enactments))
      new_validator
      (validate_enactment_orders (storyline (bytes "hot")) new_validator)
validate_enactment_orders-Checked_example =
    validate_enactment_orders-Checked new_validator.symbols (storyline (bytes "hot")) new_validator

lookup_ident-name_example :
    (lookup_ident (bytes "storyline") ≡ tok_ident)
    ⊎ (bytes (token_name (lookup_ident (bytes "storyline"))) ≡ bytes "storyline")
lookup_ident-name_example = lookup_ident-name (bytes "storyline")

lookup_ident-proper_example :
    (kind_eq (lookup_ident (bytes "scene")) tok_eof ≡ false)
    × (kind_eq (lookup_ident (bytes "scene")) tok_illegal ≡ false)
lookup_ident-proper_example = lookup_ident-proper (bytes "scene")

read_token-Reads_example :
    ReadsToken
      (new_lexer short_source)
      (read_token no_tables (cur_pos (new_lexer short_source)) (new_lexer short_source))
unfolding cur_pos
read_token-Reads_example =
    read_token-Reads no_tables (cur_pos (new_lexer short_source)) (new_lexer short_source) refl
      (omega arith)

read_token-IsTokenAt_example :
    IsTokenAt origin (read_token no_tables origin (new_lexer short_source))
read_token-IsTokenAt_example = read_token-IsTokenAt origin no_tables (new_lexer short_source)

has_errors-errors_of_example :
    has_errors (validate lost_script).1 ≡ false ↔ errors_of (validate lost_script).1 ≡ []
has_errors-errors_of_example = has_errors-errors_of (validate lost_script).1
