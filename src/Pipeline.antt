-- ===== src/Pipeline.antt =====
-- scripting/scripting.go: `ParseScript`, `ExpandScript` and `ValidateScript`, the stages in order.
-- The parser (scripting/parser.go) and the expander (scripting/expander.go) stand behind the
-- interface `Stages`.
use sentanyl_core_readonly.Ast.{ScriptAst}
use sentanyl_core_readonly.Diagnostic.{Diagnostic, has_errors}
use sentanyl_core_readonly.Lexer.Next.{tokenize}
use sentanyl_core_readonly.Prelude.{false, List, ◌++◌, Option, some, none, Str, ◌≡◌, if◌then◌else◌}
use sentanyl_core_readonly.Token.{Token}
use sentanyl_core_readonly.Utf8.{UnicodeTables}
use sentanyl_core_readonly.Validator.Spec.{IsWellFormed}
use sentanyl_core_readonly.Validator.Validate.{validate}
use sentanyl_core_readonly.Validator.{SymbolTable}

pub record ParseResult : Type 0 where
  pub ast : ScriptAst
  pub diagnostics : List Diagnostic

-- The symbols are `none` where the code leaves the pointer nil.
pub record ValidateResult : Type 0 where
  pub ast : ScriptAst
  pub symbols : Option SymbolTable
  pub diagnostics : List Diagnostic

-- `NewParser(tokens).Parse()` and `NewExpander(ast).Expand()`.
pub record Stages : Type 0 where
  pub parse : List Token → ScriptAst × List Diagnostic
  pub expand : ScriptAst → ScriptAst × List Diagnostic

module _ (u : UnicodeTables) (stages : Stages) where
  -- `ParseScript`.
  unfoldable pub parse_script : Str → ParseResult
  parse_script src =
      let lexed = tokenize u src in
      let parsed = stages.parse lexed.0 in
      record { ast = parsed.0; diagnostics = lexed.1 ++ parsed.1 }

  unfoldable pub expand_result : ParseResult → ParseResult
  expand_result pr =
      let expanded = stages.expand pr.ast in
      if has_errors pr.diagnostics
      then pr
      else record { ast = expanded.0; diagnostics = pr.diagnostics ++ expanded.1 }

  -- `ExpandScript`.
  unfoldable pub expand_script : Str → ParseResult
  unfolding expand_result parse_script
  expand_script src = expand_result (parse_script src)

  unfoldable pub validate_result : ParseResult → ValidateResult
  validate_result pr =
      let validated = validate pr.ast in
      if has_errors pr.diagnostics
      then record { ast = pr.ast; symbols = none; diagnostics = pr.diagnostics }
      else record {
        ast = pr.ast;
        symbols = some validated.0;
        diagnostics = pr.diagnostics ++ validated.1;
      }

  -- `ValidateScript`.
  unfoldable pub validate_script : Str → ValidateResult
  unfolding validate_result expand_script
  validate_script src = validate_result (expand_script src)

  -- What an accepted script has passed.
  pub record IsAccepted (src : Str) : Type 0 where
    pub lexed : has_errors (tokenize u src).1 ≡ false
    pub parsed : has_errors (stages.parse (tokenize u src).0).1 ≡ false
    pub expanded : has_errors (stages.expand (parse_script src).ast).1 ≡ false
    pub well_formed : IsWellFormed (expand_script src).ast
