-- ===== src/Validator/Validate.antt =====
-- scripting/validator.go: `Validate`, and what it decides.
use mathlib.Core.Bool.{false≢true}
use mathlib.Core.Path.{fun_ext, subst}
use sentanyl_core_readonly.Ast.{ScriptAst}
use sentanyl_core_readonly.Diagnostic.{Diagnostic, has_errors}
use sentanyl_core_readonly.Prelude.Distinct.{
  adding_all, adding_all-Has, Fresh, Fresh-nothing, nothing,
}
use sentanyl_core_readonly.Prelude.Equality.{has_key}
use sentanyl_core_readonly.Prelude.{Bool, false, List, Str, ◌≡◌, inl, inr, ◌↔◌, refl, sym, ◌∙◌, ap}
use sentanyl_core_readonly.Validator.Collect.Rules.{names, declared_instance}
use sentanyl_core_readonly.Validator.Collect.Sound.{collect_names-Collected}
use sentanyl_core_readonly.Validator.Collect.{collect_names}
use sentanyl_core_readonly.Validator.Resolve.Sound.{HasNames, resolve_references-Checked}
use sentanyl_core_readonly.Validator.Resolve.{resolve_references}
use sentanyl_core_readonly.Validator.Rules.{IsClean, Checked-seq}
use sentanyl_core_readonly.Validator.Spec.{Declared, declarations, IsWellFormed}
use sentanyl_core_readonly.Validator.Structure.Sound.{validate_structure-Checked}
use sentanyl_core_readonly.Validator.Structure.{validate_structure}
use sentanyl_core_readonly.Validator.{
  SymbolTable, new_symbol_table, Kind, story_kind, names_of, Validator, new_validator, ◌▸◌,
}

-- The three passes, in order.
unfoldable pub run_passes : ScriptAst → Validator
run_passes ast = new_validator ▸ collect_names ast ▸ resolve_references ast ▸ validate_structure ast

-- `NewValidator(ast).Validate()`.
unfoldable pub validate : ScriptAst → SymbolTable × List Diagnostic
unfolding run_passes
validate ast = ((run_passes ast).symbols, (run_passes ast).errors)

new-IsClean : IsClean new_validator
unfolding has_errors
new-IsClean = refl

names-new-at : (k : Kind) (x : Str) → names new_symbol_table (k, x) ≡ false
unfolding names_of has_key
names-new-at story_kind x = refl
names-new-at _ x = refl

names-new : names new_symbol_table ≡ nothing
names-new = fun_ext λ d. names-new-at d.0 d.1

-- After pass 1 the symbols have exactly the declared names.
pub collect_names-HasNames :
    (ast : ScriptAst) → HasNames (collect_names ast new_validator).symbols (declarations ast)
collect_names-HasNames ast kind key =
    let ds = declarations ast in
    let known = (collect_names-Collected ast new_validator).known ∙ ap (adding_all ds) names-new in
    let at = ap (λ (K : Declared → Bool). K (kind, key)) known in
    let h = adding_all-Has nothing ds (kind, key) in
    (
      λ e. elim (h.0 (sym at ∙ e)) [ inl m ↦ m | inr f ↦ absurd (false≢true f) ],
      λ m. at ∙ h.1 (inl m),
    )

-- `Validate` reports no error exactly if the script is well formed, as `IsWellFormed` says without
-- the validator: no two entities of one kind have the same key; the next stories of stories and the
-- next storylines of storylines and their routes, where they are given, and in the triggers of
-- stories the targets of the actions that jump or loop to an enactment, or go to the next one (of
-- the same storyline), or jump or loop to a storyline, are declared in the script; and the entities
-- have the structure that the specification asks for. Targets of other actions (`start_story`,
-- `jump_to_stage`) and of the triggers of funnels are not asked for by either.
pub validate_decides : (ast : ScriptAst) → has_errors (validate ast).1 ≡ false ↔ IsWellFormed ast
unfolding validate
validate_decides ast =
    let v = collect_names ast new_validator in
    let c = collect_names-Collected ast new_validator in
    let fresh = Fresh-nothing (declarations ast) in
    let later =
      Checked-seq
        (resolve_references-Checked v.symbols (declarations ast) (collect_names-HasNames ast) ast v)
        (validate_structure-Checked v.symbols ast (resolve_references ast v)) in
    (
      λ h.
          let r = later.sound refl h in
          let q = c.sound r.0 in
          record {
            names_differ = fresh.0 (subst (λ K. Fresh K (declarations ast)) names-new q.1);
            references = r.1.0;
            structured = r.1.1;
          },
      λ w.
          later.complete refl
            (c.complete new-IsClean
              (subst (λ K. Fresh K (declarations ast)) (sym names-new) (fresh.1 w.names_differ)))
            (w.references, w.structured),
    )
