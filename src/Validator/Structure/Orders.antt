-- ===== src/Validator/Structure/Orders.antt =====
-- Pass 3 on the orders and levels: the scans report an error exactly if two numbers are equal.
use mathlib.Core.Bool.{false≢true}
use mathlib.Core.Path.{fun_ext}
use sentanyl_core_readonly.Ast.{EnactmentNode, StorylineNode, StoryNode}
use sentanyl_core_readonly.Diagnostic.Messages.{Message}
use sentanyl_core_readonly.Prelude.Distinct.{AllDifferent, adding, Fresh, Fresh-nothing}
use sentanyl_core_readonly.Prelude.Equality.{Map, lookup, insert, has_key, has_key-insert}
use sentanyl_core_readonly.Prelude.Int.{ℤ, int_instance}
use sentanyl_core_readonly.Prelude.{
  Bool, true, false, Option, some, none, List, [], ◌∷◌, Str, ◌≡◌, refl, sym, ◌∙◌, ◌↔◌,
}
use sentanyl_core_readonly.Token.{Pos}
use sentanyl_core_readonly.Validator.Rules.{
  Checked, Checked-refl, Checked-seq, Checked-map, errorf-not-IsClean,
}
use sentanyl_core_readonly.Validator.Spec.{numbers}
use sentanyl_core_readonly.Validator.Structure.{
  OrderScan, check_order, scan_storyline_order, validate_story_orders, LevelScan, scan_level,
  scan_order, validate_enactment_orders,
}
use sentanyl_core_readonly.Validator.{SymbolTable, Validator, errorf, for_each, if_some, ◌▸◌}

-- The numbers that a map has.
abbrev taken : Map ℤ Str → ℤ → Bool
taken m n = has_key n m

taken-insert : (n : ℤ) (name : Str) (m : Map ℤ Str) → taken (insert n name m) ≡ adding n (taken m)
taken-insert n name m = fun_ext λ k. has_key-insert n k name m

module _ (s : SymbolTable) where
  report_some-Checked :
      (p : Pos) (message : Str → Message) (o : Option Str) (v : Validator)
      → Checked s
          (elim o [ none ↦ false | some _ ↦ true ] ≡ false)
          v
          (if_some (λ existing. errorf p (message existing)) o v)
  unfolding if_some
  report_some-Checked p message none v = record {
    keeps = λ h. h;
    sound = λ _ c. (c, refl);
    complete = λ _ c _. c;
  }
  report_some-Checked p message (some existing) v = record {
    keeps = λ h. unfold errorf in h;
    sound = λ _ c. absurd (false≢true (sym c ∙ errorf-not-IsClean p (message existing) v));
    complete = λ _ _ e. absurd (false≢true (sym e));
  }

  -- One look-up and the error that it may give.
  report_taken-Checked :
      (p : Pos) (message : Str → Message) (n : ℤ) (m : Map ℤ Str) (v : Validator)
      → Checked s
          (taken m n ≡ false)
          v
          (if_some (λ existing. errorf p (message existing)) (lookup n m) v)
  unfolding has_key
  report_taken-Checked p message n m v = report_some-Checked p message (lookup n m) v

  -- The numbers of the items behind are fresh after one more is taken.
  Fresh-insert :
      (n : ℤ) (name : Str) (m : Map ℤ Str) (ns : List ℤ)
      → Fresh (taken (insert n name m)) ns ↔ Fresh (adding n (taken m)) ns
  Fresh-insert n name m ns = rw (taken-insert n name m) (λ h. h, λ h. h)

  -- One round of a scan, before the rounds that check `ns` and what else they check, `R`.
  scan_round :
      {R : Type 0} (name : Str) (p : Pos) (message : ℤ → Str → Message) (o : Option ℤ)
      (scan : OrderScan) (ns : List ℤ) (w : Validator)
      → Checked s
          (Fresh (taken (if_some (check_order name p message) o scan).seen) ns × R)
          (if_some (check_order name p message) o scan).validator
          w
      → Checked s
          (Fresh (taken scan.seen) (elim o [ none ↦ ns | some n ↦ n ∷ ns ]) × R)
          scan.validator
          w
  unfolding if_some check_order
  scan_round name p message none scan ns w h = h
  scan_round name p message (some n) scan ns w h =
      Checked-map (λ k. ((k.0, (Fresh-insert n name scan.seen ns).0 k.1.0), k.1.1))
        (λ k. (k.0.0, ((Fresh-insert n name scan.seen ns).1 k.0.1, k.1)))
        (Checked-seq (report_taken-Checked p (message n) n scan.seen scan.validator) h)

  scan_storylines-Checked :
      (sls : List StorylineNode) (scan : OrderScan)
      → Checked s
          (Fresh (taken scan.seen) (numbers (λ (sl : StorylineNode). sl.order) sls) × Unit {0})
          scan.validator
          (for_each scan_storyline_order sls scan).validator
  unfolding for_each scan_storyline_order
  scan_storylines-Checked [] scan =
      Checked-map (λ h. (h, h)) (λ h. h.0) (Checked-refl scan.validator)
  scan_storylines-Checked (sl ∷ sls) scan =
      scan_round sl.name sl.pos _ sl.order scan _ _ (scan_storylines-Checked sls _)

  -- `validateStoryOrders` keeps the symbols, and adds no error exactly if the orders of the
  -- storylines that have one differ.
  pub validate_story_orders-Checked :
      (story : StoryNode) (v : Validator)
      → Checked s
          (AllDifferent (numbers (λ (sl : StorylineNode). sl.order) story.storylines))
          v
          (validate_story_orders story v)
  unfolding validate_story_orders has_key
  validate_story_orders-Checked story v =
      let r = Fresh-nothing (numbers (λ (sl : StorylineNode). sl.order) story.storylines) in
      Checked-map (λ h. r.0 h.0) (λ h. (r.1 h, tt))
        (scan_storylines-Checked story.storylines (record { seen = []; validator = v }))

  scan_enactments-Checked :
      (sl : StorylineNode) (ens : List EnactmentNode) (scan : LevelScan)
      → Checked s
          (Fresh (taken scan.levels) (numbers (λ (en : EnactmentNode). en.level) ens)
            × Fresh (taken scan.orders) (numbers (λ (en : EnactmentNode). en.order) ens))
          scan.validator
          (for_each (λ en t. t ▸ scan_level sl en ▸ scan_order sl en) ens scan).validator
  unfolding for_each scan_level scan_order
  scan_enactments-Checked sl [] scan =
      Checked-map (λ h. (tt, tt)) (λ h. tt) (Checked-refl scan.validator)
  scan_enactments-Checked sl (en ∷ ens) scan =
      scan_round en.name en.pos _ en.level
        (record { seen = scan.levels; validator = scan.validator }) _ _
        (Checked-map (λ h. (h.1, h.0)) (λ h. (h.1, h.0))
          (scan_round en.name en.pos _ en.order _ _ _
            (Checked-map (λ h. (h.1, h.0)) (λ h. (h.1, h.0)) (scan_enactments-Checked sl ens _))))

  -- `validateEnactmentOrders` keeps the symbols, and adds no error exactly if the levels and the
  -- orders of the enactments that have them differ.
  pub validate_enactment_orders-Checked :
      (sl : StorylineNode) (v : Validator)
      → Checked s
          (AllDifferent (numbers (λ (en : EnactmentNode). en.level) sl.enactments)
            × AllDifferent (numbers (λ (en : EnactmentNode). en.order) sl.enactments))
          v
          (validate_enactment_orders sl v)
  unfolding validate_enactment_orders has_key
  validate_enactment_orders-Checked sl v =
      let l = Fresh-nothing (numbers (λ (en : EnactmentNode). en.level) sl.enactments) in
      let o = Fresh-nothing (numbers (λ (en : EnactmentNode). en.order) sl.enactments) in
      Checked-map (λ h. (l.0 h.0, o.0 h.1)) (λ h. (l.1 h.0, o.1 h.1))
        (scan_enactments-Checked sl sl.enactments
          (record { levels = []; orders = []; validator = v }))
