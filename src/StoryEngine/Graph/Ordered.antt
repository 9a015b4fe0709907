-- ===== src/StoryEngine/Graph/Ordered.antt =====
-- routes/story_engine.go: the order of the storylines and the acts that `hydrateStoryGraph` loads.
use sentanyl_core_readonly.Prelude.Int.{int_lt, int_lt-IsStrictWeak}
use sentanyl_core_readonly.Prelude.Sorting.{IsSorted, IsStrictWeak, Permutes}
use sentanyl_core_readonly.Prelude.{
  true, false, if_rule, Option, some, none, List, Str, ◌≡◌, refl, is_nil,
}
use sentanyl_core_readonly.StoryEngine.Graph.{
  Enactment, act_less, load_acts, Graph, Storyline, hydrate_acts, storyline_less,
}

-- Ordered by the field NaturalOrder: none has a smaller one than one before it.
abbrev pub IsOrdered : List Storyline → Type 0
IsOrdered = IsSorted (λ a b. int_lt a.natural_order b.natural_order)

pub storyline_less-IsStrictWeak : IsStrictWeak storyline_less
unfolding storyline_less
storyline_less-IsStrictWeak = record {
  irreflexive = λ a. int_lt-IsStrictWeak.irreflexive a.natural_order;
  transitive =
      λ a b c. int_lt-IsStrictWeak.transitive a.natural_order b.natural_order c.natural_order;
  cotransitive =
      λ a b c. int_lt-IsStrictWeak.cotransitive a.natural_order b.natural_order c.natural_order;
}

act_less-IsStrictWeak : IsStrictWeak act_less
unfolding act_less
act_less-IsStrictWeak = record {
  irreflexive = λ a. int_lt-IsStrictWeak.irreflexive a.natural_order;
  transitive =
      λ a b c. int_lt-IsStrictWeak.transitive a.natural_order b.natural_order c.natural_order;
  cotransitive =
      λ a b c. int_lt-IsStrictWeak.cotransitive a.natural_order b.natural_order c.natural_order;
}

module _ (g : Graph) (tid : Str) where
  -- The acts of a storyline that is found: its own, or where it has none but has ids, the ones that
  -- the ids refer to, ordered by natural order.
  pub data HasActs (found : Storyline) (acts : List Enactment) : Type 0 where
    own : found.act_ids ≡ none → acts ≡ found.acts → HasActs found acts
    some_own : is_nil found.acts ≡ false → acts ≡ found.acts → HasActs found acts
    referred :
        (ids : List Str)
        → found.act_ids ≡ some ids
        → is_nil found.acts ≡ true
        → Permutes (load_acts g tid ids) acts
        → IsSorted (λ (a b : Enactment). int_lt a.natural_order b.natural_order) acts
        → HasActs found acts

  pub hydrate_acts-HasActs :
      (o : Option (List Str)) (sl : Storyline)
      → sl.act_ids ≡ o
      → HasActs sl (hydrate_acts g tid o sl).acts
  unfolding hydrate_acts act_less
  hydrate_acts-HasActs none sl e = own e refl
  hydrate_acts-HasActs (some ids) sl e =
      let s = g.acts_sorted act_less (load_acts g tid ids) in
      if_rule (λ (x : Storyline). HasActs sl x.acts) (is_nil sl.acts)
        (λ n. referred ids e n s.permuted (s.sorted act_less-IsStrictWeak)) λ n. some_own n refl
