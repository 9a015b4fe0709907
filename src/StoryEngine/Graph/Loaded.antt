-- ===== src/StoryEngine/Graph/Loaded.antt =====
-- routes/story_engine.go: which storylines `hydrateStoryGraph` adds to a story.
use sentanyl_core_readonly.Prelude.Sorting.{Permutes}
use sentanyl_core_readonly.Prelude.Distinct.{All, AllDifferent, Has}
use sentanyl_core_readonly.Prelude.{true, false, some, List, ◌++◌, Str, ◌≡◌, ◌≢◌, ◌⊎◌, is_nil}
use sentanyl_core_readonly.StoryEngine.Graph.{Graph, Story, Storyline, ids_of, public_ids}
use sentanyl_core_readonly.StoryEngine.Graph.Ordered.{HasActs, IsOrdered}

module _ (g : Graph) (tid : Str) where
  -- A storyline that the look-up of a reference, for the tenant, gives, with its acts.
  pub record IsLoaded (ids : List Str) (sl : Storyline) : Type 0 where
    pub id : Str
    pub found : Storyline
    pub id_in : Has id ids
    pub look_up : g.storyline id tid ≡ some found
    pub same_id : sl.public_id ≡ found.public_id
    pub has_acts : HasActs g tid found sl.acts

  -- The storylines that the loop adds, for the ids and the public ids that are present.
  pub record Loads (ids present : List Str) (added : List Storyline) : Type 0 where
    pub all_loaded : All (IsLoaded ids) added
    pub different : AllDifferent (public_ids added)
    pub all_new : All (λ x. All (λ j. j ≢ x) present) (public_ids added)
    pub complete :
        (id : Str) (sl : Storyline)
        → Has id ids
        → g.storyline id tid ≡ some sl
        → Has sl.public_id present ⊎ Has sl.public_id (public_ids added)

-- The storylines of a story after hydration: its own and those that its references add, sorted.
pub record IsHydrated (g : Graph) (story hydrated : Story) : Type 0 where
  pub added : List Storyline
  pub loads :
      Loads g story.subscriber_id (ids_of story.storyline_ids) (public_ids story.storylines) added
  pub merged :
      is_nil (ids_of story.storyline_ids) ≡ false
      → Permutes (story.storylines ++ added) hydrated.storylines × IsOrdered hydrated.storylines
  pub kept : is_nil (ids_of story.storyline_ids) ≡ true → hydrated.storylines ≡ story.storylines
