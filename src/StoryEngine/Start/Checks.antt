-- ===== src/StoryEngine/Start/Checks.antt =====
-- routes/story_engine.go: what `StartStoryForUserCmd` has found before it claims the session.
use mathlib.Core.Path.{subst}
use sentanyl_core_readonly.Prelude.{
  Bool, true, false, Option, some, none, List, [], ◌∷◌, ◌++◌, ◌≡◌, refl, ap,
}
use sentanyl_core_readonly.StoryEngine.Advance.{auth_request}
use sentanyl_core_readonly.StoryEngine.Content.Taken.{IsContentOf, enactment_content-IsContentOf}
use sentanyl_core_readonly.StoryEngine.Content.{enactment_content, first_scene, scene_content}
use sentanyl_core_readonly.StoryEngine.Graph.{
  Enactment, MessageContent, Scene, Story, Storyline, hydrate_story_graph,
}
use sentanyl_core_readonly.StoryEngine.Services.{Services}
use sentanyl_core_readonly.StoryEngine.Start.{
  ◌>>=◌, Command, Generated, Prepared, Result, StartError, authorized, err, first_or, first_step,
  last_or, ok, prepare, some_or, no_content, no_enactments, no_scene, no_storylines,
  story_not_found,
}

-- The last story of the name, its first storyline, the first enactment there with its content, and
-- the consent of the send authority.
pub record IsPrepared (sv : Services) (cmd : Command) (gen : Generated) (p : Prepared)
    : Type 0 where
  pub older : List Story
  pub found : Story
  pub named : sv.stories_named cmd.story_name cmd.subscriber_id ≡ older ++ found ∷ []
  pub hydrated : p.story ≡ hydrate_story_graph sv.graph found
  pub line : Storyline
  pub lines : List Storyline
  pub first_line : p.story.storylines ≡ line ∷ lines
  pub acts : List Enactment
  pub first_act : line.acts ≡ p.enactment ∷ acts
  pub has_content : IsContentOf p.enactment p.content
  pub allowed : sv.is_allowed (auth_request sv (first_step cmd gen.public_id)) ≡ true

module _ {A : Type 0} where
  bind-ok :
      {B : Type 0} (r : Result A) (f : A → Result B) (b : B)
      → (r >>= f) ≡ ok b
      → (a : A) × (r ≡ ok a) × (f a ≡ ok b)
  bind-ok (ok a) f b h = (a, refl, h)
  bind-ok (err e) f b h = absurd (cc)

  first_or-ok :
      (e : StartError) (xs : List A) (x : A) → first_or e xs ≡ ok x → (ys : List A) × (xs ≡ x ∷ ys)
  first_or-ok e [] x h = absurd (cc)
  first_or-ok e (y ∷ ys) x h = (ys, let q : y ≡ x = cc in ap (λ z. z ∷ ys) q)

  last_or-ok :
      (e : StartError) (xs : List A) (x : A)
      → last_or e xs ≡ ok x
      → (ys : List A) × (xs ≡ ys ++ x ∷ [])
  last_or-ok e [] x h = absurd (cc)
  last_or-ok e (y ∷ []) x h = ([], let q : y ≡ x = cc in ap (λ z. z ∷ []) q)
  last_or-ok e (y ∷ z ∷ zs) x h =
      let r = last_or-ok e (z ∷ zs) x h in (y ∷ r.0, ap (λ l. y ∷ l) r.1)

  some_or-ok : (e : StartError) (o : Option A) (x : A) → some_or e o ≡ ok x → o ≡ some x
  some_or-ok e none x h = absurd (cc)
  some_or-ok e (some y) x h = let q : y ≡ x = cc in ap some q

authorized-ok : (b : Bool) (p q : Prepared) → authorized b p ≡ ok q → (b ≡ true) × (p ≡ q)
authorized-ok true p q h = (refl, cc)
authorized-ok false p q h = absurd (cc)

scene-content :
    (en : Enactment) (sc : Scene) (content : MessageContent)
    → first_scene en ≡ some sc
    → scene_content sc ≡ some content
    → enactment_content en ≡ some content
unfolding enactment_content
scene-content en sc content f e = rw (enactment_content, f) e

-- A preparation that succeeds.
pub prepare-IsPrepared :
    (sv : Services) (cmd : Command) (gen : Generated) (p : Prepared)
    → prepare sv cmd gen ≡ ok p
    → IsPrepared sv cmd gen p
unfolding prepare
prepare-IsPrepared sv cmd gen p h =
    let named = sv.stories_named cmd.story_name cmd.subscriber_id in
    let a = bind-ok (last_or story_not_found named) _ p h in
    let story = hydrate_story_graph sv.graph a.0 in
    let b = bind-ok (first_or no_storylines story.storylines) _ p a.2 in
    let c = bind-ok (first_or no_enactments b.0.acts) _ p b.2 in
    let d = bind-ok (some_or no_scene (first_scene c.0)) _ p c.2 in
    let e = bind-ok (some_or no_content (scene_content d.0)) _ p d.2 in
    let f =
      authorized-ok (sv.is_allowed (auth_request sv (first_step cmd gen.public_id))) _ p e.2 in
    let last = last_or-ok story_not_found named a.0 a.1 in
    let line = first_or-ok no_storylines story.storylines b.0 b.1 in
    let act = first_or-ok no_enactments b.0.acts c.0 c.1 in
    let scene = some_or-ok no_scene (first_scene c.0) d.0 d.1 in
    let content = some_or-ok no_content (scene_content d.0) e.0 e.1 in
    subst (IsPrepared sv cmd gen) f.1 (record {
      older = last.0;
      found = a.0;
      named = last.1;
      hydrated = refl;
      line = b.0;
      lines = line.0;
      first_line = line.1;
      acts = act.0;
      first_act = act.1;
      has_content = enactment_content-IsContentOf c.0 e.0 (scene-content c.0 d.0 e.0 scene content);
      allowed = f.0;
    })
