-- ===== src/StoryEngine/Content/Taken.antt =====
-- routes/story_engine.go: which scene and which content `getSceneFromEnactment` and
-- `getSceneContent` take.
use mathlib.Core.Path.{subst}
use sentanyl_core_readonly.Prelude.{
  Bool, true, false, not, ◌||◌, if◌then◌else◌, Option, some, none, List, [], ◌∷◌, Str, is_nil, ◌≡◌,
  ◌≢◌, ◌⊎◌, refl, inl, inr,
}
use sentanyl_core_readonly.StoryEngine.Content.{
  direct_content, enactment_content, first_scene, get_elem?, message_content, scene_content,
}
use sentanyl_core_readonly.StoryEngine.Graph.{Enactment, Message, MessageContent, Scene}

-- The first of the scenes, or where there are none the single scene.
pub data IsFirstScene (en : Enactment) (sc : Scene) : Type 0 where
  listed : (scs : List Scene) → en.send_scenes ≡ sc ∷ scs → IsFirstScene en sc
  single : en.send_scenes ≡ [] → en.send_scene ≡ some sc → IsFirstScene en sc

-- The scene has no message with a content.
pub data HasNoMessage (sc : Scene) : Type 0 where
  no_message : sc.message ≡ none → HasNoMessage sc
  empty_message : (m : Message) → sc.message ≡ some m → m.content ≡ none → HasNoMessage sc

-- The content of the scene's message, or where there is none the fields of the scene itself, unless
-- its subject and its body are both empty.
pub data IsSceneContent (sc : Scene) (k : MessageContent) : Type 0 where
  of_message : (m : Message) → sc.message ≡ some m → m.content ≡ some k → IsSceneContent sc k
  of_scene :
      HasNoMessage sc
      → (sc.subject ≢ []) ⊎ (sc.body ≢ [])
      → k.subject ≡ sc.subject
      → k.body ≡ sc.body
      → k.from_email ≡ sc.from_email
      → k.from_name ≡ sc.from_name
      → k.reply_to ≡ sc.reply_to
      → IsSceneContent sc k

pub record IsContentOf (en : Enactment) (k : MessageContent) : Type 0 where
  pub scene : Scene
  pub first : IsFirstScene en scene
  pub content : IsSceneContent scene k

first_scene-IsFirstScene :
    (en : Enactment) (sc : Scene) → first_scene en ≡ some sc → IsFirstScene en sc
unfolding first_scene
first_scene-IsFirstScene en sc = scenes en.send_scenes refl
  where
    scenes :
        (xs : List Scene)
        → en.send_scenes ≡ xs
        → elim (get_elem? xs 0) as (λ _. Option Scene) [ some x ↦ some x | none ↦ en.send_scene ]
          ≡ some sc
        → IsFirstScene en sc
    scenes [] e h = single e h
    scenes (x ∷ xs) e h = let p : x ≡ sc = cc in listed xs (rw (← p) e)

some_text : (s t : Str) → not (is_nil s) || not (is_nil t) ≡ true → (s ≢ []) ⊎ (t ≢ [])
some_text [] [] h = absurd (cc)
some_text (x ∷ s) t h = inl (λ e. cc)
some_text [] (x ∷ t) h = inr (λ e. cc)

message_content-HasNoMessage : (sc : Scene) → message_content sc.message ≡ none → HasNoMessage sc
message_content-HasNoMessage sc = message sc.message refl
  where
    message : (o : Option Message) → sc.message ≡ o → message_content o ≡ none → HasNoMessage sc
    message none e h = no_message e
    message (some m) e h = empty_message m e h

message-IsSceneContent :
    (sc : Scene) (k : MessageContent) → message_content sc.message ≡ some k → IsSceneContent sc k
message-IsSceneContent sc k = message sc.message refl
  where
    message :
        (o : Option Message) → sc.message ≡ o → message_content o ≡ some k → IsSceneContent sc k
    message none e h = absurd (cc)
    message (some m) e h = of_message m e h

direct-IsSceneContent :
    (sc : Scene)
    → HasNoMessage sc
    → (sc.subject ≢ []) ⊎ (sc.body ≢ [])
    → IsSceneContent sc (direct_content sc)
direct-IsSceneContent sc n t = of_scene n t refl refl refl refl refl

scene_content-IsSceneContent :
    (sc : Scene) (k : MessageContent) → scene_content sc ≡ some k → IsSceneContent sc k
unfolding scene_content
scene_content-IsSceneContent sc k = content (message_content sc.message) refl
  where
    direct :
        (b : Bool)
        → message_content sc.message ≡ none
        → not (is_nil sc.subject) || not (is_nil sc.body) ≡ b
        → (if b then some (direct_content sc) else none) ≡ some k
        → IsSceneContent sc k
    direct true n e h =
        let p : direct_content sc ≡ k = cc in
        subst (IsSceneContent sc) p (
          direct-IsSceneContent sc (message_content-HasNoMessage sc n)
            (some_text sc.subject sc.body e))
    direct false n e h = absurd (cc)

    content :
        (o : Option MessageContent)
        → message_content sc.message ≡ o
        → elim o as (λ _. Option MessageContent) [
          | some x ↦ some x
          | none ↦
              if not (is_nil sc.subject) || not (is_nil sc.body)
              then some (direct_content sc)
              else none
        ]
          ≡ some k
        → IsSceneContent sc k
    content (some x) e h = let p : x ≡ k = cc in message-IsSceneContent sc k (rw (← p) e)
    content none e h = direct (not (is_nil sc.subject) || not (is_nil sc.body)) e refl h

pub enactment_content-IsContentOf :
    (en : Enactment) (k : MessageContent) → enactment_content en ≡ some k → IsContentOf en k
unfolding enactment_content
enactment_content-IsContentOf en k = scene (first_scene en) refl
  where
    scene :
        (o : Option Scene)
        → first_scene en ≡ o
        → elim o as (λ _. Option MessageContent) [ none ↦ none | some sc ↦ scene_content sc ]
          ≡ some k
        → IsContentOf en k
    scene none e h = absurd (cc)
    scene (some sc) e h = record {
      scene = sc;
      first = first_scene-IsFirstScene en sc e;
      content = scene_content-IsSceneContent sc k h;
    }
