-- ===== src/StoryEngine/Start/Replay.antt =====
-- routes/story_engine.go: what `StartStoryForUserCmd` changes, also when its key was used before.
use sentanyl_core_readonly.Prelude.{[], ◌≡◌, ◌≢◌, refl}
use sentanyl_core_readonly.StoryEngine.Services.{Services, World}
use sentanyl_core_readonly.StoryEngine.Sessions.{
  Collection, HasKey, InsertResult, duplicate, failed, inserted,
}
use sentanyl_core_readonly.StoryEngine.Start.{
  Command, Generated, Prepared, Result, after_insert, enroll, err, new_session, ok, prepare,
  start_story,
}
use sentanyl_core_readonly.StoryEngine.Start.Outcomes.{IsUnchanged}

module _ (sv : Services) {c : Collection} (cmd : Command) (gen : Generated) where
  after_insert-IsUnchanged :
      (p : Prepared) (w v : World c) (r : InsertResult)
      → r ≢ inserted
      → IsUnchanged w v
      → IsUnchanged w (after_insert sv cmd gen p v r).0
  unfolding after_insert
  after_insert-IsUnchanged p w v inserted n u = absurd (n refl)
  after_insert-IsUnchanged p w v duplicate n u = u
  after_insert-IsUnchanged p w v failed n u = u

  replayed-IsUnchanged :
      (w : World c) (r : Result Prepared)
      → cmd.command_key ≢ []
      → HasKey cmd.command_key (c.docs w.sessions)
      → IsUnchanged w (enroll sv cmd gen w r).0
  unfolding enroll
  replayed-IsUnchanged w (err e) k h = record {
    same_docs = refl;
    same_sends = refl;
    same_outbox = refl;
  }
  replayed-IsUnchanged w (ok p) k h =
      let d = new_session sv cmd gen p in
      let refused : ((c.insert d w.sessions).1 ≢ inserted)
          × (c.docs (c.insert d w.sessions).0 ≡ c.docs w.sessions) =
        unfold new_session in c.insert_unique d w.sessions k h in
      after_insert-IsUnchanged p w _ _ refused.0
        (record { same_docs = refused.1; same_sends = refl; same_outbox = refl })

  -- A start command whose key, which is not empty, a session in the collection has already changes
  -- no session, stores no row and sends nothing.
  pub start_story-replay :
      (w : World c)
      → cmd.command_key ≢ []
      → HasKey cmd.command_key (c.docs w.sessions)
      → IsUnchanged w (start_story sv cmd gen w).0
  unfolding start_story
  start_story-replay w = replayed-IsUnchanged w (prepare sv cmd gen)
