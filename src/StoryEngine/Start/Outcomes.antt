-- ===== src/StoryEngine/Start/Outcomes.antt =====
-- routes/story_engine.go: the outcomes of `StartStoryForUserCmd`.
use sentanyl_core_readonly.Prelude.Distinct.{All, Has}
use sentanyl_core_readonly.Prelude.{
  true, false, if_rule, List, [], ◌∷◌, Str, str_eq_iff, ◌≡◌, ◌≢◌, refl, arith, inl,
}
use sentanyl_core_readonly.StoryEngine.Advance.Carries.{IsMailOf}
use sentanyl_core_readonly.StoryEngine.Start.Checks.{IsPrepared}
use sentanyl_core_readonly.StoryEngine.Services.{Mail, Services, World}
use sentanyl_core_readonly.StoryEngine.Sessions.{
  Change, ChangedSome, Collection, Query, StorySession, changed_all, duplicate, is_active, no_more,
  other, same,
}
use sentanyl_core_readonly.StoryEngine.Start.{
  Command, Generated, Prepared, Result, err, first_step, new_session, ok, session_not_created,
  supersede, supersede_query,
}

-- The documents, the rows of sent mail and the messages stay as they were.
pub record IsUnchanged {c : Collection} (w v : World c) : Type 0 where
  pub same_docs : c.docs v.sessions ≡ c.docs w.sessions
  pub same_sends : v.sends ≡ w.sends
  pub same_outbox : v.outbox ≡ w.outbox

-- A session of the user in the story of the command.
pub record IsEnrolled (cmd : Command) (gen : Generated) (d : StorySession) : Type 0 where
  pub new_id : d.id ≡ gen.id
  pub new_public_id : d.public_id ≡ gen.public_id
  pub for_user : d.user_public_id ≡ cmd.user_public_id
  pub in_story : d.story_name ≡ cmd.story_name
  pub at_first : d.enactment_idx ≡ 0
  pub keeps_key : d.command_key ≡ cmd.command_key
  pub runs : is_active d.status ≡ true

module _ (cmd : Command) (id : Str) where
  -- A session that, if it is an active one of the user in the story, is the one of the id.
  abbrev pub IsSole : StorySession → Type 0
  IsSole d =
      d.user_public_id ≡ cmd.user_public_id
      → d.story_name ≡ cmd.story_name
      → is_active d.status ≡ true
      → d.id ≡ id

-- A start that won: behind the insertion the other sessions of the query, and no others, may be
-- superseded, and all of them are if the update reports no error; and one message is sent, with the
-- content of the first enactment.
pub record IsWon (sv : Services) {c : Collection} (cmd : Command) (gen : Generated) (w v : World c)
    : Type 0 where
  pub session : StorySession
  pub session_in : Has session (c.docs v.sessions)
  pub enrolled : IsEnrolled cmd gen session
  pub between : c.State
  pub inserted_docs : c.docs between ≡ session ∷ c.docs w.sessions
  pub others :
      ChangedSome (supersede_query cmd gen.id) supersede (c.docs between) (c.docs v.sessions)
  pub sole :
      (c.update_all (supersede_query cmd gen.id) supersede between).1 ≡ true
      → All (IsSole cmd gen.id) (c.docs v.sessions)
  pub prepared : Prepared
  pub is_prepared : IsPrepared sv cmd gen prepared
  pub mail : Mail
  pub sent : v.outbox ≡ mail ∷ w.outbox
  pub carries : IsMailOf sv (first_step cmd gen.public_id) prepared.content mail

-- A start whose insertion failed with a session that is stored all the same.
pub record IsLost {c : Collection} (cmd : Command) (gen : Generated) (w v : World c) : Type 0 where
  pub session : StorySession
  pub enrolled : IsEnrolled cmd gen session
  pub inserted_docs : c.docs v.sessions ≡ session ∷ c.docs w.sessions
  pub same_sends : v.sends ≡ w.sends
  pub same_outbox : v.outbox ≡ w.outbox

pub data Starts (sv : Services) {c : Collection} (cmd : Command) (gen : Generated) (w v : World c)
    (r : Result (Unit {0})) : Type 0 where
  unchanged : IsUnchanged w v → r ≢ ok tt → Starts sv cmd gen w v r
  repeated :
      (d : StorySession)
      → IsEnrolled cmd gen d
      → (c.insert d w.sessions).1 ≡ duplicate
      → IsUnchanged w v
      → r ≡ ok tt
      → Starts sv cmd gen w v r
  won : IsWon sv cmd gen w v → r ≡ ok tt → Starts sv cmd gen w v r
  lost : IsLost cmd gen w v → r ≡ err session_not_created → Starts sv cmd gen w v r

module _ (cmd : Command) (id : Str) where
  unmatched-IsSole : (d : StorySession) → supersede_query cmd id d ≡ false → IsSole cmd id d
  unfolding supersede_query
  unmatched-IsSole d n u s a = ground (
    arith,
    str_eq_iff d.user_public_id cmd.user_public_id,
    str_eq_iff d.story_name cmd.story_name,
    str_eq_iff d.id id,
  )

  pub changed_all-IsSole :
      (ds : List StorySession)
      → All (IsSole cmd id) (changed_all (supersede_query cmd id) supersede ds)
  changed_all-IsSole [] = tt
  changed_all-IsSole (d ∷ ds) = (
    if_rule (IsSole cmd id) (supersede_query cmd id d) (λ _ u s a. cc) (unmatched-IsSole d),
    changed_all-IsSole ds,
  )

-- A document that the query does not match stays at the front.
pub unmatched-Has :
    {q : Query} {f : Change} (d : StorySession) {ds es : List StorySession} (fs : List StorySession)
    → ChangedSome q f ds es
    → ds ≡ d ∷ fs
    → q d ≡ false
    → Has d es
unmatched-Has d fs no_more e n = absurd (cc)
unmatched-Has d fs (same {d = x} m) e n = let p : x ≡ d = cc in inl p
unmatched-Has d fs (other {d = x} h m) e n = let p : x ≡ d = cc in absurd (cc)

module _ (sv : Services) (cmd : Command) (gen : Generated) where
  pub new_session-unmatched :
      (p : Prepared) → supersede_query cmd gen.id (new_session sv cmd gen p) ≡ false
  unfolding supersede_query new_session
  new_session-unmatched p = ground (arith, str_eq_iff gen.id gen.id)

  pub new_session-IsEnrolled : (p : Prepared) → IsEnrolled cmd gen (new_session sv cmd gen p)
  unfolding new_session
  new_session-IsEnrolled p = record {
    new_id = refl;
    new_public_id = refl;
    for_user = refl;
    in_story = refl;
    at_first = refl;
    keeps_key = refl;
    runs = refl;
  }
