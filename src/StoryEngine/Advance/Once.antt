-- ===== src/StoryEngine/Advance/Once.antt =====
-- However the sweeps and the clicks interleave, a step of a session is sent at most once.
use sentanyl_core_readonly.Prelude.Distinct.{All}
use sentanyl_core_readonly.Prelude.{
  ℕ, suc, true, if_rule, Option, some, none, List, [], ◌∷◌, Str, bytes, str_eq, ◌≡◌, ◌≢◌, refl, sym,
  ◌∙◌, ap, arith,
}
use sentanyl_core_readonly.StoryEngine.Advance.Claims.{
  All-IsReached, IsOnce, IsOnce-update, IsReached, IsReached-Modified, changed, claim_change-grows,
  claim_change-id, claim_query-read, public_ids-Modified, steps,
}
use sentanyl_core_readonly.StoryEngine.Advance.{
  advance_in, advance_session, proceed, auth_request, claim_and_send, claim_change, claim_query,
  deliver, is_unsubscribed, mark_complete, next_scene, next_step, send_step,
}
use sentanyl_core_readonly.StoryEngine.Content.{OnSentWait, on_sent_wait}
use sentanyl_core_readonly.StoryEngine.Graph.{Enactment, MessageContent, Story, hydrate_story_graph}
use sentanyl_core_readonly.StoryEngine.Services.{Services, World}
use sentanyl_core_readonly.StoryEngine.Sessions.{Change, Collection, Modified, Query, StorySession}

-- A step that is beyond what every session of its id had before the claim is new.
step-new :
    {q : Query} {f : Change} {ds es : List StorySession} (x : Str) (n : ℕ)
    → ((d : StorySession) → q d ≡ true → (d.public_id ≡ x) × (d.enactment_idx ≡ n))
    → Modified q f ds es
    → (ms : List (Str × ℕ)) → All (IsReached ds) ms
    → All (λ y. y ≢ (x, suc n)) ms
step-new x n read m [] h = tt
step-new x n read m (y ∷ ys) h =
    let r = changed m h.0 in
    let e = read r.0 r.1 in
    (
      λ p.
          let p0 : y.0 ≡ x = ap (λ (z : Str × ℕ). z.0) p in
          let p1 : y.1 ≡ suc n = ap (λ (z : Str × ℕ). z.1) p in
          let l = r.2 (e.0 ∙ sym p0) in absurd (omega (arith, e.1)),
      step-new x n read m ys h.1,
    )

module _ (sv : Services) {c : Collection} where
  pub mark_complete-IsOnce : (x : Str) (w : World c) → IsOnce w → IsOnce (mark_complete sv x w)
  unfolding mark_complete
  mark_complete-IsOnce x w = IsOnce-update _ _ (λ d. refl) (λ d _. omega arith) w

  -- A won claim and one message for the claimed step.
  claimed-IsOnce :
      (s : StorySession) (now : ℕ) (wait : OnSentWait) (w v : World c)
      → Modified (claim_query s) (claim_change s now wait) (c.docs w.sessions) (c.docs v.sessions)
      → steps v.outbox ≡ (s.public_id, suc s.enactment_idx) ∷ steps w.outbox
      → IsOnce w
      → IsOnce v
  claimed-IsOnce s now wait w v m e o =
      let same = λ (d : StorySession). (claim_change-id s now wait d).0 in
      record {
        distinct = rw (public_ids-Modified same m) o.distinct;
        reached = rw e (
          IsReached-Modified (λ d h. (claim_query-read s d h).0)
              (λ d. (claim_change-id s now wait d).1) m o.distinct,
          All-IsReached _ _ same (claim_change-grows s now wait) (steps w.outbox) m o.reached,
        );
        once = rw e (
          step-new s.public_id s.enactment_idx (claim_query-read s) m (steps w.outbox) o.reached,
          o.once,
        );
      }

  claim_and_send-IsOnce :
      (now : ℕ) (story : Story) (s : StorySession) (en : Enactment) (content : MessageContent)
      (w : World c)
      → IsOnce w
      → IsOnce (claim_and_send sv now story s en content w)
  unfolding claim_and_send send_step
  claim_and_send-IsOnce now story s en content w o =
      let wait = on_sent_wait sv.events en in
      let q = claim_query s in
      let f = claim_change s now wait in
      let claimed = c.update q f w.sessions in
      let same = λ (d : StorySession). (claim_change-id s now wait d).0 in
      let kept = IsOnce-update q f same (claim_change-grows s now wait) w o in
      if_rule (λ (v : World c). IsOnce v) claimed.1
        (λ hit.
          if_rule (λ (v : World c). IsOnce v) (sv.is_allowed (auth_request sv (next_step s)))
            (λ _.
              claimed-IsOnce s now wait w _ (unfold deliver in c.update_hit q f w.sessions hit)
                (unfold deliver in refl) o)
            λ _. kept)
        λ _. kept

  proceed-IsOnce :
      (now : ℕ) (story : Story) (s : StorySession) (w : World c)
      (o : Option (Enactment × MessageContent))
      → IsOnce w
      → IsOnce (proceed sv now story s w o)
  unfolding proceed
  proceed-IsOnce now story s w none o = mark_complete-IsOnce s.public_id w o
  proceed-IsOnce now story s w (some (en, content)) o =
      if_rule (λ (v : World c). IsOnce v) (is_unsubscribed (sv.user_by_id s.user_public_id))
        (λ _. mark_complete-IsOnce s.public_id w o)
        λ _. claim_and_send-IsOnce now story s en content w o

  advance_in-IsOnce :
      (now : ℕ) (s : StorySession) (w : World c) (o : Option Story)
      → IsOnce w
      → IsOnce (advance_in sv now s w o)
  unfolding advance_in
  advance_in-IsOnce now s w none o = o
  advance_in-IsOnce now s w (some story) o =
      proceed-IsOnce now (hydrate_story_graph sv.graph story) s w _ o

  -- Advancing from any snapshot of a session keeps the steps distinct.
  pub advance_session-IsOnce :
      (now : ℕ) (s : StorySession) (w : World c) → IsOnce w → IsOnce (advance_session sv now s w)
  unfolding advance_session next_scene
  advance_session-IsOnce now s w o =
      if_rule (λ (v : World c). IsOnce v) (str_eq s.next_action (bytes "next_scene"))
        (λ _. advance_in-IsOnce now s w (sv.story_by_id s.story_id) o)
        λ _. mark_complete-IsOnce s.public_id w o
