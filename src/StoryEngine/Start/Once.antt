-- ===== src/StoryEngine/Start/Once.antt =====
-- routes/story_engine.go: what a start command keeps of the ids and of the sent steps.
use mathlib.Core.Path.{subst}
use sentanyl_core_readonly.Prelude.Distinct.{All, All-map, AllDifferent}
use sentanyl_core_readonly.Prelude.{
  ℕ, List, [], ◌∷◌, Str, ◌≡◌, ◌≢◌, ◌⊎◌, inl, inr, refl, sym, ap, arith,
}
use sentanyl_core_readonly.StoryEngine.Advance.Claims.{
  IsOnce, IsOnce-at, IsReached, public_ids, steps,
}
use sentanyl_core_readonly.StoryEngine.Advance.{deliver}
use sentanyl_core_readonly.StoryEngine.Services.{Services, World}
use sentanyl_core_readonly.StoryEngine.Sessions.{
  Change, ChangedSome, Collection, InsertResult, Query, StorySession, duplicate, failed, inserted,
  no_more, other, same,
}
use sentanyl_core_readonly.StoryEngine.Start.{
  Command, Generated, Prepared, Result, after_insert, claimed, enroll, err, new_session, ok,
  prepare, start_story, supersede, supersede_query,
}

-- The generated ids are new: no session and no message has them.
pub record IsFresh {c : Collection} (gen : Generated) (w : World c) : Type 0 where
  pub new_id : All (λ (d : StorySession). d.id ≢ gen.id) (c.docs w.sessions)
  pub new_public_id : All (λ x. x ≢ gen.public_id) (public_ids (c.docs w.sessions))
  pub unsent : All (λ (m : Str × ℕ). m.0 ≢ gen.public_id) (steps w.outbox)

-- Every step at or before enactment 0 is reached.
zero-IsReached : (x : Str) (ds : List StorySession) → IsReached ds (x, 0)
zero-IsReached x [] = tt
zero-IsReached x (d ∷ ds) = (λ _. omega arith, zero-IsReached x ds)

module _ (q : Query) (f : Change) where
  ChangedSome-All {κ} :
      {P : StorySession → Type κ} {ds es : List StorySession}
      → ((d : StorySession) → P d → P (f d))
      → ChangedSome q f ds es
      → All P ds
      → All P es
  ChangedSome-All k no_more h = tt
  ChangedSome-All k (same m) h = (h.0, ChangedSome-All k m h.1)
  ChangedSome-All k (other e m) h = (k _ h.0, ChangedSome-All k m h.1)

  public_ids-ChangedSome :
      {ds es : List StorySession}
      → ((d : StorySession) → (f d).public_id ≡ d.public_id)
      → ChangedSome q f ds es
      → public_ids es ≡ public_ids ds
  public_ids-ChangedSome k no_more = refl
  public_ids-ChangedSome k (same {d} m) = ap (λ xs. d.public_id ∷ xs) (public_ids-ChangedSome k m)
  public_ids-ChangedSome k (other {d} e m) = rw (k d, public_ids-ChangedSome k m)

-- Old messages carry other public ids than a fresh one.
IsReached-fresh :
    (d : StorySession) (ds : List StorySession) (ms : List (Str × ℕ))
    → All (λ (m : Str × ℕ). m.0 ≢ d.public_id) ms
    → All (IsReached ds) ms
    → All (IsReached (d ∷ ds)) ms
IsReached-fresh d ds [] n h = tt
IsReached-fresh d ds (m ∷ ms) n h =
    ((λ e. absurd (n.0 (sym e)), h.0), IsReached-fresh d ds ms n.1 h.1)

steps-fresh :
    (x : Str) (n : ℕ) (ms : List (Str × ℕ))
    → All (λ (m : Str × ℕ). m.0 ≢ x) ms
    → All (λ m. m ≢ (x, n)) ms
steps-fresh x n = All-map _ _ (λ m h e. h (ap (λ (z : Str × ℕ). z.0) e))

module _ (sv : Services) {c : Collection} (cmd : Command) (gen : Generated) where
  -- Behind the insertion of the session, with the documents that the collection then has.
  claimed-IsOnce :
      (p : Prepared) (w v : World c)
      → c.docs v.sessions ≡ new_session sv cmd gen p ∷ c.docs w.sessions
      → v.outbox ≡ w.outbox
      → IsFresh gen w
      → IsOnce w
      → IsOnce (claimed sv cmd gen p v)
  unfolding claimed deliver new_session
  claimed-IsOnce p w v e o fresh h =
      let q = supersede_query cmd gen.id in
      let d = new_session sv cmd gen p in
      let ds = c.docs w.sessions in
      let after = c.docs (c.update_all q supersede v.sessions).0 in
      let some_changed =
        subst (λ l. ChangedSome q supersede l after) e (c.update_all_some q supersede v.sessions) in
      let reached = IsReached-fresh d ds (steps w.outbox) fresh.unsent h.reached in
      let ids = public_ids-ChangedSome q supersede (λ x. refl) some_changed in
      let ms = steps w.outbox in
      IsOnce-at (claimed sv cmd gen p v) refl (ap (λ l. (gen.public_id, 0) ∷ steps l) o)
        (subst AllDifferent (sym ids) (fresh.new_public_id, h.distinct))
        (
          zero-IsReached gen.public_id after,
          All-map _ _ (λ m r. ChangedSome-All q supersede (λ x k. k) some_changed r) ms reached,
        )
        (steps-fresh gen.public_id 0 ms fresh.unsent, h.once)

  after_insert-IsOnce :
      (p : Prepared) (w v : World c) (r : InsertResult)
      → (r ≡ inserted → c.docs v.sessions ≡ new_session sv cmd gen p ∷ c.docs w.sessions)
      → (r ≡ duplicate → c.docs v.sessions ≡ c.docs w.sessions)
      → (r ≡ failed
          → (c.docs v.sessions ≡ c.docs w.sessions)
            ⊎ (c.docs v.sessions ≡ new_session sv cmd gen p ∷ c.docs w.sessions))
      → v.outbox ≡ w.outbox
      → IsFresh gen w
      → IsOnce w
      → IsOnce (after_insert sv cmd gen p v r).0
  unfolding after_insert new_session
  after_insert-IsOnce p w v inserted e n l o fresh h = claimed-IsOnce p w v (e refl) o fresh h
  after_insert-IsOnce p w v duplicate e n l o fresh h =
      IsOnce-at v (n refl) (ap steps o) h.distinct h.reached h.once
  after_insert-IsOnce p w v failed e n l o fresh h = elim (l refl) [
    | inl k ↦ IsOnce-at v k (ap steps o) h.distinct h.reached h.once
    | inr k ↦
        let reached =
          IsReached-fresh (new_session sv cmd gen p) (c.docs w.sessions) (steps w.outbox)
            fresh.unsent h.reached in
        IsOnce-at v k (ap steps o) (fresh.new_public_id, h.distinct) reached h.once
  ]

  enroll-IsOnce :
      (w : World c) (r : Result Prepared)
      → IsFresh gen w
      → IsOnce w
      → IsOnce (enroll sv cmd gen w r).0
  unfolding enroll
  enroll-IsOnce w (err e) fresh h = h
  enroll-IsOnce w (ok p) fresh h =
      let d = new_session sv cmd gen p in
      after_insert-IsOnce p w _ _ (c.insert_done d w.sessions) (c.insert_duplicate d w.sessions)
        (c.insert_failed d w.sessions) refl fresh h

  -- A start command with fresh ids keeps the steps distinct.
  pub start_story-IsOnce :
      (w : World c) → IsFresh gen w → IsOnce w → IsOnce (start_story sv cmd gen w).0
  unfolding start_story
  start_story-IsOnce w = enroll-IsOnce w (prepare sv cmd gen)
