-- ===== src/StoryEngine/Advance/Claims.antt =====
-- routes/story_engine.go: what an update of one session keeps of the ids and of the sent steps.
use mathlib.Core.Path.{subst, subst₂}
use sentanyl_core_readonly.Prelude.Distinct.{All, All-map, AllDifferent}
use sentanyl_core_readonly.Prelude.{
  ℕ, suc, ◌≤◌, true, Bool-cases, List, [], ◌∷◌, Str, str_eq_iff, ◌≡◌, ◌≢◌, refl, sym, ◌∙◌, ap,
  arith, inl, inr,
}
use sentanyl_core_readonly.StoryEngine.Advance.{claim_change, claim_query}
use sentanyl_core_readonly.StoryEngine.Content.{OnSentWait}
use sentanyl_core_readonly.StoryEngine.Services.{Mail, World}
use sentanyl_core_readonly.StoryEngine.Sessions.{
  Change, Collection, Modified, Query, StorySession, here, there,
}

abbrev pub public_ids : List StorySession → List Str
public_ids [] = []
public_ids (d ∷ ds) = d.public_id ∷ public_ids ds

abbrev pub steps : List Mail → List (Str × ℕ)
steps [] = []
steps (m ∷ ms) = (m.session, m.enactment) ∷ steps ms

-- A step that is sent is not beyond the enactment of its session.
abbrev pub IsReached : List StorySession → Str × ℕ → Type 0
IsReached ds m = All (λ (d : StorySession). d.public_id ≡ m.0 → m.1 ≤ d.enactment_idx) ds

-- No two messages are sent for one step of one session, and no two sessions share a public id.
pub record IsOnce {c : Collection} (w : World c) : Type 0 where
  pub distinct : AllDifferent (public_ids (c.docs w.sessions))
  pub reached : All (IsReached (c.docs w.sessions)) (steps w.outbox)
  pub once : AllDifferent (steps w.outbox)

-- The invariant, at given documents and steps.
pub IsOnce-at :
    {c : Collection} (w : World c) {ds : List StorySession} {ms : List (Str × ℕ)}
    → c.docs w.sessions ≡ ds
    → steps w.outbox ≡ ms
    → AllDifferent (public_ids ds)
    → All (IsReached ds) ms
    → AllDifferent ms
    → IsOnce w
IsOnce-at w {ds} {ms} e o a r d = record {
  distinct = subst (λ x. AllDifferent (public_ids x)) (sym e) a;
  reached = subst₂ (λ x y. All (IsReached x) y) (sym e) (sym o) r;
  once = subst AllDifferent (sym o) d;
}

others :
    (x : Str) (n : ℕ) (ds : List StorySession)
    → All (λ y. y ≢ x) (public_ids ds)
    → All (λ (d : StorySession). d.public_id ≡ x → n ≤ d.enactment_idx) ds
others x n [] a = tt
others x n (d ∷ ds) a = (λ e. absurd (a.0 e), others x n ds a.1)

module _ {q : Query} {f : Change} where
  -- What one changed document needs for all to have a property.
  pub Modified-All {κ} :
      {P : StorySession → Type κ} {ds es : List StorySession}
      → ((d : StorySession) → q d ≡ true → P d → P (f d))
      → Modified q f ds es
      → All P ds
      → All P es
  Modified-All k (here h) a = (k _ h a.0, a.1)
  Modified-All k (there m) a = (a.0, Modified-All k m a.1)

  -- A change that keeps public ids keeps their list.
  pub public_ids-Modified :
      {ds es : List StorySession}
      → ((d : StorySession) → (f d).public_id ≡ d.public_id)
      → Modified q f ds es
      → public_ids es ≡ public_ids ds
  public_ids-Modified k (here {d} {ds} h) = ap (λ x. x ∷ public_ids ds) (k d)
  public_ids-Modified k (there {d} m) = ap (λ xs. d.public_id ∷ xs) (public_ids-Modified k m)

  -- The document that was changed, with what holds of every document.
  pub changed {κ} :
      {P : StorySession → Type κ} {ds es : List StorySession}
      → Modified q f ds es
      → All P ds
      → (d : StorySession) × (q d ≡ true) × P d
  changed (here {d} h) a = (d, h, a.0)
  changed (there m) a = changed m a.1

  id-among :
      {x : Str} {ds es : List StorySession}
      → Modified q f ds es
      → All (λ y. y ≢ x) (public_ids ds)
      → (d : StorySession) × (q d ≡ true) × (d.public_id ≢ x)
  id-among (here {d} h) a = (d, h, a.0)
  id-among (there m) a = id-among m a.1

  -- With distinct ids, the step that the change makes is reached.
  pub IsReached-Modified :
      {x : Str} {n : ℕ} {ds es : List StorySession}
      → ((d : StorySession) → q d ≡ true → d.public_id ≡ x)
      → ((d : StorySession) → n ≤ (f d).enactment_idx)
      → Modified q f ds es
      → AllDifferent (public_ids ds)
      → IsReached es (x, n)
  IsReached-Modified {x} same up (here {d} {ds} h) a =
      (λ _. up d, others x _ ds (rw (← same d h) a.0))
  IsReached-Modified {x} same up (there {d} m) a =
      let r = id-among m a.0 in
      (λ e. absurd (r.2 (same r.0 r.1 ∙ sym e)), IsReached-Modified same up m a.1)

pub claim_query-read :
    (s d : StorySession)
    → claim_query s d ≡ true
    → (d.public_id ≡ s.public_id) × (d.enactment_idx ≡ s.enactment_idx)
unfolding claim_query
claim_query-read s d h = ground (arith, str_eq_iff d.public_id s.public_id)

-- The change of a claim, at a document that its query matches.
pub claim_change-grows :
    (s : StorySession) (now : ℕ) (wait : OnSentWait) (d : StorySession)
    → claim_query s d ≡ true
    → d.enactment_idx ≤ (claim_change s now wait d).enactment_idx
unfolding claim_change
claim_change-grows s now wait d h = omega (arith, (claim_query-read s d h).1)

pub claim_change-id :
    (s : StorySession) (now : ℕ) (wait : OnSentWait) (d : StorySession)
    → ((claim_change s now wait d).public_id ≡ d.public_id)
      × (suc s.enactment_idx ≤ (claim_change s now wait d).enactment_idx)
unfolding claim_change
claim_change-id s now wait d = (refl, omega arith)

-- An update that keeps public ids and lowers no enactment.
module _ (q : Query) (f : Change) (same : (d : StorySession) → (f d).public_id ≡ d.public_id)
    (grows : (d : StorySession) → q d ≡ true → d.enactment_idx ≤ (f d).enactment_idx) where
  IsReached-keeps :
      (m : Str × ℕ) {ds es : List StorySession}
      → Modified q f ds es
      → IsReached ds m
      → IsReached es m
  IsReached-keeps m =
      Modified-All (λ d h r e. let n = r (sym (same d) ∙ e) in omega (arith, grows d h))

  pub All-IsReached :
      (ms : List (Str × ℕ)) {ds es : List StorySession}
      → Modified q f ds es
      → All (IsReached ds) ms
      → All (IsReached es) ms
  All-IsReached ms k = All-map _ _ (λ m. IsReached-keeps m k) ms

  module _ {c : Collection} where
    pub IsOnce-hit :
        (w : World c) (t : c.State)
        → Modified q f (c.docs w.sessions) (c.docs t)
        → IsOnce w
        → IsOnce {c = c} (record w { sessions = t })
    IsOnce-hit w t m o = record {
      distinct = rw (public_ids-Modified same m) o.distinct;
      reached = All-IsReached (steps w.outbox) m o.reached;
      once = o.once;
    }

    pub IsOnce-update :
        (w : World c)
        → IsOnce w
        → IsOnce {c = c} (record w { sessions = (c.update q f w.sessions).0 })
    IsOnce-update w o = elim (Bool-cases (c.update q f w.sessions).1) [
      | inl hit ↦ IsOnce-hit w _ (c.update_hit q f w.sessions hit) o
      | inr miss ↦ elim (c.update_miss q f w.sessions miss) [
        | inl e ↦ record { distinct = rw e o.distinct; reached = rw e o.reached; once = o.once }
        | inr m ↦ IsOnce-hit w _ m o
      ]
    ]
