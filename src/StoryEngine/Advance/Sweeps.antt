-- ===== src/StoryEngine/Advance/Sweeps.antt =====
-- routes/story_engine.go: what `advanceExpiredSessions` sends.
use mathlib.Core.List.{append_assoc}
use sentanyl_core_readonly.Prelude.Distinct.{All, Has}
use sentanyl_core_readonly.Prelude.{
  ℕ, suc, true, if_rule, Option, some, none, List, [], ◌∷◌, ◌++◌, ◌≡◌, refl, sym, ◌∙◌, ap,
}
use sentanyl_core_readonly.StoryEngine.Advance.Sends.{Sends, advance_session-Sends, quiet, sent}
use sentanyl_core_readonly.StoryEngine.Advance.{advance_expired_sessions, is_expired, sweep}
use sentanyl_core_readonly.StoryEngine.Services.{Mail, Services, World}
use sentanyl_core_readonly.StoryEngine.Sessions.{Collection, StorySession, is_active}

-- A message for a session that a sweep at this time may send; what is known of the sessions is `K`.
pub record IsDue (now : ℕ) (K : StorySession → Type 0) (m : Mail) : Type 0 where
  pub session : StorySession
  pub known : K session
  pub expired : is_expired now session ≡ true
  pub for_session : m.session ≡ session.public_id
  pub for_enactment : m.enactment ≡ suc session.enactment_idx

-- What is sent from one state to the other.
pub record Sweeps (now : ℕ) (K : StorySession → Type 0) {c : Collection} (w v : World c)
    : Type 0 where
  pub added : List Mail
  pub outbox : v.outbox ≡ added ++ w.outbox
  pub all_due : All (IsDue now K) added

All-append : (P : Mail → Type 0) (ms : List Mail) (m : Mail) → All P ms → P m → All P (ms ++ m ∷ [])
All-append P [] m h k = (k, tt)
All-append P (x ∷ ms) m h k = (h.0, All-append P ms m h.1 k)

module _ (answers : StorySession → Services) (clock : StorySession → ℕ) {c : Collection} (now : ℕ)
    (K : StorySession → Type 0) where
  -- A sweep, behind the turn of a session.
  Sweeps-turn :
      (s : StorySession) (w v x : World c)
      → is_expired now s ≡ true
      → K s
      → Sends (answers s) s w v
      → Sweeps now K v x
      → Sweeps now K w x
  Sweeps-turn s w v x e k (quiet q) r = record {
    added = r.added;
    outbox = r.outbox ∙ ap (λ l. r.added ++ l) q;
    all_due = r.all_due;
  }
  Sweeps-turn s w v x e k (sent i) r = record {
    added = r.added ++ i.mail ∷ [];
    outbox =
        r.outbox
        ∙ ap (λ l. r.added ++ l) i.sent
        ∙ sym (append_assoc r.added (i.mail ∷ []) w.outbox);
    all_due = All-append (IsDue now K) r.added i.mail r.all_due (record {
      session = s;
      known = k;
      expired = e;
      for_session = i.for_session;
      for_enactment = i.for_enactment;
    });
  }

  sweep-Sweeps :
      (ss : List StorySession) (w : World c)
      → All K ss
      → Sweeps now K w (sweep answers clock now ss w)
  unfolding sweep
  sweep-Sweeps [] w k = record { added = []; outbox = refl; all_due = tt }
  sweep-Sweeps (s ∷ ss) w k =
      if_rule (λ (v : World c). Sweeps now K w (sweep answers clock now ss v)) (is_expired now s)
        (λ e.
          Sweeps-turn s w _ _ e k.0 (advance_session-Sends (answers s) (clock s) s w)
            (sweep-Sweeps ss _ k.1))
        (λ _. sweep-Sweeps ss w k.1)

-- The sessions that are in the collection and active.
abbrev pub Running : {c : Collection} → World c → StorySession → Type 0
Running {c} w s = Has s (c.docs w.sessions) × (is_active s.status ≡ true)

-- A sweep keeps the messages that are sent and adds only messages for sessions that are in the
-- collection, active and past their wait when the sweep begins, each for the enactment behind the
-- one at which the session then stands.
pub advance_expired_sessions-Sweeps :
    (answers : StorySession → Services) (clock : StorySession → ℕ) {c : Collection} (now : ℕ)
    (w : World c)
    → Sweeps now (Running w) w (advance_expired_sessions answers clock now w)
unfolding advance_expired_sessions
advance_expired_sessions-Sweeps answers clock {c} now w =
    behind (c.find_all (λ d. is_active d.status) w.sessions) refl
  where
    behind :
        (o : Option (List StorySession))
        → c.find_all (λ d. is_active d.status) w.sessions ≡ o
        → Sweeps now
            (Running w)
            w
            (elim o as (λ _. World c) [ none ↦ w | some ss ↦ sweep answers clock now ss w ])
    behind none e = record { added = []; outbox = refl; all_due = tt }
    behind (some ss) e = sweep-Sweeps answers clock now (Running w) ss w (c.found _ w.sessions ss e)
