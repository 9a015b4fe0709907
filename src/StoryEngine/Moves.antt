-- ===== src/StoryEngine/Moves.antt =====
-- The moves of the story engine (routes/story_engine.go, routes/tracking.go) in any order: start
-- commands, sweeps, clicks, and advances from snapshots that another actor may have outrun.
use sentanyl_core_readonly.Prelude.{
  ℕ, if_rule, Option, some, none, List, [], ◌∷◌, Str, bytes, has_prefix,
}
use sentanyl_core_readonly.StoryEngine.Advance.Claims.{IsOnce}
use sentanyl_core_readonly.StoryEngine.Advance.Once.{advance_session-IsOnce, mark_complete-IsOnce}
use sentanyl_core_readonly.StoryEngine.Advance.{
  advance_expired_sessions, advance_session, is_expired, mark_complete, sweep,
}
use sentanyl_core_readonly.StoryEngine.Click.{
  all_triggers, click_at, click_in, click_session, current_enactment, fire_click_trigger, fired,
  run_action, run_trigger,
}
use sentanyl_core_readonly.StoryEngine.Graph.{
  Action, Enactment, Story, Trigger, hydrate_story_graph,
}
use sentanyl_core_readonly.StoryEngine.Services.{Services, World}
use sentanyl_core_readonly.StoryEngine.Sessions.{Collection, StorySession, is_active}
use sentanyl_core_readonly.StoryEngine.Start.Once.{IsFresh, start_story-IsOnce}
use sentanyl_core_readonly.StoryEngine.Start.{Command, Generated, start_story}

module _ {c : Collection} where
  -- The services and the times may differ from move to move.
  pub data Move : World c → World c → Type 0 where
    starts :
        (sv : Services) (cmd : Command) (gen : Generated) (w : World c)
        → IsFresh gen w
        → Move w (start_story sv cmd gen w).0
    advances :
        (sv : Services) (now : ℕ) (s : StorySession) (w : World c)
        → Move w (advance_session sv now s w)
    sweeps :
        (answers : StorySession → Services) (clock : StorySession → ℕ) (now : ℕ) (w : World c)
        → Move w (advance_expired_sessions answers clock now w)
    clicks :
        (sv : Services) (now : ℕ) (user url : Str) (w : World c)
        → Move w (fire_click_trigger sv now user url w)

  pub data Reach (v : World c) : World c → Type 0 where
    stays : Reach v v
    moves : {w x : World c} → Reach v w → Move w x → Reach v x

  -- What every advance keeps, a sweep keeps.
  module _ (P : World c → Type 0) (answers : StorySession → Services) (clock : StorySession → ℕ)
      (advance : (sv : Services) (now : ℕ) (s : StorySession) (w : World c)
        → P w
        → P (advance_session sv now s w)) where
    sweep_keeps :
        (now : ℕ) (ss : List StorySession) (w : World c) → P w → P (sweep answers clock now ss w)
    unfolding sweep
    sweep_keeps now [] w p = p
    sweep_keeps now (s ∷ ss) w p =
        sweep_keeps now ss _
          (if_rule P (is_expired now s) (λ _. advance (answers s) (clock s) s w p) λ _. p)

    expired_keeps : (now : ℕ) (w : World c) → P w → P (advance_expired_sessions answers clock now w)
    unfolding advance_expired_sessions
    expired_keeps now w p = go (c.find_all (λ d. is_active d.status) w.sessions)
      where
        go :
            (o : Option (List StorySession))
            → P (elim o as (λ _. World c) [ none ↦ w | some ss ↦ sweep answers clock now ss w ])
        go none = p
        go (some ss) = sweep_keeps now ss w p

  -- What every advance and every completion keeps, a click keeps.
  module _ (P : World c → Type 0) (sv : Services)
      (advance : (now : ℕ) (s : StorySession) (w : World c) → P w → P (advance_session sv now s w))
      (complete : (x : Str) (w : World c) → P w → P (mark_complete sv x w)) where
    action_keeps :
        (now : ℕ) (s : StorySession) (w : World c) (o : Option Action)
        → P w
        → P (run_action sv now s w o)
    unfolding run_action
    action_keeps now s w none p = p
    action_keeps now s w (some act) p =
        if_rule P (has_prefix act.action_name (bytes "mark_complete"))
          (λ _. complete s.public_id w p)
          λ _.
            if_rule P (has_prefix act.action_name (bytes "next_scene"))
              (λ _. advance now (record s { next_action = bytes "next_scene" }) w p) λ _. p

    trigger_keeps :
        (now : ℕ) (s : StorySession) (w : World c) (o : Option Trigger)
        → P w
        → P (run_trigger sv now s w o)
    unfolding run_trigger
    trigger_keeps now s w none p = p
    trigger_keeps now s w (some tr) p = action_keeps now s w tr.do_action p

    click_at_keeps :
        (now : ℕ) (url : Str) (s : StorySession) (w : World c) (o : Option Enactment)
        → P w
        → P (click_at sv now url s w o)
    unfolding click_at
    click_at_keeps now url s w none p = p
    click_at_keeps now url s w (some en) p =
        trigger_keeps now s w (fired sv.events.on_click url (all_triggers en.on_event)) p

    click_in_keeps :
        (now : ℕ) (url : Str) (s : StorySession) (w : World c) (o : Option Story)
        → P w
        → P (click_in sv now url s w o)
    unfolding click_in
    click_in_keeps now url s w none p = p
    click_in_keeps now url s w (some story) p =
        click_at_keeps now url s w (current_enactment (hydrate_story_graph sv.graph story) s) p

    session_keeps :
        (now : ℕ) (url : Str) (w : World c) (o : Option StorySession)
        → P w
        → P (click_session sv now url w o)
    unfolding click_session
    session_keeps now url w none p = p
    session_keeps now url w (some s) p = click_in_keeps now url s w (sv.story_by_id s.story_id) p

    click_keeps :
        (now : ℕ) (user url : Str) (w : World c) → P w → P (fire_click_trigger sv now user url w)
    unfolding fire_click_trigger
    click_keeps now user url w = session_keeps now url w _

  Move-IsOnce : {v w : World c} → Move v w → IsOnce v → IsOnce w
  Move-IsOnce (starts sv cmd gen w fresh) o = start_story-IsOnce sv cmd gen w fresh o
  Move-IsOnce (advances sv now s w) o = advance_session-IsOnce sv now s w o
  Move-IsOnce (sweeps answers clock now w) o =
      expired_keeps IsOnce answers clock (λ sv. advance_session-IsOnce sv) now w o
  Move-IsOnce (clicks sv now user url w) o =
      click_keeps IsOnce sv (advance_session-IsOnce sv) (mark_complete-IsOnce sv) now user url w o

  -- From a state in which the sessions have distinct public ids, no step was sent twice and none
  -- beyond its session, start commands with fresh ids, sweeps, clicks and advances from any
  -- snapshots, in any order, lead to a state in which the same holds: no two messages are ever
  -- sent for one enactment of one session.
  pub Reach-IsOnce : {v w : World c} → IsOnce v → Reach v w → IsOnce w
  Reach-IsOnce o stays = o
  Reach-IsOnce o (moves r m) = Move-IsOnce m (Reach-IsOnce o r)
