-- ===== src/Tests/Stories.antt =====
-- Runs of the story engine, and its theorems at these inputs.
use sentanyl_core_readonly.Prelude.Equality.{lookup}
use sentanyl_core_readonly.Prelude.Int.{pos}
use sentanyl_core_readonly.Prelude.{ℕ, [], ◌∷◌, ◌++◌, Str, bytes, str_eq, ◌≡◌, ◌≢◌, refl}
use sentanyl_core_readonly.StoryEngine.Advance.Claims.{IsOnce, steps}
use sentanyl_core_readonly.StoryEngine.Advance.Sends.{Sends}
use sentanyl_core_readonly.StoryEngine.Advance.Sweeps.{
  Running, Sweeps, advance_expired_sessions-Sweeps,
}
use sentanyl_core_readonly.StoryEngine.Advance.{advance_expired_sessions}
use sentanyl_core_readonly.StoryEngine.Click.{fire_click_trigger}
use sentanyl_core_readonly.StoryEngine.Mail.Headers.{Reads, header_lines, raw_email-header_lines}
use sentanyl_core_readonly.StoryEngine.Mail.Pixel.{Injected, inject_open_pixel-Injected}
use sentanyl_core_readonly.StoryEngine.Mail.{Headers, inject_open_pixel, open_pixel, raw_email}
use sentanyl_core_readonly.StoryEngine.Moves.{Reach, Reach-IsOnce, moves, starts, stays, sweeps}
use sentanyl_core_readonly.StoryEngine.Services.{World}
use sentanyl_core_readonly.StoryEngine.Sessions.{StorySession, active}
use sentanyl_core_readonly.StoryEngine.Start.Once.{IsFresh}
use sentanyl_core_readonly.StoryEngine.Start.Outcomes.{IsUnchanged}
use sentanyl_core_readonly.StoryEngine.Start.Replay.{start_story-replay}
use sentanyl_core_readonly.StoryEngine.Start.{start_story}
use sentanyl_core_readonly.Tests.World.{empty_world, fresh, memory, services, start_command}

abbrev first_id : Str
first_id = bytes "1"

abbrev second_id : Str
second_id = bytes "2"

abbrev key : Str
key = bytes "k"

-- The clock of a sweep two hours after the epoch.
abbrev late : StorySession → ℕ
late _ = 7_200_000_000_000

abbrev started : World memory
unfolding start_story
started = (start_story services (start_command key) (fresh first_id 0) empty_world).0

abbrev swept : World memory
unfolding advance_expired_sessions
swept = advance_expired_sessions (λ _. services) late 7_200_000_000_000 started

-- A start sends step 0, and a sweep behind the wait sends step 1.
swept-steps : steps swept.outbox ≡ (bytes "p1", 1) ∷ (bytes "p1", 0) ∷ []
unfolding start_story advance_expired_sessions str_eq lookup
swept-steps = refl

-- A click on the tracked link advances without the wait, to the same step 1.
clicked-steps :
    steps (fire_click_trigger services 5 (bytes "u1") (bytes "https://shop.co") started).outbox
    ≡ (bytes "p1", 1) ∷ (bytes "p1", 0) ∷ []
unfolding start_story fire_click_trigger str_eq lookup
clicked-steps = refl

-- A sweep before the wait sends nothing.
early-steps :
    steps (advance_expired_sessions (λ _. services) late 119_000_000_000 started).outbox
    ≡ (bytes "p1", 0) ∷ []
unfolding start_story advance_expired_sessions str_eq lookup
early-steps = refl

empty-IsOnce : IsOnce empty_world
empty-IsOnce = record { distinct = tt; reached = tt; once = tt }

empty-IsFresh : IsFresh (fresh first_id 0) empty_world
empty-IsFresh = record { new_id = tt; new_public_id = tt; unsent = tt }

swept-Reach : Reach empty_world swept
unfolding started swept
swept-Reach =
    moves
      (moves stays
        (starts services (start_command key) (fresh first_id 0) empty_world empty-IsFresh))
      (sweeps (λ _. services) late 7_200_000_000_000 started)

Reach-IsOnce_example : IsOnce swept
Reach-IsOnce_example = Reach-IsOnce empty-IsOnce swept-Reach

abbrev waiting : StorySession
waiting = record {
  id = first_id;
  public_id = bytes "p1";
  user_public_id = bytes "u1";
  subscriber_id = bytes "t1";
  story_id = bytes "s1";
  story_name = bytes "Welcome";
  storyline_idx = 0;
  enactment_idx = 0;
  sent_at = 0;
  wait_seconds = pos 120;
  next_action = bytes "next_scene";
  status = active;
  command_key = key;
}

abbrev waiting_world : World memory
waiting_world = record empty_world { sessions = waiting ∷ [] }

advance_expired_sessions-Sweeps_example :
    Sweeps 7_200_000_000_000
      (Running waiting_world)
      waiting_world
      (advance_expired_sessions (λ _. services) late 7_200_000_000_000 waiting_world)
advance_expired_sessions-Sweeps_example =
    advance_expired_sessions-Sweeps (λ _. services) late 7_200_000_000_000 waiting_world

key_some : key ≢ []
key_some e = cc

start_story-replay_example :
    IsUnchanged waiting_world
      (start_story services (start_command key) (fresh second_id 7) waiting_world).0
unfolding str_eq
start_story-replay_example =
    start_story-replay services (start_command key) (fresh second_id 7) waiting_world key_some tt

-- A subject with a line break in it.
abbrev split_subject : Str
split_subject = bytes "Hi" ++ (13 ∷ 10 ∷ bytes "Bcc: x@y.co")

abbrev unsub_header : Headers
unsub_header = (bytes "List-Unsubscribe", bytes "u") ∷ []

raw_email-header_lines_example :
    Reads
      (raw_email [] (bytes "u@v.co") split_subject (bytes "Hi") (bytes "r@x.co") unsub_header)
      (header_lines [] (bytes "u@v.co") split_subject (bytes "r@x.co") unsub_header)
      (bytes "Hi")
raw_email-header_lines_example =
    raw_email-header_lines [] (bytes "u@v.co") split_subject (bytes "Hi") (bytes "r@x.co")
      unsub_header

inject_open_pixel-Injected_example :
    Injected
      (open_pixel (bytes "https://x.co/") (bytes "m1"))
      (bytes "<body>Hi</body>")
      (inject_open_pixel (bytes "<body>Hi</body>") (bytes "https://x.co/") (bytes "m1"))
inject_open_pixel-Injected_example =
    inject_open_pixel-Injected (bytes "<body>Hi</body>") (bytes "https://x.co/") (bytes "m1") refl
