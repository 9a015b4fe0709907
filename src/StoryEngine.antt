-- ===== src/StoryEngine.antt =====
-- routes/story_engine.go.
pub mod Graph
pub mod Content
pub mod Sessions
pub mod Mail
pub mod Services
pub mod Advance
pub mod Start
pub mod Click
pub mod Moves
