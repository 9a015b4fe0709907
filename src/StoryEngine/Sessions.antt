-- ===== src/StoryEngine/Sessions.antt =====
-- routes/story_engine.go: `StorySession`, and the collection `story_sessions` behind an interface:
-- the operations of the database driver that the engine calls, with what it relies on of them.
use sentanyl_core_readonly.Prelude.Distinct.{All, Has}
use sentanyl_core_readonly.Prelude.Int.{ℤ}
use sentanyl_core_readonly.Prelude.{
  ℕ, Bool, true, false, if◌then◌else◌, Option, some, List, [], ◌∷◌, Str, str_eq, ◌≡◌, ◌≢◌, ◌⊎◌,
}

pub data Status : Type 0 where
  active completed superseded : Status

abbrev pub is_active : Status → Bool
is_active active = true
is_active _ = false

-- Times are nanoseconds. `created_at` is only written and is left out.
pub record StorySession : Type 0 where
  pub id : Str
  pub public_id : Str
  pub user_public_id : Str
  pub subscriber_id : Str
  pub story_id : Str
  pub story_name : Str
  pub storyline_idx : ℕ
  pub enactment_idx : ℕ
  pub sent_at : ℕ
  pub wait_seconds : ℤ
  pub next_action : Str
  pub status : Status
  pub command_key : Str

abbrev pub Query : Type 0
Query = StorySession → Bool

abbrev pub Change : Type 0
Change = StorySession → StorySession

-- `ds'` is `ds` with one document that the query matches changed.
pub data Modified (q : Query) (f : Change) : List StorySession → List StorySession → Type 0 where
  here : {d : StorySession} {ds : List StorySession} → q d ≡ true → Modified q f (d ∷ ds) (f d ∷ ds)
  there :
      {d : StorySession} {ds es : List StorySession}
      → Modified q f ds es
      → Modified q f (d ∷ ds) (d ∷ es)

-- `ds'` is `ds` with every document that the query matches changed.
abbrev pub changed_all : Query → Change → List StorySession → List StorySession
changed_all q f [] = []
changed_all q f (d ∷ ds) = (if q d then f d else d) ∷ changed_all q f ds

-- `es` is `ds` with some of the documents that the query matches changed.
pub data ChangedSome (q : Query) (f : Change) : List StorySession → List StorySession → Type 0 where
  no_more : ChangedSome q f [] []
  same :
      {d : StorySession} {ds es : List StorySession}
      → ChangedSome q f ds es
      → ChangedSome q f (d ∷ ds) (d ∷ es)
  other :
      {d : StorySession} {ds es : List StorySession}
      → q d ≡ true
      → ChangedSome q f ds es
      → ChangedSome q f (d ∷ ds) (f d ∷ es)

pub data InsertResult : Type 0 where
  inserted duplicate failed : InsertResult

-- A document has the command key; the index is sparse, so the empty key is not indexed.
abbrev pub HasKey : Str → List StorySession → Type 0
HasKey k [] = ⊥
HasKey k (d ∷ ds) = elim (str_eq d.command_key k) [ true ↦ Unit | false ↦ HasKey k ds ]

-- The driver's operations on the collection, which has the unique sparse index on `command_key` of
-- `EnsureStorySessionIndexes`. `update` says whether a document matched, with `false` for an error, and
-- `update_all` whether there was no error. A write that failed may have happened all the same, and
-- an update of many documents that failed may have changed some of them.
pub record Collection : Type 1 where
  pub State : Type 0
  pub docs : State → List StorySession
  pub find_all : Query → State → Option (List StorySession)
  pub find_one : Query → State → Option StorySession
  pub insert : StorySession → State → State × InsertResult
  pub update : Query → Change → State → State × Bool
  pub update_all : Query → Change → State → State × Bool
  -- What is found is in the collection and matches.
  pub found :
      (q : Query) (s : State) (ds : List StorySession)
      → find_all q s ≡ some ds
      → All (λ d. Has d (docs s) × (q d ≡ true)) ds
  pub insert_done :
      (d : StorySession) (s : State) → (insert d s).1 ≡ inserted → docs (insert d s).0 ≡ d ∷ docs s
  pub insert_duplicate :
      (d : StorySession) (s : State) → (insert d s).1 ≡ duplicate → docs (insert d s).0 ≡ docs s
  pub insert_failed :
      (d : StorySession) (s : State)
      → (insert d s).1 ≡ failed
      → (docs (insert d s).0 ≡ docs s) ⊎ (docs (insert d s).0 ≡ d ∷ docs s)
  pub insert_unique :
      (d : StorySession) (s : State)
      → d.command_key ≢ []
      → HasKey d.command_key (docs s)
      → ((insert d s).1 ≢ inserted) × (docs (insert d s).0 ≡ docs s)
  pub update_hit :
      (q : Query) (f : Change) (s : State)
      → (update q f s).1 ≡ true
      → Modified q f (docs s) (docs (update q f s).0)
  pub update_miss :
      (q : Query) (f : Change) (s : State)
      → (update q f s).1 ≡ false
      → (docs (update q f s).0 ≡ docs s) ⊎ Modified q f (docs s) (docs (update q f s).0)
  pub update_all_done :
      (q : Query) (f : Change) (s : State)
      → (update_all q f s).1 ≡ true
      → docs (update_all q f s).0 ≡ changed_all q f (docs s)
  pub update_all_some :
      (q : Query) (f : Change) (s : State) → ChangedSome q f (docs s) (docs (update_all q f s).0)
