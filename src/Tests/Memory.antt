-- ===== src/Tests/Memory.antt =====
-- A collection in memory: its operations, and the laws of the interface `Collection`.
use sentanyl_core_readonly.Prelude.Distinct.{All, All-map, Has}
use sentanyl_core_readonly.Prelude.{
  Bool, true, false, not, ◌&&◌, if◌then◌else◌, if_rule, Option, some, none, List, [], ◌∷◌, Str,
  str_eq, ◌≡◌, ◌≢◌, refl, inl, inr, ◌⊎◌, is_nil,
}
use sentanyl_core_readonly.StoryEngine.Sessions.{
  Change, ChangedSome, HasKey, InsertResult, Modified, Query, StorySession, changed_all, duplicate,
  failed, here, inserted, no_more, other, same, there,
}

abbrev pub matching : Query → List StorySession → List StorySession
matching q [] = []
matching q (d ∷ ds) = if q d then d ∷ matching q ds else matching q ds

pub matching_found :
    (q : Query) (ds : List StorySession) → All (λ d. Has d ds × (q d ≡ true)) (matching q ds)
matching_found q [] = tt
matching_found q (d ∷ ds) =
    let rest = All-map _ _ (λ x h. (inr h.0, h.1)) (matching q ds) (matching_found q ds) in
    if_rule (All (λ x. Has x (d ∷ ds) × (q x ≡ true))) (q d) (λ h. ((inl refl, h), rest)) λ _. rest

abbrev pub first : Query → List StorySession → Option StorySession
first q [] = none
first q (d ∷ ds) = if q d then some d else first q ds

abbrev holds_key : Str → List StorySession → Bool
holds_key k [] = false
holds_key k (d ∷ ds) = if str_eq d.command_key k then true else holds_key k ds

holds_key-HasKey : (k : Str) (ds : List StorySession) → HasKey k ds → holds_key k ds ≡ true
holds_key-HasKey k [] h = elim h [ ]
holds_key-HasKey k (d ∷ ds) h = key (str_eq d.command_key k) (holds_key-HasKey k ds) h
  where
    key :
        (b : Bool)
        → (HasKey k ds → holds_key k ds ≡ true)
        → elim b as (λ _. Type 0) [ true ↦ Unit | false ↦ HasKey k ds ]
        → (if b then true else holds_key k ds) ≡ true
    key true rest h = refl
    key false rest h = rest h

abbrev pub inserting : StorySession → List StorySession → List StorySession × InsertResult
inserting d ds =
    if not (is_nil d.command_key) && holds_key d.command_key ds
    then (ds, duplicate)
    else (d ∷ ds, inserted)

abbrev pub updating : Query → Change → List StorySession → List StorySession × Bool
updating q f [] = ([], false)
updating q f (d ∷ ds) =
    let rest = updating q f ds in if q d then (f d ∷ ds, true) else (d ∷ rest.0, rest.1)

pub updating_hit :
    (q : Query) (f : Change) (ds : List StorySession)
    → (updating q f ds).1 ≡ true
    → Modified q f ds (updating q f ds).0
updating_hit q f [] = λ h. absurd (cc)
updating_hit q f (d ∷ ds) =
    if_rule (λ (r : List StorySession × Bool). r.1 ≡ true → Modified q f (d ∷ ds) r.0) (q d)
      (λ hit _. here hit) λ _ h. there (updating_hit q f ds h)

pub updating_miss :
    (q : Query) (f : Change) (ds : List StorySession)
    → (updating q f ds).1 ≡ false
    → (updating q f ds).0 ≡ ds
updating_miss q f [] = λ h. refl
updating_miss q f (d ∷ ds) =
    if_rule (λ (r : List StorySession × Bool). r.1 ≡ false → r.0 ≡ d ∷ ds) (q d)
      (λ _ h. absurd (cc)) λ _ h. rw (updating_miss q f ds h)

pub inserting_done :
    (d : StorySession) (ds : List StorySession)
    → (inserting d ds).1 ≡ inserted
    → (inserting d ds).0 ≡ d ∷ ds
inserting_done d ds =
    if_rule (λ (r : List StorySession × InsertResult). r.1 ≡ inserted → r.0 ≡ d ∷ ds)
      (not (is_nil d.command_key) && holds_key d.command_key ds) (λ _ h. absurd (cc)) λ _ h. refl

pub inserting_duplicate :
    (d : StorySession) (ds : List StorySession)
    → (inserting d ds).1 ≡ duplicate
    → (inserting d ds).0 ≡ ds
inserting_duplicate d ds =
    if_rule (λ (r : List StorySession × InsertResult). r.1 ≡ duplicate → r.0 ≡ ds)
      (not (is_nil d.command_key) && holds_key d.command_key ds) (λ _ h. refl) λ _ h. absurd (cc)

pub inserting_failed :
    (d : StorySession) (ds : List StorySession)
    → (inserting d ds).1 ≡ failed
    → ((inserting d ds).0 ≡ ds) ⊎ ((inserting d ds).0 ≡ d ∷ ds)
inserting_failed d ds =
    if_rule (λ (r : List StorySession × InsertResult). r.1 ≡ failed → (r.0 ≡ ds) ⊎ (r.0 ≡ d ∷ ds))
      (not (is_nil d.command_key) && holds_key d.command_key ds) (λ _ h. absurd (cc))
      λ _ h. absurd (cc)

pub changed_all-ChangedSome :
    (q : Query) (f : Change) (ds : List StorySession) → ChangedSome q f ds (changed_all q f ds)
changed_all-ChangedSome q f [] = no_more
changed_all-ChangedSome q f (d ∷ ds) =
    let rest = changed_all-ChangedSome q f ds in
    if_rule (λ (x : StorySession). ChangedSome q f (d ∷ ds) (x ∷ changed_all q f ds)) (q d)
      (λ h. other h rest) λ _. same rest

is_nil_some : (k : Str) → k ≢ [] → is_nil k ≡ false
is_nil_some [] n = absurd (n refl)
is_nil_some (x ∷ xs) n = refl

pub inserting_unique :
    (d : StorySession) (ds : List StorySession)
    → d.command_key ≢ []
    → HasKey d.command_key ds
    → ((inserting d ds).1 ≢ inserted) × ((inserting d ds).0 ≡ ds)
inserting_unique d ds n h =
    let e = holds_key-HasKey d.command_key ds h in
    let m = is_nil_some d.command_key n in rw (e, m) (λ k. cc, refl)
