-- ===== src/Memberships/Accepted.antt =====
-- routes/workspace_memberships.go: what an acceptance is, and what its parts do.
use sentanyl_core_readonly.Memberships.{
  Accounts, Identity, IdentityLookup, Insertion, Invitation, Outcome, Request, Resolution, World,
  accepted, make_identity, accepted_by_identity, consume, duplicate, failed, found, found_again,
  hashed, identity_conflict, insert_new, inserted, internal_error, is_waiting, missing, refused,
  resolve_identity, resolved, unreadable, update_waiting, weak_password,
}
use sentanyl_core_readonly.Prelude.{
  ℕ, ◌≤◌, Bool, true, false, ◌&&◌, and_iff, ltb, ltb-false, if_rule, Option, some, none, List, [],
  ◌∷◌, Str, str_eq, str_eq_iff, length, ◌≡◌, ◌≢◌, refl,
}

-- The removals that undo a half-done acceptance succeed.
pub record IsReliable (a : Accounts) : Type 0 where
  pub membership : (id : Str) → a.is_membership_removed id ≡ true
  pub identity : (id : Str) → a.is_identity_removed id ≡ true

-- The answer is not an acceptance.
abbrev pub IsRefusal : Outcome → Type 0
IsRefusal o = (x : Str) → o ≢ accepted_by_identity x

pub record IsKept (w v : World) : Type 0 where
  pub same_invitations : v.invitations ≡ w.invitations
  pub same_identities : v.identities ≡ w.identities
  pub same_memberships : v.memberships ≡ w.memberships

-- One pending invitation of the id is marked as accepted by the identity; the others stay.
pub data Marks (id identity : Str) (now : ℕ) : List Invitation → List Invitation → Type 0 where
  marked :
      (d : Invitation) (ds : List Invitation)
      → d.id ≡ id
      → is_waiting d.status ≡ true
      → Marks id identity now
          (d ∷ ds)
          (record d { status = accepted; accepted_by = some identity; accepted_at = some now } ∷ ds)
  further :
      (d : Invitation) {ds es : List Invitation}
      → Marks id identity now ds es
      → Marks id identity now (d ∷ ds) (d ∷ es)

-- A new identity may be made: none has the address, and the password is long enough.
pub record IsMissing (a : Accounts) (req : Request) (i : Invitation) (w : World) : Type 0 where
  pub none_found : a.find_identity i.email w.identities ≡ missing
  pub long_enough : 8 ≤ length req.password

-- The identity of an acceptance, and the identities behind it: the one that the address has
-- already; or a new one with the role of the invitation, the hash of the password and the names of
-- the request; or the one that another request has made in between.
pub data Chosen (a : Accounts) (req : Request) (i : Invitation) (w : World) (u : Identity)
    : List Identity → Type 0 where
  existing : a.find_identity i.email w.identities ≡ found u → Chosen a req i w u w.identities
  newly_made :
      (hash : Str)
      → IsMissing a req i w
      → a.hash_password req.password ≡ some hash
      → u ≡ record (a.new_identity i.email i.tenant_id) {
        role = i.role;
        password_hash = hash;
        first_name = req.first_name;
        last_name = req.last_name;
      }
      → Chosen a req i w u (u ∷ w.identities)
  raced :
      IsMissing a req i w
      → a.find_identity_again i.email w.identities ≡ found u
      → Chosen a req i w u w.identities

pub record IsAccepted (a : Accounts) (req : Request) (i : Invitation) (now : ℕ) (u : Identity)
    (w v : World) : Type 0 where
  pub marks : Marks i.id u.id now w.invitations v.invitations
  pub chosen : Chosen a req i w u v.identities
  pub memberships :
      v.memberships ≡ a.make_membership i.tenant_id u.id i.role i.invited_by ∷ w.memberships

pub data Accepts (a : Accounts) (req : Request) (i : Invitation) (now : ℕ) (w v : World)
    (o : Outcome) : Type 0 where
  takes :
      (u : Identity)
      → o ≡ accepted_by_identity u.id
      → IsAccepted a req i now u w v
      → Accepts a req i now w v o
  keeps : IsRefusal o → IsKept w v → Accepts a req i now w v o

-- What the look-up or the creation of the identity leaves.
pub data Resolves (a : Accounts) (req : Request) (i : Invitation) (w : World)
    : World × Resolution → Type 0 where
  old : (u : Identity) → Chosen a req i w u w.identities → Resolves a req i w (w, resolved u false)
  new :
      (u : Identity)
      → Chosen a req i w u (u ∷ w.identities)
      → Resolves a req i w (record w { identities = u ∷ w.identities }, resolved u true)
  refuses : (o : Outcome) → IsRefusal o → Resolves a req i w (w, refused o)

module _ (a : Accounts) (req : Request) (i : Invitation) (w : World) where
  found_again-Resolves :
      (l : IdentityLookup)
      → IsMissing a req i w
      → a.find_identity_again i.email w.identities ≡ l
      → Resolves a req i w (w, found_again a l)
  unfolding found_again
  found_again-Resolves (found u) m e = old u (raced m e)
  found_again-Resolves missing m e = refuses identity_conflict (λ x k. cc)
  found_again-Resolves unreadable m e = refuses identity_conflict (λ x k. cc)

  insert_new-Resolves :
      (hash : Str) (r : Insertion)
      → IsMissing a req i w
      → a.hash_password req.password ≡ some hash
      → Resolves a req i w (insert_new a i (make_identity a req i hash) w r)
  unfolding insert_new make_identity
  insert_new-Resolves hash inserted m h = new _ (newly_made hash m h refl)
  insert_new-Resolves hash duplicate m h = found_again-Resolves _ m refl
  insert_new-Resolves hash failed m h = refuses identity_conflict (λ x e. cc)

  hashed-Resolves :
      (o : Option Str)
      → IsMissing a req i w
      → a.hash_password req.password ≡ o
      → Resolves a req i w (hashed a req i w o)
  unfolding hashed
  hashed-Resolves none m h = refuses internal_error (λ x e. cc)
  hashed-Resolves (some hash) m h = insert_new-Resolves hash _ m h

  pub resolve_identity-Resolves :
      (l : IdentityLookup)
      → a.find_identity i.email w.identities ≡ l
      → Resolves a req i w (resolve_identity a req i w l)
  unfolding resolve_identity
  resolve_identity-Resolves (found u) e = old u (existing e)
  resolve_identity-Resolves unreadable e = refuses internal_error (λ x k. cc)
  resolve_identity-Resolves missing e =
      if_rule (Resolves a req i w) (ltb (length req.password) 8)
        (λ _. refuses weak_password (λ x k. cc))
        λ n.
          hashed-Resolves _
            (record { none_found = e; long_enough = ltb-false (length req.password) 8 n }) refl

-- The invitation that an update marks.
pub consume-Marks :
    (a : Accounts) (i : Invitation) (u : Identity) (now : ℕ) (is : List Invitation)
    → (consume a i u now is).1 ≡ true
    → Marks i.id u.id now is (consume a i u now is).0
unfolding consume update_waiting
consume-Marks a i u now is =
    if_rule (λ (r : List Invitation × Bool). r.1 ≡ true → Marks i.id u.id now is r.0)
      (a.is_invitation_written i.id) (λ _ h. marks is h) λ _ h. absurd (cc)
  where
    marks :
        (ds : List Invitation)
        → (update_waiting
            (λ d. str_eq d.id i.id)
            (λ d. record d { status = accepted; accepted_by = some u.id; accepted_at = some now })
            ds).1
          ≡ true
        → Marks i.id u.id now ds
            (update_waiting
              (λ d. str_eq d.id i.id)
              (λ d. record d { status = accepted; accepted_by = some u.id; accepted_at = some now })
              ds).0
    marks [] = λ h. absurd (cc)
    marks (d ∷ ds) =
        if_rule (λ (r : List Invitation × Bool). r.1 ≡ true → Marks i.id u.id now (d ∷ ds) r.0)
          (str_eq d.id i.id && is_waiting d.status)
          (λ e _.
            let b = (and_iff (str_eq d.id i.id) (is_waiting d.status)).0 e in
            marked d ds ((str_eq_iff d.id i.id).0 b.0) b.1)
          λ _ h. further d (marks ds h)
