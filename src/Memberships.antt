-- ===== src/Memberships.antt =====
-- routes/workspace_memberships.go: invitations to a workspace, `HandleAcceptWorkspaceInvitation` and
-- `HandleRevokeWorkspaceInvitation`.
pub mod Accepted
pub mod Accepts
pub mod Once
pub mod Owner
use sentanyl_core_readonly.Prelude.{
  ℕ, Bool, true, false, ◌&&◌, ltb, if◌then◌else◌, Option, some, none, List, [], ◌∷◌, Str, str_eq,
  length,
}

pub data InvitationStatus : Type 0 where
  waiting accepted revoked : InvitationStatus

abbrev pub is_waiting : InvitationStatus → Bool
is_waiting waiting = true
is_waiting _ = false

-- The fields of `models.WorkspaceInvitation` that the handlers use. Times are nanoseconds.
pub record Invitation : Type 0 where
  pub id : Str
  pub tenant_id : Str
  pub email : Str
  pub role : Str
  pub status : InvitationStatus
  pub token_digest : Option Str
  pub invited_by : Str
  pub expires_at : ℕ
  pub accepted_by : Option Str
  pub accepted_at : Option ℕ
  pub revoked_at : Option ℕ

-- The fields of `models.AccountUser` that the handlers use.
pub record Identity : Type 0 where
  pub id : Str
  pub email : Str
  pub role : Str
  pub password_hash : Str
  pub first_name : Str
  pub last_name : Str

-- The fields of `models.WorkspaceMembership` that are looked at.
pub record Membership : Type 0 where
  pub id : Str
  pub tenant_id : Str
  pub identity_id : Str
  pub role : Str

pub record Request : Type 0 where
  pub token : Str
  pub password : Str
  pub first_name : Str
  pub last_name : Str

-- What a look-up by e-mail answers.
pub data IdentityLookup : Type 0 where
  found : Identity → IdentityLookup
  missing unreadable : IdentityLookup

pub data Insertion : Type 0 where
  inserted duplicate failed : Insertion

-- What the handlers use of package auth, of the constructors of package models, and of the database,
-- any write of which may fail; a write that reports an error has changed nothing. The look-up of an identity behind a duplicate has an answer of its own:
-- another request may have inserted it since the first look-up.
pub record Accounts : Type 0 where
  pub token_digest : Str → Str
  pub hash_password : Str → Option Str
  pub new_identity : Str → Str → Identity
  pub make_membership : Str → Str → Str → Str → Membership
  pub find_invitation : (Invitation → Bool) → List Invitation → Option Invitation
  pub find_identity : Str → List Identity → IdentityLookup
  pub find_identity_again : Str → List Identity → IdentityLookup
  pub insert_identity : Identity → List Identity → Insertion
  pub is_membership_inserted : Membership → List Membership → Bool
  pub is_invitation_written : Str → Bool
  pub is_membership_removed : Str → Bool
  pub is_identity_removed : Str → Bool

pub record World : Type 0 where
  pub invitations : List Invitation
  pub identities : List Identity
  pub memberships : List Membership

-- The answers of the handlers.
pub data Outcome : Type 0 where
  accepted_by_identity : Str → Outcome
  invalid_invitation weak_password internal_error identity_conflict : Outcome
  membership_exists already_consumed : Outcome

-- The identity for an invitation and whether it was created, or the answer that refuses it.
pub data Resolution : Type 0 where
  resolved : Identity → Bool → Resolution
  refused : Outcome → Resolution

-- `Update` of the first pending invitation that the query matches, and whether there is one.
unfoldable pub update_waiting :
    (Invitation → Bool) → (Invitation → Invitation) → List Invitation → List Invitation × Bool
update_waiting q f [] = ([], false)
update_waiting q f (i ∷ is) =
    let rest = update_waiting q f is in
    if q i && is_waiting i.status then (f i ∷ is, true) else (i ∷ rest.0, rest.1)

-- `RemoveId`.
unfoldable pub remove_membership : Str → List Membership → List Membership
remove_membership id [] = []
remove_membership id (m ∷ ms) =
    let rest = remove_membership id ms in if str_eq m.id id then ms else m ∷ rest

unfoldable pub remove_identity : Str → List Identity → List Identity
remove_identity id [] = []
remove_identity id (u ∷ us) =
    let rest = remove_identity id us in if str_eq u.id id then us else u ∷ rest

module _ (a : Accounts) where
  -- A new identity with the role of the invitation.
  unfoldable pub make_identity : Request → Invitation → Str → Identity
  make_identity req i hash = record (a.new_identity i.email i.tenant_id) {
    role = i.role;
    password_hash = hash;
    first_name = req.first_name;
    last_name = req.last_name;
  }

  -- Behind a duplicate, the identity that someone else inserted.
  unfoldable pub found_again : IdentityLookup → Resolution
  found_again (found u) = resolved u false
  found_again _ = refused identity_conflict

  unfoldable pub insert_new : Invitation → Identity → World → Insertion → World × Resolution
  unfolding found_again
  insert_new i u w inserted = (record w { identities = u ∷ w.identities }, resolved u true)
  insert_new i u w duplicate = (w, found_again (a.find_identity_again i.email w.identities))
  insert_new i u w failed = (w, refused identity_conflict)

  unfoldable pub hashed : Request → Invitation → World → Option Str → World × Resolution
  unfolding insert_new make_identity
  hashed req i w none = (w, refused internal_error)
  hashed req i w (some hash) =
      let u = make_identity req i hash in insert_new i u w (a.insert_identity u w.identities)

  unfoldable pub resolve_identity :
      Request → Invitation → World → IdentityLookup → World × Resolution
  unfolding hashed
  resolve_identity req i w (found u) = (w, resolved u false)
  resolve_identity req i w unreadable = (w, refused internal_error)
  resolve_identity req i w missing =
      let h = hashed req i w (a.hash_password req.password) in
      if ltb (length req.password) 8 then (w, refused weak_password) else h

  -- `if createdIdentity { RemoveId(identity.Id) }`, whose error is dropped.
  unfoldable pub undo_identity : Identity → Bool → World → World
  unfolding remove_identity
  undo_identity u false w = w
  undo_identity u true w =
      if a.is_identity_removed u.id
      then record w { identities = remove_identity u.id w.identities }
      else w

  unfoldable pub undo_membership : Str → World → World
  unfolding remove_membership
  undo_membership id w =
      if a.is_membership_removed id
      then record w { memberships = remove_membership id w.memberships }
      else w

  -- The invitation of the id is marked as accepted if it is still pending.
  unfoldable pub consume : Invitation → Identity → ℕ → List Invitation → List Invitation × Bool
  unfolding update_waiting
  consume i u now is =
      let updated =
        update_waiting (λ d. str_eq d.id i.id)
          (λ d. record d { status = accepted; accepted_by = some u.id; accepted_at = some now })
          is in
      if a.is_invitation_written i.id then updated else (is, false)

  -- Behind the insertion of the membership.
  unfoldable pub claim_invitation : Invitation → Identity → Bool → ℕ → Str → World → World × Outcome
  unfolding consume undo_identity undo_membership
  claim_invitation i u created now membership w =
      let consumed = consume i u now w.invitations in
      if consumed.1
      then (record w { invitations = consumed.0 }, accepted_by_identity u.id)
      else (undo_identity u created (undo_membership membership w), already_consumed)

  abbrev pub new_membership : Invitation → Identity → Membership
  new_membership i u = a.make_membership i.tenant_id u.id i.role i.invited_by

  unfoldable pub accept_as : Invitation → ℕ → World × Resolution → World × Outcome
  unfolding claim_invitation undo_identity
  accept_as i now (w, refused o) = (w, o)
  accept_as i now (w, resolved u created) =
      let m = new_membership i u in
      let claimed =
        claim_invitation i u created now m.id (record w { memberships = m ∷ w.memberships }) in
      if a.is_membership_inserted m w.memberships
      then claimed
      else (undo_identity u created w, membership_exists)

  -- The handler behind the look-up of the invitation, which another request may accept or revoke in
  -- between.
  unfoldable pub accept_read : Request → Invitation → ℕ → World → World × Outcome
  unfolding accept_as resolve_identity
  accept_read req i now w =
      accept_as i now (resolve_identity req i w (a.find_identity i.email w.identities))

  abbrev pub digest_eq : Str → Option Str → Bool
  digest_eq d none = false
  digest_eq d (some e) = str_eq e d

  -- `HandleAcceptWorkspaceInvitation`, for a request with a token.
  unfoldable pub accept_invitation : Request → ℕ → World → World × Outcome
  unfolding accept_read
  accept_invitation req now w =
      elim (a.find_invitation
        (λ d.
          digest_eq (a.token_digest req.token) d.token_digest
          && (is_waiting d.status && ltb now d.expires_at))
        w.invitations) [ none ↦ (w, invalid_invitation) | some i ↦ accept_read req i now w ]

  -- `HandleRevokeWorkspaceInvitation`; the flag is the answer 200.
  unfoldable pub revoke_invitation : Str → Str → ℕ → World → World × Bool
  unfolding update_waiting
  revoke_invitation tenant id now w =
      let updated =
        update_waiting (λ d. str_eq d.id id && str_eq d.tenant_id tenant)
          (λ d. record d { status = revoked; revoked_at = some now; token_digest = none })
          w.invitations in
      if a.is_invitation_written id
      then (record w { invitations = updated.0 }, updated.1)
      else (w, false)
