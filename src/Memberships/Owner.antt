-- ===== src/Memberships/Owner.antt =====
-- routes/workspace_memberships.go: `HandleUpdateWorkspaceMember` and
-- `HandleTransferWorkspaceOwnership`.
pub mod Owned
pub mod Transfers
use sentanyl_core_readonly.Prelude.{
  ℕ, Bool, true, false, not, ◌&&◌, ◌||◌, if◌then◌else◌, Option, some, none, List, [], ◌∷◌, Str,
  str_eq, is_nil,
}

-- The fields of `models.WorkspaceMembership` and of `models.Tenant` that the handlers use. Times are
-- nanoseconds.
pub record Member : Type 0 where
  pub id : Str
  pub tenant_id : Str
  pub role : Str
  pub status : Str
  pub suspended_at : Option ℕ

pub record Workspace : Type 0 where
  pub id : Str
  pub owner_membership_id : Str

pub record Members : Type 0 where
  pub members : List Member
  pub workspaces : List Workspace

-- The constants of packages auth and models, and the failures of the database.
pub record Words : Type 0 where
  pub role_owner : Str
  pub role_admin : Str
  pub role_editor : Str
  pub membership_active : Str
  pub membership_suspended : Str
  pub is_object_id_hex : Str → Bool
  pub is_workspace_read : Str → Bool
  pub is_written : Str → Bool

pub data Answer : Type 0 where
  bad_request not_found conflict updated : Answer
  transferred : Bool → Answer

-- `Find(bson.M{"_id": …, "tenant_id": …}).One`.
unfoldable pub first_member : (Member → Bool) → List Member → Option Member
first_member q [] = none
first_member q (m ∷ ms) = if q m then some m else first_member q ms

-- `FindId(…).One`.
unfoldable pub first_workspace : Str → List Workspace → Option Workspace
first_workspace id [] = none
first_workspace id (t ∷ ts) = if str_eq t.id id then some t else first_workspace id ts

-- `Update` of the first member that the query matches, and whether there is one.
unfoldable pub update_member :
    (Member → Bool) → (Member → Member) → List Member → List Member × Bool
update_member q f [] = ([], false)
update_member q f (m ∷ ms) =
    let rest = update_member q f ms in if q m then (f m ∷ ms, true) else (m ∷ rest.0, rest.1)

-- The compare-and-set of the owner.
unfoldable pub update_owner : Str → Str → Str → List Workspace → List Workspace × Bool
update_owner id old new [] = ([], false)
update_owner id old new (t ∷ ts) =
    let rest = update_owner id old new ts in
    if str_eq t.id id && str_eq t.owner_membership_id old
    then (record t { owner_membership_id = new } ∷ ts, true)
    else (t ∷ rest.0, rest.1)

abbrev pub member_query : Str → Str → Member → Bool
member_query id tenant m = str_eq m.id id && str_eq m.tenant_id tenant

module _ (c : Words) where
  unfoldable pub valid_delegated_role : Str → Bool
  valid_delegated_role role = str_eq role c.role_admin || str_eq role c.role_editor

  -- What the request sets.
  unfoldable pub with_role : Str → Member → Member
  with_role role m = if is_nil role then m else record m { role = role }

  unfoldable pub with_status : Str → ℕ → Member → Member
  with_status status now m =
      let at = if str_eq status c.membership_suspended then some now else none in
      if is_nil status then m else record m { status = status; suspended_at = at }

  -- The tests of the request, in order.
  unfoldable pub is_proper : Str → Str → Bool
  unfolding valid_delegated_role
  is_proper role status =
      not (is_nil role && is_nil status)
      && ((is_nil role || valid_delegated_role role)
          && (is_nil status
              || (str_eq status c.membership_active || str_eq status c.membership_suspended)))

  -- The read of the workspace; its error is dropped, and then no membership is the owner's.
  unfoldable pub is_owner : Str → Str → List Workspace → Bool
  unfolding first_workspace
  is_owner tenant id ts =
      if c.is_workspace_read tenant
      then (elim (first_workspace tenant ts) [
        | none ↦ false
        | some t ↦ str_eq t.owner_membership_id id
      ])
      else false

  unfoldable pub write_member : Str → Member → Str → Str → ℕ → Members → Members × Answer
  unfolding update_member with_role with_status
  write_member tenant m role status now w =
      let written =
        update_member (member_query m.id tenant) (λ d. with_status status now (with_role role d))
          w.members in
      if c.is_written m.id && written.1
      then (record w { members = written.0 }, updated)
      else (w, conflict)

  unfoldable pub update_found : Str → Str → Str → ℕ → Members → Option Member → Members × Answer
  unfolding is_owner is_proper write_member
  update_found tenant role status now w none = (w, not_found)
  update_found tenant role status now w (some m) =
      if is_owner tenant m.id w.workspaces
      then (w, conflict)
      else if is_proper role status
      then write_member tenant m role status now w
      else (w, bad_request)

  unfoldable pub update_workspace_member : Str → Str → Str → Str → ℕ → Members → Members × Answer
  unfolding update_found first_member
  update_workspace_member tenant id role status now w =
      if c.is_object_id_hex id
      then update_found tenant role status now w (first_member (member_query id tenant) w.members)
      else (w, bad_request)

  -- `UpdateId` of a role, whose error is dropped.
  unfoldable pub write_role : Str → Str → Members → Members
  unfolding update_member
  write_role id role w =
      if c.is_written id
      then record w {
        members = (update_member (λ m. str_eq m.id id) (λ m. record m { role = role }) w.members).0;
      }
      else w

  unfoldable pub transfer_to : Str → Workspace → Member → Members → Members × Answer
  unfolding update_owner write_role
  transfer_to tenant t target w =
      let written = update_owner tenant t.owner_membership_id target.id w.workspaces in
      let moved = record w { workspaces = written.0 } in
      if str_eq target.id t.owner_membership_id
      then (w, transferred false)
      else if c.is_written tenant && written.1
      then (
        write_role t.owner_membership_id c.role_admin (write_role target.id c.role_owner moved),
        transferred true,
      )
      else (w, conflict)

  unfoldable pub transfer_in : Str → Str → Members → Option Workspace → Members × Answer
  unfolding transfer_to first_member
  transfer_in tenant id w none = (w, not_found)
  transfer_in tenant id w (some t) =
      elim (first_member (λ m. member_query id tenant m && str_eq m.status c.membership_active)
        w.members) [ none ↦ (w, not_found) | some target ↦ transfer_to tenant t target w ]

  unfoldable pub transfer_workspace_ownership : Str → Str → Members → Members × Answer
  unfolding transfer_in first_workspace
  transfer_workspace_ownership tenant id w =
      if not (c.is_object_id_hex id)
      then (w, bad_request)
      else if c.is_workspace_read tenant
      then transfer_in tenant id w (first_workspace tenant w.workspaces)
      else (w, not_found)
