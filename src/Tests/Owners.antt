-- ===== src/Tests/Owners.antt =====
-- Runs of the change of a member and of the transfer of ownership, and their theorems at these
-- inputs.
use sentanyl_core_readonly.Memberships.Owner.Owned.{IsOwned, Owns, update_workspace_member-IsOwned}
use sentanyl_core_readonly.Memberships.Owner.Transfers.{transfer_workspace_ownership-IsOwned}
use sentanyl_core_readonly.Memberships.Owner.{
  Member, Members, Words, Workspace, conflict, first_workspace, transfer_workspace_ownership,
  transferred, update_workspace_member, updated,
}
use sentanyl_core_readonly.Prelude.{
  Bool, true, false, if_rule, Option, some, none, [], ◌∷◌, Str, bytes, str_eq, str_eq_iff, ◌≡◌,
  refl, ap, inl,
}

abbrev words : Bool → Words
words is_read = record {
  role_owner = bytes "owner";
  role_admin = bytes "admin";
  role_editor = bytes "editor";
  membership_active = bytes "active";
  membership_suspended = bytes "suspended";
  is_object_id_hex = λ id. true;
  is_workspace_read = λ id. is_read;
  is_written = λ id. true;
}

abbrev member : Str → Str → Member
member id role = record {
  id = id;
  tenant_id = bytes "t1";
  role = role;
  status = bytes "active";
  suspended_at = none;
}

abbrev two_members : Members
two_members = record {
  members = member (bytes "m1") (bytes "owner") ∷ member (bytes "m2") (bytes "editor") ∷ [];
  workspaces = record { id = bytes "t1"; owner_membership_id = bytes "m1" } ∷ [];
}

-- The owner cannot be suspended.
suspend-owner :
    (update_workspace_member
      (words true)
      (bytes "t1")
      (bytes "m1")
      []
      (bytes "suspended")
      5
      two_members).1
    ≡ conflict
unfolding update_workspace_member str_eq
suspend-owner = refl

-- Where the workspace cannot be read, it is.
suspend-owner-unread :
    (update_workspace_member
      (words false)
      (bytes "t1")
      (bytes "m1")
      []
      (bytes "suspended")
      5
      two_members).1
    ≡ updated
unfolding update_workspace_member str_eq
suspend-owner-unread = refl

transfer-editor :
    (transfer_workspace_ownership (words true) (bytes "t1") (bytes "m2") two_members).1
    ≡ transferred true
unfolding transfer_workspace_ownership str_eq
transfer-editor = refl

two_members-IsOwned : IsOwned (words true) two_members
unfolding first_workspace
two_members-IsOwned tenant t =
    if_rule
      (λ (o : Option Workspace).
        o ≡ some t → Owns (words true) two_members.members tenant t.owner_membership_id)
      (str_eq (bytes "t1") tenant)
      (λ h e.
        let here = (str_eq_iff (bytes "t1") tenant).0 h in
        let first : (record { id = bytes "t1"; owner_membership_id = bytes "m1" }) ≡ t = cc in
        (
          member (bytes "m1") (bytes "owner"),
          inl refl,
          record {
            own_id = ap (λ (x : Workspace). x.owner_membership_id) first;
            own_workspace = here;
            is_active = refl;
          },
        ))
      λ _ e. absurd (cc)

update_workspace_member-IsOwned_example :
    IsOwned
      (words true)
      (update_workspace_member
        (words true)
        (bytes "t1")
        (bytes "m2")
        (bytes "admin")
        (bytes "suspended")
        5
        two_members).0
update_workspace_member-IsOwned_example =
    update_workspace_member-IsOwned (words true) (bytes "t1") (bytes "m2") (bytes "admin")
      (bytes "suspended") 5 two_members refl two_members-IsOwned

transfer_workspace_ownership-IsOwned_example :
    IsOwned
      (words true)
      (transfer_workspace_ownership (words true) (bytes "t1") (bytes "m2") two_members).0
transfer_workspace_ownership-IsOwned_example =
    transfer_workspace_ownership-IsOwned (words true) (bytes "t1") (bytes "m2") two_members
      two_members-IsOwned
