-- ===== src/Memberships/Owner/Transfers.antt =====
-- routes/workspace_memberships.go: the owner of a workspace is an active member of it behind a transfer.
use mathlib.Core.Path.{subst}
use sentanyl_core_readonly.Memberships.Owner.Owned.{IsOwned, IsOwner, write_role-IsOwned}
use sentanyl_core_readonly.Memberships.Owner.{
  Answer, Member, Members, Words, Workspace, first_member, first_workspace, member_query, not_found,
  transfer_in, transfer_to, transfer_workspace_ownership, update_owner,
}
use sentanyl_core_readonly.Prelude.Distinct.{Has}
use sentanyl_core_readonly.Prelude.{
  Bool, true, not, ◌&&◌, and_iff, if_rule, Option, some, none, List, [], ◌∷◌, Str, str_eq,
  str_eq_iff, ◌≡◌, ◌⊎◌, refl, sym, ◌∙◌, ap, inl, inr,
}

first_member-Has :
    (q : Member → Bool) (ms : List Member) (m : Member)
    → first_member q ms ≡ some m
    → Has m ms × (q m ≡ true)
unfolding first_member
first_member-Has q [] m = λ e. absurd (cc)
first_member-Has q (d ∷ ms) m =
    if_rule (λ (o : Option Member). o ≡ some m → Has m (d ∷ ms) × (q m ≡ true)) (q d)
      (λ h e. let s : d ≡ m = cc in (inl s, subst (λ x. q x ≡ true) s h))
      λ _ e. let r = first_member-Has q ms m e in (inr r.0, r.1)

-- A workspace behind the compare-and-set is one from before, or has the new owner.
first_workspace-update_owner :
    (tenant old new id : Str) (ts : List Workspace) (t : Workspace)
    → first_workspace id (update_owner tenant old new ts).0 ≡ some t
    → (first_workspace id ts ≡ some t) ⊎ ((id ≡ tenant) × (t.owner_membership_id ≡ new))
unfolding first_workspace update_owner
first_workspace-update_owner tenant old new id [] t = λ e. inl e
first_workspace-update_owner tenant old new id (d ∷ ts) t =
    if_rule
      (λ (r : List Workspace × Bool).
        first_workspace id r.0 ≡ some t
        → (first_workspace id (d ∷ ts) ≡ some t) ⊎ ((id ≡ tenant) × (t.owner_membership_id ≡ new)))
      (str_eq d.id tenant && str_eq d.owner_membership_id old)
      (λ h.
        if_rule
          (λ (o : Option Workspace).
            o ≡ some t
            → (first_workspace id (d ∷ ts) ≡ some t)
              ⊎ ((id ≡ tenant) × (t.owner_membership_id ≡ new)))
          (str_eq d.id id)
          (λ m e.
            let b = (and_iff (str_eq d.id tenant) (str_eq d.owner_membership_id old)).0 h in
            let here : id ≡ tenant =
              sym ((str_eq_iff d.id id).0 m) ∙ (str_eq_iff d.id tenant).0 b.0 in
            let moved : (record d { owner_membership_id = new }) ≡ t = cc in
            inr (here, sym (ap (λ (x : Workspace). x.owner_membership_id) moved)))
          λ n e. inl (rw n e))
      λ _.
        if_rule
          (λ (o : Option Workspace).
            o ≡ some t
            → (first_workspace id (d ∷ ts) ≡ some t)
              ⊎ ((id ≡ tenant) × (t.owner_membership_id ≡ new)))
          (str_eq d.id id) (λ m e. inl (rw m e))
          λ n e. elim (first_workspace-update_owner tenant old new id ts t e) [
            | inl x ↦ inl (rw n x)
            | inr x ↦ inr x
          ]

module _ (c : Words) (tenant : Str) where
  transfer_to-IsOwned :
      (t : Workspace) (target : Member) (w : Members)
      → Has target w.members
      → IsOwner c tenant target.id target
      → IsOwned c w
      → IsOwned c (transfer_to c tenant t target w).0
  unfolding transfer_to
  transfer_to-IsOwned t target w h a o =
      let moved = (update_owner tenant t.owner_membership_id target.id w.workspaces) in
      let owned : IsOwned c (record w { workspaces = moved.0 }) = λ tenant' t' e.
        elim (first_workspace-update_owner tenant t.owner_membership_id target.id tenant'
          w.workspaces t' e) [
            | inl x ↦ o tenant' t' x
            | inr x ↦ (
              target,
              h,
              record {
                own_id = sym x.1;
                own_workspace = a.own_workspace ∙ sym x.0;
                is_active = a.is_active;
              },
            )
          ] in
      if_rule (λ (x : Members × Answer). IsOwned c x.0) (str_eq target.id t.owner_membership_id)
        (λ _. o)
        λ _.
          if_rule (λ (x : Members × Answer). IsOwned c x.0) (c.is_written tenant && moved.1)
            (λ _.
              write_role-IsOwned c t.owner_membership_id c.role_admin _
                (write_role-IsOwned c target.id c.role_owner _ owned))
            λ _. o

  transfer_in-IsOwned :
      (id : Str) (w : Members) (found : Option Workspace)
      → IsOwned c w
      → IsOwned c (transfer_in c tenant id w found).0
  unfolding transfer_in
  transfer_in-IsOwned id w none o = o
  transfer_in-IsOwned id w (some t) o =
      behind
        (first_member (λ m. member_query id tenant m && str_eq m.status c.membership_active)
          w.members)
        refl
    where
      behind :
          (found : Option Member)
          → first_member
              (λ m. member_query id tenant m && str_eq m.status c.membership_active)
              w.members
            ≡ found
          → IsOwned c
              (elim found as (λ _. Members × Answer) [
                | none ↦ (w, not_found)
                | some target ↦ transfer_to c tenant t target w
              ]).0
      behind none e = o
      behind (some target) e =
          let r = first_member-Has _ w.members target e in
          let b = (and_iff (member_query id tenant target) _).0 r.1 in
          let q = (and_iff (str_eq target.id id) (str_eq target.tenant_id tenant)).0 b.0 in
          transfer_to-IsOwned t target w r.0
            (record {
              own_id = refl;
              own_workspace = (str_eq_iff target.tenant_id tenant).0 q.1;
              is_active = (str_eq_iff target.status c.membership_active).0 b.1;
            })
            o

  -- A transfer of ownership keeps that every workspace is owned by an active member of its own.
  pub transfer_workspace_ownership-IsOwned :
      (id : Str) (w : Members)
      → IsOwned c w
      → IsOwned c (transfer_workspace_ownership c tenant id w).0
  unfolding transfer_workspace_ownership
  transfer_workspace_ownership-IsOwned id w o =
      if_rule (λ (x : Members × Answer). IsOwned c x.0) (not (c.is_object_id_hex id)) (λ _. o)
        λ _.
          if_rule (λ (x : Members × Answer). IsOwned c x.0) (c.is_workspace_read tenant)
            (λ _. transfer_in-IsOwned id w _ o) λ _. o
