-- ===== src/Memberships/Owner/Owned.antt =====
-- routes/workspace_memberships.go: the owner of a workspace stays an active member of it when members
-- change.
use mathlib.Core.Path.{subst}
use sentanyl_core_readonly.Memberships.Owner.{
  Answer, Member, Members, Words, Workspace, first_workspace, is_owner, is_proper, member_query,
  update_found, update_member, update_workspace_member, with_role, with_status, write_member,
  write_role,
}
use sentanyl_core_readonly.Prelude.Distinct.{Has}
use sentanyl_core_readonly.Prelude.{
  ℕ, Bool, true, false, ◌&&◌, and_iff, if_rule, Option, some, none, List, [], ◌∷◌, Str, str_eq,
  str_eq_iff, ◌≡◌, refl, sym, ◌∙◌, inl, inr,
}

-- The member is the owner of the workspace, and active.
pub record IsOwner (c : Words) (tenant owner : Str) (m : Member) : Type 0 where
  pub own_id : m.id ≡ owner
  pub own_workspace : m.tenant_id ≡ tenant
  pub is_active : m.status ≡ c.membership_active

abbrev pub Owns : Words → List Member → Str → Str → Type 0
Owns c ms tenant owner = (m : Member) × Has m ms × IsOwner c tenant owner m

-- Every workspace is owned by an active member of its own.
abbrev pub IsOwned : Words → Members → Type 0
IsOwned c w =
    (tenant : Str) (t : Workspace)
    → first_workspace tenant w.workspaces ≡ some t
    → Owns c w.members tenant t.owner_membership_id

module _ (c : Words) where
  update_member-Owns :
      (q : Member → Bool) (f : Member → Member) (tenant owner : Str)
      → ((d : Member) → q d ≡ true → IsOwner c tenant owner d → IsOwner c tenant owner (f d))
      → (ms : List Member) → Owns c ms tenant owner
      → Owns c (update_member q f ms).0 tenant owner
  unfolding update_member
  update_member-Owns q f tenant owner k [] (d, h, o) = elim h [ ]
  update_member-Owns q f tenant owner k (m ∷ ms) (d, inl e, o) =
      if_rule (λ (r : List Member × Bool). Owns c r.0 tenant owner) (q m)
        (λ h. (f m, inl refl, k m h (subst (IsOwner c tenant owner) (sym e) o))) λ _. (d, inl e, o)
  update_member-Owns q f tenant owner k (m ∷ ms) (d, inr h, o) =
      let r = update_member-Owns q f tenant owner k ms (d, h, o) in
      if_rule (λ (r : List Member × Bool). Owns c r.0 tenant owner) (q m) (λ _. (d, inr h, o))
        λ _. (r.0, inr r.1, r.2)

  -- A role is written without touching what makes an owner.
  pub write_role-IsOwned :
      (id role : Str) (w : Members) → IsOwned c w → IsOwned c (write_role c id role w)
  unfolding write_role
  write_role-IsOwned id role w o =
      if_rule (IsOwned c) (c.is_written id)
        (λ _ tenant t e.
          update_member-Owns _ _ tenant t.owner_membership_id
            (λ d h p. record {
              own_id = p.own_id;
              own_workspace = p.own_workspace;
              is_active = p.is_active;
            })
            w.members (o tenant t e))
        λ _. o

  is_owner-at :
      (tenant : Str) (t : Workspace) (ts : List Workspace)
      → c.is_workspace_read tenant ≡ true
      → first_workspace tenant ts ≡ some t
      → is_owner c tenant t.owner_membership_id ts ≡ true
  unfolding is_owner
  is_owner-at tenant t ts r e =
      let s = (str_eq_iff t.owner_membership_id t.owner_membership_id).1 refl in rw (r, e, s)

  -- The member that is written is not the owner of the workspace.
  write_member-IsOwned :
      (tenant : Str) (m : Member) (role status : Str) (now : ℕ) (w : Members)
      → c.is_workspace_read tenant ≡ true
      → is_owner c tenant m.id w.workspaces ≡ false
      → IsOwned c w
      → IsOwned c (write_member c tenant m role status now w).0
  unfolding write_member
  write_member-IsOwned tenant m role status now w r n o =
      let f = λ (d : Member). with_status c status now (with_role c role d) in
      if_rule (λ (x : Members × Answer). IsOwned c x.0)
        (c.is_written m.id && (update_member (member_query m.id tenant) f w.members).1)
        (λ _ tenant' t e.
          update_member-Owns _ f tenant' t.owner_membership_id
            (λ d h p.
              let b = (and_iff (str_eq d.id m.id) (str_eq d.tenant_id tenant)).0 h in
              let same : t.owner_membership_id ≡ m.id =
                sym p.own_id ∙ (str_eq_iff d.id m.id).0 b.0 in
              let here : tenant' ≡ tenant =
                sym p.own_workspace ∙ (str_eq_iff d.tenant_id tenant).0 b.1 in
              let at =
                is_owner-at tenant t w.workspaces r
                  (subst (λ x. first_workspace x w.workspaces ≡ some t) here e) in
              let at' = subst (λ x. is_owner c tenant x w.workspaces ≡ true) same at in
              absurd (let z : true ≡ false = sym at' ∙ n in cc))
            w.members (o tenant' t e))
        λ _. o

  update_found-IsOwned :
      (tenant role status : Str) (now : ℕ) (w : Members) (found : Option Member)
      → c.is_workspace_read tenant ≡ true
      → IsOwned c w
      → IsOwned c (update_found c tenant role status now w found).0
  unfolding update_found
  update_found-IsOwned tenant role status now w none r o = o
  update_found-IsOwned tenant role status now w (some m) r o =
      if_rule (λ (x : Members × Answer). IsOwned c x.0) (is_owner c tenant m.id w.workspaces)
        (λ _. o)
        λ n.
          if_rule (λ (x : Members × Answer). IsOwned c x.0) (is_proper c role status)
            (λ _. write_member-IsOwned tenant m role status now w r n o) λ _. o

  -- A change of a member, if the workspace can be read, keeps that every workspace is owned by an
  -- active member of its own.
  pub update_workspace_member-IsOwned :
      (tenant id role status : Str) (now : ℕ) (w : Members)
      → c.is_workspace_read tenant ≡ true
      → IsOwned c w
      → IsOwned c (update_workspace_member c tenant id role status now w).0
  unfolding update_workspace_member
  update_workspace_member-IsOwned tenant id role status now w r o =
      if_rule (λ (x : Members × Answer). IsOwned c x.0) (c.is_object_id_hex id)
        (λ _. update_found-IsOwned tenant role status now w _ r o) λ _. o
