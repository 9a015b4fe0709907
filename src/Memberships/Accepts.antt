-- ===== src/Memberships/Accepts.antt =====
-- routes/workspace_memberships.go: what accepting an invitation leaves.
use sentanyl_core_readonly.Memberships.{
  Accounts, Identity, Invitation, Membership, Outcome, Request, Resolution, World, accept_as,
  accept_read, claim_invitation, consume, new_membership, remove_identity, remove_membership,
  resolved, undo_identity, undo_membership,
}
use sentanyl_core_readonly.Prelude.{
  ℕ, Bool, true, false, if_rule, List, ◌∷◌, str_eq, str_eq_iff, ◌≡◌, refl, ◌∙◌, ap,
}
use sentanyl_core_readonly.Memberships.Accepted.{
  Accepts, Chosen, IsKept, IsReliable, Resolves, consume-Marks, keeps, new, old, refuses,
  resolve_identity-Resolves, takes,
}

module _ (a : Accounts) (reliable : IsReliable a) (req : Request) (i : Invitation) (now : ℕ) where
  membership_undone :
      (m : Membership) (w : World)
      → undo_membership a m.id (record w { memberships = m ∷ w.memberships }) ≡ w
  unfolding undo_membership remove_membership
  membership_undone m w =
      let e : str_eq m.id m.id ≡ true = (str_eq_iff m.id m.id).1 refl in
      rw (reliable.membership m.id, e)

  identity_undone :
      (u : Identity) (w : World)
      → undo_identity a u true (record w { identities = u ∷ w.identities }) ≡ w
  unfolding undo_identity remove_identity
  identity_undone u w =
      let e : str_eq u.id u.id ≡ true = (str_eq_iff u.id u.id).1 refl in
      rw (reliable.identity u.id, e)

  IsKept-same : (w v : World) → v ≡ w → IsKept w v
  IsKept-same w v e = record {
    same_invitations = ap (λ (x : World). x.invitations) e;
    same_identities = ap (λ (x : World). x.identities) e;
    same_memberships = ap (λ (x : World). x.memberships) e;
  }

  -- The identities of the state behind the look-up, and that undoing leads back.
  claim_invitation-Accepts :
      (u : Identity) (created : Bool) (w : World) (us : List Identity)
      → Chosen a req i w u us
      → undo_identity a u created (record w { identities = us }) ≡ w
      → let m = new_membership a i u in
        let x = record w { identities = us; memberships = m ∷ w.memberships } in
        let r = claim_invitation a i u created now m.id x in Accepts a req i now w r.0 r.1
  unfolding claim_invitation
  claim_invitation-Accepts u created w us pick g =
      let m = new_membership a i u in
      if_rule (λ (r : World × Outcome). Accepts a req i now w r.0 r.1)
        (consume a i u now w.invitations).1
        (λ h. takes u refl (record {
          marks = consume-Marks a i u now w.invitations h;
          chosen = pick;
          memberships = refl;
        }))
        λ _.
          keeps (λ y k. cc)
            (IsKept-same w _ (
              ap (undo_identity a u created) (membership_undone m (record w { identities = us }))
              ∙ g))

  accept_new-Accepts :
      (u : Identity) (created : Bool) (w : World) (us : List Identity)
      → Chosen a req i w u us
      → undo_identity a u created (record w { identities = us }) ≡ w
      → let t = accept_as a i now (record w { identities = us }, resolved u created) in
        Accepts a req i now w t.0 t.1
  unfolding accept_as
  accept_new-Accepts u created w us pick g =
      if_rule (λ (r : World × Outcome). Accepts a req i now w r.0 r.1)
        (a.is_membership_inserted (new_membership a i u) w.memberships)
        (λ _. claim_invitation-Accepts u created w us pick g)
        λ _. keeps (λ y k. cc) (IsKept-same w _ g)

  undone_old : (u : Identity) (w : World) → undo_identity a u false w ≡ w
  unfolding undo_identity
  undone_old u w = refl

  accept_as-Accepts :
      (w : World) (r : World × Resolution)
      → Resolves a req i w r
      → let t = accept_as a i now r in Accepts a req i now w t.0 t.1
  accept_as-Accepts w _ (refuses o k) = unfold accept_as in keeps k (IsKept-same w w refl)
  accept_as-Accepts w _ (old u k) = accept_new-Accepts u false w w.identities k (undone_old u w)
  accept_as-Accepts w _ (new u k) =
      accept_new-Accepts u true w (u ∷ w.identities) k (identity_undone u w)

-- Behind the look-up of an invitation, which may be outdated by then, an acceptance is whole or
-- nothing, if a write that reports an error has changed nothing and the removals that undo a half-done acceptance succeed. Either it answers that an
-- identity accepted: then one invitation with the id, pending until then, has the status accepted,
-- that identity and the time, and the others are as they were; one membership is added, made for
-- the identity with the tenant, the role and the inviter of the invitation; and the identity is the
-- one that is found by the address of the invitation and the identities are as they were, or none
-- was found, the password has 8 bytes and the identity is a new one with the role of the
-- invitation, or the one that another request has made since. Or it answers with an error and
-- invitations, identities and memberships are as they were.
pub accept_read-Accepts :
    (a : Accounts)
    → IsReliable a
    → (req : Request) (i : Invitation) (now : ℕ) (w : World)
    → let t = accept_read a req i now w in Accepts a req i now w t.0 t.1
unfolding accept_read
accept_read-Accepts a reliable req i now w =
    accept_as-Accepts a reliable req i now w _ (resolve_identity-Resolves a req i w _ refl)
