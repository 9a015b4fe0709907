-- ===== src/Memberships/Once.antt =====
-- routes/workspace_memberships.go: accepting an invitation that was accepted before.
use sentanyl_core_readonly.Memberships.Accepted.{
  Accepts, IsRefusal, IsReliable, Marks, further, marked, keeps, takes,
}
use sentanyl_core_readonly.Memberships.Accepts.{accept_read-Accepts}
use sentanyl_core_readonly.Memberships.{
  Accounts, Invitation, Outcome, Request, World, accept_read, accepted_by_identity, is_waiting,
}
use sentanyl_core_readonly.Prelude.Distinct.{All, AllDifferent}
use sentanyl_core_readonly.Prelude.{ℕ, false, List, [], ◌∷◌, Str, ◌≡◌, ◌≢◌, refl, sym, ◌∙◌}

abbrev pub invitation_ids : List Invitation → List Str
invitation_ids [] = []
invitation_ids (i ∷ is) = i.id ∷ invitation_ids is

-- The id is not that of a pending invitation.
abbrev IsClosed : Str → Invitation → Type 0
IsClosed id d = d.id ≡ id → is_waiting d.status ≡ false

others-IsClosed :
    (id : Str) (is : List Invitation) → All (λ y. y ≢ id) (invitation_ids is) → All (IsClosed id) is
others-IsClosed id [] h = tt
others-IsClosed id (i ∷ is) h = (λ e. absurd (h.0 e), others-IsClosed id is h.1)

module _ {id u : Str} {now : ℕ} where
  Marks-other :
      {x : Str} {ds es : List Invitation}
      → Marks id u now ds es
      → All (λ y. y ≢ x) (invitation_ids ds)
      → id ≢ x
  Marks-other (marked d ds same wait) h e = h.0 (same ∙ e)
  Marks-other (further d m) h e = Marks-other m h.1 e

  -- Once an invitation is marked, no pending one has its id.
  Marks-IsClosed :
      {ds es : List Invitation}
      → Marks id u now ds es
      → AllDifferent (invitation_ids ds)
      → All (IsClosed id) es
  Marks-IsClosed (marked d ds same wait) h = (λ _. refl, others-IsClosed id ds (rw (← same) h.0))
  Marks-IsClosed (further d m) h = (λ e. absurd (Marks-other m h.0 (sym e)), Marks-IsClosed m h.1)

  Marks-waiting : {ds es : List Invitation} → Marks id u now ds es → All (IsClosed id) ds → ⊥
  Marks-waiting (marked d ds same wait) h = let n = h.0 same in absurd (cc)
  Marks-waiting (further d m) h = Marks-waiting m h.1

module _ (a b : Accounts) (reliable : IsReliable a) (reliable' : IsReliable b) where
  twice :
      (req req' : Request) (i i' : Invitation) (now now' : ℕ) (w v x : World) (o o' : Outcome)
      (u : Str)
      → i'.id ≡ i.id
      → AllDifferent (invitation_ids w.invitations)
      → o ≡ accepted_by_identity u
      → Accepts a req i now w v o
      → Accepts b req' i' now' v x o'
      → IsRefusal o'
  twice req req' i i' now now' w v x o o' u same d e first (keeps r k) = r
  twice req req' i i' now now' w v x o o' u same d e (keeps r k) (takes _ _ _) = absurd (r u e)
  twice req req' i i' now now' w v x o o' u same d e (takes y _ h) (takes z _ k) =
      let closed = Marks-IsClosed h.marks d in absurd (Marks-waiting k.marks (rw same closed))

  -- If the invitations have distinct ids, an invitation that was accepted is not accepted again,
  -- also by a request that read it before, at any time and with any answers of the database, if
  -- the removals that undo a half-done acceptance succeed.
  pub accept_read-once :
      (req req' : Request) (i i' : Invitation) (now now' : ℕ) (w : World) (u : Str)
      → i'.id ≡ i.id
      → AllDifferent (invitation_ids w.invitations)
      → (accept_read a req i now w).1 ≡ accepted_by_identity u
      → IsRefusal (accept_read b req' i' now' (accept_read a req i now w).0).1
  accept_read-once req req' i i' now now' w u same d e =
      twice req req' i i' now now' w _ _ _ _ u same d e (accept_read-Accepts a reliable req i now w)
        (accept_read-Accepts b reliable' req' i' now' _)
