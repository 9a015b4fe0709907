-- ===== src/Tests/Members.antt =====
-- Runs of the acceptance of an invitation, and its theorems at these inputs.
use sentanyl_core_readonly.Memberships.Accepted.{Accepts, IsRefusal, IsReliable}
use sentanyl_core_readonly.Memberships.Accepts.{accept_read-Accepts}
use sentanyl_core_readonly.Memberships.Once.{accept_read-once}
use sentanyl_core_readonly.Memberships.{
  Accounts, Invitation, Request, World, accept_invitation, accept_read, accepted_by_identity,
  already_consumed, inserted, invalid_invitation, missing, revoke_invitation, waiting,
}
use sentanyl_core_readonly.Prelude.{
  Bool, true, if◌then◌else◌, Option, some, none, List, [], ◌∷◌, ◌++◌, bytes, str_eq, ◌≡◌, refl,
}

abbrev first : (Invitation → Bool) → List Invitation → Option Invitation
first q [] = none
first q (i ∷ is) = if q i then some i else first q is

abbrev accounts : Accounts
accounts = record {
  token_digest = λ token. bytes "d-" ++ token;
  hash_password = λ password. some (bytes "h-" ++ password);
  new_identity = λ email tenant. record {
    id = bytes "u1";
    email = email;
    role = [];
    password_hash = [];
    first_name = [];
    last_name = [];
  };
  make_membership = λ tenant identity role inviter. record {
    id = bytes "m1";
    tenant_id = tenant;
    identity_id = identity;
    role = role;
  };
  find_invitation = first;
  find_identity = λ email us. missing;
  find_identity_again = λ email us. missing;
  insert_identity = λ u us. inserted;
  is_membership_inserted = λ m ms. true;
  is_invitation_written = λ id. true;
  is_membership_removed = λ id. true;
  is_identity_removed = λ id. true;
}

accounts-IsReliable : IsReliable accounts
accounts-IsReliable = record { membership = λ id. refl; identity = λ id. refl }

abbrev invite : Invitation
invite = record {
  id = bytes "i1";
  tenant_id = bytes "t1";
  email = bytes "a@b.co";
  role = bytes "editor";
  status = waiting;
  token_digest = some (bytes "d-tok");
  invited_by = bytes "u0";
  expires_at = 100;
  accepted_by = none;
  accepted_at = none;
  revoked_at = none;
}

abbrev request : Request
request = record {
  token = bytes "tok";
  password = bytes "long enough";
  first_name = bytes "A";
  last_name = bytes "B";
}

abbrev invited : World
invited = record { invitations = invite ∷ []; identities = []; memberships = [] }

-- The invitation is accepted before it expires.
accept-early : (accept_invitation accounts request 99 invited).1 ≡ accepted_by_identity (bytes "u1")
unfolding accept_invitation str_eq
accept-early = refl

-- It is not when it expires.
accept-late : (accept_invitation accounts request 100 invited).1 ≡ invalid_invitation
unfolding accept_invitation str_eq
accept-late = refl

-- A request that read the invitation before it was revoked leaves nothing behind.
accept-revoked :
    accept_read accounts request invite 99
      (revoke_invitation accounts (bytes "t1") (bytes "i1") 50 invited).0
    ≡ ((revoke_invitation accounts (bytes "t1") (bytes "i1") 50 invited).0, already_consumed)
unfolding accept_read revoke_invitation str_eq
accept-revoked = refl

accept_read-Accepts_example :
    Accepts accounts request invite 99 invited
      (accept_read accounts request invite 99 invited).0
      (accept_read accounts request invite 99 invited).1
accept_read-Accepts_example =
    accept_read-Accepts accounts accounts-IsReliable request invite 99 invited

invite-accepted :
    (accept_read accounts request invite 99 invited).1 ≡ accepted_by_identity (bytes "u1")
unfolding accept_read str_eq
invite-accepted = refl

accept_read-once_example :
    IsRefusal
      (accept_read accounts request invite 99 (accept_read accounts request invite 99 invited).0).1
accept_read-once_example =
    accept_read-once accounts accounts accounts-IsReliable accounts-IsReliable request request
      invite invite 99 99 invited (bytes "u1") refl (tt, tt) invite-accepted
