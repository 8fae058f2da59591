-- ===== src/Workspaces/Owners.antt =====
-- Ownership of a workspace over a history of requests on its members.
use text.Mathlib.Text.{◌==◌ as str_eq}
use brenox_engine.Base.{
  ℕ, ◌≤◌, ◌≡◌, refl, ◌∙◌, inl, inr, Bool, true, false, Option, String, count, arith, select-count,
  count-update-eq, count-delete-le,
}
use brenox_engine.Base.Monad.{Result, ok, err}
use brenox_engine.Db.{Db, Error, M, org}
use brenox_engine.Db.Org.{Org}
use brenox_engine.Db.Triple.{Triple, Post, Triple-weaken}
use brenox_engine.Queries.Org.{is_membership}
use brenox_engine.Strings.{Strings}
use brenox_engine.Authz.Permissions.{
  Role, owner, admin, moderator, member, unset, role_text, can_assign_role,
}
use brenox_engine.Workspaces.Members.{add_member, remove_member, update_member_role}
use brenox_engine.Workspaces.Rows.{is_owner_row, OwnersKept, update-outside, delete-outside}
use brenox_engine.Workspaces.Invitations.{inviter, inviter-IsLawful}
use brenox_engine.Workspaces.Effects.{
  Removed, Changed, Added, with_member, remove_member-Removed, update_member_role-Changed,
  add_member-Added,
}

pub data Request : Type 0 where
  -- workspace, actor, email, role
  adds : ℕ → ℕ → String → String → Request
  -- workspace, actor, target
  removes : ℕ → ℕ → ℕ → Request
  -- workspace, actor, target, role
  changes : ℕ → ℕ → ℕ → String → Request

-- The database after a request. `notifier` is none if the server sets no notifier; else it says if the
-- notifier has a deliverer.
unfoldable pub handle : Strings → Option Bool → Request → Db → Db
handle lib notifier (adds w a email raw) d = (add_member lib (inviter notifier) w a email raw d).1
handle lib notifier (removes w a u) d = (remove_member w a u d).1
handle lib notifier (changes w a u raw) d = (update_member_role lib w a u raw d).1

-- Either a request on members is served, or something happens outside the table of members.
pub data MemberStep (lib : Strings) (notifier : Option Bool) : Db → Db → Type 0 where
  handles : {d : Db} (r : Request) → MemberStep lib notifier d (handle lib notifier r d)
  elsewhere : {d d' : Db} → d'.org.members ≡ d.org.members → MemberStep lib notifier d d'

pub data MemberReach (lib : Strings) (notifier : Option Bool) (d : Db) : Db → Type 0 where
  here : MemberReach lib notifier d d
  next :
      {d' d'' : Db}
      → MemberReach lib notifier d d'
      → MemberStep lib notifier d' d''
      → MemberReach lib notifier d d''

-- Nobody can grant `owner`.
granted-not_owner : (a r : Role) → can_assign_role a r ≡ true → str_eq (role_text r) "owner" ≡ false
unfolding can_assign_role
granted-not_owner owner owner h = absurd cc
granted-not_owner admin owner h = absurd cc
granted-not_owner moderator owner h = absurd cc
granted-not_owner member owner h = absurd cc
granted-not_owner unset owner h = absurd cc
granted-not_owner a admin h = refl
granted-not_owner a moderator h = refl
granted-not_owner a member h = refl
granted-not_owner a unset h = refl

module _ (T0 : Org) where
  Removed-OwnersKept :
      (w a u : ℕ) (T T' : Org) → OwnersKept T0 T → Removed w a u T T' → OwnersKept T0 T'
  Removed-OwnersKept w a u T T' v r = rw r.tables record {
    owners =
        delete-outside (is_membership w u) is_owner_row T.members r.target.row (v.one_row w u)
          r.target.found r.target.not_owner_row
        ∙ v.owners;
    one_row = λ w' u'. omega (
      arith,
      v.one_row w' u',
      count-delete-le (is_membership w' u') (is_membership w u) T.members,
    );
  }

  Changed-OwnersKept :
      (lib : Strings) (w a u : ℕ) (raw : String) (T T' : Org)
      → OwnersKept T0 T
      → Changed lib w a u raw T T'
      → OwnersKept T0 T'
  Changed-OwnersKept lib w a u raw T T' v r = rw r.tables record {
    owners =
        update-outside (is_membership w u) is_owner_row _ T.members r.target.row (v.one_row w u)
          r.target.found r.target.not_owner_row
          (λ x. granted-not_owner r.grant.role r.role r.grant.granted)
        ∙ v.owners;
    one_row = λ w' u'. omega (
      arith,
      v.one_row w' u',
      count-update-eq (is_membership w' u') (is_membership w u)
          (λ m. record m { role = role_text r.role }) T.members (λ x. refl),
    );
  }

  Added-OwnersKept :
      (lib : Strings) (w a : ℕ) (email raw : String) (T T' : Org)
      → OwnersKept T0 T
      → Added lib w a email raw T T'
      → OwnersKept T0 T'
  Added-OwnersKept lib w a email raw T T' v r = elim r.tables [
    | inl quiet ↦ rw quiet (record { owners = grown.owners; one_row = grown.one_row })
    | inr told ↦ rw told.tables (record { owners = grown.owners; one_row = grown.one_row })
  ]
    where
      grown : OwnersKept T0 (with_member w r.user.id (role_text r.role) r.now T)
      grown = record {
        owners = rw (granted-not_owner r.grant.role r.role r.grant.granted) v.owners;
        one_row = λ w' u'.
            ground
              (arith, v.one_row w' u', select-count (is_membership w r.user.id) T.members r.absent);
      }

after :
    {A : Type 0} (K : Org → Type 0) (p : Result Error A × Db)
    → Post org (λ x T'. K T') (λ e T'. K T') p
    → K p.1.org
after K (ok x, d) h = h
after K (err e, d) h = h

module _ (lib : Strings) (notifier : Option Bool) (T0 : Org) where
  kept :
      {A : Type 0} {m : M A} {Q : A → Org → Type 0} {R : Error → Org → Type 0} (d : Db)
      → Triple org d.org m Q R
      → ((x : A) (T' : Org) → Q x T' → OwnersKept T0 T')
      → ((e : Error) (T' : Org) → R e T' → OwnersKept T0 T')
      → OwnersKept T0 (m d).1.org
  kept {m} {Q} {R} d h q r = after (OwnersKept T0) (m d) ((Triple-weaken Q _ R _ h q r).run d refl)

  handle-OwnersKept :
      (r : Request) (d : Db) → OwnersKept T0 d.org → OwnersKept T0 (handle lib notifier r d).org
  unfolding handle
  handle-OwnersKept (adds w a email raw) d v =
      kept d
        (add_member-Added lib (inviter notifier) w a email raw d.org (inviter-IsLawful notifier))
        (λ x T' done. Added-OwnersKept T0 lib w a email raw d.org T' v done.0)
        (λ e T' k. elim k [
          | inl same ↦ rw same v
          | inr done ↦ Added-OwnersKept T0 lib w a email raw d.org T' v done
        ])
  handle-OwnersKept (removes w a u) d v =
      kept d (remove_member-Removed w a u d.org)
        (λ x T' done. Removed-OwnersKept T0 w a u d.org T' v done) (λ e T' same. rw same v)
  handle-OwnersKept (changes w a u raw) d v =
      kept d (update_member_role-Changed lib w a u raw d.org)
        (λ x T' done. Changed-OwnersKept T0 lib w a u raw d.org T' v done.0)
        (λ e T' k. elim k [
          | inl same ↦ rw same v
          | inr done ↦ Changed-OwnersKept T0 lib w a u raw d.org T' v done
        ])

-- No history of requests on members, whichever queries fail, adds, removes or changes an owner's row
-- of any workspace, if at first no user has two rows in a workspace; and none has two afterwards.
pub MemberReach-OwnersKept :
    (lib : Strings) (notifier : Option Bool) {d d' : Db}
    → MemberReach lib notifier d d'
    → ((w u : ℕ) → count (is_membership w u) d.org.members ≤ 1)
    → OwnersKept d.org d'.org
MemberReach-OwnersKept lib notifier {d} here one = record { owners = refl; one_row = one }
MemberReach-OwnersKept lib notifier {d} (next {d' = d1} r (handles c)) one =
    handle-OwnersKept lib notifier d.org c d1 (MemberReach-OwnersKept lib notifier r one)
MemberReach-OwnersKept lib notifier {d} (next r (elsewhere same)) one =
    let v = MemberReach-OwnersKept lib notifier r one in
    record { owners = rw same v.owners; one_row = rw same v.one_row }
