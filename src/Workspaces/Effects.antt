-- ===== src/Workspaces/Effects.antt =====
-- What each request on a workspace's members does to the tables, whichever queries fail.
use mathlib.Core.Option.{some-injective}
use brenox_engine.Base.{
  ℕ, ◌≡◌, refl, sym, ap, ◌∙◌, ◌⊎◌, inl, inr, ◌∷◌, Option, none, some, String, update, delete,
  select_fits, select-update_fits, ==→eq, ==-refl, ◌==◌,
}
use brenox_engine.Base.Monad.{pure, ◌>>=◌}
use brenox_engine.Db.{Error, M, org}
use brenox_engine.Db.Org.{User, WorkspaceMember, Org}
use brenox_engine.Db.Triple.{
  Triple, Triple-bind, Triple-pure, Triple-raise, Triple-read, Triple-write, Triple-raise_if,
}
use brenox_engine.Db.Reads.{Triple-optional_read, Triple-required_read, Triple-on_error}
use brenox_engine.Queries.Org.{
  get_user_by_id, get_workspace_member, add_workspace_member, find_member, find_user,
  find_user_by_email, is_membership, insert_member, set_role, delete_member,
}
use brenox_engine.Notifications.Invites.{Invited}
use brenox_engine.Strings.{Strings}
use brenox_engine.Authz.Permissions.{
  Role, role_text, invite_member, change_member_role, remove_member as removing,
}
use brenox_engine.Workspaces.Members.{
  InviteNotifier, MemberResponse, map_authz_error, response, refuse_if_member, notify_invite,
  add_found, add_member, remove_member, update_member_role,
}
use brenox_engine.Workspaces.Rights.{
  MayAct, MayGrant, IsModifiable, can-Triple, grantable-Triple, modifiable-Triple,
}
use brenox_engine.Workspaces.Invitations.{IsLawful, notify_invite-Triple}

-- The target's row is deleted, by a caller who may remove members, and it was not an owner's.
pub record Removed (w a u : ℕ) (T T' : Org) : Type 0 where
  pub actor : MayAct w a removing T
  pub target : IsModifiable w u T
  pub tables : T' ≡ record T { members = delete (is_membership w u) T.members }

-- The target, not an owner, gets the role that was asked for, which the caller may grant.
pub record Changed (lib : Strings) (w a u : ℕ) (raw : String) (T T' : Org) : Type 0 where
  pub role : Role
  pub asked : role_text role ≡ lib.trim_space raw
  pub actor : MayAct w a change_member_role T
  pub grant : MayGrant w a role T
  pub target : IsModifiable w u T
  pub tables : T' ≡ record T {
    members = update (is_membership w u) (λ m. record m { role = role_text role }) T.members;
  }

-- What is answered: the user and the role.
abbrev pub Answered : ℕ → String → MemberResponse → Type 0
Answered u text r = (r.user_id ≡ u) × (r.role ≡ text)

abbrev pub with_member : ℕ → ℕ → String → ℕ → Org → Org
with_member w u role now T =
    let m : WorkspaceMember = record {
      workspace_id = w;
      user_id = u;
      role = role;
      created_at = now;
    } in
    record T { members = m ∷ T.members }

-- The user with that address, who was no member, gets a row with the role that was asked for, which
-- the caller may grant; and the user may be sent an invitation.
pub record Added (lib : Strings) (w a : ℕ) (email raw : String) (T T' : Org) : Type 0 where
  pub role : Role
  pub user : User
  pub now : ℕ
  pub asked : role_text role ≡ lib.trim_space raw
  pub known : find_user_by_email (lib.trim_space (lib.to_lower email)) T ≡ some user
  pub actor : MayAct w a invite_member T
  pub grant : MayGrant w a role T
  pub absent : find_member w user.id T ≡ none
  pub tables :
      (T' ≡ with_member w user.id (role_text role) now T)
      ⊎ Invited w a user.id (with_member w user.id (role_text role) now T) T'

-- RemoveMember removes the target's row, by a caller who may, or fails and changes nothing.
pub remove_member-Removed :
    (w a u : ℕ) (T : Org)
    → Triple org T (remove_member w a u) (λ x T'. Removed w a u T T') (λ e T'. T' ≡ T)
unfolding remove_member
remove_member-Removed w a u T = Triple-bind (
    Triple-on_error map_authz_error (
      can-Triple w a T removing
        (λ may. Triple-bind (
          modifiable-Triple w a T u
            (λ m target.
              Triple-write (delete_member w u)
                (λ now. record { actor = may; target = target; tables = refl }) refl)
            (λ e. refl)))
        (λ e. refl)))

abbrev read_back : ℕ → ℕ → M MemberResponse
read_back w u = do x ← get_user_by_id u; m ← get_workspace_member w u; pure (response x m)

-- After the change the answer shows the user with the new role.
read_back-Answered :
    (w u : ℕ) (text : String) (T : Org) {R : Error → Org → Type 0}
    → {Q : MemberResponse → Org → Type 0}
    → let T1 = record T {
      members = update (is_membership w u) (λ m. record m { role = text }) T.members;
    } in
      ((r : MemberResponse) → Answered u text r → Q r T1)
      → ((e : Error) → R e T1)
      → Triple org T1 (read_back w u) Q R
unfolding response
read_back-Answered w u text T q r = Triple-bind (
    Triple-read (find_user u)
      (λ x named. Triple-bind (
        Triple-read (find_member w u)
          (λ m found. Triple-pure _ (
            q _ (
              ==→eq x.id u (select_fits (λ y. y.id == u) T.users named),
              select-update_fits (λ y. y.role ≡ text) (is_membership w u)
                  (λ y. record y { role = text }) (λ y. refl) (λ y. refl) T.members found,
            )))
          (λ e. r _) (r _)))
      (λ e. r _) (r _))

-- UpdateMemberRole gives the target the role that is asked for, which the caller may grant, and answers
-- the target with that role; where it fails, it has changed nothing or it has made that change and
-- failed to read the answer back.
pub update_member_role-Changed :
    (lib : Strings) (w a u : ℕ) (raw : String) (T : Org)
    → Triple org T
        (update_member_role lib w a u raw)
        (λ r T'. Changed lib w a u raw T T' × Answered u (lib.trim_space raw) r)
        (λ e T'. (T' ≡ T) ⊎ Changed lib w a u raw T T')
unfolding update_member_role
update_member_role-Changed lib w a u raw T = Triple-bind (
    Triple-on_error map_authz_error (
      can-Triple w a T change_member_role
        (λ may. Triple-bind (
          grantable-Triple w a T lib raw
            (λ x grant asked. Triple-bind (
              modifiable-Triple w a T u
                (λ m target.
                  let done : (now : ℕ)
                      → Changed lib w a u raw T (set_role w u (role_text x) now T).1 =
                    λ now. record {
                      role = x;
                      asked = asked;
                      actor = may;
                      grant = grant;
                      target = target;
                      tables = refl;
                    } in
                  Triple-bind (
                    Triple-write (set_role w u (role_text x))
                      (λ now.
                        read_back-Answered w u (role_text x) T
                          (λ r shown. (done now, (shown.0, shown.1 ∙ asked))) (λ e. inr (done now)))
                      (inl refl)))
                (λ e. inl refl)))
            (λ e. inl refl)))
        (λ e. inl refl)))

-- AddMember gives the user with that address, who was no member, a row with the role that is asked for,
-- which the caller may grant, and answers that user with that role; beside that it changes nothing but
-- that the user may be sent one invitation. Where it fails, it has changed nothing or it has added
-- that row and failed to read it back. The notifier behind it sends an invitation or does nothing.
pub add_member-Added :
    (lib : Strings) (notifier : Option InviteNotifier) (w a : ℕ) (email raw : String) (T : Org)
    → IsLawful notifier
    → Triple org T
        (add_member lib notifier w a email raw)
        (λ r T'. (v : Added lib w a email raw T T') × Answered v.user.id (lib.trim_space raw) r)
        (λ e T'. (T' ≡ T) ⊎ Added lib w a email raw T T')
unfolding add_member add_found refuse_if_member response
add_member-Added lib notifier w a email raw T law = Triple-bind (
    Triple-on_error map_authz_error (
      can-Triple w a T invite_member
        (λ may. Triple-bind (
          grantable-Triple w a T lib raw
            (λ x grant asked. Triple-bind (
              Triple-raise_if _ _
                (λ given. Triple-bind (
                  Triple-required_read (find_user_by_email _) _
                    (λ user known. Triple-bind (
                      Triple-optional_read (find_member w user.id)
                        (λ o found. refuse x user may grant asked known o found) (inl refl)))
                    (λ e. inl refl)))
                (λ blank. inl refl)))
            (λ e. inl refl)))
        (λ e. inl refl)))
  where
    Rest : Role → User → M MemberResponse
    Rest x user = get_workspace_member w user.id >>= λ m.
        notify_invite notifier w a user.id >>= λ _. pure (response user m)

    Good : MemberResponse → Org → Type 0
    Good r T' = (v : Added lib w a email raw T T') × Answered v.user.id (lib.trim_space raw) r

    Bad : Error → Org → Type 0
    Bad e T' = (T' ≡ T) ⊎ Added lib w a email raw T T'

    inserted :
        (x : Role) (user : User)
        → MayAct w a invite_member T
        → MayGrant w a x T
        → role_text x ≡ lib.trim_space raw
        → find_user_by_email (lib.trim_space (lib.to_lower email)) T ≡ some user
        → find_member w user.id T ≡ none
        → (now : ℕ) → Triple org (with_member w user.id (role_text x) now T) (Rest x user) Good Bad
    inserted x user may grant asked known absent now = Triple-bind (
        Triple-read (find_member w user.id)
          (λ m found. Triple-bind (
            notify_invite-Triple notifier law w a user.id T1
              (λ o T' k. Triple-pure _ (done T' k, (refl, role_of m found ∙ asked)))))
          (λ e. inr (done T1 (inl refl))) (inr (done T1 (inl refl))))
      where
        T1 : Org
        T1 = with_member w user.id (role_text x) now T

        done : (T' : Org) → (T' ≡ T1) ⊎ Invited w a user.id T1 T' → Added lib w a email raw T T'
        done T' k = record {
          role = x;
          user = user;
          now = now;
          asked = asked;
          known = known;
          actor = may;
          grant = grant;
          absent = absent;
          tables = k;
        }

        role_of : (m : WorkspaceMember) → find_member w user.id T1 ≡ some m → m.role ≡ role_text x
        role_of m found =
            let g = rw (==-refl w, ==-refl user.id) at found in
            ap (λ (y : WorkspaceMember). y.role) (sym (some-injective _ _ g))

    refuse :
        (x : Role) (user : User)
        → MayAct w a invite_member T
        → MayGrant w a x T
        → role_text x ≡ lib.trim_space raw
        → find_user_by_email (lib.trim_space (lib.to_lower email)) T ≡ some user
        → (o : Option WorkspaceMember) → find_member w user.id T ≡ o
        → Triple org T
            (refuse_if_member o >>= λ _.
              add_workspace_member w user.id (role_text x) >>= λ _. Rest x user)
            Good
            Bad
    refuse x user may grant asked known none absent = Triple-bind (
        Triple-pure tt (
          Triple-bind (
            Triple-write (insert_member w user.id (role_text x))
              (λ now. rw (absent, insert_member) (inserted x user may grant asked known absent now))
              (inl refl))))
    refuse x user may grant asked known (some m) found = Triple-bind (Triple-raise _ (inl refl))
