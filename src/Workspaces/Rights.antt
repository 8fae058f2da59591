-- ===== src/Workspaces/Rights.antt =====
-- Who may act on a workspace's members, and what the checks of the requests establish.
use text.Mathlib.Text.{◌==◌ as str_eq}
use brenox_engine.Base.{
  ℕ, ◌≡◌, refl, ◌∙◌, inl, inr, true, false, Option, none, some, String, if◌then◌else◌, Bool-cases,
}
use brenox_engine.Base.Monad.{pure, raise}
use brenox_engine.Db.{Error, org, authz, AuthzError, workspaces, WorkspacesError}
use brenox_engine.Db.Org.{WorkspaceMember, Org}
use brenox_engine.Db.Triple.{Triple, Triple-bind, Triple-pure, Triple-raise, Triple-raise_if}
use brenox_engine.Db.Reads.{Triple-required_read, Triple-on_error, Triple-or_raise}
use brenox_engine.Queries.Org.{find_member}
use brenox_engine.Strings.{Strings}
use brenox_engine.Authz.Permissions.{
  Role, owner, AuthzAction, allowed, no_options, parse_role, role_text, can_assign_role, same_role,
}
use brenox_engine.Authz.Service.{can, workspace_role, with_channel_role}
use brenox_engine.Workspaces.Members.{map_authz_error, grantable_role, modifiable_member, not_owner}
use brenox_engine.Authz.Matrix.{role_text-parse_role}

-- The user's row gives a role that is allowed to act.
pub record MayAct (workspace user : ℕ) (action : AuthzAction) (T : Org) : Type 0 where
  pub row : WorkspaceMember
  pub role : Role
  pub found : find_member workspace user T ≡ some row
  pub parsed : parse_role row.role ≡ some role
  pub granted : allowed role action no_options ≡ true

-- The user's row gives a role that may grant `target`.
pub record MayGrant (workspace user : ℕ) (target : Role) (T : Org) : Type 0 where
  pub row : WorkspaceMember
  pub role : Role
  pub found : find_member workspace user T ≡ some row
  pub parsed : parse_role row.role ≡ some role
  pub granted : can_assign_role role target ≡ true

pub record IsModifiable (workspace user : ℕ) (T : Org) : Type 0 where
  pub row : WorkspaceMember
  pub found : find_member workspace user T ≡ some row
  pub not_owner_row : str_eq row.role (role_text owner) ≡ false

module _ (w a : ℕ) (T : Org) where
  pub workspace_role-Triple :
      {Q : Role → Org → Type 0} {R : Error → Org → Type 0}
      → ((m : WorkspaceMember) (r : Role)
          → find_member w a T ≡ some m
          → parse_role m.role ≡ some r
          → Q r T)
      → ((e : Error) → R e T)
      → Triple org T (workspace_role w a) Q R
  unfolding workspace_role
  workspace_role-Triple q r = Triple-bind (
      Triple-required_read (find_member w a) _
        (λ m found. Triple-or_raise (parse_role m.role) _ (λ x parsed. q m x found parsed) (r _)) r)

  pub can-Triple :
      {Q : Unit {0} → Org → Type 0} {R : Error → Org → Type 0} (action : AuthzAction)
      → (MayAct w a action T → Q tt T)
      → ((e : Error) → R e T)
      → Triple org T (can w a action no_options) Q R
  unfolding can with_channel_role
  can-Triple {Q} {R} action q r = Triple-bind (
      workspace_role-Triple
        (λ m x found parsed. Triple-bind (Triple-pure no_options (decide m x found parsed))) r)
    where
      decide :
          (m : WorkspaceMember) (x : Role)
          → find_member w a T ≡ some m
          → parse_role m.role ≡ some x
          → Triple org T
              (if allowed x action no_options then pure tt else raise (authz AuthzError.forbidden))
              Q
              R
      decide m x found parsed = elim (Bool-cases (allowed x action no_options)) [
        | inl given ↦ rw given (
            Triple-pure tt
              (q (record { row = m; role = x; found = found; parsed = parsed; granted = given })))
        | inr other ↦ rw other (Triple-raise _ (r _))
      ]

  pub grantable-Triple :
      {Q : Role → Org → Type 0} {R : Error → Org → Type 0} (lib : Strings) (raw : String)
      → ((x : Role) → MayGrant w a x T → role_text x ≡ lib.trim_space raw → Q x T)
      → ((e : Error) → R e T)
      → Triple org T (grantable_role lib w a raw) Q R
  unfolding grantable_role not_owner
  grantable-Triple {Q} {R} lib raw q r = Triple-bind (
      Triple-or_raise _ _
        (λ target t. Triple-bind (
          Triple-on_error map_authz_error (
            workspace_role-Triple
              (λ m x found parsed.
                decide target m x found parsed
                  (named target (parse_role (lib.trim_space raw)) refl t))
              (λ e. r _))))
        (r _))
    where
      named :
          (target : Role) (o : Option Role)
          → parse_role (lib.trim_space raw) ≡ o
          → not_owner o ≡ some target
          → role_text target ≡ lib.trim_space raw
      named target none e h = absurd cc
      named target (some x) e h = elim (Bool-cases (same_role x owner)) [
        | inl own ↦ absurd (let k : none ≡ some target = rw own at h in cc)
        | inr other ↦
            let k : some x ≡ some target = rw other at h in
            role_text-parse_role (lib.trim_space raw) target (e ∙ k)
      ]

      decide :
          (target : Role) (m : WorkspaceMember) (x : Role)
          → find_member w a T ≡ some m
          → parse_role m.role ≡ some x
          → role_text target ≡ lib.trim_space raw
          → Triple org T
              (if can_assign_role x target
                then pure target
                else raise (workspaces WorkspacesError.forbidden))
              Q
              R
      decide target m x found parsed asked = elim (Bool-cases (can_assign_role x target)) [
        | inl given ↦ rw given (
            Triple-pure target (
              q target
                (record { row = m; role = x; found = found; parsed = parsed; granted = given })
                asked))
        | inr other ↦ rw other (Triple-raise _ (r _))
      ]

  pub modifiable-Triple :
      {Q : WorkspaceMember → Org → Type 0} {R : Error → Org → Type 0} (u : ℕ)
      → ((m : WorkspaceMember) → IsModifiable w u T → Q m T)
      → ((e : Error) → R e T)
      → Triple org T (modifiable_member w u) Q R
  unfolding modifiable_member
  modifiable-Triple u q r = Triple-bind (
      Triple-required_read (find_member w u) _
        (λ m found. Triple-bind (
          Triple-raise_if _ _
            (λ other.
              Triple-pure m (q m (record { row = m; found = found; not_owner_row = other })))
            (λ own. r _)))
        r)
