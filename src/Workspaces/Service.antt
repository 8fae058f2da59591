-- ===== src/Workspaces/Service.antt =====
-- internal/workspaces/service.go.
use text.Mathlib.Text.{◌==◌ as str_eq}
use brenox_engine.Base.{ℕ, not, ◌||◌, List, Option, none, some, String, is_some, if◌then◌else◌}
use brenox_engine.Base.Monad.{pure, ◌>>=◌, ◌>>◌}
use brenox_engine.Db.{workspaces, WorkspacesError, M, optional, no_rows_is, raise_if, or_raise}
use brenox_engine.Db.Org.{Workspace}
use brenox_engine.Queries.Org.{
  UserWorkspace, is_workspace_member, get_workspace_member, get_workspace_by_id,
  get_workspace_by_slug, get_workspaces_by_user, add_workspace_member,
  create_workspace as create_workspace_row,
}
use brenox_engine.Strings.{Strings}

abbrev pub slug_pattern : String
slug_pattern = "^[a-z0-9]+(?:-[a-z0-9]+)*$"

-- A slug made of the name.
unfoldable pub slug_of_name : Strings → String → String
slug_of_name lib name =
    let dashed = lib.replace_all (lib.to_lower name) " " "-" in
    let clean = lib.replace_matches "[^a-z0-9-]+" dashed "" in
    lib.trim (lib.replace_matches "-+" clean "-") "-"

unfoldable pub check_slug : Strings → String → Option String
check_slug lib slug =
    if str_eq slug "" || not (lib.matches slug_pattern slug) then none else some slug

unfoldable pub normalize_slug : Strings → String → String → Option String
normalize_slug lib raw name =
    let slug = lib.trim_space (lib.to_lower raw) in
    check_slug lib (if str_eq slug "" then slug_of_name lib name else slug)

unfoldable pub create_workspace : Strings → ℕ → String → String → M Workspace
create_workspace lib user raw_name raw_slug = do
  raise_if (str_eq (lib.trim_space raw_name) "") (workspaces WorkspacesError.name_required)
  slug ←
      or_raise (normalize_slug lib raw_slug (lib.trim_space raw_name))
        (workspaces WorkspacesError.invalid_slug)
  existing ← optional (get_workspace_by_slug slug)
  raise_if (is_some existing) (workspaces WorkspacesError.slug_taken)
  w ← create_workspace_row (lib.trim_space raw_name) slug user
  add_workspace_member w.id user "owner"
  pure w

unfoldable pub list_workspaces : ℕ → M (List UserWorkspace)
list_workspaces user = get_workspaces_by_user user

unfoldable pub assert_member : ℕ → ℕ → M (Unit {0})
assert_member workspace user = do
  is_member ← is_workspace_member workspace user
  raise_if (not is_member) (workspaces WorkspacesError.not_member)

unfoldable pub get_workspace : ℕ → ℕ → M Workspace
get_workspace workspace user = do
  assert_member workspace user
  no_rows_is (workspaces WorkspacesError.not_found) (get_workspace_by_id workspace)

unfoldable pub member_role : ℕ → ℕ → M String
member_role workspace user = do
  m ← no_rows_is (workspaces WorkspacesError.not_member) (get_workspace_member workspace user)
  pure m.role
