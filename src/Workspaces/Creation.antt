-- ===== src/Workspaces/Creation.antt =====
-- What creating a workspace does to the tables, whichever queries fail.
use text.Mathlib.Text.{◌==◌ as str_eq}
use brenox_engine.Base.{
  ℕ, ◌+◌, ◌≡◌, refl, subst, ◌⊎◌, inl, inr, Bool, true, false, not, ◌||◌, ◌∷◌, Option, none, some,
  String, Bool-cases, arith,
}
use brenox_engine.Base.Monad.{pure, ◌>>=◌}
use brenox_engine.Db.{Error, org}
use brenox_engine.Db.Org.{Workspace, WorkspaceMember, Org}
use brenox_engine.Db.Triple.{
  Triple, Answers, Triple-bind, Triple-pure, Triple-write, Triple-raise_if,
}
use brenox_engine.Db.Reads.{Triple-optional_read, Triple-or_raise}
use brenox_engine.Queries.Org.{
  find_workspace_by_slug, find_member, insert_workspace, insert_member, add_workspace_member,
}
use brenox_engine.Strings.{Strings}
use brenox_engine.Workspaces.Service.{slug_pattern, check_slug, normalize_slug, create_workspace}

-- A workspace under a slug that is well formed and new.
pub record Opened (lib : Strings) (user : ℕ) (raw_name raw_slug : String) (T T' : Org)
    : Type 0 where
  pub slug : String
  pub now : ℕ
  pub normal : normalize_slug lib raw_slug (lib.trim_space raw_name) ≡ some slug
  pub well_formed : lib.matches slug_pattern slug ≡ true
  pub named : str_eq (lib.trim_space raw_name) "" ≡ false
  pub fresh : find_workspace_by_slug slug T ≡ none
  pub tables : T' ≡ record T {
    workspaces =
        (record {
          id = T.next_workspace;
          name = lib.trim_space raw_name;
          slug = slug;
          owner_id = user;
          created_at = now;
        })
        ∷ T.workspaces;
    next_workspace = T.next_workspace + 1;
  }

-- ... with its creator as its first member, an owner.
pub record Created (lib : Strings) (user : ℕ) (raw_name raw_slug : String) (T T' : Org)
    : Type 0 where
  pub middle : Org
  pub opened : Opened lib user raw_name raw_slug T middle
  pub at : ℕ
  pub tables : T' ≡ record middle {
    members =
        (record {
          workspace_id = T.next_workspace;
          user_id = user;
          role = "owner";
          created_at = at;
        })
        ∷ middle.members;
  }

module _ (lib : Strings) where
  check_slug-matches :
      (raw slug : String) → check_slug lib raw ≡ some slug → lib.matches slug_pattern slug ≡ true
  unfolding check_slug
  check_slug-matches raw slug h =
      elim (Bool-cases (str_eq raw "" || not (lib.matches slug_pattern raw))) [
        | inl bad ↦ absurd (let k : none ≡ some slug = rw bad at h in cc)
        | inr good ↦
            let same : raw ≡ slug = the_same (rw good at h) in
            subst (λ s. lib.matches slug_pattern s ≡ true) same (holds _ _ good)
      ]
    where
      the_same : {x y : String} → some x ≡ some y → x ≡ y
      the_same h = cc

      holds : (a b : Bool) → a || not b ≡ false → b ≡ true
      holds a b h = ground arith

  normal-matches :
      (raw name slug : String)
      → normalize_slug lib raw name ≡ some slug
      → lib.matches slug_pattern slug ≡ true
  unfolding normalize_slug
  normal-matches raw name slug h = check_slug-matches _ slug h

module _ (lib : Strings) (user : ℕ) (name slug : String) (T : Org) where
  abbrev pub Failed : Error → Org → Type 0
  Failed e T' = (T' ≡ T) ⊎ Opened lib user name slug T T'

  enroll-Triple :
      (T1 : Org) (w : Workspace)
      → Opened lib user name slug T T1
      → w.id ≡ T.next_workspace
      → Triple org T1
          (add_workspace_member w.id user "owner" >>= λ _. pure w)
          (λ x T'. Created lib user name slug T T')
          Failed
  enroll-Triple T1 w opened id = Triple-bind (
      Triple-write (insert_member w.id user "owner")
        (λ now. answer now (find_member w.id user T1) refl) (inr opened))
    where
      answer :
          (now : ℕ) (o : Option WorkspaceMember)
          → find_member w.id user T1 ≡ o
          → Answers
              (λ x T2. Triple org T2 (pure w) (λ x T'. Created lib user name slug T T') Failed)
              Failed
              (insert_member w.id user "owner" now T1)
      answer now none e =
          rw (e, insert_member)
            (Triple-pure w (record { middle = T1; opened = opened; at = now; tables = rw id refl }))
      answer now (some m) e = rw (e, insert_member) (inr opened)

  -- CreateWorkspace stores a workspace under a slug that was free and matches the pattern, with the
  -- trimmed name, which is not empty, and the caller as its owner and as a member with the role
  -- owner. If it fails, it has changed nothing, or it has stored the workspace and failed to add
  -- the member.
  pub create_workspace-Created :
      Triple org T
        (create_workspace lib user name slug)
        (λ x T'. Created lib user name slug T T')
        Failed
  unfolding create_workspace
  create_workspace-Created = Triple-bind (
      Triple-raise_if _ _
        (λ named. Triple-bind (
          Triple-or_raise (normalize_slug lib slug (lib.trim_space name)) _
            (λ s normal. Triple-bind (
              Triple-optional_read (find_workspace_by_slug s)
                (λ o found. Triple-bind (
                  Triple-raise_if _ _
                    (λ absent. Triple-bind (
                      Triple-write (insert_workspace (lib.trim_space name) s user)
                        (λ now. answer named s normal now (find_workspace_by_slug s T) refl)
                        (inl refl)))
                    (λ taken. inl refl)))
                (inl refl)))
            (inl refl)))
        (λ blank. inl refl))
    where
      answer :
          str_eq (lib.trim_space name) "" ≡ false
          → (s : String) → normalize_slug lib slug (lib.trim_space name) ≡ some s
          → (now : ℕ) (o : Option Workspace) → find_workspace_by_slug s T ≡ o
          → Answers
              (λ w T1.
                Triple org T1
                  (add_workspace_member w.id user "owner" >>= λ _. pure w)
                  (λ x T'. Created lib user name slug T T')
                  Failed)
              Failed
              (insert_workspace (lib.trim_space name) s user now T)
      answer named s normal now none e =
          rw (e, insert_workspace)
            (enroll-Triple _ _
              (record {
                slug = s;
                now = now;
                normal = normal;
                well_formed = normal-matches lib slug (lib.trim_space name) s normal;
                named = named;
                fresh = e;
                tables = refl;
              })
              refl)
      answer named s normal now (some w) e = rw (e, insert_workspace) (inl refl)
