-- ===== src/Channels/Creation.antt =====
-- What CreateChannel does to the tables, whichever queries fail.
use brenox_engine.Base.{
  ℕ, ◌+◌, ◌≡◌, refl, ◌⊎◌, inl, inr, Bool, true, false, ◌∷◌, Option, none, some, String, select,
}
use brenox_engine.Base.Monad.{pure, ◌>>=◌}
use brenox_engine.Db.{Error, org}
use brenox_engine.Db.Org.{WorkspaceMember, Channel, ChannelMember, Org}
use brenox_engine.Db.Triple.{
  Triple, Answers, Triple-bind, Triple-pure, Triple-write, Triple-raise_if,
}
use brenox_engine.Db.Reads.{Triple-on_error}
use brenox_engine.Queries.Org.{
  find_member, find_channel_member, is_named, insert_channel, insert_channel_member,
  add_channel_member,
}
use brenox_engine.Authz.Permissions.{Role, create_channel as creating, is_manager, parse_role}
use brenox_engine.Workspaces.Rights.{MayAct, can-Triple, workspace_role-Triple}
use brenox_engine.Channels.Service.{
  map_authz_error, name_duplicate, check_read_only, create_channel,
}
use brenox_engine.Channels.Effects.{member-Triple, kept_true}

-- The user's row gives the role of an owner or an admin.
pub record IsManager (w u : ℕ) (T : Org) : Type 0 where
  pub row : WorkspaceMember
  pub role : Role
  pub found : find_member w u T ≡ some row
  pub parsed : parse_role row.role ≡ some role
  pub manages : is_manager role ≡ true

-- A channel with a new name, made by a user who may; a read-only one by an owner or admin.
pub record Opened (w u : ℕ) (name : String) (read_only : Bool) (T T' : Org) : Type 0 where
  pub actor : MayAct w u creating T
  pub manager : read_only ≡ true → IsManager w u T
  pub fresh : select (is_named w name) T.channels ≡ none
  pub now : ℕ
  pub tables : T' ≡ record T {
    channels =
        (record {
          id = T.next_channel;
          name = name;
          owner_id = u;
          workspace_id = w;
          is_read_only = read_only;
          created_at = now;
        })
        ∷ T.channels;
    next_channel = T.next_channel + 1;
  }

-- Such a channel, with its owner as its member.
pub record Created (w u : ℕ) (name : String) (read_only : Bool) (T T' : Org) : Type 0 where
  pub middle : Org
  pub opened : Opened w u name read_only T middle
  pub absent : find_channel_member T.next_channel u middle ≡ none
  pub tables : T' ≡ record middle {
    channel_members =
        (record { channel_id = T.next_channel; user_id = u }) ∷ middle.channel_members;
  }

module _ (w u : ℕ) (T : Org) where
  read_only-Triple :
      (b : Bool) {Q : Unit {0} → Org → Type 0} {R : Error → Org → Type 0}
      → ((b ≡ true → IsManager w u T) → Q tt T)
      → ((e : Error) → R e T)
      → Triple org T (check_read_only b w u) Q R
  unfolding check_read_only
  read_only-Triple false q r = Triple-pure tt (q (λ h. absurd cc))
  read_only-Triple true q r = Triple-bind (
      Triple-on_error map_authz_error (
        workspace_role-Triple w u T
          (λ m x found parsed.
            Triple-raise_if _ _
              (λ h. q (λ e. record {
                row = m;
                role = x;
                found = found;
                parsed = parsed;
                manages = kept_true _ h;
              }))
              (λ h. r _))
          (λ e. r _)))

module _ (w u : ℕ) (name : String) (ro : Bool) (T : Org) where
  abbrev pub Failed : Error → Org → Type 0
  Failed e T' = (T' ≡ T) ⊎ Opened w u name ro T T'

  enroll-Triple :
      (T1 : Org) (ch : Channel)
      → Opened w u name ro T T1
      → ch.id ≡ T.next_channel
      → Triple org T1
          (add_channel_member ch.id u >>= λ _. pure ch)
          (λ x T'. Created w u name ro T T')
          Failed
  enroll-Triple T1 ch opened id = Triple-bind (
      Triple-write (insert_channel_member ch.id u)
        (λ now. answer now (find_channel_member ch.id u T1) refl) (inr opened))
    where
      answer :
          (now : ℕ) (o : Option ChannelMember)
          → find_channel_member ch.id u T1 ≡ o
          → Answers
              (λ x T2. Triple org T2 (pure ch) (λ x T'. Created w u name ro T T') Failed)
              Failed
              (insert_channel_member ch.id u now T1)
      answer now none e =
          rw (e, insert_channel_member)
            (Triple-pure ch
              (record { middle = T1; opened = opened; absent = rw id at e; tables = rw id refl }))
      answer now (some m) e = rw (e, insert_channel_member) (inr opened)

  -- CreateChannel stores a channel with a name that is new in the workspace, and its creator as its
  -- member; the creator may create channels there, and is an owner or admin if the channel is
  -- read-only. If it fails, it has changed nothing, or it has stored the channel and failed to add
  -- the member.
  pub create_channel-Created :
      Triple org T (create_channel w u name ro) (λ x T'. Created w u name ro T T') Failed
  unfolding create_channel
  create_channel-Created = Triple-bind (
      member-Triple w u T
        (λ inside. Triple-bind (
          Triple-on_error map_authz_error (
            can-Triple w u T creating
              (λ may. Triple-bind (
                read_only-Triple w u T ro
                  (λ manager. Triple-bind (
                    Triple-on_error name_duplicate (
                      Triple-write (insert_channel name u w ro)
                        (λ now. answer may manager now _ refl) (inl refl))))
                  (λ e. inl refl)))
              (λ e. inl refl))))
        (λ e. inl refl))
    where
      answer :
          MayAct w u creating T
          → (ro ≡ true → IsManager w u T)
          → (now : ℕ) (o : Option Channel) → select (is_named w name) T.channels ≡ o
          → Answers
              (λ ch T1.
                Triple org T1
                  (add_channel_member ch.id u >>= λ _. pure ch)
                  (λ x T'. Created w u name ro T T')
                  Failed)
              (λ e T'. Failed (name_duplicate e) T')
              (insert_channel name u w ro now T)
      answer may manager now none e =
          rw (e, insert_channel)
            (enroll-Triple _ _
              (record { actor = may; manager = manager; fresh = e; now = now; tables = refl }) refl)
      answer may manager now (some ch) e = rw (e, insert_channel) (inl refl)
