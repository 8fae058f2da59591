-- ===== src/Chat/Rights.antt =====
-- Who may write into a channel, and what the checks of the requests establish.
use brenox_engine.Base.{
  ℕ, ◌≡◌, refl, ◌⊎◌, inl, inr, Bool, true, false, not, Option, none, some, String, ◌==◌, Bool-cases,
  ap, ◌∙◌, is_some, if◌then◌else◌,
}
use brenox_engine.Base.Monad.{pure, raise, ◌>>=◌}
use brenox_engine.Db.{Error, no_rows, org, authz, AuthzError, optional}
use brenox_engine.Db.Org.{WorkspaceMember, Channel, ChannelRole, Org}
use brenox_engine.Db.Triple.{
  Triple, Optional, Triple-bind, Triple-pure, Triple-raise, Triple-read, Triple-read_all,
  Triple-raise_if, Triple-optional,
}
use brenox_engine.Db.Reads.{Triple-required_read}
use brenox_engine.Queries.Org.{
  find_member, find_channel, find_channel_member, find_channel_role, get_channel_role,
}
use brenox_engine.Authz.Permissions.{
  Role, moderator, send_message as sending, allowed, parse_role, is_elevated, same_role, Options,
}
use brenox_engine.Authz.Service.{can, channel_role, message_options, with_channel_role, override}
use brenox_engine.Workspaces.Rights.{workspace_role-Triple}
use brenox_engine.Chat.Service.{assert_channel_access}

-- A member of the workspace and of a channel that lies in it.
pub record HasAccess (workspace channel user : ℕ) (T : Org) : Type 0 where
  pub in_workspace : is_some (find_member workspace user T) ≡ true
  pub place : Channel
  pub found : find_channel channel workspace T ≡ some place
  pub in_channel : is_some (find_channel_member channel user T) ≡ true

-- The channel itself makes the user a moderator.
pub record IsAppointed (channel user : ℕ) (T : Org) : Type 0 where
  pub row : ChannelRole
  pub found : find_channel_role channel user T ≡ some row
  pub parsed : parse_role row.role ≡ some moderator

-- The user has a role in the workspace; in a read-only channel it is at least moderator, or the
-- channel makes the user a moderator.
pub record MaySpeak (workspace channel user : ℕ) (read_only : Bool) (T : Org) : Type 0 where
  pub row : WorkspaceMember
  pub role : Role
  pub found : find_member workspace user T ≡ some row
  pub parsed : parse_role row.role ≡ some role
  pub speaks : read_only ≡ true → (is_elevated role ≡ true) ⊎ IsAppointed channel user T

kept_true : (b : Bool) → not b ≡ false → b ≡ true
kept_true true h = refl
kept_true false h = absurd cc

module _ (w c u : ℕ) (T : Org) where
  pub access-Triple :
      {Q : Unit {0} → Org → Type 0} {R : Error → Org → Type 0}
      → (HasAccess w c u T → Q tt T)
      → ((e : Error) → R e T)
      → Triple org T (assert_channel_access w c u) Q R
  unfolding assert_channel_access
  access-Triple q r = Triple-bind (
      Triple-read_all _
        (Triple-bind (
          Triple-raise_if _ _
            (λ a. Triple-bind (
              Triple-required_read (find_channel c w) _
                (λ ch found. Triple-bind (
                  Triple-read_all _
                    (Triple-raise_if _ _
                      (λ b. q (record {
                        in_workspace = kept_true _ a;
                        place = ch;
                        found = found;
                        in_channel = kept_true _ b;
                      }))
                      (λ b. r _))
                    (r _)))
                r))
            (λ a. r _)))
        (r _))

  same_role→eq : (r : Role) → same_role r moderator ≡ true → r ≡ moderator
  same_role→eq Role.owner h = absurd cc
  same_role→eq Role.admin h = absurd cc
  same_role→eq Role.moderator h = refl
  same_role→eq Role.member h = absurd cc
  same_role→eq Role.unset h = absurd cc

  -- The channel's own role is moderator only by a row that says so.
  appointed :
      (raw : Option String)
      → same_role (override (message_options c true) raw).channel_role moderator ≡ true
      → (s : String) × (raw ≡ some s) × (parse_role s ≡ some moderator)
  unfolding override message_options
  appointed none h = absurd cc
  appointed (some s) h = decide (parse_role s) refl
    where
      decide :
          (o : Option Role)
          → parse_role s ≡ o
          → (t : String) × (some s ≡ some t) × (parse_role t ≡ some moderator)
      decide none e = absurd (let k : false ≡ true = rw (e, override) at h in cc)
      decide (some r) e = (s, refl, e ∙ ap some (same_role→eq r (rw (e, override) at h)))

  channel_role-Triple :
      {Q : Option String → Org → Type 0} {R : Error → Org → Type 0}
      → ((raw : Option String)
          → ((s : String)
              → raw ≡ some s
              → (x : ChannelRole) × (find_channel_role c u T ≡ some x) × (x.role ≡ s))
          → Q raw T)
      → ((e : Error) → R e T)
      → Triple org T (optional (channel_role c u)) Q R
  unfolding channel_role
  channel_role-Triple {Q} {R} q r = Triple-optional (at_id (c == 0))
    where
      at_id :
          (zero_id : Bool)
          → Triple org T
              (if zero_id
                then raise no_rows
                else (get_channel_role c u >>= λ (x : ChannelRole). pure x.role))
              (λ s T'. Q (some s) T')
              (Optional Q R)
      at_id true = Triple-raise no_rows (q none (λ s e. absurd cc))
      at_id false = Triple-bind (
          Triple-read (find_channel_role c u)
            (λ x found. Triple-pure _ (q (some x.role) (λ s e. (x, found, cc))))
            (λ absent. q none (λ s e. absurd cc)) (r _))

  override-read_only :
      (opts : Options) (raw : Option String)
      → (override opts raw).read_only_channel ≡ opts.read_only_channel
  unfolding override
  override-read_only opts none = refl
  override-read_only opts (some s) = decide (parse_role s) refl
    where
      decide :
          (o : Option Role)
          → parse_role s ≡ o
          → (override opts (some s)).read_only_channel ≡ opts.read_only_channel
      decide none e = rw (e, override) refl
      decide (some r) e = rw (e, override) refl

  allowed-read_only :
      (x : Role) (opts : Options)
      → opts.read_only_channel ≡ true
      → allowed x sending opts ≡ true
      → (is_elevated x ≡ true) ⊎ (same_role opts.channel_role moderator ≡ true)
  unfolding allowed
  allowed-read_only x opts ro given = elim (Bool-cases (is_elevated x)) [
    | inl e ↦ inl e
    | inr e ↦ inr (rw (ro, e) at given)
  ]

  elevated :
      (x : Role) (raw : Option String)
      → ((s : String)
          → raw ≡ some s
          → (y : ChannelRole) × (find_channel_role c u T ≡ some y) × (y.role ≡ s))
      → allowed x sending (override (message_options c true) raw) ≡ true
      → (is_elevated x ≡ true) ⊎ IsAppointed c u T
  unfolding message_options
  elevated x raw named given =
      elim (allowed-read_only x (override (message_options c true) raw) (override-read_only _ raw)
        given) [
          | inl e ↦ inl e
          | inr e ↦
              let (s, at_s, parsed) = appointed raw e in
              let (y, found, same) = named s at_s in
              inr (record { row = y; found = found; parsed = rw same parsed })
        ]

  module _ (ro : Bool) where
    pub can_send-Triple :
        {Q : Unit {0} → Org → Type 0} {R : Error → Org → Type 0}
        → (MaySpeak w c u ro T → Q tt T)
        → ((e : Error) → R e T)
        → Triple org T (can w u sending (message_options c ro)) Q R
    unfolding can with_channel_role message_options
    can_send-Triple {Q} {R} q r = Triple-bind (
        workspace_role-Triple w u T
          (λ m x found parsed. Triple-bind (options m x found parsed ro q)) r)
      where
        -- What the permission matrix grants.
        decide :
            (m : WorkspaceMember) (x : Role) (b : Bool) (opts : Options)
            → find_member w u T ≡ some m
            → parse_role m.role ≡ some x
            → (MaySpeak w c u b T → Q tt T)
            → (allowed x sending opts ≡ true
                → b ≡ true
                → (is_elevated x ≡ true) ⊎ IsAppointed c u T)
            → Triple org T
                (if allowed x sending opts then pure tt else raise (authz AuthzError.forbidden))
                Q
                R
        decide m x b opts found parsed q s = elim (Bool-cases (allowed x sending opts)) [
          | inl given ↦ rw given (
              Triple-pure tt (
                q (record { row = m; role = x; found = found; parsed = parsed; speaks = s given })))
          | inr other ↦ rw other (Triple-raise _ (r _))
        ]

        options :
            (m : WorkspaceMember) (x : Role)
            → find_member w u T ≡ some m
            → parse_role m.role ≡ some x
            → (b : Bool) → (MaySpeak w c u b T → Q tt T)
            → Triple org T
                (with_channel_role (message_options c b) sending u)
                (λ opts T'.
                  Triple org T'
                    (if allowed x sending opts then pure tt else raise (authz AuthzError.forbidden))
                    Q
                    R)
                R
        options m x found parsed false q =
            Triple-pure _ (decide m x false _ found parsed q (λ given e. absurd cc))
        options m x found parsed true q = Triple-bind (
            channel_role-Triple
              (λ raw named.
                Triple-pure _
                  (decide m x true _ found parsed q (λ given e. elevated x raw named given)))
              r)
