-- ===== src/Channels/Effects.antt =====
-- What each request on the channels of a workspace does to the tables, whichever queries fail.
use brenox_engine.Base.{
  ℕ, ◌≡◌, refl, Bool, true, false, not, ◌∷◌, Option, none, some, ◌==◌, is_some, delete, All,
  sort-All, select_all-All, ◌&&◌, ==→eq, leb, sort_by, arith,
}
use brenox_engine.Base.Monad.{◌>>=◌}
use brenox_engine.Db.{Error, M, org}
use brenox_engine.Db.Org.{Channel, ChannelMember, Org}
use brenox_engine.Db.Triple.{
  Triple, Answers, Triple-bind, Triple-read_all, Triple-write, Triple-raise_if,
}
use brenox_engine.Db.Reads.{Triple-required_read}
use brenox_engine.Queries.Org.{
  find_member, find_channel, find_channel_member, is_channel_membership, insert_channel_member,
  delete_channel_member, joined_channels,
}
use brenox_engine.Channels.Service.{
  assert_workspace_member, get_channel, get_channels, join_channel, leave_channel,
}

-- A member of the workspace in which the channel lies.
pub record Visits (w c u : ℕ) (T : Org) : Type 0 where
  pub in_workspace : is_some (find_member w u T) ≡ true
  pub place : Channel
  pub found : find_channel c w T ≡ some place

-- The user, who was outside, gets a row.
pub record Joined (w c u : ℕ) (T T' : Org) : Type 0 where
  pub visit : Visits w c u T
  pub absent : find_channel_member c u T ≡ none
  pub tables :
      T'
      ≡ record T { channel_members = (record { channel_id = c; user_id = u }) ∷ T.channel_members }

-- The user, who was inside and does not own the channel, loses the row.
pub record Left (w c u : ℕ) (T T' : Org) : Type 0 where
  pub visit : Visits w c u T
  pub present : is_some (find_channel_member c u T) ≡ true
  pub not_owner : visit.place.owner_id == u ≡ false
  pub tables :
      T' ≡ record T { channel_members = delete (is_channel_membership c u) T.channel_members }

pub kept_true : (b : Bool) → not b ≡ false → b ≡ true
kept_true true h = refl
kept_true false h = absurd cc

present_none : {A : Type 0} (o : Option A) → is_some o ≡ false → o ≡ none
present_none none h = refl
present_none (some a) h = absurd cc

module _ (w u : ℕ) (T : Org) {R : Error → Org → Type 0} where
  pub member-Triple :
      {Q : Unit {0} → Org → Type 0}
      → (is_some (find_member w u T) ≡ true → Q tt T)
      → ((e : Error) → R e T)
      → Triple org T (assert_workspace_member w u) Q R
  unfolding assert_workspace_member
  member-Triple q r =
      Triple-bind
        (Triple-read_all _ (Triple-raise_if _ _ (λ h. q (kept_true _ h)) (λ h. r _)) (r _))

  visit-Triple :
      (c : ℕ) {B : Type 0} {Q : B → Org → Type 0} (f : Channel → M B)
      → ((v : Visits w c u T) → Triple org T (f v.place) Q R)
      → ((e : Error) → R e T)
      → Triple org T (assert_workspace_member w u >>= λ _. get_channel w c >>= f) Q R
  unfolding get_channel
  visit-Triple c f k r = Triple-bind (
      member-Triple
        (λ inside. Triple-bind (
          Triple-required_read (find_channel c w) _
            (λ ch found. k (record { in_workspace = inside; place = ch; found = found })) r))
        r)

-- JoinChannel adds a row for a member of the channel's workspace who had none, or fails and changes
-- nothing.
pub join_channel-Joined :
    (w c u : ℕ) (T : Org)
    → Triple org T (join_channel w c u) (λ x T'. Joined w c u T T') (λ e T'. T' ≡ T)
unfolding join_channel
join_channel-Joined w c u T =
    visit-Triple w u T c _
      (λ v. Triple-bind (
        Triple-read_all _
          (Triple-bind (
            Triple-raise_if _ _
              (λ outside.
                Triple-write (insert_channel_member c u)
                  (λ now. answer now v _ (present_none _ outside) refl) refl)
              (λ inside. refl)))
          refl))
      (λ e. refl)
  where
    answer :
        (now : ℕ)
        → Visits w c u T
        → (o : Option ChannelMember) → find_channel_member c u T ≡ none
        → find_channel_member c u T ≡ o
        → Answers (λ x T'. Joined w c u T T') (λ e T'. T' ≡ T) (insert_channel_member c u now T)
    answer now v o absent e =
        rw (absent, insert_channel_member) (record { visit = v; absent = absent; tables = refl })

-- LeaveChannel removes the row of a member who does not own the channel, or fails and changes
-- nothing.
pub leave_channel-Left :
    (w c u : ℕ) (T : Org)
    → Triple org T (leave_channel w c u) (λ x T'. Left w c u T T') (λ e T'. T' ≡ T)
unfolding leave_channel
leave_channel-Left w c u T =
    visit-Triple w u T c _
      (λ v. Triple-bind (
        Triple-raise_if _ _
          (λ other. Triple-bind (
            Triple-required_read (find_channel_member c u) _
              (λ m found.
                Triple-write (delete_channel_member c u)
                  (λ now. record {
                    visit = v;
                    present = rw found refl;
                    not_owner = other;
                    tables = refl;
                  })
                  refl)
              (λ e. refl)))
          (λ own. refl)))
      (λ e. refl)

-- GetChannels lists channels of that workspace of which the user is a member, for a member of the
-- workspace only, and changes nothing.
pub get_channels-listed :
    (w u : ℕ) (T : Org)
    → Triple org T
        (get_channels w u)
        (λ cs T'.
          (T' ≡ T)
          × (is_some (find_member w u T) ≡ true)
          × All (λ c. (c.workspace_id ≡ w) × (is_some (find_channel_member c.id u T) ≡ true)) cs)
        (λ e T'. T' ≡ T)
unfolding get_channels
get_channels-listed w u T = Triple-bind (
    member-Triple w u T
      (λ inside.
        Triple-read_all (λ o. sort_by newest (joined_channels u w o))
          (
            refl,
            inside,
            sort-All _ newest (joined_channels u w T) (select_all-All _ _ T.channels here),
          )
          refl)
      (λ e. refl))
  where
    newest : Channel → Channel → Bool
    newest x y = leb y.created_at x.created_at

    here :
        (c : Channel)
        → c.workspace_id == w && is_some (find_channel_member c.id u T) ≡ true
        → (c.workspace_id ≡ w) × (is_some (find_channel_member c.id u T) ≡ true)
    here c h = (==→eq _ _ (ground arith), ground arith)
