-- ===== src/Channels/Access.antt =====
-- internal/channels/calls_access.go, which the service of the calls uses as its ChannelAccessChecker.
use brenox_engine.Base.{ℕ, ◌≡◌, refl, Bool, true, false, not, some, is_some}
use brenox_engine.Base.Monad.{◌>>=◌, ◌>>◌}
use brenox_engine.Db.{calls, CallsError, M, no_rows_is, raise_if, rooms, org}
use brenox_engine.Db.Org.{Org, Channel}
use brenox_engine.Db.Triple.{Frame, Triple, Triple-bind, Triple-raise_if, Triple-read_all}
use brenox_engine.Db.Frame.{
  Frame-bind, Frame-read, Frame-read_all, Frame-no_rows_is, Frame-raise_if,
}
use brenox_engine.Db.Reads.{Triple-required_read}
use brenox_engine.Queries.Org.{
  is_workspace_member, get_channel_in_workspace, is_channel_member, find_member, find_channel,
  find_channel_member,
}

unfoldable pub assert_channel_member : ℕ → ℕ → ℕ → M (Unit {0})
assert_channel_member workspace channel user = do
  in_workspace ← is_workspace_member workspace user
  raise_if (not in_workspace) (calls CallsError.not_member)
  no_rows_is (calls CallsError.channel_not_found) (get_channel_in_workspace channel workspace)
  in_channel ← is_channel_member channel user
  raise_if (not in_channel) (calls CallsError.not_member)

pub assert_channel_member-Frame : (w c u : ℕ) → Frame rooms (assert_channel_member w c u)
unfolding assert_channel_member
assert_channel_member-Frame w c u = Frame-bind _ _ (Frame-read_all org _) λ a.
    Frame-bind _ _ (Frame-raise_if _ _) λ b.
      Frame-bind _ _ (Frame-no_rows_is _ _ (Frame-read org _))
        λ ch. Frame-bind _ _ (Frame-read_all org _) λ i. Frame-raise_if _ _

-- A member of the workspace and of a channel that lies in it.
pub record MayCall (workspace channel user : ℕ) (T : Org) : Type 0 where
  pub in_workspace : is_some (find_member workspace user T) ≡ true
  pub place : Channel
  pub found : find_channel channel workspace T ≡ some place
  pub in_channel : is_some (find_channel_member channel user T) ≡ true

kept_true : (b : Bool) → not b ≡ false → b ≡ true
kept_true true h = refl
kept_true false h = absurd cc

-- The check passes only for a member of the workspace and of a channel that lies in it, whichever
-- queries fail, and it changes none of these tables.
pub assert_channel_member-MayCall :
    (w c u : ℕ) (T : Org)
    → Triple org T
        (assert_channel_member w c u)
        (λ x T'. (T' ≡ T) × MayCall w c u T)
        (λ e T'. T' ≡ T)
unfolding assert_channel_member
assert_channel_member-MayCall w c u T = Triple-bind (
    Triple-read_all _
      (Triple-bind (
        Triple-raise_if _ _
          (λ a. Triple-bind (
            Triple-required_read (find_channel c w) _
              (λ ch found. Triple-bind (
                Triple-read_all _
                  (Triple-raise_if _ _
                    (λ b. (
                      refl,
                      record {
                        in_workspace = kept_true _ a;
                        place = ch;
                        found = found;
                        in_channel = kept_true _ b;
                      },
                    ))
                    (λ b. refl))
                  refl))
              (λ e. refl)))
          (λ a. refl)))
      refl)
