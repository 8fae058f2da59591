-- ===== src/Calls/Interfaces.antt =====
-- internal/calls/service.go (the interfaces and the service's fields), deps.go and types.go.
use text.Mathlib.Text.{◌==◌ as str_eq}
use brenox_engine.Base.{ℕ, Bool, ◌&&◌, ◌||◌, Option, none, some, String, ltb, leb, if◌then◌else◌}
use brenox_engine.Base.Monad.{pure, ◌>>=◌}
use brenox_engine.Db.{Error, calls, M, attempt, raise_if, rooms, CallsError}
use brenox_engine.Db.Triple.{Frame}
use brenox_engine.Db.Rooms.{Mode, voice, video, Status, Call}

pub record CallBilling : Type 0 where
  pub check_can_start_video_call : ℕ → M (Unit {0})
  pub max_call_participants_for_workspace : ℕ → M ℕ
  pub record_video_minutes_by_workspace_id : ℕ → ℕ → M (Unit {0})

-- NotifyCallInvite: workspace, channel, call, initiator, invited user, initiator's name
abbrev pub InviteNotifier : Type 0
InviteNotifier = ℕ → ℕ → ℕ → ℕ → ℕ → String → M (Unit {0})

pub record Service : Type 0 where
  -- nil if SetBilling was not called
  pub billing : Option CallBilling
  -- ChannelAccessChecker.AssertChannelMember: workspace, channel, user
  pub access : ℕ → ℕ → ℕ → M (Unit {0})
  pub has_broadcast : Bool
  pub invites : Option InviteNotifier
  pub max_participants : ℕ

-- What the service relies on: its neighbours do not write the tables of the calls.
abbrev pub BillingFrame : Option CallBilling → Type 0
BillingFrame none = Unit
BillingFrame (some b) =
    ((w : ℕ) → Frame rooms (b.check_can_start_video_call w))
    × ((w : ℕ) → Frame rooms (b.max_call_participants_for_workspace w))
    × ((w n : ℕ) → Frame rooms (b.record_video_minutes_by_workspace_id w n))

abbrev pub InviteFrame : Option InviteNotifier → Type 0
InviteFrame none = Unit
InviteFrame (some f) = (w c id i t : ℕ) (n : String) → Frame rooms (f w c id i t n)

pub record IsLawful (s : Service) : Type 0 where
  pub billing_frame : BillingFrame s.billing
  pub access_frame : (w c u : ℕ) → Frame rooms (s.access w c u)
  pub invite_frame : InviteFrame s.invites

pub record CallResponse : Type 0 where
  pub id : ℕ
  pub channel_id : ℕ
  pub workspace_id : ℕ
  pub initiator_id : ℕ
  pub status : Status
  pub mode : Mode
  pub created_at : ℕ
  pub ended_at : Option ℕ

-- The times are left as they are, not formatted.
unfoldable pub to_call_response : Call → CallResponse
to_call_response c = record {
  id = c.id;
  channel_id = c.channel_id;
  workspace_id = c.workspace_id;
  initiator_id = c.initiator_id;
  status = c.status;
  mode = c.mode;
  created_at = c.created_at;
  ended_at = c.ended_at;
}

unfoldable pub normalize_mode : String → Option Mode
normalize_mode mode =
    if str_eq mode "" || str_eq mode "voice"
    then some voice
    else if str_eq mode "video"
    then some video
    else none

unfoldable pub map_access_err : Error → Error
map_access_err (calls CallsError.not_member) = calls CallsError.not_member
map_access_err e = e

-- The plan's cap applies where it is set and the process's is absent or larger.
unfoldable pub effective_limit : ℕ → ℕ → ℕ
effective_limit limit plan_limit =
    if ltb 0 plan_limit && (leb limit 0 || ltb plan_limit limit) then plan_limit else limit

unfoldable pub plan_limit_or : ℕ → Option ℕ → ℕ
unfolding effective_limit
plan_limit_or limit none = limit
plan_limit_or limit (some plan_limit) = effective_limit limit plan_limit

unfoldable pub limit_with : Option CallBilling → ℕ → ℕ → M ℕ
limit_with none limit workspace = pure limit
limit_with (some b) limit workspace =
    attempt (b.max_call_participants_for_workspace workspace) >>= λ plan.
    pure (plan_limit_or limit plan)

unfoldable pub participant_limit : Service → ℕ → M ℕ
participant_limit s workspace = limit_with s.billing s.max_participants workspace

unfoldable pub is_full : ℕ → ℕ → Bool
is_full limit current = ltb 0 limit && leb limit current

unfoldable pub assert_participant_capacity : Service → ℕ → ℕ → M (Unit {0})
assert_participant_capacity s workspace current = do
  limit ← participant_limit s workspace
  raise_if (is_full limit current) (calls CallsError.call_full)

-- `if mode == ModeVideo && s.billing != nil`
unfoldable pub check_video : Option CallBilling → Mode → ℕ → M (Unit {0})
check_video (some b) video workspace = b.check_can_start_video_call workspace
check_video _ _ workspace = pure tt
