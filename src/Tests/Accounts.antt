-- ===== src/Tests/Accounts.antt =====
-- Runs of the checks on channels and plans.
use brenox_engine.Base.{◌≤◌, arith}
use brenox_engine.Billing.Usage.{IsCharged, record_video_minutes_by_workspace_id-IsCharged}
use brenox_engine.Billing.Allowances.{IsFree}
use brenox_engine.Billing.Quotas.{record_video_minutes_by_workspace_id}
use brenox_engine.Base.{◌≡◌, ◌⊎◌}
use brenox_engine.Db.{accounts, org}
use brenox_engine.Db.Accounts.{App}
use brenox_engine.Db.Triple.{Triple}
use brenox_engine.Queries.Billing.{owned_apps}
use brenox_engine.Channels.Access.{assert_channel_member, assert_channel_member-MayCall, MayCall}
use brenox_engine.Billing.Quotas.{assert_can_create_app, check_can_start_video_call}
use brenox_engine.Billing.Allowances.{
  Provisioned, IsSubscribed, AppRoom, IsBilled, MayUseVideo, assert_can_create_app-AppRoom,
  check_can_start_video_call-MayUseVideo,
}
use brenox_engine.Tests.Data.{people, books}

assert_channel_member-MayCall_example :
    Triple org people
      (assert_channel_member 1 5 2)
      (λ x T'. (T' ≡ people) × MayCall 1 5 2 people)
      (λ e T'. T' ≡ people)
assert_channel_member-MayCall_example = assert_channel_member-MayCall 1 5 2 people

assert_can_create_app-AppRoom_example :
    Triple accounts books
      (assert_can_create_app 1)
      (λ x T'.
        Provisioned 1 books T'
        × ((s : IsSubscribed 1 T') × AppRoom s.row.plan.max_apps (owned_apps 1 T')))
      (λ e T'. Provisioned 1 books T')
assert_can_create_app-AppRoom_example = assert_can_create_app-AppRoom 1 books

check_can_start_video_call-MayUseVideo_example :
    Triple accounts books
      (check_can_start_video_call 1)
      (λ x T'. MayUseVideo 1 books T')
      (λ e T'.
        (T' ≡ books) ⊎ ((app : App) × (IsBilled 1 app books × Provisioned app.owner_id books T')))
check_can_start_video_call-MayUseVideo_example = check_can_start_video_call-MayUseVideo 1 books

record_video_minutes_by_workspace_id-IsCharged_example :
    Triple accounts books
      (record_video_minutes_by_workspace_id 1 2)
      (λ x T'.
        (((2 ≤ 0) ⊎ IsFree 1 books) × (T' ≡ books))
        ⊎ ((app : App) × (IsBilled 1 app books × IsCharged app.id 2 books T')))
      (λ e T'. T' ≡ books)
record_video_minutes_by_workspace_id-IsCharged_example =
    record_video_minutes_by_workspace_id-IsCharged 1 2 books (λ app. no_usage)
  where
    no_usage : 0 ≤ 1
    no_usage = omega arith
