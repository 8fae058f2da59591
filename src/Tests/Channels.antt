-- ===== src/Tests/Channels.antt =====
-- Runs of the requests on channels.
use brenox_engine.Base.{◌≡◌, refl, true, false, All, is_some, arith, [], ◌∷◌}
use brenox_engine.Db.{Db, org}
use brenox_engine.Db.Org.{Channel, Org}
use brenox_engine.Db.Triple.{Triple}
use brenox_engine.Queries.Org.{find_member, find_channel_member}
use brenox_engine.Channels.Service.{create_channel, get_channels, join_channel, leave_channel}
use brenox_engine.Channels.Effects.{
  Joined, Left, join_channel-Joined, leave_channel-Left, get_channels-listed,
}
use brenox_engine.Channels.Creation.{Created, Failed, create_channel-Created}
use brenox_engine.Channels.History.{
  WellFormed, Kept, ChannelReach, handle, handles, opens, leaves, ChannelReach-Kept,
}
use brenox_engine.Tests.Data.{people, start}

-- The second user is in the workspace and not in the channel.
abbrev unjoined : Org
unjoined = record people { channel_members = (record { channel_id = 5; user_id = 1 }) ∷ [] }

join_channel-Joined_example :
    Triple org unjoined
      (join_channel 1 5 2)
      (λ x T'. Joined 1 5 2 unjoined T')
      (λ e T'. T' ≡ unjoined)
join_channel-Joined_example = join_channel-Joined 1 5 2 unjoined

leave_channel-Left_example :
    Triple org people (leave_channel 1 5 2) (λ x T'. Left 1 5 2 people T') (λ e T'. T' ≡ people)
leave_channel-Left_example = leave_channel-Left 1 5 2 people

get_channels-listed_example :
    Triple org people
      (get_channels 1 2)
      (λ cs T'.
        (T' ≡ people)
        × (is_some (find_member 1 2 people) ≡ true)
        × All (λ c. (c.workspace_id ≡ 1) × (is_some (find_channel_member c.id 2 people) ≡ true)) cs)
      (λ e T'. T' ≡ people)
get_channels-listed_example = get_channels-listed 1 2 people

create_channel-Created_example :
    Triple org people
      (create_channel 1 1 "news" true)
      (λ x T'. Created 1 1 "news" true people T')
      (Failed 1 1 "news" true people)
create_channel-Created_example = create_channel-Created 1 1 "news" true people

abbrev common_room : Channel
common_room = record {
  id = 5;
  name = "c";
  owner_id = 1;
  workspace_id = 1;
  is_read_only = false;
  created_at = 0;
}

people-WellFormed : WellFormed people
people-WellFormed = record {
  ids = λ c. ground arith;
  below = λ c h. ground arith;
  names = λ w n. ground arith;
  one_row = λ c u. ground arith;
}

-- The owner opens a second channel and then tries to leave the first.
abbrev after_requests : Db
after_requests = handle (leaves 1 5 1) (handle (opens 1 1 "news" true) start)

ChannelReach-Kept_example : Kept 5 1 common_room after_requests.org
ChannelReach-Kept_example =
    ChannelReach-Kept 5 1 common_room
      (ChannelReach.next (ChannelReach.next ChannelReach.here (handles (opens 1 1 "news" true)))
        (handles (leaves 1 5 1)))
      people-WellFormed (record { found = refl; inside = refl })
