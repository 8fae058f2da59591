-- ===== src/Tests/Data.antt =====
-- The people, plans and calls that the tests run on.
use brenox_engine.Base.{none, ℕ, true, false, [], ◌∷◌}
use brenox_engine.Db.{Db}
use brenox_engine.Db.Org.{Org}
use brenox_engine.Db.Rooms.{Rooms, Call, Participant, ringing, active, video}
use brenox_engine.Db.Accounts.{pos, Plan, Accounts}
use brenox_engine.Strings.{Strings}
use brenox_engine.Notifications.Mentions.{MentionLibrary}
use brenox_engine.Calls.Interfaces.{Service}
use brenox_engine.Billing.Frames.{engine}

-- Texts that are clean already, each of five bytes.
abbrev pub plain : Strings
plain = record {
  trim_space = λ s. s;
  to_lower = λ s. s;
  byte_length = λ s. 5;
  trim = λ s cut. s;
  replace_all = λ s old new. s;
  matches = λ p s. true;
  replace_matches = λ p s new. s;
}

-- Every text mentions bob twice, and ada and carol once.
abbrev pub finds : MentionLibrary
finds = record {
  find_all_submatches = λ pattern text.
      ("@bob" ∷ "bob" ∷ [])
      ∷ ("@ada" ∷ "ada" ∷ [])
      ∷ ("@bob" ∷ "bob" ∷ [])
      ∷ ("@carol" ∷ "carol" ∷ [])
      ∷ [];
  lower = λ s. s;
}

-- Two people in one workspace, with one channel; the first owns the workspace and the app.
abbrev pub people : Org
people = record {
  users =
      (record { id = 1; email = "a@x"; username = "ada" })
      ∷ (record { id = 2; email = "b@x"; username = "bob" })
      ∷ [];
  workspaces = (record { id = 1; name = "w"; slug = "w"; owner_id = 1; created_at = 0 }) ∷ [];
  members =
      (record { workspace_id = 1; user_id = 1; role = "owner"; created_at = 0 })
      ∷ (record { workspace_id = 1; user_id = 2; role = "member"; created_at = 0 })
      ∷ [];
  channels =
      (record {
        id = 5;
        name = "c";
        owner_id = 1;
        workspace_id = 1;
        is_read_only = false;
        created_at = 0;
      })
      ∷ [];
  channel_members =
      (record { channel_id = 5; user_id = 1 }) ∷ (record { channel_id = 5; user_id = 2 }) ∷ [];
  channel_roles = [];
  messages = [];
  notifications = [];
  next_workspace = 2;
  next_channel = 6;
  next_message = 1;
  next_notification = 1;
}

abbrev pub starter : Plan
starter = record {
  slug = "starter";
  name = "Starter";
  price_cents = 0;
  description = "";
  stripe_price_id = none;
  messages_limit = pos 1000;
  connections_limit = pos 100;
  retention_days = pos 30;
  moderation_enabled = false;
  webhooks_enabled = false;
  video_calls_enabled = true;
  is_active = true;
  is_highlighted = false;
  sort_order = pos 1;
  max_apps = pos 2;
  video_minutes_limit = 60;
  max_call_participants = 4;
}

abbrev pub books : Accounts
books = record {
  plans = starter ∷ [];
  subscriptions = [];
  apps = (record { id = 1; owner_id = 1; workspace_id = 1; sandbox_workspace_id = 9 }) ∷ [];
  usage = [];
  month = 3;
}

abbrev pub no_calls : Rooms
no_calls = record {
  calls = [];
  participants = [];
  recordings = [];
  next_call = 1;
  next_recording = 1;
}

abbrev pub start : Db
start = record {
  rooms = no_calls;
  org = people;
  accounts = books;
  sent = [];
  now = 1000000;
  faults = [];
}

abbrev pub server : Service
server = engine true true true 2

abbrev pub the_call : Call
the_call = record {
  id = 1;
  channel_id = 5;
  workspace_id = 1;
  initiator_id = 1;
  status = active;
  mode = video;
  created_at = 1000000;
  ended_at = none;
}

abbrev pub rung_call : Call
rung_call = record the_call { status = ringing }

abbrev pub seat_of : ℕ → Participant
seat_of u = record { call_id = 1; user_id = u; joined_at = 1000000; left_at = none }

abbrev pub ringing_rooms : Rooms
ringing_rooms = record no_calls {
  calls = rung_call ∷ [];
  participants = seat_of 1 ∷ [];
  next_call = 2;
}

abbrev pub active_rooms : Rooms
active_rooms = record no_calls {
  calls = the_call ∷ [];
  participants = seat_of 1 ∷ seat_of 2 ∷ [];
  next_call = 2;
}

abbrev pub blocked_rooms : Rooms
blocked_rooms = record no_calls { calls = the_call ∷ []; next_call = 2 }
