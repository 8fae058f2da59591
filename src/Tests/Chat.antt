-- ===== src/Tests/Chat.antt =====
-- Runs of the requests on messages.
use brenox_engine.Base.{◌≡◌, true, false, [], ◌∷◌, none, some}
use brenox_engine.Db.{org}
use brenox_engine.Db.Accounts.{pos, negsuc}
use brenox_engine.Db.Org.{Org}
use brenox_engine.Db.Triple.{Triple}
use brenox_engine.Chat.Service.{send_message, list_messages}
use brenox_engine.Chat.Sending.{Sent, send_message-Sent}
use brenox_engine.Chat.Reading.{Page, list_messages-Page}
use brenox_engine.Chat.Engine.{messenger, messenger-IsLawful}
use brenox_engine.Tests.Data.{people, plain, finds}

-- The channel as a read-only one.
abbrev quiet_people : Org
quiet_people = record people {
  channels =
      (record {
        id = 5;
        name = "c";
        owner_id = 1;
        workspace_id = 1;
        is_read_only = true;
        created_at = 0;
      })
      ∷ [];
}

send_message-Sent_example :
    Triple org quiet_people
      (send_message plain (messenger finds true true (some true)) 1 5 1 "@bob" none [])
      (λ m T'. Sent plain finds 1 5 1 "@bob" none false quiet_people m T')
      (λ e T'. T' ≡ quiet_people)
send_message-Sent_example =
    send_message-Sent plain finds (messenger finds true true (some true)) 1 5 1 "@bob" none []
      quiet_people (messenger-IsLawful finds true true (some true))

list_messages-Page_example :
    Triple org people
      (list_messages 1 5 1 (pos 500) (negsuc 0))
      (λ rows T'. Page 1 5 1 people rows T')
      (λ e T'. T' ≡ people)
list_messages-Page_example = list_messages-Page 1 5 1 (pos 500) (negsuc 0) people
