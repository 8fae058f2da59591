-- ===== src/Chat/Engine.antt =====
-- The services of billing and of the notifications fill the interfaces that the service of the
-- messages asks for.
use brenox_engine.Base.{refl, Bool, Option, none, some, if◌then◌else◌, true, false}
use brenox_engine.Billing.Quotas.{check_message_quota_by_workspace, record_message_by_workspace_id}
use brenox_engine.Billing.Frames.{quota-Frame, message-Frame}
use brenox_engine.Db.Triple.{Triple-weaken}
use brenox_engine.Notifications.Mentions.{MentionLibrary}
use brenox_engine.Notifications.Service.{handle_message_created}
use brenox_engine.Notifications.Effects.{handle_message_created-IsTold}
use brenox_engine.Chat.Service.{MessageBilling, Notifier, Service}
use brenox_engine.Chat.Sending.{IsLawful, BillingFrame, NotifierLaw}

abbrev pub message_billing : MessageBilling
message_billing = record {
  check_message_quota_by_workspace = check_message_quota_by_workspace;
  record_message_by_workspace_id = record_message_by_workspace_id;
}

-- The service of the messages as the server builds it, without attachments.
-- `notifier` is none if the server sets no notifier; else it says if the notifier has a deliverer.
abbrev pub notifier_of : MentionLibrary → Option Bool → Option Notifier
notifier_of names none = none
notifier_of names (some rt) = some (handle_message_created names rt)

abbrev pub messenger : MentionLibrary → Bool → Bool → Option Bool → Service
messenger names has_billing has_broadcaster notifier = record {
  notifier = notifier_of names notifier;
  attacher = none;
  billing = if has_billing then some message_billing else none;
  has_broadcaster = has_broadcaster;
}

pub messenger-IsLawful :
    (names : MentionLibrary) (x y : Bool) (z : Option Bool) → IsLawful names (messenger names x y z)
messenger-IsLawful names x y z = record {
  billing_frame = at x;
  attacher_frame = tt;
  notifier_law = told z;
}
  where
    told : (z : Option Bool) → NotifierLaw names (notifier_of names z)
    told none = tt
    told (some rt) = λ w c u m reply sender_name T.
        Triple-weaken _ _ _ _ (handle_message_created-IsTold names rt w c u m reply sender_name T)
          (λ a T' k. record { new = k.new; notified = k.notified }) (λ e T' k. k)

    at : (x : Bool) → BillingFrame (messenger names x y z).billing
    at true = (quota-Frame (λ v d. refl), message-Frame (λ v d. refl))
    at false = tt
