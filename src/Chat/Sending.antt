-- ===== src/Chat/Sending.antt =====
-- What sending a message does to the tables, whichever queries fail.
use text.Mathlib.Text.{◌==◌ as str_eq}
use brenox_engine.Base.{
  ℕ, ◌+◌, ◌≤◌, ◌≡◌, refl, subst, Bool, true, false, not, ◌&&◌, List, [], ◌∷◌, Option, none, some,
  String, ltb→le,
}
use brenox_engine.Base.Monad.{pure, ◌>>=◌}
use brenox_engine.Db.{Error, M, org}
use brenox_engine.Db.Org.{User, Channel, Message, Org}
use brenox_engine.Db.Triple.{
  Triple, Frame, Triple-bind, Triple-pure, Triple-write, Triple-frame, Triple-raise_if,
  Triple-weaken,
}
use brenox_engine.Db.Frame.{Frame-pure, Frame-read}
use brenox_engine.Db.Reads.{
  Triple-required_read, Triple-on_error, Triple-attempt, Triple-attempted, Triple-send,
}
use brenox_engine.Queries.Org.{find_channel, insert_message}
use brenox_engine.Strings.{Strings}
use brenox_engine.Notifications.Mentions.{MentionLibrary, parse_mentions}
use brenox_engine.Notifications.Rows.{IsPart, lost, nothing}
use brenox_engine.Chat.Service.{
  MessageBilling, Notifier, AttachmentInput, AttachmentAttacher, Service, normalize_content,
  is_present, map_authz_error, check_quota, record_message, broadcast, notify_as, notify, attach,
  save_message, announce, send_message,
}
use brenox_engine.Chat.Rights.{HasAccess, MaySpeak, access-Triple, can_send-Triple}

-- What the service relies on: billing and attachments do not write the tables of the organisation, and
-- the notifier only adds notifications that are due.
abbrev pub BillingFrame : Option MessageBilling → Type 0
BillingFrame none = Unit
BillingFrame (some b) =
    ((w : ℕ) → Frame org (b.check_message_quota_by_workspace w))
    × ((w : ℕ) → Frame org (b.record_message_by_workspace_id w))

abbrev pub AttacherFrame : Option AttachmentAttacher → Type 0
AttacherFrame none = Unit
AttacherFrame (some f) =
    (w c : ℕ) (m : Message) (u : ℕ) (xs : List AttachmentInput) → Frame org (f w c m u xs)

abbrev pub NotifierLaw : MentionLibrary → Option Notifier → Type 0
NotifierLaw names none = Unit
NotifierLaw names (some f) =
    (w c u : ℕ) (m : Message) (reply : Option ℕ) (sender_name : String) (T : Org)
    → Triple org T (f w c u m reply sender_name)
        (λ x T'. IsPart names w c u reply (parse_mentions names m.content) T T')
        (λ e T'. IsPart names w c u reply (parse_mentions names m.content) T T')

pub record IsLawful (names : MentionLibrary) (s : Service) : Type 0 where
  pub billing_frame : BillingFrame s.billing
  pub attacher_frame : AttacherFrame s.attacher
  pub notifier_law : NotifierLaw names s.notifier

-- The text that is stored: trimmed, at most 4000 bytes, and empty only beside attachments.
pub record IsContent (lib : Strings) (raw : String) (allow_empty : Bool) (text : String)
    : Type 0 where
  pub trimmed : text ≡ lib.trim_space raw
  pub short : lib.byte_length text ≤ 4000
  pub filled : allow_empty ≡ false → str_eq text "" ≡ false

abbrev pub with_message : Message → Org → Org
with_message m T = record T { messages = m ∷ T.messages; next_message = T.next_message + 1 }

-- One message is stored, by a user with access to the channel who may speak in it, and after it only
-- notifications that are due.
pub record Sent (lib : Strings) (names : MentionLibrary) (w c u : ℕ) (raw : String)
    (reply : Option ℕ) (allow_empty : Bool) (T : Org) (m : Message) (T' : Org) : Type 0 where
  pub access : HasAccess w c u T
  pub speaker : MaySpeak w c u access.place.is_read_only T
  pub content : IsContent lib raw allow_empty m.content
  pub author : (m.sender_id ≡ u) × (m.channel_id ≡ c) × (m.id ≡ T.next_message)
  pub tables : IsPart names w c u reply (parse_mentions names m.content) (with_message m T) T'

content-Triple :
    (lib : Strings) (raw : String) (allow_empty : Bool) (T : Org) {Q : String → Org → Type 0}
    {R : Error → Org → Type 0}
    → ((text : String) → IsContent lib raw allow_empty text → Q text T)
    → ((e : Error) → R e T)
    → Triple org T (normalize_content lib raw allow_empty) Q R
unfolding normalize_content
content-Triple lib raw allow_empty T q r = Triple-bind (
    Triple-raise_if _ _
      (λ given. Triple-bind (
        Triple-raise_if _ _
          (λ fits. Triple-pure _ (
            q _ (record {
              trimmed = refl;
              short = ltb→le _ _ fits;
              filled = λ h. not_blank _ allow_empty given h;
            })))
          (λ long. r _)))
      (λ blank. r _))
  where
    not_blank : (b e : Bool) → b && not e ≡ false → e ≡ false → b ≡ false
    not_blank true true h k = absurd cc
    not_blank true false h k = absurd cc
    not_blank false e h k = refl

module _ (names : MentionLibrary) (m : Message) (w c u : ℕ) (reply : Option ℕ)
    {Q : Message → Org → Type 0} {R : Error → Org → Type 0} where
  broadcast-Triple :
      (T : Org) (next : M Message) (b : Bool)
      → Triple org T next Q R
      → Triple org T (broadcast b w c m >>= λ _. next) Q R
  unfolding broadcast
  broadcast-Triple T next false k = Triple-bind (Triple-pure tt k)
  broadcast-Triple T next true k = Triple-bind (Triple-send _ (λ ss d. refl) k)

  notify-Triple :
      (T : Org) (next : M Message) (n : Option Notifier)
      → NotifierLaw names n
      → ((T' : Org)
          → IsPart names w c u reply (parse_mentions names m.content) T T'
          → Triple org T' next Q R)
      → Triple org T (notify n w c u m reply >>= λ _. next) Q R
  unfolding notify notify_as
  notify-Triple T next none law k = Triple-bind (Triple-pure none (k T (lost T [] T (nothing T))))
  notify-Triple T next (some f) law k =
      Triple-bind (Triple-bind (Triple-attempt (Frame-read org _) named))
    where
      named :
          (x : Option User)
          → Triple org T (notify_as f w c u m reply x) (λ a T'. Triple org T' next Q R) R
      named none = Triple-pure none (k T (lost T [] T (nothing T)))
      named (some x) = Triple-attempted (
          Triple-weaken _ _ _ _ (law w c u m reply x.username T) (λ a T' due. k T' due)
            (λ e T' due. k T' due))

  -- What follows the message adds notifications that are due and cannot fail.
  announce-Triple :
      (s : Service) (xs : List AttachmentInput) (T : Org)
      → IsLawful names s
      → ((T' : Org) → IsPart names w c u reply (parse_mentions names m.content) T T' → Q m T')
      → Triple org T (announce s w c u reply xs m) Q R
  unfolding announce record_message attach
  announce-Triple s xs T laws q = Triple-bind (
      recorded s.billing laws.billing_frame (
        broadcast-Triple T _ s.has_broadcaster (
          notify-Triple T _ s.notifier laws.notifier_law
            (λ T' due. Triple-bind (attached T' (q T' due) s.attacher laws.attacher_frame xs)))))
    where
      recorded :
          (b : Option MessageBilling)
          → BillingFrame b
          → {next : M Message} → Triple org T next Q R
          → Triple org T (record_message b w) (λ o T'. Triple org T' next Q R) R
      recorded none h p = Triple-pure none p
      recorded (some b) (check, record_) p = Triple-attempt (record_ w) (λ o. p)

      attached :
          (T' : Org)
          → Q m T'
          → (f : Option AttachmentAttacher) → AttacherFrame f
          → (xs : List AttachmentInput)
          → Triple org T' (attach f w c m u xs) (λ a T''. Triple org T'' (pure m) Q R) R
      attached T' q none h xs = Triple-pure none (Triple-pure m q)
      attached T' q (some f) h [] = Triple-pure none (Triple-pure m q)
      attached T' q (some f) h (x ∷ xs) = Triple-attempt (h w c m u (x ∷ xs)) (λ o. Triple-pure m q)

quota-Frame : (b : Option MessageBilling) → BillingFrame b → (w : ℕ) → Frame org (check_quota b w)
unfolding check_quota
quota-Frame none h w = Frame-pure tt
quota-Frame (some b) (check, record_) w = check w

-- A message that SendMessage returns is stored: its sender is a member of the workspace and of the
-- channel, which lies in the workspace; in a read-only channel the sender is at least a moderator of
-- the workspace or a moderator of the channel; the text is trimmed, not over 4000 bytes, and not empty
-- unless there are attachments. Beside it the tables only gain unread notifications, each for somebody
-- else: the author of the message in this channel that it replies to, or a member of the workspace
-- whom its text names. If SendMessage fails, it has stored nothing. All this holds whichever queries
-- fail, if the billing and the attachments behind the service leave these tables alone and its
-- notifier adds such notifications only.
pub send_message-Sent :
    (lib : Strings) (names : MentionLibrary) (s : Service) (w c u : ℕ) (raw : String)
    (reply : Option ℕ) (xs : List AttachmentInput) (T : Org)
    → IsLawful names s
    → Triple org T
        (send_message lib s w c u raw reply xs)
        (λ m T'. Sent lib names w c u raw reply (is_present xs) T m T')
        (λ e T'. T' ≡ T)
unfolding send_message save_message
send_message-Sent lib names s w c u raw reply xs T laws = Triple-bind (
    content-Triple lib raw (is_present xs) T
      (λ text content. Triple-bind (
        access-Triple w c u T
          (λ access. Triple-bind (
            Triple-required_read (find_channel c w) _
              (λ ch found. Triple-bind (
                Triple-on_error map_authz_error (
                  can_send-Triple w c u T ch.is_read_only
                    (λ may. Triple-bind (
                      Triple-frame (quota-Frame s.billing laws.billing_frame w)
                        (λ a. Triple-bind (
                          Triple-write (insert_message c u text)
                            (λ now. announce-Triple names _ w c u reply s xs _ laws (λ T' due.
                              record {
                                access = access;
                                speaker = same_place access found may;
                                content = content;
                                author = (refl, refl, refl);
                                tables = due;
                              }))
                            refl))
                        (λ e. refl)))
                    (λ e. refl))))
              (λ e. refl)))
          (λ e. refl)))
      (λ e. refl))
  where
    same_place :
        {ch : Channel} (access : HasAccess w c u T)
        → find_channel c w T ≡ some ch
        → MaySpeak w c u ch.is_read_only T
        → MaySpeak w c u access.place.is_read_only T
    same_place {ch} access found may =
        subst (λ (x : Channel). MaySpeak w c u x.is_read_only T) same may
      where
        same : ch ≡ access.place
        same = let k : find_channel c w T ≡ some access.place = access.found in cc
